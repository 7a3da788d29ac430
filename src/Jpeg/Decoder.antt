-- ===== src/Jpeg/Decoder.antt =====
-- `OutputFormat`, `FrameConversionError`, and what jpeg.rs uses of the `jpeg_decoder` crate.
use handycam_rs.Prelude.{ℕ, Bool, Bytes, Option, Result}

pub data OutputFormat : Type 0 where
  mjpeg yuyv : OutputFormat

-- `Decoder::decode` and `Decoder::info` as functions of the input; `is_rgb24` is the test
-- `pixel_format == PixelFormat::RGB24`.
pub record JpegDecoder : Type 1 where
  pub Error : Type 0
  pub PixelFormat : Type 0
  pub is_rgb24 : PixelFormat → Bool
  pub decode : Bytes → Result Error Bytes
  pub info : Bytes → Option (record { width : ℕ; height : ℕ; pixel_format : PixelFormat })

pub data FrameConversionError (lib : JpegDecoder) : Type 0 where
  empty_entropy : FrameConversionError lib
  decode_failed : lib.Error → FrameConversionError lib
  missing_image_info : FrameConversionError lib
  dimensions : ℕ × ℕ → ℕ × ℕ → FrameConversionError lib
  pixel_format : lib.PixelFormat → FrameConversionError lib
