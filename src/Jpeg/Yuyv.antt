-- ===== src/Jpeg/Yuyv.antt =====
-- `jpeg_to_yuyv` and `rgb_to_yuv` of crates/handycam-core/src/jpeg.rs: BT.601 limited range.
-- The i32 arithmetic stays far inside i32, so it is that of ℤ; `>>` on i32 rounds down.
pub mod Range
pub mod Length
use handycam_rs.Jpeg.Decoder.{
  JpegDecoder, FrameConversionError, decode_failed, missing_image_info, dimensions, pixel_format,
}
use handycam_rs.Prelude.{
  ℕ, ◌+◌, ◌-◌, ◌*◌, ◌/◌, ◌%◌, min, not, ◌&&◌, Option, none, some, [], ◌∷◌, ◌++◌, ◌==◌,
  if◌then◌else◌, Bytes, Result, ok, err,
}
use handycam_rs.Prelude.Int.{ℤ, pos, negsuc, ◌+ℤ◌, ◌-ℤ◌, ◌*ℤ◌}

-- crates/handycam-core/src/lib.rs
abbrev pub frame_width : ℕ
frame_width = 320

abbrev pub frame_height : ℕ
frame_height = 240

-- `>> 8` on a signed integer.
pub shift_right_8 : ℤ → ℤ
shift_right_8 (pos n) = pos (n / 256)
shift_right_8 (negsuc n) = negsuc (n / 256)

-- `.clamp(0, 255) as u8`
pub clamp_byte : ℤ → ℕ
clamp_byte (pos n) = min n 255
clamp_byte (negsuc n) = 0

pub luma : ℕ → ℕ → ℕ → ℤ
unfolding shift_right_8
luma red green blue =
    pos 16
    +ℤ shift_right_8 (pos 66 *ℤ pos red +ℤ pos 129 *ℤ pos green +ℤ pos 25 *ℤ pos blue +ℤ pos 128)

pub chroma_u : ℕ → ℕ → ℕ → ℤ
unfolding shift_right_8
chroma_u red green blue =
    pos 128
    +ℤ shift_right_8 (negsuc 37 *ℤ pos red -ℤ pos 74 *ℤ pos green +ℤ pos 112 *ℤ pos blue +ℤ pos 128)

pub chroma_v : ℕ → ℕ → ℕ → ℤ
unfolding shift_right_8
chroma_v red green blue =
    pos 128
    +ℤ shift_right_8 (pos 112 *ℤ pos red -ℤ pos 94 *ℤ pos green -ℤ pos 18 *ℤ pos blue +ℤ pos 128)

unfoldable pub rgb_to_yuv : ℕ → ℕ → ℕ → ℕ × ℕ × ℕ
unfolding clamp_byte luma chroma_u chroma_v
rgb_to_yuv red green blue = (
  clamp_byte (luma red green blue),
  clamp_byte (chroma_u red green blue),
  clamp_byte (chroma_v red green blue),
)

-- The body of the loop: two pixels to Y0 U Y1 V.
pub yuyv_pair : ℕ → ℕ → ℕ → ℕ → ℕ → ℕ → Bytes
unfolding rgb_to_yuv
yuyv_pair r0 g0 b0 r1 g1 b1 =
    let (y0, u0, v0) = rgb_to_yuv r0 g0 b0 in
    let (y1, u1, v1) = rgb_to_yuv r1 g1 b1 in
    y0 ∷ (u0 + u1 + 1) / 2 % 256 ∷ y1 ∷ (v0 + v1 + 1) / 2 % 256 ∷ []

-- `for pair in rgb.chunks_exact(6)`: a remainder of fewer than six bytes is left out.
pub push_pairs : Bytes → Bytes → Bytes
push_pairs yuyv (r0 ∷ g0 ∷ b0 ∷ r1 ∷ g1 ∷ b1 ∷ rgb) =
    push_pairs (yuyv ++ yuyv_pair r0 g0 b0 r1 g1 b1) rgb
push_pairs yuyv _ = yuyv

module _ (lib : JpegDecoder) where
  open lib use {PixelFormat, is_rgb24, decode, info}

  -- The checks on the decoded image, then the loop.
  pub convert_image :
      Bytes
      → Option (record { width : ℕ; height : ℕ; pixel_format : PixelFormat })
      → Result (FrameConversionError lib) Bytes
  convert_image rgb none = err missing_image_info
  convert_image rgb (some image) =
      if not (image.width == frame_width && image.height == frame_height)
      then err (dimensions (image.width, image.height) (frame_width, frame_height))
      else if not (is_rgb24 image.pixel_format)
      then err (pixel_format image.pixel_format)
      else ok (push_pairs [] rgb)

  pub convert_decoded : Bytes → Result lib.Error Bytes → Result (FrameConversionError lib) Bytes
  convert_decoded jpeg (err e) = err (decode_failed e)
  convert_decoded jpeg (ok rgb) = convert_image rgb (info jpeg)

  unfoldable pub jpeg_to_yuyv : Bytes → Result (FrameConversionError lib) Bytes
  unfolding convert_image convert_decoded push_pairs yuyv_pair
  jpeg_to_yuyv jpeg = convert_decoded jpeg (decode jpeg)
