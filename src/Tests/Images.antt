-- ===== src/Tests/Images.antt =====
-- Conversions of crates/handycam-core/src/jpeg.rs, with a decoder that returns a black picture.
use handycam_rs.Jpeg.{JpegDecoder}
use handycam_rs.Jpeg.Scan.{Reconstructs, reconstruct_jpeg-Reconstructs}
use handycam_rs.Jpeg.Yuyv.{rgb_to_yuv, push_pairs, jpeg_to_yuyv}
use handycam_rs.Jpeg.Yuyv.Range.{IsLimited, rgb_to_yuv-IsLimited}
use handycam_rs.Jpeg.Yuyv.Length.{DecodesRgb, IsFrame, jpeg_to_yuyv-IsFrame}
use handycam_rs.Tests.Decoding.{stub}
use handycam_rs.Prelude.{
  ℕ, zero, suc, ◌≡◌, refl, true, some, [], ◌∷◌, arith, Bytes, length, replicate, All,
  length-replicate, IsByte, ok,
}

reconstruct_jpeg-Reconstructs_example : Reconstructs stub (0x12 ∷ 0xff ∷ 0 ∷ 0x34 ∷ 0 ∷ 0 ∷ [])
reconstruct_jpeg-Reconstructs_example =
    reconstruct_jpeg-Reconstructs stub (0x12 ∷ 0xff ∷ 0 ∷ 0x34 ∷ 0 ∷ 0 ∷ [])

rgb_to_yuv-IsLimited_example : IsLimited 255 255 255 (rgb_to_yuv 255 255 255)
rgb_to_yuv-IsLimited_example =
    rgb_to_yuv-IsLimited 255 255 255 (omega arith) (omega arith) (omega arith)

-- A byte-aligned black picture.
black_pixels : ℕ → Bytes
black_pixels n = replicate n 0

length-black_pixels : (n : ℕ) → length (black_pixels n) ≡ n
unfolding black_pixels
length-black_pixels n = length-replicate n 0

black_pixels-IsByte : (n : ℕ) → All IsByte (black_pixels n)
unfolding black_pixels
black_pixels-IsByte zero = _
black_pixels-IsByte (suc n) = (omega arith, black_pixels-IsByte n)

abbrev black_image : JpegDecoder
black_image = record {
  Error = Unit {0};
  PixelFormat = Unit {0};
  is_rgb24 = λ _. true;
  decode = λ _. ok (black_pixels 230_400);
  info = λ _. some (record { width = 320; height = 240; pixel_format = _ });
}

black_image-DecodesRgb : DecodesRgb black_image
black_image-DecodesRgb = record {
  size = λ jpeg rgb image decoded described rgb24. ground (arith, length-black_pixels 230_400);
  bytes = λ jpeg rgb decoded. ground (arith, black_pixels-IsByte 230_400);
}

jpeg_to_yuyv-IsFrame_example : IsFrame (push_pairs [] (black_pixels 230_400))
unfolding jpeg_to_yuyv
jpeg_to_yuyv-IsFrame_example = jpeg_to_yuyv-IsFrame black_image black_image-DecodesRgb [] refl
