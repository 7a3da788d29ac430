-- ===== src/Jpeg/Yuyv/Length.antt =====
-- The buffer that `jpeg_to_yuyv` of crates/handycam-core/src/jpeg.rs returns.
use handycam_rs.Jpeg.Decoder.{JpegDecoder}
use handycam_rs.Jpeg.Yuyv.Range.{rgb_to_yuv-IsLimited}
use handycam_rs.Jpeg.Yuyv.{
  frame_width, frame_height, yuyv_pair, push_pairs, convert_image, convert_decoded, jpeg_to_yuyv,
}
use handycam_rs.Prelude.{
  ℕ, ◌+◌, ◌*◌, ◌/◌, ◌≤◌, ◌<◌, ◌≡◌, refl, true, Option, none, some, [], ◌∷◌, ◌++◌, arith, Bytes,
  length, All, length-append, All-append, IsByte, Result, ok, err,
}

-- What the decoder documents of its output: an RGB24 image of w by h pixels is w * h * 3 bytes.
pub record DecodesRgb (lib : JpegDecoder) : Type 0 where
  pub size :
      (jpeg rgb : Bytes) (image : record { width : ℕ; height : ℕ; pixel_format : lib.PixelFormat })
      → lib.decode jpeg ≡ ok rgb
      → lib.info jpeg ≡ some image
      → lib.is_rgb24 image.pixel_format ≡ true
      → length rgb ≡ image.width * image.height * 3
  pub bytes : (jpeg rgb : Bytes) → lib.decode jpeg ≡ ok rgb → All IsByte rgb

abbrev pub IsLimitedByte : ℕ → Type 0
IsLimitedByte b = (16 ≤ b) × (b ≤ 240)

yuyv_pair-limited :
    (r0 g0 b0 r1 g1 b1 : ℕ)
    → r0 < 256
    → g0 < 256
    → b0 < 256
    → r1 < 256
    → g1 < 256
    → b1 < 256
    → All IsLimitedByte (yuyv_pair r0 g0 b0 r1 g1 b1)
yuyv_pair-limited r0 g0 b0 r1 g1 b1 x y z u v w =
    let l0 = rgb_to_yuv-IsLimited r0 g0 b0 x y z in
    let l1 = rgb_to_yuv-IsLimited r1 g1 b1 u v w in unfold yuyv_pair in omega (arith, l0, l1)

length-yuyv_pair : (r0 g0 b0 r1 g1 b1 : ℕ) → length (yuyv_pair r0 g0 b0 r1 g1 b1) ≡ 4
unfolding yuyv_pair
length-yuyv_pair r0 g0 b0 r1 g1 b1 = refl

-- What the loop has pushed, in one statement: all of it in range, four bytes for every six.
abbrev Pushed : Bytes → Bytes → Bytes → Type 0
Pushed yuyv rgb out = All IsLimitedByte out × (length out ≡ length yuyv + 4 * (length rgb / 6))

push_pairs-Pushed :
    (yuyv rgb : Bytes)
    → All IsLimitedByte yuyv
    → All IsByte rgb
    → Pushed yuyv rgb (push_pairs yuyv rgb)
unfolding push_pairs
push_pairs-Pushed yuyv (r0 ∷ g0 ∷ b0 ∷ r1 ∷ g1 ∷ b1 ∷ rgb) hy h =
    let pair : Bytes = yuyv_pair r0 g0 b0 r1 g1 b1 in
    let limited : All IsLimitedByte pair =
      yuyv_pair-limited r0 g0 b0 r1 g1 b1 h.0 h.1.0 h.1.1.0 h.1.1.1.0 h.1.1.1.1.0 h.1.1.1.1.1.0 in
    let (all, len) =
      push_pairs-Pushed (yuyv ++ pair) rgb (All-append IsLimitedByte yuyv pair (hy, limited))
        h.1.1.1.1.1.1 in
    (all, omega (arith, len, length-append yuyv pair, length-yuyv_pair r0 g0 b0 r1 g1 b1))
push_pairs-Pushed yuyv _ hy h = (hy, omega arith)

-- A frame for the sink: 320 * 240 pixels of two bytes, every byte within the limited range.
abbrev pub IsFrame : Bytes → Type 0
IsFrame yuyv = (length yuyv ≡ frame_width * frame_height * 2) × All IsLimitedByte yuyv

module _ (lib : JpegDecoder) (documented : DecodesRgb lib) where
  convert_image-IsFrame :
      (jpeg rgb : Bytes)
      (info : Option (record { width : ℕ; height : ℕ; pixel_format : lib.PixelFormat }))
      {yuyv : Bytes}
      → lib.decode jpeg ≡ ok rgb
      → lib.info jpeg ≡ info
      → convert_image lib rgb info ≡ ok yuyv
      → IsFrame yuyv
  unfolding convert_image
  convert_image-IsFrame jpeg rgb none d i h = cc
  convert_image-IsFrame jpeg rgb (some image) {yuyv} d i h =
      let pushed : Pushed [] rgb (push_pairs [] rgb) =
        push_pairs-Pushed [] rgb tt (documented.bytes jpeg rgb d) in
      ground (arith, pushed, documented.size jpeg rgb image d i)

  convert_decoded-IsFrame :
      (jpeg : Bytes) (decoded : Result lib.Error Bytes) {yuyv : Bytes}
      → lib.decode jpeg ≡ decoded
      → convert_decoded lib jpeg decoded ≡ ok yuyv
      → IsFrame yuyv
  unfolding convert_decoded
  convert_decoded-IsFrame jpeg (err e) d h = cc
  convert_decoded-IsFrame jpeg (ok rgb) d h = convert_image-IsFrame jpeg rgb _ d refl h

  -- Whatever image is decoded, a conversion that succeeds returns a whole frame: 320 * 240 pixels
  -- of two bytes each, every byte from 16 to 240. The decoder is taken to return bytes, and of
  -- an RGB24 image as many as its image information says.
  pub jpeg_to_yuyv-IsFrame :
      (jpeg : Bytes) {yuyv : Bytes} → jpeg_to_yuyv lib jpeg ≡ ok yuyv → IsFrame yuyv
  unfolding jpeg_to_yuyv
  jpeg_to_yuyv-IsFrame jpeg h = convert_decoded-IsFrame jpeg (lib.decode jpeg) refl h
