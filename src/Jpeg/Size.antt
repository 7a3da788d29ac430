-- ===== src/Jpeg/Size.antt =====
-- The size of the files that crates/handycam-core/src/jpeg.rs's `reconstruct_jpeg` makes.
use handycam_rs.Jpeg.Decoder.{JpegDecoder, FrameConversionError}
use handycam_rs.Jpeg.{reconstruct_jpeg}
use handycam_rs.Jpeg.Scan.{count_ff, IsImageOf, reconstruct_jpeg-Reconstructs}
use handycam_rs.Prelude.{
  ℕ, ◌+◌, ◌*◌, ◌≤◌, ◌≡◌, sym, ap, ◌∙◌, inl, inr, [], ◌∷◌, arith, Bytes, length, replicate,
  length-append, Result, ok, err,
}

count_ff_le : (bs : Bytes) → count_ff bs ≤ length bs
count_ff_le [] = omega arith
count_ff_le (b ∷ bs) = ground (arith, count_ff_le bs)

IsImageOf-length :
    (padded jpeg : Bytes) → IsImageOf padded jpeg → length jpeg ≤ 625 + 2 * length padded
IsImageOf-length padded jpeg image = omega (
  arith,
  image.fits_capacity,
  count_ff_le image.scan,
  ap length image.trimmed.splits,
  length-append image.scan (replicate image.trimmed.zeros 0),
)

abbrev size_of : (lib : JpegDecoder) → Result (FrameConversionError lib) Bytes → ℕ
size_of lib (ok bytes) = length bytes
size_of lib (err error) = 0

-- Header, end marker, and each byte of the scan at most stuffed.
pub reconstruct_jpeg-length :
    (lib : JpegDecoder) (padded jpeg : Bytes)
    → reconstruct_jpeg lib padded ≡ ok jpeg
    → length jpeg ≤ 625 + 2 * length padded
reconstruct_jpeg-length lib padded jpeg made = elim (reconstruct_jpeg-Reconstructs lib padded) [
  | inl (zeros, refused) ↦ absurd cc
  | inr (image, same, is_image) ↦
      let same_length : length image ≡ length jpeg = ap (size_of lib) (sym same ∙ made) in
      omega (arith, IsImageOf-length padded image is_image)
]
