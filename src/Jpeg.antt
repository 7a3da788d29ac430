-- ===== src/Jpeg.antt =====
-- crates/handycam-core/src/jpeg.rs: `reconstruct_jpeg`, from a camera record's entropy payload to
-- a baseline JPEG. `Jpeg/Yuyv` has the conversion to YUYV; the JPEG decoder that it calls is a
-- third-party crate and enters as the parameter `JpegDecoder`.
mod Header
mod Decoder
pub mod Padding
pub mod Scan
pub mod Size
pub mod Yuyv
unfoldable pub use Header.{jpeg_header}
pub use Decoder.*
use handycam_rs.Prelude.{
  ℕ, suc, ◌+◌, Bytes, [], ◌∷◌, ◌++◌, take, Bool, not, ◌==◌, if◌then◌else◌, Option, none, some,
  Result, ok, err,
}

-- `iter().rposition(p)`: the index of the last byte that passes.
pub rposition : (ℕ → Bool) → Bytes → Option ℕ
rposition p [] = none
rposition p (b ∷ bs) = elim (rposition p bs) [
  | some i ↦ some (suc i)
  | none ↦ if p b then some 0 else none
]

-- `entropy_end`: `map_or(0, |position| position + 1)`.
pub entropy_end : Bytes → ℕ
unfolding rposition
entropy_end padded = elim (rposition (λ b. not (b == 0)) padded) [
  | none ↦ 0
  | some position ↦ position + 1
]

-- `&entropy_with_padding[..entropy_end]`
unfoldable pub trim_padding : Bytes → Bytes
unfolding entropy_end
trim_padding padded = take (entropy_end padded) padded

-- The loop that copies the scan, with a zero stuffed behind each 0xff.
pub push_entropy : Bytes → Bytes → Bytes
push_entropy jpeg [] = jpeg
push_entropy jpeg (b ∷ bs) =
    push_entropy (if b == 0xff then (jpeg ++ b ∷ []) ++ 0x00 ∷ [] else jpeg ++ b ∷ []) bs

-- What follows the trimming: the test for an empty scan, then header, scan and EOI.
pub finish_jpeg : (lib : JpegDecoder) → Bytes → Result (FrameConversionError lib) Bytes
finish_jpeg lib [] = err empty_entropy
finish_jpeg lib (b ∷ bs) = ok (push_entropy jpeg_header (b ∷ bs) ++ 0xff ∷ 0xd9 ∷ [])

unfoldable pub reconstruct_jpeg :
    (lib : JpegDecoder) → Bytes → Result (FrameConversionError lib) Bytes
unfolding trim_padding finish_jpeg push_entropy
reconstruct_jpeg lib padded = finish_jpeg lib (trim_padding padded)
