-- ===== src/Jpeg/Scan.antt =====
-- What the bytes of crates/handycam-core/src/jpeg.rs's `reconstruct_jpeg` mean to a JPEG reader.
-- The reader is written from the format: marker segments up to SOS, then a scan in which 0xff is
-- followed by a stuffed zero, up to the EOI marker at the very end.
use handycam_rs.Jpeg.Decoder.{JpegDecoder, empty_entropy}
use handycam_rs.Jpeg.Header.{jpeg_header}
use handycam_rs.Jpeg.{trim_padding, push_entropy, finish_jpeg, reconstruct_jpeg}
use handycam_rs.Jpeg.Padding.{IsZero, IsTrimmed, IsTrimmed-nil, trim_padding-IsTrimmed}
use mathlib.Core.Option
use handycam_rs.Prelude.{
  ℕ, suc, ◌+◌, ◌-◌, ◌*◌, ◌≡◌, refl, sym, ap, ◌∙◌, ◌≢◌, ◌⊎◌, inl, inr, ◌&&◌, Option, none, some, [],
  ◌∷◌, ◌++◌, append-nil, append_assoc, arith, ◌==◌, if◌then◌else◌, Bool-cases, Bytes, length, drop,
  All, length-append, ok, err,
}

-- Marker segments FF mm hi lo, of a length that counts its own two bytes; what follows SOS.
unfoldable pub skip_segments : ℕ → Bytes → Option Bytes
skip_segments (suc n) (ff ∷ marker ∷ hi ∷ lo ∷ bs) =
    let rest = drop (hi * 256 + lo - 2) bs in
    let more = skip_segments n rest in
    if ff == 0xff then (if marker == 0xda then some rest else more) else none
skip_segments _ _ = none

abbrev end_of_image : ℕ → Bytes → Option Bytes
end_of_image marker [] = if marker == 0xd9 then some [] else none
end_of_image marker (_ ∷ _) = none

-- The scan up to EOI, its stuffed zeros taken out. A marker inside, or bytes behind EOI, is `none`.
unfoldable pub unstuff : Bytes → Option Bytes
unstuff (a ∷ b ∷ bs) =
    let stuffed = Option.map (◌∷◌ a) (unstuff bs) in
    let plain = Option.map (◌∷◌ a) (unstuff (b ∷ bs)) in
    if a == 0xff then (if b == 0x00 then stuffed else end_of_image b bs) else plain
unstuff _ = none

abbrev read_segments : Option Bytes → Option Bytes
read_segments none = none
read_segments (some scan) = unstuff scan

unfoldable pub read_scan : Bytes → Option Bytes
unfolding skip_segments
read_scan (a ∷ b ∷ bs) =
    if a == 0xff && b == 0xd8 then read_segments (skip_segments 16 bs) else none
read_scan _ = none

-- The stuffed scan without an accumulator.
abbrev stuffed_scan : Bytes → Bytes
stuffed_scan [] = []
stuffed_scan (b ∷ bs) = if b == 0xff then b ∷ 0x00 ∷ stuffed_scan bs else b ∷ stuffed_scan bs

push_entropy-stuffed : (jpeg bs : Bytes) → push_entropy jpeg bs ≡ jpeg ++ stuffed_scan bs
unfolding push_entropy
push_entropy-stuffed jpeg [] = sym (append-nil jpeg)
push_entropy-stuffed jpeg (b ∷ bs) = elim (Bool-cases (b == 0xff)) [
  | inl e ↦ rw e (push_entropy-stuffed _ bs ∙ simp append_assoc)
  | inr e ↦ rw e (push_entropy-stuffed _ bs ∙ simp append_assoc)
]

unstuff_plain :
    (a : ℕ) (bs : Bytes) → a ≢ 0xff → bs ≢ [] → unstuff (a ∷ bs) ≡ Option.map (◌∷◌ a) (unstuff bs)
unfolding unstuff
unstuff_plain a [] h ne = absurd (ne refl)
unstuff_plain a (b ∷ bs) h ne = ground arith

append_eoi-ne-nil : (bs : Bytes) → stuffed_scan bs ++ 0xff ∷ 0xd9 ∷ [] ≢ []
append_eoi-ne-nil [] = ground arith
append_eoi-ne-nil (b ∷ bs) = ground arith

unstuff-cons_stuffed :
    (b : ℕ) (bs : Bytes)
    → unstuff (stuffed_scan bs ++ 0xff ∷ 0xd9 ∷ []) ≡ some bs
    → unstuff (stuffed_scan (b ∷ bs) ++ 0xff ∷ 0xd9 ∷ []) ≡ some (b ∷ bs)
unstuff-cons_stuffed b bs ih = elim (Bool-cases (b == 0xff)) [
  | inl e ↦ unfold unstuff in ground arith
  | inr e ↦
      rw e
        (unstuff_plain b _ (λ h. ground arith) (append_eoi-ne-nil bs) ∙ ap (Option.map (◌∷◌ b)) ih)
]

unstuff-stuffed : (bs : Bytes) → unstuff (stuffed_scan bs ++ 0xff ∷ 0xd9 ∷ []) ≡ some bs
unstuff-stuffed [] = unfold unstuff in refl
unstuff-stuffed (b ∷ bs) = unstuff-cons_stuffed b bs (unstuff-stuffed bs)

read_scan-header : (scan : Bytes) → read_scan (jpeg_header ++ scan) ≡ unstuff scan
unfolding read_scan jpeg_header
read_scan-header scan = refl

abbrev pub count_ff : Bytes → ℕ
count_ff [] = 0
count_ff (b ∷ bs) = (if b == 0xff then 1 else 0) + count_ff bs

length-stuffed_scan : (bs : Bytes) → length (stuffed_scan bs) ≡ length bs + count_ff bs
length-stuffed_scan [] = omega arith
length-stuffed_scan (b ∷ bs) = ground (arith, length-stuffed_scan bs)

length-jpeg_header : length jpeg_header ≡ 623
unfolding jpeg_header
length-jpeg_header = refl

-- `jpeg` is a JPEG file whose scan is `padded` without the zeros at its end; its length is the
-- capacity that the code reserves.
pub record IsImageOf (padded jpeg : Bytes) : Type 0 where
  pub scan : Bytes
  pub trimmed : IsTrimmed padded scan
  pub scan_ne_nil : scan ≢ []
  pub reads_back : read_scan jpeg ≡ some scan
  pub fits_capacity : length jpeg ≡ 623 + length scan + count_ff scan + 2

-- A record is all zeros and is refused, or it is turned into such a file.
abbrev pub Reconstructs : (lib : JpegDecoder) → Bytes → Type 0
Reconstructs lib padded =
    (All IsZero padded × (reconstruct_jpeg lib padded ≡ err empty_entropy))
    ⊎ ((jpeg : Bytes) × (reconstruct_jpeg lib padded ≡ ok jpeg) × IsImageOf padded jpeg)

image_of :
    (padded : Bytes) (b : ℕ) (bs : Bytes)
    → IsTrimmed padded (b ∷ bs)
    → IsImageOf padded (jpeg_header ++ (stuffed_scan (b ∷ bs) ++ 0xff ∷ 0xd9 ∷ []))
image_of padded b bs t =
    let scan : Bytes = b ∷ bs in
    let stuffed : Bytes = stuffed_scan scan in
    record {
      scan = scan;
      trimmed = t;
      scan_ne_nil = λ h. cc;
      reads_back = read_scan-header _ ∙ unstuff-stuffed scan;
      fits_capacity = omega (
        arith,
        length-append jpeg_header (stuffed ++ 0xff ∷ 0xd9 ∷ []),
        length-append stuffed (0xff ∷ 0xd9 ∷ []),
        length-stuffed_scan scan,
        length-jpeg_header,
      );
    }

finish_jpeg-Reconstructs :
    (lib : JpegDecoder) (padded scan : Bytes)
    → IsTrimmed padded scan
    → (All IsZero padded × (finish_jpeg lib scan ≡ err empty_entropy))
      ⊎ ((jpeg : Bytes) × (finish_jpeg lib scan ≡ ok jpeg) × IsImageOf padded jpeg)
finish_jpeg-Reconstructs lib padded [] t = inl (IsTrimmed-nil padded t, unfold finish_jpeg in refl)
finish_jpeg-Reconstructs lib padded (b ∷ bs) t = inr (
  jpeg_header ++ (stuffed_scan (b ∷ bs) ++ 0xff ∷ 0xd9 ∷ []),
  (unfold finish_jpeg in
      ap ok (rw (push_entropy-stuffed jpeg_header (b ∷ bs)) (append_assoc jpeg_header _ _))),
  image_of padded b bs t,
)

-- Every record is either all padding, and refused as empty, or becomes a JPEG file. A reader
-- that follows the format finds in that file no marker inside the scan and reads back the record
-- without its zero padding, and the file has the length that the code reserves.
pub reconstruct_jpeg-Reconstructs : (lib : JpegDecoder) (padded : Bytes) → Reconstructs lib padded
unfolding reconstruct_jpeg
reconstruct_jpeg-Reconstructs lib padded =
    finish_jpeg-Reconstructs lib padded (trim_padding padded) (trim_padding-IsTrimmed padded)
