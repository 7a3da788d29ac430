-- ===== src/Jpeg/Padding.antt =====
-- The trimming of a record's zero padding in crates/handycam-core/src/jpeg.rs.
use handycam_rs.Jpeg.{entropy_end, trim_padding}
use handycam_rs.Prelude.{
  ℕ, zero, suc, ◌≤◌, ◌≡◌, refl, ap, ap₂, ◌∙◌, ◌≢◌, inl, inr, [], ◌∷◌, ◌++◌, arith, ◌==◌,
  if◌then◌else◌, ==_iff, Bool-cases, Bytes, length, take, replicate, All,
}

-- The last byte is not zero; the empty record has no last byte.
abbrev pub EndsNonzero : Bytes → Type 0
EndsNonzero [] = Unit
EndsNonzero (b ∷ []) = b ≢ 0
EndsNonzero (b ∷ c ∷ bs) = EndsNonzero (c ∷ bs)

-- `padded` is `scan` with zeros behind it, as few bytes of `scan` as that allows.
pub record IsTrimmed (padded scan : Bytes) : Type 0 where
  pub zeros : ℕ
  pub splits : padded ≡ scan ++ replicate zeros 0
  pub ends_nonzero : EndsNonzero scan

abbrev keep_cons : ℕ → Bytes → Bytes
keep_cons b [] = if b == 0 then [] else b ∷ []
keep_cons b (c ∷ bs) = b ∷ c ∷ bs

abbrev next_end : ℕ → ℕ → ℕ
next_end b zero = if b == 0 then 0 else 1
next_end b (suc n) = suc (suc n)

entropy_end-cons : (b : ℕ) (bs : Bytes) → entropy_end (b ∷ bs) ≡ next_end b (entropy_end bs)
unfolding entropy_end
entropy_end-cons b bs = ground arith

take-next_end :
    (b n : ℕ) (bs : Bytes) → n ≤ length bs → take (next_end b n) (b ∷ bs) ≡ keep_cons b (take n bs)
take-next_end b zero bs h = ground arith
take-next_end b (suc n) [] h = absurd (omega arith)
take-next_end b (suc n) (c ∷ bs) h = refl

entropy_end-le : (bs : Bytes) → entropy_end bs ≤ length bs
entropy_end-le [] = unfold entropy_end in omega arith
entropy_end-le (b ∷ bs) = ground (arith, entropy_end-cons b bs, entropy_end-le bs)

trim_padding-cons : (b : ℕ) (bs : Bytes) → trim_padding (b ∷ bs) ≡ keep_cons b (trim_padding bs)
trim_padding-cons b bs =
    unfold trim_padding in
    ap (λ n. take n (b ∷ bs)) (entropy_end-cons b bs)
    ∙ take-next_end b (entropy_end bs) bs (entropy_end-le bs)

keep_cons-IsTrimmed :
    (b : ℕ) (bs scan : Bytes) → IsTrimmed bs scan → IsTrimmed (b ∷ bs) (keep_cons b scan)
keep_cons-IsTrimmed b bs [] t = elim (Bool-cases (b == 0)) [
  | inl e ↦ rw e (record {
    zeros = suc t.zeros;
    splits = ap₂ ◌∷◌ ((==_iff b 0).0 e) t.splits;
    ends_nonzero = tt;
  })
  | inr e ↦
      rw e (record { zeros = t.zeros; splits = ap (◌∷◌ b) t.splits; ends_nonzero = ground arith })
]
keep_cons-IsTrimmed b bs (c ∷ scan) t = record {
  zeros = t.zeros;
  splits = ap (◌∷◌ b) t.splits;
  ends_nonzero = t.ends_nonzero;
}

-- Exactly the zeros at the end are cut off.
pub trim_padding-IsTrimmed : (padded : Bytes) → IsTrimmed padded (trim_padding padded)
trim_padding-IsTrimmed [] =
    unfold trim_padding in record { zeros = 0; splits = refl; ends_nonzero = tt }
trim_padding-IsTrimmed (b ∷ bs) =
    rw (trim_padding-cons b bs) (keep_cons-IsTrimmed b bs _ (trim_padding-IsTrimmed bs))

abbrev pub IsZero : ℕ → Type 0
IsZero b = b ≡ 0

All-IsZero-replicate : (n : ℕ) → All IsZero (replicate n 0)
All-IsZero-replicate zero = tt
All-IsZero-replicate (suc n) = (refl, All-IsZero-replicate n)

-- A record that is trimmed to nothing is all padding.
pub IsTrimmed-nil : (padded : Bytes) → IsTrimmed padded [] → All IsZero padded
IsTrimmed-nil padded t = rw t.splits (All-IsZero-replicate t.zeros)
