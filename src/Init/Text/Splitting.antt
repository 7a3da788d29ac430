-- ===== src/Init/Text/Splitting.antt =====
-- `str::split` on text whose pieces do not hold the separator.
use handycam_rs.Init.Text.{push_field, split}
use handycam_rs.Prelude.{ℕ, ◌≡◌, refl, false, [], ◌∷◌, ◌++◌, ◌==◌, ==_refl, Bytes, All}

-- The byte does not occur.
abbrev pub Lacks : ℕ → Bytes → Type 0
Lacks separator bytes = All (λ b. (b == separator) ≡ false) bytes

pub split-one :
    (separator : ℕ) (piece : Bytes) → Lacks separator piece → split separator piece ≡ piece ∷ []
unfolding split push_field
split-one separator [] lacks = refl
split-one separator (b ∷ piece) lacks = rw (lacks.0, split-one separator piece lacks.1) refl

pub split-append :
    (separator : ℕ) (piece rest : Bytes)
    → Lacks separator piece
    → split separator (piece ++ separator ∷ rest) ≡ piece ∷ split separator rest
unfolding split push_field
split-append separator [] rest lacks = rw (==_refl separator) refl
split-append separator (b ∷ piece) rest lacks =
    rw (lacks.0, split-append separator piece rest lacks.1) refl
