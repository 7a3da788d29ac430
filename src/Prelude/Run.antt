-- ===== src/Prelude/Run.antt =====
-- Computations that change a state and may fail, with the monad of `?`.
use handycam_rs.Prelude.Results.{Result, ok, err}

abbrev pub Run : Type 0 → Type 0 → Type 0 → Type 0
Run S E A = S → S × Result E A

module _ {S E A B : Type 0} where
  unfoldable pub continue_with : S × Result E A → (A → Run S E B) → S × Result E B
  continue_with (s, ok a) f = f a s
  continue_with (s, err e) f = (s, err e)

  infixl 5 ◌>>=◌
  unfoldable pub ◌>>=◌ : Run S E A → (A → Run S E B) → Run S E B
  unfolding continue_with
  (m >>= f) s = continue_with (m s) f

-- What the code does between two calls and may refuse.
unfoldable pub lift : {S E A : Type 0} → Result E A → Run S E A
lift r s = (s, r)

-- `map_err`, or the conversion of `?`.
abbrev pub map_err {ℓ κ μ} :
    {E : Type ℓ} {F : Type κ} {A : Type μ} → (E → F) → Result E A → Result F A
map_err f (ok a) = ok a
map_err f (err e) = err (f e)
