-- ===== src/Control/Registers.antt =====
-- The register sequence `device_init_registers` of crates/handycam-core/src/control.rs.
use handycam_rs.Control.{RegisterValue, device_init_template, set_value, device_init_registers}
use handycam_rs.Prelude.{
  ℕ, zero, suc, ◌≡◌, refl, ap, ◌∙◌, Option, none, some, List, [], ◌∷◌, arith, ◌==◌, if◌then◌else◌,
  get_elem?,
}

-- The two populated positions, and the template's values elsewhere.
abbrev pub populated : ℕ → ℕ → ℕ → RegisterValue → RegisterValue
populated mode_61 init_complete i r =
    if i == 3
    then record r { value = mode_61 }
    else if i == 18
    then record r { value = init_complete }
    else r

abbrev pub map_option {ℓ} : {A : Type ℓ} → (A → A) → Option A → Option A
map_option f none = none
map_option f (some a) = some (f a)

same_test : (j i : ℕ) → (suc j == suc i) ≡ (j == i)
same_test j i = ground arith

get-set_value :
    (i : ℕ) (v : ℕ) (rs : List RegisterValue) (j : ℕ)
    → get_elem? (set_value i v rs) j
      ≡ map_option (λ r. if j == i then record r { value = v } else r) (get_elem? rs j)
unfolding set_value
get-set_value i v [] j = refl
get-set_value zero v (r ∷ rs) zero = refl
get-set_value zero v (r ∷ rs) (suc j) = ground arith
get-set_value (suc i) v (r ∷ rs) zero = ground arith
get-set_value (suc i) v (r ∷ rs) (suc j) = get-set_value i v rs j ∙ rw (same_test j i)

populate :
    (mode_61 init_complete i : ℕ) (o : Option RegisterValue)
    → map_option
        (λ r. if i == 18 then record r { value = init_complete } else r)
        (map_option (λ r. if i == 3 then record r { value = mode_61 } else r) o)
      ≡ map_option (populated mode_61 init_complete i) o
populate mode_61 init_complete i none = refl
populate mode_61 init_complete i (some r) = ground arith

-- Every register of the sequence is the template's at that place, with the same index; only the
-- values at places 3 and 18 are the given ones.
pub device_init_registers_lem :
    (mode_61 init_complete i : ℕ)
    → get_elem? (device_init_registers mode_61 init_complete) i
      ≡ map_option (populated mode_61 init_complete i) (get_elem? device_init_template i)
unfolding device_init_registers
device_init_registers_lem mode_61 init_complete i =
    get-set_value 18 init_complete (set_value 3 mode_61 device_init_template) i
    ∙ ap (map_option (λ r. if i == 18 then record r { value = init_complete } else r))
        (get-set_value 3 mode_61 device_init_template i)
    ∙ populate mode_61 init_complete i (get_elem? device_init_template i)
