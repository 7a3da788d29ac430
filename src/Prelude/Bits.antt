-- ===== src/Prelude/Bits.antt =====
-- `&` with a low mask and `|` of disjoint fields as arithmetic, and checks over all bytes.
use Prim.Native.Nat.{
  ℕ, zero, suc, ◌+◌, ◌-◌, ◌*◌, ◌/◌, ◌%◌, ◌^◌, ◌≤◌, ◌<◌, min, max, bit_and, bit_or, digits, bitwise,
  bit_and-bitwise, bit_or-bitwise,
}
use mathlib.Core.Path.{◌≡◌, refl, ap, ◌∙◌}
use mathlib.Core.Bool.{Bool, true, ◌&&◌}
use native.Mathlib.Nat.{
  pow-suc, one-le-pow, zero-add, suc-add, div-add-mod, add-mul-mod_self_left, mod-eq_of_lt, mod-lt,
}
use native.Mathlib.Omega.{arith}

-- A property of all numbers below a bound, by evaluation.
unfoldable pub table_holds : (ℕ → Bool) → ℕ → Bool
table_holds test zero = true
table_holds test (suc n) = table_holds test n && test n

pub table_holds_lem :
    (test : ℕ → Bool) (size entry : ℕ)
    → entry < size
    → table_holds test size ≡ true
    → test entry ≡ true
unfolding table_holds
table_holds_lem test (suc size) entry inside holds = ground (arith, table_holds_lem test size entry)
table_holds_lem test zero entry inside holds = absurd (omega arith)

-- The native operations are defined by a recursion on fuel. One round more than the first
-- argument needs changes nothing, so any sufficient fuel gives the same digits.
module _ (tail : ℕ → ℕ) (op : ℕ → ℕ → ℕ) where
  spare_round : (n a b : ℕ) → a ≤ n → digits tail op (suc n) a b ≡ digits tail op n a b
  spare_round zero zero b h = refl
  spare_round zero (suc a) b h = absurd (omega arith)
  spare_round (suc n) zero b h = refl
  spare_round (suc n) (suc a) b h =
      ap (λ (t : ℕ). t * 2 + op (suc a % 2) (b % 2))
        (spare_round n (suc a / 2) (b / 2) (omega arith))

  spare_rounds : (k a b : ℕ) → digits tail op (k + a) a b ≡ bitwise tail op a b
  spare_rounds zero a b = rw (zero-add a)
  spare_rounds (suc k) a b =
      rw (suc-add k a) (spare_round (k + a) a b (omega arith) ∙ spare_rounds k a b)

  lowest_digit :
      (a b : ℕ)
      → bitwise tail op (suc a) b ≡ bitwise tail op (suc a / 2) (b / 2) * 2 + op (suc a % 2) (b % 2)
  lowest_digit a b =
      let fits : a ≡ (a - suc a / 2) + suc a / 2 = omega arith in
      ap (λ (t : ℕ). t * 2 + op (suc a % 2) (b % 2))
        (ap (λ (n : ℕ). digits tail op n (suc a / 2) (b / 2)) fits
          ∙ spare_rounds (a - suc a / 2) (suc a / 2) (b / 2))

pub bit_and-lowest : (a b : ℕ) → bit_and a b ≡ bit_and (a / 2) (b / 2) * 2 + min (a % 2) (b % 2)
bit_and-lowest zero b = rw (bit_and-bitwise 0 b, bit_and-bitwise 0 (b / 2)) (omega arith)
bit_and-lowest (suc a) b =
    rw (bit_and-bitwise (suc a) b, bit_and-bitwise (suc a / 2) (b / 2)) (lowest_digit _ min a b)

pub bit_or-lowest : (a b : ℕ) → bit_or a b ≡ bit_or (a / 2) (b / 2) * 2 + max (a % 2) (b % 2)
bit_or-lowest zero b = rw (bit_or-bitwise 0 b, bit_or-bitwise 0 (b / 2)) (omega arith)
bit_or-lowest (suc a) b =
    rw (bit_or-bitwise (suc a) b, bit_or-bitwise (suc a / 2) (b / 2)) (lowest_digit _ max a b)

-- Both zero laws by recursion on a bound of the number.
bit_and-zero_below : (n a : ℕ) → a < n → bit_and a 0 ≡ 0
bit_and-zero_below zero a h = absurd (omega arith)
bit_and-zero_below (suc n) zero h = refl
bit_and-zero_below (suc n) (suc a) h =
    omega (arith, bit_and-lowest (suc a) 0, bit_and-zero_below n (suc a / 2) (omega arith))

bit_or-zero_below : (n a : ℕ) → a < n → bit_or a 0 ≡ a
bit_or-zero_below zero a h = absurd (omega arith)
bit_or-zero_below (suc n) zero h = refl
bit_or-zero_below (suc n) (suc a) h =
    omega (arith, bit_or-lowest (suc a) 0, bit_or-zero_below n (suc a / 2) (omega arith))

half_mod : (p a : ℕ) → 0 < p → a % (p * 2) ≡ (a / 2 % p) * 2 + a % 2
half_mod p a h =
    let low : ℕ = (a / 2 % p) * 2 + a % 2 in
    let split : a ≡ low + p * 2 * (a / 2 / p) = omega (arith, div-add-mod (a / 2) p) in
    ap (λ (t : ℕ). t % (p * 2)) split
    ∙ add-mul-mod_self_left low (p * 2) (a / 2 / p)
    ∙ mod-eq_of_lt (omega (arith, mod-lt (a / 2) h))

-- `a & (2^k - 1)` is the remainder by `2^k`.
pub bit_and_low : (k a : ℕ) → bit_and a (2 ^ k - 1) ≡ a % 2 ^ k
bit_and_low zero a = omega (arith, bit_and-zero_below (suc a) a (omega arith))
bit_and_low (suc k) a = ground (
  arith,
  pow-suc 2 k,
  one-le-pow k 2,
  bit_and-lowest a (2 ^ suc k - 1),
  bit_and_low k (a / 2),
  half_mod (2 ^ k) a,
)

-- `(q << k) | r` is a sum where `r` fits below bit `k`.
pub bit_or_disjoint : (k q r : ℕ) → r < 2 ^ k → bit_or (q * 2 ^ k) r ≡ q * 2 ^ k + r
bit_or_disjoint zero q r h = ground (arith, bit_or-zero_below (suc q) q)
bit_or_disjoint (suc k) q r h =
    let shifted : q * 2 ^ suc k ≡ q * 2 ^ k * 2 =
      omega (arith, ap (λ (t : ℕ). q * t) (pow-suc 2 k)) in
    ground
      (arith, shifted, pow-suc 2 k, bit_or-lowest (q * 2 ^ suc k) r, bit_or_disjoint k q (r / 2))

bit_or_comm_below : (n a b : ℕ) → a < n → b < n → bit_or a b ≡ bit_or b a
bit_or_comm_below zero a b ha hb = absurd (omega arith)
bit_or_comm_below (suc zero) a b ha hb = ground arith
bit_or_comm_below (suc (suc n)) a b ha hb = omega (
  arith,
  bit_or-lowest a b,
  bit_or-lowest b a,
  bit_or_comm_below (suc n) (a / 2) (b / 2) (omega arith) (omega arith),
)

pub bit_or_comm : (a b : ℕ) → bit_or a b ≡ bit_or b a
bit_or_comm a b = bit_or_comm_below (suc (a + b)) a b (omega arith) (omega arith)
