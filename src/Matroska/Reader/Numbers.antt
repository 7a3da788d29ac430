-- ===== src/Matroska/Reader/Numbers.antt =====
-- Numbers of a variable width, read back.
use native.Mathlib.Nat.{div-div-eq-div-mul, pow-suc, mul_comm}
use handycam_rs.Matroska.Reader.{be_value, announced_width, read_number}
use handycam_rs.Prelude.{
  ℕ, zero, suc, ◌+◌, ◌-◌, ◌*◌, ◌/◌, ◌%◌, ◌^◌, ◌≤◌, ◌<◌, ◌≡◌, refl, sym, ap, ◌∙◌, some, List, [],
  ◌∷◌, ◌++◌, arith, le→ltb_false, Bytes, length, take, drop, length-append, take-length-append,
  drop-length-append, be_bytes, length-be_bytes,
}

pub be_bytes-head : (n v : ℕ) → be_bytes (suc n) v ≡ v / 256 ^ n % 256 ∷ be_bytes n v
be_bytes-head zero v = ground arith
be_bytes-head (suc n) v =
    let quotient : v / 256 / 256 ^ n ≡ v / 256 ^ suc n =
      rw (div-div-eq-div-mul v 256 (256 ^ n), pow-suc 256 n, mul_comm 256 (256 ^ n)) refl in
    rw (be_bytes-head n (v / 256), quotient) refl

be_value-first : (b : ℕ) (bs : Bytes) → be_value 0 (b ∷ bs) ≡ be_value b bs
be_value-first b bs =
    let from_zero : 0 * 256 + b ≡ b = omega arith in ap (λ (acc : ℕ). be_value acc bs) from_zero

be_value-append :
    (acc : ℕ) (xs : Bytes) (b : ℕ) → be_value acc (xs ++ b ∷ []) ≡ be_value acc xs * 256 + b
be_value-append acc [] b = refl
be_value-append acc (x ∷ xs) b = be_value-append (acc * 256 + x) xs b

pub be_value-be_bytes : (n v : ℕ) → v < 256 ^ n → be_value 0 (be_bytes n v) ≡ v
be_value-be_bytes zero v h = ground arith
be_value-be_bytes (suc n) v h =
    let small : v < 256 ^ n * 256 = rw (sym (pow-suc 256 n)) h in
    rw (be_value-append 0 (be_bytes n (v / 256)) (v % 256))
      (omega (arith, be_value-be_bytes n (v / 256) (omega arith)))

pub take-exact {ℓ} : {A : Type ℓ} (n : ℕ) (xs ys : List A) → length xs ≡ n → take n (xs ++ ys) ≡ xs
take-exact n xs ys h = rw (sym h) (take-length-append xs ys)

pub drop-exact {ℓ} : {A : Type ℓ} (n : ℕ) (xs ys : List A) → length xs ≡ n → drop n (xs ++ ys) ≡ ys
drop-exact n xs ys h = rw (sym h) (drop-length-append xs ys)

pub drop-append {ℓ} :
    {A : Type ℓ} (n : ℕ) (xs ys : List A) → n ≤ length xs → drop n (xs ++ ys) ≡ drop n xs ++ ys
drop-append zero xs ys h = refl
drop-append (suc n) [] ys h = absurd (omega arith)
drop-append (suc n) (x ∷ xs) ys h = drop-append n xs ys (omega arith)

drop-all : (n : ℕ) (xs : Bytes) → length xs ≡ n → drop n xs ≡ []
drop-all zero [] h = refl
drop-all zero (x ∷ xs) h = absurd (omega arith)
drop-all (suc n) [] h = refl
drop-all (suc n) (x ∷ xs) h = drop-all n xs (omega arith)

-- The last `w` of the bytes of a word are those of the word of `w` bytes.
pub drop-be_bytes : (k w v : ℕ) → drop k (be_bytes (w + k) v) ≡ be_bytes w v
drop-be_bytes k zero v = drop-all k (be_bytes (0 + k) v) (omega (arith, length-be_bytes (0 + k) v))
drop-be_bytes k (suc w) v =
    let front = be_bytes (w + k) (v / 256) in
    let enough : k ≤ length front = omega (arith, length-be_bytes (w + k) (v / 256)) in
    let wide : suc w + k ≡ suc (w + k) = omega arith in
    rw wide (
      drop-append k front (v % 256 ∷ []) enough
      ∙ ap (λ bytes. bytes ++ v % 256 ∷ []) (drop-be_bytes k w (v / 256)))

length-be_bytes-append : (n v : ℕ) (rest : Bytes) → length (be_bytes n v ++ rest) ≡ n + length rest
length-be_bytes-append n v rest =
    omega (arith, length-append (be_bytes n v) rest, length-be_bytes n v)

-- A word of n + 1 bytes whose first byte announces that width.
abbrev pub Announced : ℕ → ℕ → Type 0
Announced n v = announced_width (v / 256 ^ n % 256) ≡ suc n

pub read_number-be_bytes :
    (n v : ℕ) (rest : Bytes)
    → v < 256 ^ suc n
    → Announced n v
    → read_number (be_bytes (suc n) v ++ rest) ≡ some (v, suc n, rest)
unfolding read_number
read_number-be_bytes n v rest small announced =
    let value : be_value (v / 256 ^ n % 256) (be_bytes n v) ≡ v =
      sym (be_value-first (v / 256 ^ n % 256) (be_bytes n v))
      ∙ sym (ap (be_value 0) (be_bytes-head n v))
      ∙ be_value-be_bytes (suc n) v small in
    let less : suc n - 1 ≡ n = omega arith in
    let long = length-be_bytes-append n v rest in
    let exact = length-be_bytes n v in
    rw
      (
        be_bytes-head n v,
        announced,
        less,
        le→ltb_false (length (be_bytes n v ++ rest)) n (omega (arith, long)),
        take-exact n (be_bytes n v) rest exact,
        drop-exact n (be_bytes n v) rest exact,
        value,
      )
      refl

pub announced : (n v : ℕ) → n < 8 → 2 ^ (7 * suc n) ≤ v → v < 2 ^ (7 * suc n + 1) → Announced n v
announced zero v h low high = ground arith
announced (suc zero) v h low high = ground arith
announced (suc (suc zero)) v h low high = ground arith
announced (suc (suc (suc zero))) v h low high = ground arith
announced (suc (suc (suc (suc zero)))) v h low high = ground arith
announced (suc (suc (suc (suc (suc zero))))) v h low high = ground arith
announced (suc (suc (suc (suc (suc (suc zero)))))) v h low high = ground arith
announced (suc (suc (suc (suc (suc (suc (suc zero))))))) v h low high = ground arith
announced (suc (suc (suc (suc (suc (suc (suc (suc n)))))))) v h low high = absurd (omega arith)
