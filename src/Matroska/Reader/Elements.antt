-- ===== src/Matroska/Reader/Elements.antt =====
-- Elements that crates/handycam-matroska/src/lib.rs writes, read back.
use native.Mathlib.Nat.{pow-suc}
use mathlib.Core.Path.{subst}
use handycam_rs.Prelude.Bits.{bit_or_comm, bit_or_disjoint}
use handycam_rs.Matroska.Ebml.{
  invalid_input, first_set, without_zeros, find_width, size_width, size_bytes,
}
use handycam_rs.Matroska.Reader.{read_number, read_size, read_payload, read_element}
use handycam_rs.Matroska.Reader.Numbers.{read_number-be_bytes, announced, drop-be_bytes}
use handycam_rs.Prelude.{
  ℕ, zero, suc, ◌+◌, ◌-◌, ◌*◌, ◌^◌, ◌≤◌, ◌<◌, bit_or, ◌≡◌, refl, ap, ◌∙◌, inl, inr, false, some,
  ◌++◌, append_assoc, arith, ltb, ◌==◌, ltb→lt, lt→ltb, le→ltb_false, ==_refl, Bool-cases, Bytes,
  length, drop, length-append, take-length-append, drop-length-append, be_bytes, ok, ok_or,
}

-- The marker bit of a number of n + 1 bytes is its highest.
abbrev pub HasWidth : ℕ → ℕ → Type 0
HasWidth n v = (n < 8) × (2 ^ (7 * suc n) ≤ v) × (v < 2 ^ (7 * suc n + 1))

HasWidth-fits : (n v : ℕ) → HasWidth n v → v < 256 ^ suc n
HasWidth-fits zero v h = omega arith
HasWidth-fits (suc zero) v h = omega arith
HasWidth-fits (suc (suc zero)) v h = omega arith
HasWidth-fits (suc (suc (suc zero))) v h = omega arith
HasWidth-fits (suc (suc (suc (suc zero)))) v h = omega arith
HasWidth-fits (suc (suc (suc (suc (suc zero))))) v h = omega arith
HasWidth-fits (suc (suc (suc (suc (suc (suc zero)))))) v h = omega arith
HasWidth-fits (suc (suc (suc (suc (suc (suc (suc zero))))))) v h = omega arith
HasWidth-fits (suc (suc (suc (suc (suc (suc (suc (suc n)))))))) v h = absurd (omega arith)

read_number-HasWidth :
    (n v : ℕ) (rest : Bytes)
    → HasWidth n v
    → read_number (be_bytes (suc n) v ++ rest) ≡ some (v, suc n, rest)
read_number-HasWidth n v rest h =
    read_number-be_bytes n v rest (HasWidth-fits n v h) (announced n v h.0 h.1 h.2)

find_width_lem :
    (n w size : ℕ)
    → size + 1 < 2 ^ (7 * (w + n))
    → (v : ℕ) × (w ≤ v)
      × (v ≤ w + n)
      × (find_width (suc n) w size ≡ some v)
      × (size + 1 < 2 ^ (7 * v))
unfolding find_width
find_width_lem zero w size h =
    let width : w + 0 ≡ w = omega arith in
    let fits : size + 1 < 2 ^ (7 * w) = subst (λ (k : ℕ). size + 1 < 2 ^ (7 * k)) width h in
    let found : find_width 1 w size ≡ some w =
      rw (lt→ltb size (2 ^ (7 * w) - 1) (omega arith)) refl in
    (w, omega arith, omega arith, found, fits)
find_width_lem (suc n) w size h = elim (Bool-cases (ltb size (2 ^ (7 * w) - 1))) [
  | inl e ↦
      let fits = ltb→lt size (2 ^ (7 * w) - 1) e in
      let found : find_width (suc (suc n)) w size ≡ some w = rw e refl in
      (w, omega arith, omega arith, found, omega arith)
  | inr e ↦
      let width : w + suc n ≡ w + 1 + n = omega arith in
      let (v, low, high, later, fits) =
        find_width_lem n (w + 1) size (subst (λ (k : ℕ). size + 1 < 2 ^ (7 * k)) width h) in
      let found : find_width (suc (suc n)) w size ≡ some v = rw e later in
      (v, omega arith, omega arith, found, fits)
]

size_width_of :
    (size v : ℕ)
    → 1 ≤ v
    → v ≤ 8
    → find_width 8 1 size ≡ some v
    → size + 1 < 2 ^ (7 * v)
    → (n : ℕ) × (n < 8) × (size_width size ≡ ok (suc n)) × (size + 1 < 2 ^ (7 * suc n))
unfolding size_width
size_width_of size zero low high found fits = absurd (omega arith)
size_width_of size (suc n) low high found fits =
    (n, omega arith, ap (λ o. ok_or o invalid_input) found, fits)

-- A size below 2^56 - 1 has a width, and its number is not the one that means unknown.
pub size_width_lem :
    (size : ℕ)
    → size + 1 < 2 ^ 56
    → (n : ℕ) × (n < 8) × (size_width size ≡ ok (suc n)) × (size + 1 < 2 ^ (7 * suc n))
size_width_lem size h =
    let (v, low, high, found, fits) = find_width_lem 7 1 size h in
    size_width_of size v low (omega arith) found fits

pub size_bytes_lem :
    (n size : ℕ)
    → n < 8
    → size + 1 < 2 ^ (7 * suc n)
    → size_bytes size (suc n) ≡ be_bytes (suc n) (2 ^ (7 * suc n) + size)
unfolding size_bytes
size_bytes_lem n size small fits =
    let marked : bit_or size (1 * 2 ^ (7 * suc n)) ≡ 2 ^ (7 * suc n) + size =
      bit_or_comm size (1 * 2 ^ (7 * suc n))
      ∙ bit_or_disjoint (7 * suc n) 1 size (omega arith)
      ∙ (omega arith) in
    let number = 2 ^ (7 * suc n) + size in
    let whole : suc n + (8 - suc n) ≡ 8 = omega arith in
    ap (λ (v : ℕ). drop (8 - suc n) (be_bytes 8 v)) marked
    ∙ subst (λ (k : ℕ). drop (8 - suc n) (be_bytes k number) ≡ be_bytes (suc n) number) whole
        (drop-be_bytes (8 - suc n) (suc n) number)

pub id_bytes :
    (n id : ℕ) → n < 4 → HasWidth n id → without_zeros 3 (be_bytes 4 id) ≡ be_bytes (suc n) id
unfolding without_zeros first_set
id_bytes zero id small h = ground arith
id_bytes (suc zero) id small h = ground arith
id_bytes (suc (suc zero)) id small h = ground arith
id_bytes (suc (suc (suc zero))) id small h = ground arith
id_bytes (suc (suc (suc (suc n)))) id small h = absurd (omega arith)

-- The bytes of an element whose ID and size have these widths.
abbrev pub element_bytes : ℕ → ℕ → ℕ → Bytes → Bytes
element_bytes n id width payload =
    be_bytes (suc n) id ++ (be_bytes (suc width) (2 ^ (7 * suc width) + length payload) ++ payload)

power_double : (k : ℕ) → 2 ^ (k + 1) ≡ 2 ^ k * 2
power_double k = let next : k + 1 ≡ suc k = omega arith in rw (next) (pow-suc 2 k)

HasWidth-size :
    (n size : ℕ) → n < 8 → size + 1 < 2 ^ (7 * suc n) → HasWidth n (2 ^ (7 * suc n) + size)
HasWidth-size n size small fits =
    let doubled : 2 ^ (7 * suc n + 1) ≡ 2 ^ (7 * suc n) * 2 = power_double (7 * suc n) in
    (small, omega arith, omega arith)

read_element-found :
    (id width : ℕ) (bytes rest : Bytes)
    → read_number bytes ≡ some (id, width, rest)
    → read_element id bytes ≡ read_payload (read_size rest)
unfolding read_element read_payload
read_element-found id width bytes rest h = rw (read_element, h, ==_refl id) refl

read_size-known :
    (size n : ℕ) (bytes rest : Bytes)
    → read_number bytes ≡ some (2 ^ (7 * n) + size, n, rest)
    → size + 1 < 2 ^ (7 * n)
    → read_size bytes ≡ some (size, rest)
unfolding read_size
read_size-known size n bytes rest h fits =
    let doubled = power_double (7 * n) in
    let known : (2 ^ (7 * n) + size + 1 == 2 ^ (7 * n + 1)) ≡ false = ground arith in
    rw (read_size, h, known) ground arith

pub read_element-element_bytes :
    (n id width : ℕ) (payload rest : Bytes)
    → HasWidth n id
    → width < 8
    → length payload + 1 < 2 ^ (7 * suc width)
    → read_element id (element_bytes n id width payload ++ rest) ≡ some (payload, rest)
unfolding read_payload
read_element-element_bytes n id width payload rest named small fits =
    let number = 2 ^ (7 * suc width) + length payload in
    let sized = be_bytes (suc width) number in
    let behind = sized ++ (payload ++ rest) in
    let first : element_bytes n id width payload ++ rest ≡ be_bytes (suc n) id ++ behind =
      append_assoc (be_bytes (suc n) id) (sized ++ payload) rest
      ∙ ap (λ bytes. be_bytes (suc n) id ++ bytes) (append_assoc sized payload rest) in
    let size_read =
      read_size-known (length payload) (suc width) behind (payload ++ rest)
        (read_number-HasWidth width number (payload ++ rest)
          (HasWidth-size width (length payload) small fits))
        fits in
    let long : length payload ≤ length (payload ++ rest) =
      omega (arith, length-append payload rest) in
    ap (read_element id) first
    ∙ read_element-found id (suc n) (be_bytes (suc n) id ++ behind) behind
        (read_number-HasWidth n id behind named)
    ∙ ap read_payload size_read
    ∙ rw
        (
          le→ltb_false (length (payload ++ rest)) (length payload) long,
          take-length-append payload rest,
          drop-length-append payload rest,
        )
        refl
