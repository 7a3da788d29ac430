-- ===== src/Matroska/Reader/Writing.antt =====
-- Elements that crates/handycam-matroska/src/lib.rs writes at the end of an output.
use mathlib.Core.Path.{subst}
use handycam_rs.Matroska.Ebml.{
  IoError, Write, vec_write, first_set, without_zeros, size_bytes, write_id, write_size, element,
}
use handycam_rs.Matroska.Reader.{be_value, read_element}
use handycam_rs.Matroska.Reader.Numbers.{be_value-be_bytes}
use handycam_rs.Matroska.Reader.Elements.{
  HasWidth, id_bytes, size_width_lem, size_bytes_lem, element_bytes, read_element-element_bytes,
}
use handycam_rs.Prelude.{
  ℕ, zero, suc, ◌+◌, ◌-◌, ◌*◌, ◌^◌, ◌≤◌, ◌<◌, ◌≡◌, refl, sym, ap, ap₂, ◌∙◌, inl, inr, some, [], ◌∷◌,
  ◌++◌, append_assoc, arith, ◌==◌, ==_iff, Bool-cases, Bytes, length, drop, length-append,
  length-drop, be_bytes, length-be_bytes, Result, ok,
}

-- What `Write` promises of an output that grows at its end: `At w bytes` says that `w` is at the
-- end of `bytes`.
pub record IsAppending {W : Type 0} (to : Write W) (At : W → Bytes → Type 0) : Type 0 where
  pub appends :
      (w : W) (bytes more : Bytes)
      → At w bytes
      → (w' : W) × (to.write_all w more ≡ ok w') × At w' (bytes ++ more)

pub vec_write-IsAppending : IsAppending vec_write ◌≡◌
vec_write-IsAppending = record {
  appends = λ w bytes more at. (w ++ more, refl, ap (λ v. v ++ more) at);
}

length-element_bytes :
    (n id width : ℕ) (payload : Bytes)
    → n < 4
    → width < 8
    → length (element_bytes n id width payload) ≤ 16 + length payload
length-element_bytes n id width payload four small =
    let number = 2 ^ (7 * suc width) + length payload in
    omega (
      arith,
      length-append (be_bytes (suc n) id) (be_bytes (suc width) number ++ payload),
      length-append (be_bytes (suc width) number) payload,
      length-be_bytes (suc n) id,
      length-be_bytes (suc width) number,
    )

joined :
    (n id width : ℕ) (bytes payload : Bytes)
    → n < 4
    → HasWidth n id
    → width < 8
    → length payload + 1 < 2 ^ (7 * suc width)
    → bytes ++ without_zeros 3 (be_bytes 4 id) ++ size_bytes (length payload) (suc width) ++ payload
      ≡ bytes ++ element_bytes n id width payload
joined n id width bytes payload four named small room =
    let named_bytes = be_bytes (suc n) id in
    let sized = be_bytes (suc width) (2 ^ (7 * suc width) + length payload) in
    ap₂ (λ (i s : Bytes). bytes ++ i ++ s ++ payload) (id_bytes n id four named)
      (size_bytes_lem width (length payload) small room)
    ∙ append_assoc (bytes ++ named_bytes) sized payload
    ∙ append_assoc bytes named_bytes (sized ++ payload)

-- An element written at the end of an output: the bytes that it adds, which a reader takes for
-- an element with this ID and payload, whatever follows.
pub record Writes {W : Type 0} (At : W → Bytes → Type 0) (bytes : Bytes) (id : ℕ) (payload : Bytes)
    (result : Result IoError W) : Type 0 where
  pub output : W
  pub image : Bytes
  pub succeeds : result ≡ ok output
  pub at : At output (bytes ++ image)
  pub reads_back : (rest : Bytes) → read_element id (image ++ rest) ≡ some (payload, rest)
  pub short : length image ≤ 16 + length payload

module _ {W : Type 0} {to : Write W} {At : W → Bytes → Type 0} (promised : IsAppending to At) where
  pub element-Writes :
      (n id : ℕ) (w : W) (bytes payload : Bytes)
      → n < 4
      → HasWidth n id
      → length payload + 1 < 2 ^ 56
      → At w bytes
      → Writes At bytes id payload (element to w id payload)
  unfolding element write_id write_size
  element-Writes n id w bytes payload four named fits at =
      let (width, small, width_found, room) = size_width_lem (length payload) fits in
      let (w1, e1, at1) = promised.appends w bytes (without_zeros 3 (be_bytes 4 id)) at in
      let (w2, e2, at2) =
        promised.appends w1 (bytes ++ without_zeros 3 (be_bytes 4 id))
          (size_bytes (length payload) (suc width)) at1 in
      let (w3, e3, at3) =
        promised.appends w2
          (bytes ++ without_zeros 3 (be_bytes 4 id) ++ size_bytes (length payload) (suc width))
          payload at2 in
      record {
        output = w3;
        image = element_bytes n id width payload;
        succeeds = rw (e1, width_found, e2) e3;
        at = subst (At w3) (joined n id width bytes payload four named small room) at3;
        reads_back = λ rest. read_element-element_bytes n id width payload rest named small room;
        short = length-element_bytes n id width payload four small;
      }

drop-nil : (n : ℕ) → be_value 0 (drop n []) ≡ 0
drop-nil zero = refl
drop-nil (suc n) = refl

drop-zero : (n : ℕ) → be_value 0 (drop n (0 ∷ [])) ≡ 0
drop-zero zero = refl
drop-zero (suc n) = drop-nil n

first_set-le :
    (last i : ℕ) (bytes : Bytes)
    → i + length bytes ≤ suc last
    → i ≤ last
    → i ≤ first_set last i bytes
unfolding first_set
first_set-le last i [] h le = le
first_set-le last i (b ∷ []) h le = ground arith
first_set-le last i (b ∷ c ∷ bytes) h le =
    let later = first_set-le last (i + 1) (c ∷ bytes) (omega arith) (omega arith) in
    elim (Bool-cases (b == 0)) [
      | inl e ↦ rw (first_set, e) (omega (arith, later))
      | inr e ↦ rw (first_set, e) (omega arith)
    ]

-- A byte at the front is passed over exactly when it is zero, and changes no value then.
first_set-step :
    (last i b c : ℕ) (bytes : Bytes)
    → i + suc (suc (length bytes)) ≤ suc last
    → be_value 0 (drop (first_set last (i + 1) (c ∷ bytes) - (i + 1)) (c ∷ bytes))
      ≡ be_value 0 (c ∷ bytes)
    → be_value 0 (drop (first_set last i (b ∷ c ∷ bytes) - i) (b ∷ c ∷ bytes))
      ≡ be_value 0 (b ∷ c ∷ bytes)
unfolding first_set
first_set-step last i b c bytes h kept = elim (Bool-cases (b == 0)) [
  | inl e ↦
      let zero_byte : b ≡ 0 = (==_iff b 0).0 e in
      let found = first_set last (i + 1) (c ∷ bytes) in
      let next : found - i ≡ suc (found - (i + 1)) =
        omega (arith, first_set-le last (i + 1) (c ∷ bytes) (omega arith) (omega arith)) in
      rw (e, zero_byte) (ap (λ (n : ℕ). be_value 0 (drop n (0 ∷ c ∷ bytes))) next ∙ kept)
  | inr e ↦ let here : i - i ≡ 0 = omega arith in rw (e, here) refl
]

-- A number keeps its value without its leading zeros.
first_set-value :
    (last i : ℕ) (bytes : Bytes)
    → i + length bytes ≤ suc last
    → be_value 0 (drop (first_set last i bytes - i) bytes) ≡ be_value 0 bytes
unfolding first_set
first_set-value last i [] h = drop-nil (last - i)
first_set-value last i (b ∷ []) h = elim (Bool-cases (b == 0)) [
  | inl e ↦ let zero_byte : b ≡ 0 = (==_iff b 0).0 e in rw zero_byte (drop-zero (last - i))
  | inr e ↦ let here : i - i ≡ 0 = omega arith in rw (e, here) refl
]
first_set-value last i (b ∷ c ∷ bytes) h =
    first_set-step last i b c bytes h (first_set-value last (i + 1) (c ∷ bytes) (omega arith))

-- The bytes of the payload of `uint_element`.
abbrev pub uint_bytes : ℕ → Bytes
uint_bytes value = without_zeros 7 (be_bytes 8 value)

pub uint_bytes-value : (value : ℕ) → value < 2 ^ 64 → be_value 0 (uint_bytes value) ≡ value
unfolding without_zeros
uint_bytes-value value h =
    let bytes = be_bytes 8 value in
    let same : first_set 7 0 bytes - 0 ≡ first_set 7 0 bytes = omega arith in
    let kept = first_set-value 7 0 bytes (omega (arith, length-be_bytes 8 value)) in
    ap (λ (n : ℕ). be_value 0 (drop n bytes)) (sym same) ∙ kept ∙ be_value-be_bytes 8 value h

pub length-uint_bytes : (value : ℕ) → length (uint_bytes value) ≤ 8
unfolding without_zeros
length-uint_bytes value = omega (
  arith,
  length-drop (first_set 7 0 (be_bytes 8 value)) (be_bytes 8 value),
  length-be_bytes 8 value,
)
