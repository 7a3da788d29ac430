-- ===== src/Init/Text.antt =====
-- The text operations that crates/handycam-core/src/init.rs takes from Rust's standard library:
-- `str::lines`, `str::split`, `strip_prefix`, `u64::from_str_radix`. Text is its bytes.
pub mod Splitting
use handycam_rs.Prelude.{
  ℕ, ◌+◌, ◌-◌, ◌*◌, Bool, true, false, ◌&&◌, Option, none, some, List, [], ◌∷◌, map, ltb, leb, ◌==◌,
  if◌then◌else◌, Bytes, u64_max,
}

-- Pieces that end behind each newline, each with whether it had one.
pub push_piece : ℕ → List (Bytes × Bool) → List (Bytes × Bool)
push_piece c [] = (c ∷ [], false) ∷ []
push_piece c ((line, ended) ∷ rest) = (c ∷ line, ended) ∷ rest

pub split_inclusive : Bytes → List (Bytes × Bool)
unfolding push_piece
split_inclusive [] = []
split_inclusive (c ∷ cs) =
    let rest = split_inclusive cs in if c == b'\n' then ([], true) ∷ rest else push_piece c rest

pub strip_cr : Bytes → Bytes
strip_cr [] = []
strip_cr (c ∷ []) = if c == b'\r' then [] else c ∷ []
strip_cr (c ∷ d ∷ cs) = c ∷ strip_cr (d ∷ cs)

-- A carriage return is stripped only in front of a newline.
pub strip_line : Bytes × Bool → Bytes
unfolding strip_cr
strip_line (line, true) = strip_cr line
strip_line (line, false) = line

unfoldable pub lines : Bytes → List Bytes
unfolding split_inclusive strip_line
lines text = map strip_line (split_inclusive text)

pub push_field : ℕ → List Bytes → List Bytes
push_field c [] = (c ∷ []) ∷ []
push_field c (field ∷ rest) = (c ∷ field) ∷ rest

-- `split(separator)`: always at least one field.
unfoldable pub split : ℕ → Bytes → List Bytes
unfolding push_field
split separator [] = [] ∷ []
split separator (c ∷ cs) =
    let rest = split separator cs in if c == separator then [] ∷ rest else push_field c rest

-- `char::to_digit` for a radix up to 36.
unfoldable pub to_digit : ℕ → ℕ → Option ℕ
to_digit radix c =
    let value =
      if leb b'0' c && leb c b'9'
      then c - b'0'
      else if leb b'a' c && leb c b'z'
      then c - b'a' + 10
      else if leb b'A' c && leb c b'Z'
      then c - b'A' + 10
      else radix in
    if ltb value radix then some value else none

-- The digits of a number that fits 64 bits.
unfoldable pub add_digits : ℕ → ℕ → Bytes → Option ℕ
add_digits radix acc [] = some acc
add_digits radix acc (c ∷ cs) = elim (to_digit radix c) [
  | none ↦ none
  | some digit ↦ elim (leb (acc * radix + digit) u64_max) [
    | true ↦ add_digits radix (acc * radix + digit) cs
    | false ↦ none
  ]
]

-- At least one digit; `none` is an error of parsing.
pub digits_of : ℕ → Bytes → Option ℕ
digits_of radix [] = none
digits_of radix (c ∷ cs) = add_digits radix 0 (c ∷ cs)

-- `u64::from_str_radix`: one leading plus sign is allowed.
unfoldable pub from_str_radix : Bytes → ℕ → Option ℕ
unfolding digits_of add_digits
from_str_radix [] radix = none
from_str_radix (c ∷ cs) radix = if c == b'+' then digits_of radix cs else digits_of radix (c ∷ cs)
