-- ===== src/Usb/Paths.antt =====
-- crates/handycam-libusb/src/transport.rs: the text of a `CameraSelector`, read and written. Text is its
-- bytes; of Rust's standard library, `split_once`, `u8::from_str` and the `Display` of a u8 are written out.
pub mod RoundTrip
use handycam_rs.Init.Text.{split, from_str_radix}
use handycam_rs.Usb.Devices.{CameraSelector}
use handycam_rs.Prelude.{
  ℕ, zero, suc, ◌+◌, ◌-◌, ◌*◌, ◌/◌, ◌%◌, ◌^◌, ◌≤◌, ◌<◌, min, max, bit_and, bit_or, ◌≡◌, refl, sym,
  ap, ap₂, ◌∙◌, ◌≢◌, ◌↔◌, ◌⊎◌, inl, inr, Bool, true, false, not, ◌&&◌, ◌||◌, Option, none, some,
  List, [], ◌∷◌, ◌++◌, map, reverse, append-nil, append_assoc, arith, ltb, leb, ◌==◌, if◌then◌else◌,
  ltb→lt, lt→ltb, le→ltb_false, leb→le, ==_iff, ==_refl, Bool-cases, Option-cases, Bytes, length,
  get_elem?, get_or, set, take, drop, replicate, any, All, length-append, take-append-drop,
  take-length-append, drop-length-append, length-take, length-drop, length-replicate, All-append,
  IsByte, bytes_eq, bytes_eq_iff, u32_max, u64_max, wrap64, saturating_add, saturating_sub,
  saturating_mul, checked_sub, wrapping_sub16, ◌<<<◌, ◌>>>◌, be_bytes, length-be_bytes, Result, ok,
  err, ◌>>=◌, ok_or, Ensures, bind-Ensures, Fails, bind-Fails, Result-cases,
}

pub data PathError : Type 0 where
  invalid_usb_path : Bytes → PathError

unfoldable pub add_front : ℕ → Option (Bytes × Bytes) → Option (Bytes × Bytes)
add_front c none = none
add_front c (some (front, back)) = some (c ∷ front, back)

-- `split_once(separator)`
unfoldable pub split_once : ℕ → Bytes → Option (Bytes × Bytes)
unfolding add_front
split_once separator [] = none
split_once separator (c ∷ cs) =
    let later = add_front c (split_once separator cs) in
    if c == separator then some ([], cs) else later

-- `parse::<u8>()`
unfoldable pub parse_u8 : Bytes → Option ℕ
parse_u8 text = elim (from_str_radix text 10) [
  | none ↦ none
  | some n ↦ if leb n 255 then some n else none
]

-- `map(parse)` and `collect`
unfoldable pub parse_ports : List Bytes → Option Bytes
unfolding parse_u8
parse_ports [] = some []
parse_ports (part ∷ parts) = elim (parse_u8 part) [
  | none ↦ none
  | some port ↦ elim (parse_ports parts) [ none ↦ none | some ports ↦ some (port ∷ ports) ]
]

abbrev pub is_empty : Bytes → Bool
is_empty [] = true
is_empty (b ∷ bs) = false

-- The last test of `from_str`.
unfoldable pub check_path : Bytes → ℕ → Bytes → Result PathError CameraSelector
check_path value bus ports =
    if bus == 0 || is_empty ports || any (λ port. port == 0) ports
    then err (invalid_usb_path value)
    else ok (record { bus = some bus; ports = ports })

unfoldable pub parse_path : Bytes → Bytes × Bytes → Result PathError CameraSelector
unfolding check_path parse_ports
parse_path value (bus_text, ports_text) = do
  bus ← ok_or (parse_u8 bus_text) (invalid_usb_path value)
  ports ← ok_or (parse_ports (split b'.' ports_text)) (invalid_usb_path value)
  check_path value bus ports

unfoldable pub from_str : Bytes → Result PathError CameraSelector
unfolding split_once parse_path
from_str value = do
  parts ← ok_or (split_once b'-' value) (invalid_usb_path value)
  parse_path value parts

abbrev pub digit : ℕ → ℕ
digit n = b'0' + n % 10

-- A u8 in `{}` and in `{:03}`.
unfoldable pub decimal : ℕ → Bytes
decimal n =
    if ltb n 10
    then digit n ∷ []
    else if ltb n 100
    then digit (n / 10) ∷ digit n ∷ []
    else digit (n / 100) ∷ digit (n / 10) ∷ digit n ∷ []

unfoldable pub decimal_3 : ℕ → Bytes
decimal_3 n = digit (n / 100) ∷ digit (n / 10) ∷ digit n ∷ []

-- The loop over the ports: a dot in front of each but the first.
unfoldable pub write_ports : Bytes → Bytes
unfolding decimal
write_ports [] = []
write_ports (port ∷ []) = decimal port
write_ports (port ∷ next ∷ ports) = decimal port ++ b'.' ∷ write_ports (next ∷ ports)

-- "any 054c:00c0 camera"
abbrev pub any_camera : Bytes
any_camera =
    b'a' ∷ b'n' ∷ b'y' ∷ b' ' ∷ b'0' ∷ b'5' ∷ b'4' ∷ b'c' ∷ b':' ∷ b'0' ∷ b'0' ∷ b'c' ∷ b'0' ∷ b' '
    ∷ b'c' ∷ b'a' ∷ b'm' ∷ b'e' ∷ b'r' ∷ b'a' ∷ []

unfoldable pub display : CameraSelector → Bytes
unfolding decimal_3 write_ports
display selector = elim selector.bus [
  | none ↦ any_camera
  | some bus ↦ decimal_3 bus ++ b'-' ∷ write_ports selector.ports
]
