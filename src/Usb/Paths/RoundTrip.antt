-- ===== src/Usb/Paths/RoundTrip.antt =====
-- Reading the text of a `CameraSelector` back: crates/handycam-libusb/src/transport.rs.
use handycam_rs.Init.Text.{split, from_str_radix, to_digit}
use handycam_rs.Init.Text.Splitting.{Lacks, split-one, split-append}
use handycam_rs.Usb.Devices.{CameraSelector}
use handycam_rs.Usb.Paths.{
  PathError, invalid_usb_path, add_front, split_once, parse_u8, parse_ports, is_empty, check_path,
  parse_path, from_str, digit, decimal, decimal_3, write_ports, display,
}
use handycam_rs.Prelude.Bits.{table_holds, table_holds_lem}
use handycam_rs.Prelude.{
  ℕ, ◌/◌, ◌<◌, ◌≡◌, refl, ap, inl, inr, Bool, true, false, ◌||◌, Option, none, some, List, [], ◌∷◌,
  ◌++◌, arith, ltb, leb, ◌==◌, if◌then◌else◌, ==_iff, ==_refl, Bool-cases, Bytes, any, All, ok,
  ok_or, Ensures, bind-Ensures,
}

abbrev is_some_of : ℕ → Option ℕ → Bool
is_some_of n none = false
is_some_of n (some m) = m == n

is_some_of_lem : (n : ℕ) (o : Option ℕ) → is_some_of n o ≡ true → o ≡ some n
is_some_of_lem n (some m) h = ap some ((==_iff m n).0 h)
is_some_of_lem n none h = absurd cc

decimal_table : table_holds (λ n. is_some_of n (parse_u8 (decimal n))) 256 ≡ true
unfolding table_holds parse_u8 decimal from_str_radix to_digit
decimal_table = refl

parse_u8-decimal : (n : ℕ) → n < 256 → parse_u8 (decimal n) ≡ some n
parse_u8-decimal n small =
    is_some_of_lem n (parse_u8 (decimal n))
      (table_holds_lem (λ m. is_some_of m (parse_u8 (decimal m))) 256 n small decimal_table)

decimal_3_table : table_holds (λ n. is_some_of n (parse_u8 (decimal_3 n))) 256 ≡ true
unfolding table_holds parse_u8 decimal_3 from_str_radix to_digit
decimal_3_table = refl

parse_u8-decimal_3 : (n : ℕ) → n < 256 → parse_u8 (decimal_3 n) ≡ some n
parse_u8-decimal_3 n small =
    is_some_of_lem n (parse_u8 (decimal_3 n))
      (table_holds_lem (λ m. is_some_of m (parse_u8 (decimal_3 m))) 256 n small decimal_3_table)

digit_ne : (separator n : ℕ) → separator < b'0' → (digit n == separator) ≡ false
digit_ne separator n below = ground arith

decimal-Lacks : (separator n : ℕ) → separator < b'0' → Lacks separator (decimal n)
unfolding decimal
decimal-Lacks separator n below = elim (Bool-cases (ltb n 10)) [
  | inl e ↦ rw e (digit_ne separator n below, tt)
  | inr e ↦ elim (Bool-cases (ltb n 100)) [
    | inl f ↦ rw (e, f) (digit_ne separator (n / 10) below, (digit_ne separator n below, tt))
    | inr f ↦
        rw (e, f)
          (
            digit_ne separator (n / 100) below,
            (digit_ne separator (n / 10) below, (digit_ne separator n below, tt)),
          )
  ]
]

decimal_3-Lacks : (separator n : ℕ) → separator < b'0' → Lacks separator (decimal_3 n)
unfolding decimal_3
decimal_3-Lacks separator n below = (
  digit_ne separator (n / 100) below,
  (digit_ne separator (n / 10) below, (digit_ne separator n below, tt)),
)

split_once-append :
    (separator : ℕ) (front back : Bytes)
    → Lacks separator front
    → split_once separator (front ++ separator ∷ back) ≡ some (front, back)
unfolding split_once add_front
split_once-append separator [] back lacks = rw (==_refl separator) refl
split_once-append separator (c ∷ front) back lacks =
    rw (lacks.0, split_once-append separator front back lacks.1) refl

-- A port or a bus of the camera's place: a u8, not 0.
abbrev pub IsPlace : ℕ → Type 0
IsPlace n = (0 < n) × (n < 256)

parse_ports-cons :
    (part : Bytes) (parts : List Bytes) (port : ℕ) (ports : Bytes)
    → parse_u8 part ≡ some port
    → parse_ports parts ≡ some ports
    → parse_ports (part ∷ parts) ≡ some (port ∷ ports)
unfolding parse_ports
parse_ports-cons part parts port ports first rest = rw (first, rest, parse_ports) refl

parse_ports-write_ports :
    (port : ℕ) (ports : Bytes)
    → All IsPlace (port ∷ ports)
    → parse_ports (split b'.' (write_ports (port ∷ ports))) ≡ some (port ∷ ports)
unfolding parse_ports write_ports
parse_ports-write_ports port [] places =
    rw (split-one b'.' (decimal port) (decimal-Lacks b'.' port (omega arith)))
      (parse_ports-cons (decimal port) [] port [] (parse_u8-decimal port places.0.1) refl)
parse_ports-write_ports port (next ∷ ports) places =
    let later = write_ports (next ∷ ports) in
    rw (split-append b'.' (decimal port) later (decimal-Lacks b'.' port (omega arith))) (
      parse_ports-cons (decimal port) (split b'.' later) port (next ∷ ports)
        (parse_u8-decimal port places.0.1) (parse_ports-write_ports next ports places.1))

none_zero : (ports : Bytes) → All IsPlace ports → any (λ port. port == 0) ports ≡ false
none_zero [] places = refl
none_zero (port ∷ ports) places = ground (arith, none_zero ports)

-- A selector that names a place: a bus and at least one port.
abbrev pub IsPath : CameraSelector → Type 0
IsPath selector = elim selector.bus [
  | none ↦ ⊥
  | some bus ↦ IsPlace bus × (is_empty selector.ports ≡ false) × All IsPlace selector.ports
]

path_text :
    (bus port : ℕ) (ports : Bytes)
    → IsPlace bus
    → All IsPlace (port ∷ ports)
    → from_str (decimal_3 bus ++ b'-' ∷ write_ports (port ∷ ports))
      ≡ ok (record { bus = some bus; ports = port ∷ ports })
unfolding from_str parse_path check_path
path_text bus port ports place places =
    let first : (bus == 0) ≡ false = ground arith in
    let others : any (λ n. n == 0) (port ∷ ports) ≡ false = none_zero (port ∷ ports) places in
    rw
      (
        split_once-append b'-' (decimal_3 bus) (write_ports (port ∷ ports))
            (decimal_3-Lacks b'-' bus (omega arith)),
        parse_u8-decimal_3 bus place.1,
        parse_ports-write_ports port ports places,
        first,
        others,
      )
      refl

read_back :
    (bus : Option ℕ) (ports : Bytes)
    → IsPath (record { bus = bus; ports = ports })
    → from_str (display (record { bus = bus; ports = ports }))
      ≡ ok (record { bus = bus; ports = ports })
unfolding display
read_back (some bus) (port ∷ ports) path = path_text bus port ports path.0 path.2
read_back (some bus) [] path = absurd cc
read_back none ports path = absurd path

-- The text of every selector that names a bus from 1 to 255 and ports from 1 to 255, one at least, is read
-- back as the same selector.
pub from_str-display :
    (selector : CameraSelector) → IsPath selector → from_str (display selector) ≡ ok selector
from_str-display selector path = read_back selector.bus selector.ports path

-- What holds of an option's value.
abbrev Holds {ℓ} : {A : Type ℓ} → (A → Type 0) → Option A → Type 0
Holds P none = Unit
Holds P (some a) = P a

unit_of : {A : Type 0} (o : Option A) → Holds (λ a. Unit {0}) o
unit_of none = tt
unit_of (some a) = tt

ok_or-Ensures :
    {A : Type 0} (P : A → Type 0) (o : Option A) (e : PathError) → Holds P o → Ensures P (ok_or o e)
ok_or-Ensures P none e h = tt
ok_or-Ensures P (some a) e h = h

abbrev IsSmall : ℕ → Type 0
IsSmall n = n < 256

leb-IsSmall :
    (o : Option ℕ)
    → Holds IsSmall (elim o [ none ↦ none | some n ↦ if leb n 255 then some n else none ])
leb-IsSmall none = tt
leb-IsSmall (some n) = elim (Bool-cases (leb n 255)) [
  | inl e ↦ rw e (ground arith)
  | inr e ↦ rw e tt
]

parse_u8-IsSmall : (text : Bytes) → Holds IsSmall (parse_u8 text)
unfolding parse_u8
parse_u8-IsSmall text = leb-IsSmall (from_str_radix text 10)

abbrev AreSmall : Bytes → Type 0
AreSmall ports = All IsSmall ports

ports_of :
    (port : Option ℕ) (ports : Option Bytes)
    → Holds IsSmall port
    → Holds AreSmall ports
    → Holds AreSmall
        (elim port [ none ↦ none | some p ↦ elim ports [ none ↦ none | some ps ↦ some (p ∷ ps) ] ])
ports_of none ports h k = tt
ports_of (some p) none h k = tt
ports_of (some p) (some ps) h k = (h, k)

parse_ports-AreSmall : (parts : List Bytes) → Holds AreSmall (parse_ports parts)
unfolding parse_ports
parse_ports-AreSmall [] = tt
parse_ports-AreSmall (part ∷ parts) =
    ports_of (parse_u8 part) (parse_ports parts) (parse_u8-IsSmall part)
      (parse_ports-AreSmall parts)

places_of :
    (ports : Bytes) → AreSmall ports → any (λ port. port == 0) ports ≡ false → All IsPlace ports
places_of [] small none_is = tt
places_of (port ∷ ports) small none_is =
    ((ground arith, small.0), places_of ports small.1 (ground arith))

check_path-IsPath :
    (value : Bytes) (bus : ℕ) (ports : Bytes)
    → IsSmall bus
    → AreSmall ports
    → Ensures IsPath (check_path value bus ports)
unfolding check_path
check_path-IsPath value bus ports small smalls =
    elim (Bool-cases (bus == 0 || is_empty ports || any (λ port. port == 0) ports)) [
      | inl e ↦ rw e tt
      | inr e ↦ rw e ((ground arith, small), ground arith, places_of ports smalls (ground arith))
    ]

-- Whatever text is accepted names a place: a bus from 1 to 255, and at least one port, each from 1 to 255.
pub from_str-IsPath : (value : Bytes) → Ensures IsPath (from_str value)
unfolding from_str parse_path
from_str-IsPath value =
    bind-Ensures (λ parts. Unit {0}) IsPath (ok_or (split_once b'-' value) (invalid_usb_path value))
      (parse_path value) (ok_or-Ensures (λ parts. Unit {0}) _ _ (unit_of (split_once b'-' value)))
      (λ parts h.
        bind-Ensures IsSmall IsPath (ok_or (parse_u8 parts.0) (invalid_usb_path value)) _
          (ok_or-Ensures IsSmall _ _ (parse_u8-IsSmall parts.0))
          (λ bus small.
            bind-Ensures AreSmall IsPath
              (ok_or (parse_ports (split b'.' parts.1)) (invalid_usb_path value)) _
              (ok_or-Ensures AreSmall _ _ (parse_ports-AreSmall (split b'.' parts.1)))
              (λ ports smalls. check_path-IsPath value bus ports small smalls)))
