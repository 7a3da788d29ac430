-- ===== src/Usb/Selection.antt =====
-- Which camera `select_device` of crates/handycam-libusb/src/transport.rs chooses.
use mathlib.Core.Path.{subst}
use handycam_rs.Usb.Devices.{
  CameraSelector, Device, SelectError, usb, is_match, keep, matches, only_one, select_found,
  select_device,
}
use handycam_rs.Prelude.{
  ℕ, ◌≡◌, refl, sym, ap, ◌∙◌, ◌⊎◌, inl, inr, Bool, true, false, not, ◌||◌, Option, none, some, List,
  [], ◌∷◌, ◌++◌, arith, ◌==◌, Bool-cases, Bytes, All, bytes_eq, bytes_eq_iff, Result, ok, err,
}

-- At a bus, if one is named, and then behind these ports.
abbrev pub IsPlaced : Option ℕ → Bytes → Device → Type 0
IsPlaced none ports device = Unit
IsPlaced (some bus) ports device = device.bus_number ≡ bus × (device.port_numbers ≡ some ports)

-- Sony's camera, at the bus and behind the ports of the selector, if it names a bus.
pub record IsCamera (selector : CameraSelector) (device : Device) : Type 0 where
  pub sony : device.ids ≡ some (0x054c, 0x00c0)
  pub placed : IsPlaced selector.bus selector.ports device

abbrev pub IsPassedOver : CameraSelector → Device → Type 0
IsPassedOver selector device = ¬ IsCamera selector device

-- The one device of the list that the selector matches.
pub record IsOnly (selector : CameraSelector) (devices : List Device) (device : Device)
    : Type 0 where
  pub before : List Device
  pub later : List Device
  pub splits : devices ≡ before ++ device ∷ later
  pub chosen : IsCamera selector device
  pub before_passed : All (IsPassedOver selector) before
  pub later_passed : All (IsPassedOver selector) later

-- What `is_match` says of a device.
abbrev Says : CameraSelector → Device → Result SelectError Bool → Type 0
Says selector device (ok true) = IsCamera selector device
Says selector device (ok false) = ¬ IsCamera selector device
Says selector device (err error) = Unit

module _ (wanted : Bytes) (number address : ℕ) where
  abbrev selector_of : Option ℕ → CameraSelector
  selector_of bus = record { bus = bus; ports = wanted }

  abbrev device_of : Option (ℕ × ℕ) → Option Bytes → Device
  device_of ids ports = record {
    ids = ids;
    bus_number = number;
    address = address;
    port_numbers = ports;
  }

  other_ids :
      (bus : Option ℕ) (ports : Option Bytes) (vendor product : ℕ)
      → (not (vendor == 0x054c) || not (product == 0x00c0)) ≡ true
      → ¬ IsCamera (selector_of bus) (device_of (some (vendor, product)) ports)
  other_ids bus ports vendor product e camera =
      let one : vendor ≡ 0x054c = ap (λ o. elim o [ none ↦ 0 | some ids ↦ ids.0 ]) camera.sony in
      let two : product ≡ 0x00c0 = ap (λ o. elim o [ none ↦ 0 | some ids ↦ ids.1 ]) camera.sony in
      absurd (ground (arith, e, one, two))

  no_match : {ports : Bytes} → ports ≡ wanted → bytes_eq ports wanted ≡ false → ⊥
  no_match {ports} same e = absurd cc ((bytes_eq_iff ports wanted).1 same, e)

  ports-Says :
      (bus : ℕ) (ports : Option Bytes)
      → number ≡ bus
      → Says
          (selector_of (some bus))
          (device_of (some (0x054c, 0x00c0)) ports)
          (elim ports [ none ↦ err usb | some ports' ↦ ok (bytes_eq ports' wanted) ])
  ports-Says bus none same = tt
  ports-Says bus (some ports) same = elim (Bool-cases (bytes_eq ports wanted)) [
    | inl e ↦
        rw e (record { sony = refl; placed = (same, ap some ((bytes_eq_iff ports wanted).0 e)) })
    | inr e ↦ rw e (λ camera.
        absurd (no_match (ap (λ o. elim o [ none ↦ [] | some l ↦ l ]) camera.placed.1) e))
  ]

  bus-Says :
      (bus : Option ℕ) (ports : Option Bytes)
      → Says
          (selector_of bus)
          (device_of (some (0x054c, 0x00c0)) ports)
          (is_match (selector_of bus) (device_of (some (0x054c, 0x00c0)) ports))
  unfolding is_match
  bus-Says none ports = record { sony = refl; placed = tt }
  bus-Says (some bus) ports = elim (Bool-cases (number == bus)) [
    | inl e ↦ rw e (ports-Says bus ports (ground (arith, e)))
    | inr e ↦ rw e (λ camera. absurd (ground (arith, e, camera.placed.0)))
  ]

  ids-Says :
      (bus : Option ℕ) (ids : Option (ℕ × ℕ)) (ports : Option Bytes)
      → Says
          (selector_of bus)
          (device_of ids ports)
          (is_match (selector_of bus) (device_of ids ports))
  unfolding is_match
  ids-Says bus none ports = λ camera. absurd (ground (arith, camera.sony))
  ids-Says bus (some (vendor, product)) ports =
      elim (Bool-cases (not (vendor == 0x054c) || not (product == 0x00c0))) [
        | inl e ↦ rw e (other_ids bus ports vendor product e)
        | inr e ↦
            let one : vendor ≡ 0x054c = ground (arith, e) in
            let two : product ≡ 0x00c0 = ground (arith, e) in
            subst
              (λ v.
                Says (selector_of bus) (device_of (some (v, product)) ports)
                  (is_match (selector_of bus) (device_of (some (v, product)) ports)))
              (sym one)
              (subst
                (λ q.
                  Says (selector_of bus) (device_of (some (0x054c, q)) ports)
                    (is_match (selector_of bus) (device_of (some (0x054c, q)) ports)))
                (sym two) (bus-Says bus ports))
      ]

is_match-Says :
    (selector : CameraSelector) (device : Device) → Says selector device (is_match selector device)
is_match-Says selector device =
    ids-Says selector.ports device.bus_number device.address selector.bus device.ids
      device.port_numbers

passed_over :
    (selector : CameraSelector) (device : Device)
    → is_match selector device ≡ ok false
    → IsPassedOver selector device
passed_over selector device e = subst (Says selector device) e (is_match-Says selector device)

is_match-IsCamera :
    (selector : CameraSelector) (device : Device)
    → is_match selector device ≡ ok true
    → IsCamera selector device
is_match-IsCamera selector device e = subst (Says selector device) e (is_match-Says selector device)

-- The two ways in which the list of matches continues.
keep-ok :
    (m : Result SelectError Bool) (device : Device) (rest : Result SelectError (List Device))
    {found : List Device}
    → keep m device rest ≡ ok found
    → ((m ≡ ok false) × (rest ≡ ok found))
      ⊎ ((m ≡ ok true) × ((more : List Device) × (rest ≡ ok more) × (found ≡ device ∷ more)))
unfolding keep
keep-ok (err e) device rest h = ground arith
keep-ok (ok false) device rest h = inl (refl, h)
keep-ok (ok true) device (ok more) h = inr (refl, (more, refl, ground arith))
keep-ok (ok true) device (err e) h = ground arith

matches-none :
    (selector : CameraSelector) (devices : List Device)
    → matches selector devices ≡ ok []
    → All (IsPassedOver selector) devices
unfolding matches
matches-none selector [] h = tt
matches-none selector (device ∷ devices) h =
    elim (keep-ok (is_match selector device) device (matches selector devices) h) [
      | inl (e, rest) ↦ (passed_over selector device e, matches-none selector devices rest)
      | inr (e, (more, rest, found)) ↦ absurd (ground (arith, found))
    ]

matches-one :
    (selector : CameraSelector) (devices : List Device) (device : Device)
    → matches selector devices ≡ ok (device ∷ [])
    → IsOnly selector devices device
unfolding matches
matches-one selector [] device h = absurd (ground arith)
matches-one selector (first ∷ devices) device h =
    elim (keep-ok (is_match selector first) first (matches selector devices) h) [
      | inl (e, rest) ↦
          let only = matches-one selector devices device rest in
          record {
            before = first ∷ only.before;
            later = only.later;
            splits = ap (◌∷◌ first) only.splits;
            chosen = only.chosen;
            before_passed = (passed_over selector first e, only.before_passed);
            later_passed = only.later_passed;
          }
      | inr (e, (more, rest, found)) ↦
          let same : device ≡ first = cc in
          let none_left : more ≡ [] = cc in
          record {
            before = [];
            later = devices;
            splits = ap (λ d. d ∷ devices) (sym same);
            chosen = subst (IsCamera selector) (sym same) (is_match-IsCamera selector first e);
            before_passed = tt;
            later_passed = matches-none selector devices (rest ∙ ap ok none_left);
          }
    ]

select_found-ok :
    (selector : CameraSelector) (devices : List Device) (found : Result SelectError (List Device))
    (device : Device)
    → matches selector devices ≡ found
    → select_found found ≡ ok device
    → IsOnly selector devices device
unfolding select_found only_one
select_found-ok selector devices (err e) device matched h = absurd (ground arith)
select_found-ok selector devices (ok []) device matched h = absurd (ground arith)
select_found-ok selector devices (ok (d ∷ [])) device matched h =
    let same : d ≡ device = cc in
    subst (IsOnly selector devices) same (matches-one selector devices d matched)
select_found-ok selector devices (ok (first ∷ second ∷ more)) device matched h =
    absurd (ground arith)

-- A device is chosen only where it is the one camera of the list that the selector fits: it has the
-- IDs 054c:00c0 and, if the selector names a bus, that bus number and exactly the selector's ports.
-- No other device of the list, before it or behind it, has all of these.
pub select_device-IsOnly :
    (devices : List Device) (selector : CameraSelector) {device : Device}
    → select_device devices selector ≡ ok device
    → IsOnly selector devices device
unfolding select_device
select_device-IsOnly devices selector {device} h =
    select_found-ok selector devices (matches selector devices) device refl h
