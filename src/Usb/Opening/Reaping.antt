-- ===== src/Usb/Opening/Reaping.antt =====
-- The wait for the transfers of a stopped session: crates/handycam-libusb/src/transport.rs.
use handycam_rs.Usb.Transfers.{TransferSlot, Callback, Slots, run_callback, run_callbacks}
use handycam_rs.Usb.Session.{Reaped, names_slot, callback-stopped, run_callbacks-Reaped}
use handycam_rs.Usb.Opening.{is_submitted, reap}
use handycam_rs.Prelude.{
  ℕ, suc, ◌≡◌, refl, ◌∙◌, inl, inr, Bool, false, ◌||◌, Option, none, some, List, [], ◌∷◌, ◌++◌,
  arith, Bool-cases, get_elem?, any,
}

abbrev pub concat : List (List Callback) → List Callback
concat [] = []
concat (callbacks ∷ rounds) = callbacks ++ concat rounds

pub any-append :
    {A : Type 0} (p : A → Bool) (xs ys : List A) → any p (xs ++ ys) ≡ any p xs || any p ys
any-append p [] ys = refl
any-append p (x ∷ xs) ys = ground (arith, any-append p xs ys)

none_submitted :
    (slots : List TransferSlot)
    → ((i : ℕ) (slot : TransferSlot) → get_elem? slots i ≡ some slot → slot.submitted ≡ false)
    → any is_submitted slots ≡ false
none_submitted [] reaped = refl
none_submitted (slot ∷ slots) reaped =
    rw (reaped 0 slot refl) (none_submitted slots (λ i. reaped (suc i)))

run_callbacks-stopped :
    (callbacks : List Callback) (transfers : Slots)
    → transfers.shared.running ≡ false
    → (run_callbacks transfers callbacks).shared.running ≡ false
unfolding run_callbacks
run_callbacks-stopped [] transfers h = h
run_callbacks-stopped (callback ∷ callbacks) transfers h =
    run_callbacks-stopped callbacks (run_callback transfers callback)
      (callback-stopped transfers callback h)

-- A wait that ends.
abbrev pub IsOver : Option Slots → Type 0
IsOver none = ⊥
IsOver (some transfers) = Unit

pub reap-IsOver :
    (rounds : List (List Callback)) (transfers : Slots)
    → transfers.shared.running ≡ false
    → ((i : ℕ) → any (names_slot i) (concat rounds) ≡ false → Reaped i transfers)
    → IsOver (reap rounds transfers)
unfolding reap
reap-IsOver [] transfers stopped reaped =
    rw (none_submitted transfers.slots (λ i slot found. reaped i refl slot found)) tt
reap-IsOver (callbacks ∷ rounds) transfers stopped reaped =
    elim (Bool-cases (any is_submitted transfers.slots)) [
      | inr none_left ↦ rw none_left tt
      | inl some_left ↦ rw some_left (
          reap-IsOver rounds (run_callbacks transfers callbacks)
            (run_callbacks-stopped callbacks transfers stopped)
            (λ i later. run_callbacks-Reaped callbacks transfers i stopped (λ now.
              reaped i
                (any-append (names_slot i) callbacks (concat rounds) ∙ rw (now, later) refl))))
    ]
