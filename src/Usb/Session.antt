-- ===== src/Usb/Session.antt =====
-- Runs of the transfer callbacks of crates/handycam-libusb/src/transport.rs, in any order.
use mathlib.Core.Path.{subst}
use handycam_rs.Usb.Transfers.{
  ends_session, Shared, TransferSlot, Completion, receive, resubmit, handle_transfer_callback,
  handle_panic, Callback, completes, panics, Slots, run_callback, run_callbacks,
}
use handycam_rs.Prelude.{
  ℕ, zero, suc, ◌≡◌, refl, ap, ◌≢◌, inl, inr, Bool, true, false, Option, none, some, List, [], ◌∷◌,
  arith, ◌==◌, Option-cases, get_elem?, set, any, All,
}

abbrev pub has_end : Shared → Bool
has_end shared = any ends_session shared.events

-- Both halves of what `IsLive` says, each where it is asked for.
abbrev Live : Slots → Type 0
Live session =
    (session.shared.running ≡ true → All (λ slot. slot.submitted ≡ true) session.slots)
    × (session.shared.running ≡ false → has_end session.shared ≡ true)

-- The session has not stopped without saying so.
abbrev Told : Shared → Type 0
Told shared = shared.running ≡ false → has_end shared ≡ true

abbrev pub Submitted : TransferSlot → Type 0
Submitted slot = slot.submitted ≡ true

-- While a session runs, every transfer is submitted; where it runs no more, an event that ends the
-- session has been sent.
abbrev LiveAt : Bool → Slots → Type 0
LiveAt true session = All Submitted session.slots
LiveAt false session = has_end session.shared ≡ true

abbrev pub IsLive : Slots → Type 0
IsLive session = LiveAt session.shared.running session

-- The same, said of the slot that is found.
abbrev pub Reaped : ℕ → Slots → Type 0
Reaped i session =
    (slot : TransferSlot) → get_elem? session.slots i ≡ some slot → slot.submitted ≡ false

abbrev pub callback_slot : Callback → ℕ
callback_slot (completes i c) = i
callback_slot (panics i stats) = i

get_elem?-set :
    (slots : List TransferSlot) (i j : ℕ) (slot : TransferSlot) (P : TransferSlot → Type 0)
    → P slot
    → ((i ≢ j) → (other : TransferSlot) → get_elem? slots j ≡ some other → P other)
    → (other : TransferSlot) → get_elem? (set slots i slot) j ≡ some other
    → P other
get_elem?-set [] i j slot P hs h other found = ground arith
get_elem?-set (s ∷ slots) zero zero slot P hs h other found =
    subst P (ap (λ o. elim o [ none ↦ slot | some z ↦ z ]) found) hs
get_elem?-set (s ∷ slots) zero (suc j) slot P hs h other found = h (ground arith) other found
get_elem?-set (s ∷ slots) (suc i) zero slot P hs h other found = h (ground arith) other found
get_elem?-set (s ∷ slots) (suc i) (suc j) slot P hs h other found =
    get_elem?-set slots i j slot P hs (λ ne. h (ground (arith, ne))) other found

-- A session that has stopped takes no transfer up again.
receive-stopped :
    (slot : TransferSlot) (c : Completion) (shared : Shared)
    → shared.running ≡ false
    → (receive slot c shared).running ≡ false
unfolding receive
receive-stopped slot c shared h = ground arith

pub callback-stopped :
    (session : Slots) (callback : Callback)
    → session.shared.running ≡ false
    → (run_callback session callback).shared.running ≡ false
unfolding run_callback handle_transfer_callback handle_panic resubmit
callback-stopped session (completes i c) h = elim (Option-cases (get_elem? session.slots i)) [
  | inl e ↦ rw (run_callback, e) h
  | inr (slot, e) ↦
      rw (run_callback, e, receive-stopped slot c session.shared h)
        (receive-stopped slot c session.shared h)
]
callback-stopped session (panics i stats) h = elim (Option-cases (get_elem? session.slots i)) [
  | inl e ↦ rw (run_callback, e) h
  | inr (slot, e) ↦ rw (run_callback, e) refl
]

-- The slot that a callback of a stopped session leaves.
stopped_slot :
    (slot : TransferSlot) (c : Completion) (shared : Shared)
    → shared.running ≡ false
    → (resubmit slot c shared).1.submitted ≡ false
unfolding resubmit
stopped_slot slot c shared h = rw h refl

-- A callback of a stopped session reaps its own slot, and no slot is taken up again.
callback-Reaped :
    (session : Slots) (callback : Callback) (j : ℕ)
    → session.shared.running ≡ false
    → (callback_slot callback ≢ j → Reaped j session)
    → Reaped j (run_callback session callback)
unfolding run_callback handle_transfer_callback handle_panic
callback-Reaped session (completes i c) j h reaped =
    elim (Option-cases (get_elem? session.slots i)) [
      | inl e ↦ rw (run_callback, e) (λ slot found. reaped (λ same. ground arith) slot found)
      | inr (slot, e) ↦
          let received = receive slot c session.shared in
          rw (run_callback, e)
            (get_elem?-set session.slots i j (resubmit slot c received).1 (λ s. s.submitted ≡ false)
              (stopped_slot slot c received (receive-stopped slot c session.shared h)) reaped)
    ]
callback-Reaped session (panics i stats) j h reaped =
    elim (Option-cases (get_elem? session.slots i)) [
      | inl e ↦ rw (run_callback, e) (λ slot found. reaped (λ same. ground arith) slot found)
      | inr (slot, e) ↦
          rw (run_callback, e)
            (get_elem?-set session.slots i j (handle_panic slot stats session.shared).1
              (λ s. s.submitted ≡ false) refl reaped)
    ]

abbrev pub names_slot : ℕ → Callback → Bool
names_slot i callback = callback_slot callback == i

pub run_callbacks-Reaped :
    (callbacks : List Callback) (session : Slots) (i : ℕ)
    → session.shared.running ≡ false
    → (any (names_slot i) callbacks ≡ false → Reaped i session)
    → Reaped i (run_callbacks session callbacks)
unfolding run_callbacks
run_callbacks-Reaped [] session i h reaped = reaped refl
run_callbacks-Reaped (callback ∷ callbacks) session i h reaped =
    run_callbacks-Reaped callbacks (run_callback session callback) i
      (callback-stopped session callback h)
      (λ later. callback-Reaped session callback i h (λ other. reaped (ground arith)))

abbrev Unsubmitted : Option TransferSlot → Type 0
Unsubmitted none = Unit
Unsubmitted (some slot) = slot.submitted ≡ false

-- The slot at this place has no transfer in flight.
abbrev pub IsReaped : ℕ → Slots → Type 0
IsReaped i session = Unsubmitted (get_elem? session.slots i)

-- Once a session has stopped running, one callback for a slot, completed, failed, cancelled or
-- panicked, is enough to have its transfer out of flight for good, whatever other callbacks run
-- before and behind it: so the loop that waits for the slots after cancelling them ends when
-- each transfer's callback has run.
pub run_callbacks-IsReaped :
    (callbacks : List Callback) (session : Slots) (i : ℕ)
    → session.shared.running ≡ false
    → any (names_slot i) callbacks ≡ true
    → IsReaped i (run_callbacks session callbacks)
run_callbacks-IsReaped callbacks session i h named =
    elim (Option-cases (get_elem? (run_callbacks session callbacks).slots i)) [
      | inl e ↦ rw e tt
      | inr (slot, e) ↦
          rw e (run_callbacks-Reaped callbacks session i h (λ unnamed. ground arith) slot e)
    ]
