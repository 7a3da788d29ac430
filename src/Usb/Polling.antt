-- ===== src/Usb/Polling.antt =====
-- How long `poll_status_acknowledgement` of crates/handycam-libusb/src/transport.rs polls.
use handycam_rs.Usb.{
  Usb, UsbTransportError, short_control_read, out_of_fuel, Run, continue_with, ◌>>=◌, as_usb,
  timed_out, ret, fail, read_exactly, sleep_for, read_status_block, status_index, status_size,
  status_poll_interval, status_poll_timeout, poll_until, poll_status_acknowledgement,
}
use handycam_rs.Prelude.{
  ℕ, zero, suc, ◌+◌, ◌*◌, ◌≤◌, ◌<◌, ◌≡◌, inl, inr, not, arith, leb, ◌==◌, if◌then◌else◌, Bool-cases,
  Bytes, length, get_or, Result, ok, err,
}

-- What the clock promises: a sleep lasts at least as long as asked for, and a read does not turn
-- the clock back.
pub record IsClock (lib : Usb) : Type 0 where
  pub sleep_lasts :
      (handle : lib.Handle) (micros : ℕ)
      → lib.now handle + micros ≤ lib.now (lib.sleep handle micros)
  pub read_forward :
      (handle : lib.Handle) (request_type request value index size : ℕ)
      → lib.now handle ≤ lib.now (lib.read_control handle request_type request value index size).0

-- A result after at least one read and at most `most`, or an error of the device's own.
abbrev pub IsPolled : (lib : Usb) → ℕ → Result (UsbTransportError lib) ℕ → Type 0
IsPolled lib most (ok attempts) = (1 ≤ attempts) × (attempts ≤ most)
IsPolled lib most (err out_of_fuel) = ⊥
IsPolled lib most (err _) = Unit

module _ (lib : Usb) (clock : IsClock lib) where
  -- A status read does not turn the clock back, and its errors are the device's.
  abbrev ReadStatus : lib.Handle → lib.Handle × Result (UsbTransportError lib) Bytes → Type 0
  ReadStatus handle (handle', ok status) = lib.now handle ≤ lib.now handle'
  ReadStatus handle (handle', err e) = (most : ℕ) → IsPolled lib most (err e)

  read_exactly-ReadStatus :
      (handle handle' : lib.Handle) (index size : ℕ) (result : Result lib.Error Bytes)
      → lib.now handle ≤ lib.now handle'
      → ReadStatus handle (
          continue_with
            (handle', as_usb result)
            (λ bytes.
              if not (length bytes == size)
              then fail lib (short_control_read index size (length bytes))
              else ret lib bytes))
  unfolding continue_with fail ret
  read_exactly-ReadStatus handle handle' index size (err e) forward = λ most. tt
  read_exactly-ReadStatus handle handle' index size (ok bytes) forward =
      elim (Bool-cases (length bytes == size)) [ inl e ↦ rw e forward | inr e ↦ rw e (λ most. tt) ]

  read_status_block-ReadStatus :
      (handle : lib.Handle) → ReadStatus handle (read_status_block lib handle)
  unfolding read_status_block read_exactly ◌>>=◌ continue_with
  read_status_block-ReadStatus handle =
      let read = lib.read_control handle 0xc0 0x88 0 status_index status_size in
      read_exactly-ReadStatus handle read.0 status_index status_size read.1
        (clock.read_forward handle 0xc0 0x88 0 status_index status_size)

  -- What a round does with the status that it has read.
  abbrev answer : ℕ → ℕ → ℕ → ℕ → Bytes → Run lib ℕ
  answer fuel deadline attempts token status =
      if get_or status 0 0 == token
      then ret lib (attempts + 1)
      else timed_out lib deadline token (get_or status 0 0)
          (poll_until lib fuel deadline (attempts + 1) token)

  answer-IsPolled :
      (fuel deadline attempts token : ℕ) (status : Bytes) (handle : lib.Handle)
      → (lib.now handle < deadline
          → IsPolled lib
              (attempts + 1 + fuel)
              (poll_until lib fuel deadline (attempts + 1) token handle).1)
      → IsPolled lib (attempts + suc fuel) (answer fuel deadline attempts token status handle).1
  unfolding timed_out ret
  answer-IsPolled fuel deadline attempts token status handle again =
      elim (Bool-cases (get_or status 0 0 == token)) [
        | inl e ↦ rw e (omega arith, omega arith)
        | inr e ↦ elim (Bool-cases (leb deadline (lib.now handle))) [
          | inl late ↦ rw (e, late) tt
          | inr early ↦
              let next : attempts + suc fuel ≡ attempts + 1 + fuel = omega arith in
              rw (e, early, next) (again (ground (arith, early)))
        ]
      ]

  read-IsPolled :
      (fuel deadline attempts token : ℕ) (before : lib.Handle)
      (read : lib.Handle × Result (UsbTransportError lib) Bytes)
      → ReadStatus before read
      → ((handle : lib.Handle)
          → lib.now before ≤ lib.now handle
          → lib.now handle < deadline
          → IsPolled lib
              (attempts + 1 + fuel)
              (poll_until lib fuel deadline (attempts + 1) token handle).1)
      → IsPolled lib
          (attempts + suc fuel)
          (continue_with read (answer fuel deadline attempts token)).1
  unfolding continue_with
  read-IsPolled fuel deadline attempts token before (handle, ok status) forward again =
      answer-IsPolled fuel deadline attempts token status handle (again handle forward)
  read-IsPolled fuel deadline attempts token before (handle, err e) fails again =
      fails (attempts + suc fuel)

  poll_until-IsPolled :
      (fuel deadline attempts token : ℕ) (handle : lib.Handle)
      → 1 ≤ fuel
      → deadline ≤ lib.now handle + fuel * status_poll_interval
      → IsPolled lib (attempts + fuel) (poll_until lib fuel deadline attempts token handle).1
  unfolding poll_until sleep_for ◌>>=◌ continue_with
  poll_until-IsPolled zero deadline attempts token handle some_fuel enough = absurd (omega arith)
  poll_until-IsPolled (suc fuel) deadline attempts token handle some_fuel enough =
      let slept = lib.sleep handle status_poll_interval in
      let lasted = clock.sleep_lasts handle status_poll_interval in
      read-IsPolled fuel deadline attempts token slept (read_status_block lib slept)
        (read_status_block-ReadStatus slept)
        (λ later forward early.
          poll_until-IsPolled fuel deadline (attempts + 1) token later (omega arith) (omega arith))

  -- Polling ends by itself: whatever the camera answers, the deadline passes within 50 reads, so
  -- that the loop returns after at least one read and at most 50, or with an error of the device
  -- or the timeout (on a clock that runs at least while the code sleeps).
  pub poll_status_acknowledgement-IsPolled :
      (token : ℕ) (handle : lib.Handle)
      → IsPolled lib 50 (poll_status_acknowledgement lib token handle).1
  unfolding poll_status_acknowledgement
  poll_status_acknowledgement-IsPolled token handle =
      poll_until-IsPolled 50 (lib.now handle + status_poll_timeout) 0 token handle (omega arith)
        (omega arith)
