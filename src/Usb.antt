-- ===== src/Usb.antt =====
-- crates/handycam-libusb/src/transport.rs: the camera on the bus. The device is a parameter with a
-- clock; a call returns the device behind it, with its result.
pub mod Replay
pub mod Polling
pub mod Schedule
pub mod Transfers
pub mod Session
pub mod Devices
pub mod Selection
pub mod Paths
pub mod Opening
use handycam_rs.Control.{scan_ack_token, command_block_index}
use handycam_rs.Init.{InitOp, control_in, control_out}
use handycam_rs.Prelude.{
  ℕ, zero, suc, ◌+◌, bit_or, Bool, false, not, ◌&&◌, Option, none, some, List, [], ◌∷◌, leb, ◌==◌,
  if◌then◌else◌, Bytes, length, get_or, any, Result, ok, err,
}

-- What the code uses of `rusb::DeviceHandle`, `std::thread::sleep` and `Instant::now`, in
-- microseconds. A read returns the bytes that arrived, at most as many as asked for.
pub record Usb : Type 1 where
  pub Handle : Type 0
  pub Error : Type 0
  pub read_control : Handle → ℕ → ℕ → ℕ → ℕ → ℕ → Handle × Result Error Bytes
  pub write_control : Handle → ℕ → ℕ → ℕ → ℕ → Bytes → Handle × Result Error ℕ
  pub set_alternate_setting : Handle → ℕ → ℕ → Handle × Result Error (Unit {0})
  pub sleep : Handle → ℕ → Handle
  pub now : Handle → ℕ

abbrev pub status_index : ℕ
status_index = 0x0340

abbrev pub status_size : ℕ
status_size = 64

abbrev pub status_poll_interval : ℕ
status_poll_interval = 10_000

abbrev pub status_poll_timeout : ℕ
status_poll_timeout = 500_000

abbrev pub startup_scan_tokens : Bytes
startup_scan_tokens = 0x71 ∷ 0x81 ∷ 0x91 ∷ 0xa1 ∷ []

pub data InitStrategy : Type 0 where
  literal_replay condition_polling playback_condition_polling : InitStrategy

unfoldable pub acknowledgement_token : InitStrategy → ℕ → Option ℕ
acknowledgement_token literal_replay command_token = none
acknowledgement_token condition_polling command_token = some command_token
acknowledgement_token playback_condition_polling command_token = some (bit_or command_token 0x08)

-- The errors of a claimed handle; `out_of_fuel` is the model's own.
pub data UsbTransportError (lib : Usb) : Type 0 where
  usb : lib.Error → UsbTransportError lib
  short_control_read : ℕ → ℕ → ℕ → UsbTransportError lib
  short_control_write : ℕ → ℕ → ℕ → UsbTransportError lib
  status_poll_timed_out : ℕ → ℕ → UsbTransportError lib
  out_of_fuel : UsbTransportError lib

-- A computation on the device that may fail, and its `?`.
abbrev pub Run : Usb → Type 0 → Type 0
Run lib A = lib.Handle → lib.Handle × Result (UsbTransportError lib) A

module _ {lib : Usb} {A B : Type 0} where
  unfoldable pub continue_with :
      lib.Handle × Result (UsbTransportError lib) A
      → (A → Run lib B)
      → lib.Handle × Result (UsbTransportError lib) B
  continue_with (handle, ok a) f = f a handle
  continue_with (handle, err e) f = (handle, err e)

  infixl 5 ◌>>=◌
  unfoldable pub ◌>>=◌ : Run lib A → (A → Run lib B) → Run lib B
  unfolding continue_with
  (m >>= f) handle = continue_with (m handle) f

-- `From<rusb::Error>`, the conversion of `?`.
abbrev pub as_usb : {lib : Usb} {A : Type 0} → Result lib.Error A → Result (UsbTransportError lib) A
as_usb (ok a) = ok a
as_usb (err e) = err (usb e)

abbrev pub is_scan_token : ℕ → Bool
is_scan_token token = any (λ known. known == token) startup_scan_tokens

unfoldable pub startup_scan_token : InitOp → Option ℕ
startup_scan_token (control_out delay request_type request value index payload) =
    if not (index == command_block_index) then none else elim (scan_ack_token payload) [
      | none ↦ none
      | some token ↦ if is_scan_token token then some token else none
    ]
startup_scan_token _ = none

unfoldable pub is_status_poll : InitOp → Bool
is_status_poll (control_in delay request_type request value index size) =
    request_type == 0xc0 && request == 0x88 && value == 0 && index == status_index && size == 64
is_status_poll _ = false

-- `end_of_status_poll_run` as the number of status polls that the rest of the plan starts with.
unfoldable pub poll_run : List InitOp → ℕ
poll_run [] = 0
poll_run (operation ∷ rest) =
    let run = poll_run rest in if is_status_poll operation then suc run else 0

module _ (lib : Usb) where
  open lib use {Handle, Error, read_control, write_control, set_alternate_setting, sleep, now}

  unfoldable pub ret : {A : Type 0} → A → Run lib A
  ret a handle = (handle, ok a)

  unfoldable pub fail : {A : Type 0} → UsbTransportError lib → Run lib A
  fail e handle = (handle, err e)

  -- A read of exactly `size` bytes.
  unfoldable pub read_exactly : ℕ → ℕ → ℕ → ℕ → ℕ → Run lib Bytes
  unfolding ret fail
  read_exactly request_type request value index size = do
    bytes ← λ handle.
        let (handle', result) = read_control handle request_type request value index size in
        (handle', as_usb result)
    if not (length bytes == size)
        then fail (short_control_read index size (length bytes))
        else ret bytes

  unfoldable pub write_all : ℕ → ℕ → ℕ → ℕ → Bytes → Run lib (Unit {0})
  unfolding ret fail
  write_all request_type request value index payload = do
    actual ← λ handle.
        let (handle', result) = write_control handle request_type request value index payload in
        (handle', as_usb result)
    if not (actual == length payload)
        then fail (short_control_write index (length payload) actual)
        else ret tt

  unfoldable pub sleep_for : ℕ → Run lib (Unit {0})
  sleep_for micros handle = (sleep handle micros, ok tt)

  unfoldable pub read_status_block : Run lib Bytes
  unfolding read_exactly
  read_status_block = read_exactly 0xc0 0x88 0 status_index status_size

  -- The test of the deadline at the end of a round.
  unfoldable pub timed_out : ℕ → ℕ → ℕ → Run lib ℕ → Run lib ℕ
  timed_out deadline token last_status again handle =
      if leb deadline (now handle)
      then (handle, err (status_poll_timed_out token last_status))
      else again handle

  -- The loop of `poll_status_acknowledgement`, behind the computation of the deadline.
  unfoldable pub poll_until : ℕ → ℕ → ℕ → ℕ → Run lib ℕ
  unfolding read_status_block sleep_for timed_out ret fail
  poll_until zero deadline attempts token = fail out_of_fuel
  poll_until (suc fuel) deadline attempts token = do
    slept ← sleep_for status_poll_interval
    status ← read_status_block
    let last_status = get_or status 0 0
    let again = poll_until fuel deadline (attempts + 1) token
    if last_status == token then ret (attempts + 1) else timed_out deadline token last_status again

  -- Every round sleeps for the interval, so that the deadline passes within 50.
  unfoldable pub poll_status_acknowledgement : ℕ → Run lib ℕ
  unfolding poll_until
  poll_status_acknowledgement token handle =
      poll_until 50 (now handle + status_poll_timeout) 0 token handle
