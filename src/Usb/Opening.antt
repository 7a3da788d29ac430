-- ===== src/Usb/Opening.antt =====
-- crates/handycam-libusb/src/transport.rs: the life of a `UsbSession` from `open_with_init_strategy`
-- behind the choice of the device to `stop`. What waiting for libusb brings is a list of rounds, each the
-- callbacks that run in it.
pub mod Keeping
pub mod Reaping
pub mod Claims
use handycam_rs.Init.{InitOp}
use handycam_rs.Stream.{Endpoint, boundary, video}
use handycam_rs.Usb.{Usb, UsbTransportError, usb, InitStrategy}
use handycam_rs.Usb.Replay.{replay_initialization}
use handycam_rs.Usb.Devices.{video_interface}
use handycam_rs.Usb.Transfers.{
  SessionEvent, Shared, SessionStats, TransferSlot, Callback, Slots, run_callbacks, stop_running,
  transfers_per_endpoint,
}
use handycam_rs.Prelude.{
  ℕ, zero, suc, ◌+◌, ◌-◌, ◌*◌, ◌/◌, ◌%◌, ◌^◌, ◌≤◌, ◌<◌, min, max, bit_and, bit_or, ◌≡◌, refl, sym,
  ap, ap₂, ◌∙◌, ◌≢◌, ◌↔◌, ◌⊎◌, inl, inr, Bool, true, false, not, ◌&&◌, ◌||◌, Option, none, some,
  List, [], ◌∷◌, ◌++◌, map, reverse, append-nil, append_assoc, arith, ltb, leb, ◌==◌, if◌then◌else◌,
  ltb→lt, lt→ltb, le→ltb_false, leb→le, ==_iff, ==_refl, Bool-cases, Option-cases, Bytes, length,
  get_elem?, get_or, set, take, drop, replicate, any, All, length-append, take-append-drop,
  take-length-append, drop-length-append, length-take, length-drop, length-replicate, All-append,
  IsByte, bytes_eq, bytes_eq_iff, u32_max, u64_max, wrap64, saturating_add, saturating_sub,
  saturating_mul, checked_sub, wrapping_sub16, ◌<<<◌, ◌>>>◌, be_bytes, length-be_bytes, Result, ok,
  err, ◌>>=◌, ok_or, Ensures, bind-Ensures, Fails, bind-Fails, Result-cases,
}

-- What the code uses of `rusb::DeviceHandle` and libusb besides what a replay does. An allocation
-- tells whether it returned a transfer; a submission returns libusb's code.
pub record Host (lib : Usb) : Type 1 where
  pub is_not_supported : lib.Error → Bool
  pub kernel_driver_active : ℕ → lib.Handle → lib.Handle × Result lib.Error Bool
  pub claim_interface : ℕ → lib.Handle → lib.Handle × Result lib.Error (Unit {0})
  pub release_interface : ℕ → lib.Handle → lib.Handle × Result lib.Error (Unit {0})
  pub alloc_transfer : lib.Handle → lib.Handle × Bool
  pub submit_transfer : Endpoint → lib.Handle → lib.Handle × ℕ
  pub cancel_transfer : lib.Handle → lib.Handle

pub data SessionError (lib : Usb) : Type 0 where
  transport : UsbTransportError lib → SessionError lib
  kernel_driver_in_use transfer_allocation : SessionError lib
  transfer_submission : ℕ → SessionError lib

pub record UsbSession (lib : Usb) : Type 0 where
  pub handle : lib.Handle
  pub transfers : Slots
  pub stopped : Bool

-- The session before its transfers are allocated.
abbrev pub new_session : {lib : Usb} → lib.Handle → UsbSession lib
new_session handle = record {
  handle = handle;
  transfers = record {
    shared = record {
      running = true;
      events = [];
      stats = record {
        packets = 0;
        nonempty_packets = 0;
        packet_errors = 0;
        bytes = 0;
        transfer_errors = 0;
      };
    };
    slots = [];
  };
  stopped = false;
}

-- The endpoint of a slot, by its place, and the size of its buffer.
unfoldable pub slot_at : ℕ → Bool → TransferSlot
slot_at index submitted =
    if index % 2 == 0
    then record { endpoint = boundary; buffer_size = 8; submitted = submitted }
    else record { endpoint = video; buffer_size = 768; submitted = submitted }

abbrev pub is_submitted : TransferSlot → Bool
is_submitted slot = slot.submitted

-- What waiting for libusb brings, in rounds, after transfers with these slots were cancelled.
abbrev pub Waits : Type 0
Waits = List TransferSlot → List (List Callback)

-- The loop that waits until nothing is submitted; `none` where the rounds do not bring it about.
unfoldable pub reap : List (List Callback) → Slots → Option Slots
reap [] transfers = if any is_submitted transfers.slots then none else some transfers
reap (callbacks ∷ rounds) transfers =
    let later = reap rounds (run_callbacks transfers callbacks) in
    if any is_submitted transfers.slots then later else some transfers

module _ (lib : Usb) (host : Host lib) where
  open lib use {Handle, Error, set_alternate_setting}
  open host use {
    is_not_supported, kernel_driver_active, claim_interface, release_interface, alloc_transfer,
    submit_transfer, cancel_transfer,
  }

  abbrev pub push_slot : TransferSlot → Handle → UsbSession lib → UsbSession lib
  push_slot slot handle session = record session {
    handle = handle;
    transfers = record session.transfers { slots = session.transfers.slots ++ slot ∷ [] };
  }

  abbrev pub Allocated : Type 0
  Allocated = UsbSession lib × Result (SessionError lib) (Unit {0})

  -- The rest of the loop, behind an allocation and behind a submission.
  unfoldable pub behind_submission :
      ℕ → (UsbSession lib → Allocated) → UsbSession lib → Handle × ℕ → Allocated
  behind_submission index rest session (handle, code) =
      if not (code == 0)
      then (push_slot (slot_at index false) handle session, err (transfer_submission code))
      else rest (push_slot (slot_at index true) handle session)

  unfoldable pub behind_allocation :
      ℕ → (UsbSession lib → Allocated) → UsbSession lib → Handle × Bool → Allocated
  unfolding behind_submission
  behind_allocation index rest session (handle, false) =
      (record session { handle = handle }, err transfer_allocation)
  behind_allocation index rest session (handle, true) =
      behind_submission index rest session (submit_transfer (slot_at index false).endpoint handle)

  -- So many slots, from this place on.
  unfoldable pub submit_slots : ℕ → ℕ → UsbSession lib → Allocated
  unfolding behind_allocation
  submit_slots zero index session = (session, ok tt)
  submit_slots (suc count) index session =
      behind_allocation index (submit_slots count (suc index)) session
        (alloc_transfer session.handle)

  unfoldable pub allocate_and_submit : UsbSession lib → Allocated
  unfolding submit_slots
  allocate_and_submit session = submit_slots (transfers_per_endpoint * 2) 0 session

  -- The loop that cancels what is submitted.
  unfoldable pub cancel_all : List TransferSlot → Handle → Handle
  cancel_all [] handle = handle
  cancel_all (slot ∷ slots) handle =
      cancel_all slots (if slot.submitted then cancel_transfer handle else handle)

  -- Alternate setting 0, release, and the freeing of the slots.
  unfoldable pub restore : Handle → Handle
  restore handle =
      (release_interface video_interface (set_alternate_setting handle video_interface 0).0).0

  unfoldable pub finish_stop : Handle → Option Slots → Option (UsbSession lib)
  unfolding restore
  finish_stop handle none = none
  finish_stop handle (some transfers) = some (record {
    handle = restore handle;
    transfers = record transfers { slots = [] };
    stopped = true;
  })

  unfoldable pub stop : Waits → UsbSession lib → Option (UsbSession lib)
  unfolding cancel_all reap finish_stop
  stop waits session =
      let cancelled = cancel_all session.transfers.slots session.handle in
      let transfers = record session.transfers { shared = stop_running session.transfers.shared } in
      if session.stopped
      then some session
      else finish_stop cancelled (reap (waits session.transfers.slots) transfers)

  -- A session, or the handle that an error leaves; `dropping` where a session that could not be
  -- completed still waits for its transfers.
  pub data Opened : Type 0 where
    session_ready : UsbSession lib → Opened
    refused : Handle → SessionError lib → Opened
    dropping : Opened

  unfoldable pub dropped : SessionError lib → Option (UsbSession lib) → Opened
  dropped error none = dropping
  dropped error (some session) = refused session.handle error

  -- `allocate_and_submit(sender)?`: an error drops the session, which stops it.
  unfoldable pub behind_transfers : Waits → Allocated → Opened
  unfolding stop dropped
  behind_transfers waits (session, ok done) = session_ready session
  behind_transfers waits (session, err error) = dropped error (stop waits session)

  unfoldable pub behind_replay : Waits → Handle × Result (UsbTransportError lib) (Unit {0}) → Opened
  unfolding allocate_and_submit behind_transfers restore
  behind_replay waits (handle, ok done) =
      behind_transfers waits (allocate_and_submit (new_session handle))
  behind_replay waits (handle, err error) = refused (restore handle) (transport error)

  unfoldable pub behind_claim :
      List InitOp → InitStrategy → Waits → Handle × Result Error (Unit {0}) → Opened
  unfolding behind_replay replay_initialization
  behind_claim plan strategy waits (handle, ok done) =
      behind_replay waits (replay_initialization lib plan strategy handle)
  behind_claim plan strategy waits (handle, err error) = refused handle (transport (usb error))

  unfoldable pub behind_driver :
      List InitOp → InitStrategy → Waits → Handle × Result Error Bool → Opened
  unfolding behind_claim
  behind_driver plan strategy waits (handle, ok true) = refused handle kernel_driver_in_use
  behind_driver plan strategy waits (handle, ok false) =
      behind_claim plan strategy waits (claim_interface video_interface handle)
  behind_driver plan strategy waits (handle, err error) =
      if is_not_supported error
      then behind_claim plan strategy waits (claim_interface video_interface handle)
      else refused handle (transport (usb error))

  -- From the opened device.
  unfoldable pub open_with_init_strategy : List InitOp → InitStrategy → Waits → Handle → Opened
  unfolding behind_driver
  open_with_init_strategy plan strategy waits handle =
      behind_driver plan strategy waits (kernel_driver_active video_interface handle)
