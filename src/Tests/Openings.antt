-- ===== src/Tests/Openings.antt =====
-- crates/handycam-libusb/src/transport.rs: sessions that are opened and stopped, and paths.
use handycam_rs.Init.{InitOp, control_out}
use handycam_rs.Usb.{Usb, condition_polling, ◌>>=◌, startup_scan_token}
use handycam_rs.Usb.Replay.{polled_token}
use handycam_rs.Usb.Devices.{CameraSelector}
use handycam_rs.Usb.Transfers.{
  SessionStats, TransferSlot, Completion, Callback, completes, run_callbacks,
}
use handycam_rs.Usb.Paths.{from_str, display}
use handycam_rs.Usb.Paths.RoundTrip.{from_str-display}
use handycam_rs.Usb.Opening.{
  Host, Waits, refused, slot_at, transfer_submission, open_with_init_strategy,
}
use handycam_rs.Usb.Opening.Keeping.{IsClaim}
use handycam_rs.Prelude.{
  ℕ, suc, ◌-◌, ◌≡◌, refl, Bool, true, false, some, List, [], ◌∷◌, arith, ◌==◌, if◌then◌else◌,
  length, replicate, ok, err,
}

-- A device that tells whether its interface is claimed and how many submissions are left.
record Port : Type 0 where
  is_claimed : Bool
  submissions : ℕ

abbrev library : Usb
library = record {
  Handle = Port;
  Error = Unit {0};
  read_control =
      λ port request_type request value index size. (port, ok (0x71 ∷ replicate (size - 1) 0));
  write_control = λ port request_type request value index payload. (port, ok (length payload));
  set_alternate_setting = λ port interface alternate. (port, ok tt);
  sleep = λ port micros. port;
  now = λ port. 0;
}

abbrev host : Host library
host = record {
  is_not_supported = λ error. true;
  kernel_driver_active = λ interface port. (port, err tt);
  claim_interface = λ interface port. (record port { is_claimed = true }, ok tt);
  release_interface = λ interface port. (record port { is_claimed = false }, ok tt);
  alloc_transfer = λ port. (port, true);
  submit_transfer = λ endpoint port.
      (record port { submissions = port.submissions - 1 }, if port.submissions == 0 then 1 else 0);
  cancel_transfer = λ port. port;
}

library-IsClaim : IsClaim library host
library-IsClaim = record {
  claimed = λ port. port.is_claimed;
  asks = λ i h. refl;
  claims = λ i h. refl;
  releases = λ i h. refl;
  allocates = λ h. refl;
  submits = λ e h. refl;
  cancels = λ h. refl;
  reads = λ h request_type request value index size. refl;
  writes = λ h request_type request value index payload. refl;
  sets = λ h i alternate. refl;
  sleeps = λ h micros. refl;
}

-- The callback of a cancelled transfer.
abbrev cancelled : Completion
cancelled = record {
  status = 3;
  packet_status = 0;
  actual_length = 0;
  buffer = [];
  received_at = 0;
  submission = 0;
}

-- A callback for each slot in flight, and for no other.
abbrev cancel_each : ℕ → List TransferSlot → List Callback
cancel_each i [] = []
cancel_each i (slot ∷ slots) =
    let later = cancel_each (suc i) slots in
    if slot.submitted then completes i cancelled ∷ later else later

abbrev waits : Waits
waits slots = cancel_each 0 slots ∷ []

abbrev uncounted : SessionStats
uncounted = record {
  packets = 0;
  nonempty_packets = 0;
  packet_errors = 0;
  bytes = 0;
  transfer_errors = 0;
}

abbrev plan : List InitOp
plan = control_out 0 0x40 0x88 0 0x0340 (1 ∷ 2 ∷ []) ∷ []

-- The fourth submission fails: three transfers are cancelled, and the interface is released.
fourth_submission_fails :
    open_with_init_strategy library host plan condition_polling waits
      (record { is_claimed = false; submissions = 3 })
    ≡ refused (record { is_claimed = false; submissions = 0 }) (transfer_submission 1)
unfolding open_with_init_strategy ◌>>=◌ polled_token startup_scan_token slot_at run_callbacks
fourth_submission_fails = refl

abbrev selector : CameraSelector
selector = record { bus = some 3; ports = 1 ∷ 40 ∷ 200 ∷ [] }

-- "003-1.40.200"
path_text :
    display selector
    ≡ b'0' ∷ b'0' ∷ b'3' ∷ b'-' ∷ b'1' ∷ b'.' ∷ b'4' ∷ b'0' ∷ b'.' ∷ b'2' ∷ b'0' ∷ b'0' ∷ []
unfolding display
path_text = refl

from_str-display_example : from_str (display selector) ≡ ok selector
from_str-display_example = from_str-display selector (
  (omega arith, omega arith),
  refl,
  ((omega arith, omega arith), ((omega arith, omega arith), ((omega arith, omega arith), tt))),
)
