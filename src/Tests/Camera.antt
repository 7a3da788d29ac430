-- ===== src/Tests/Camera.antt =====
-- Replays, transfers and device lists of crates/handycam-libusb/src/transport.rs.
use handycam_rs.Control.{command_block_index}
use handycam_rs.Init.{InitOp, control_in, control_out, set_interface}
use handycam_rs.Usb.{Usb, literal_replay, condition_polling, poll_status_acknowledgement}
use handycam_rs.Usb.Replay.{replay_initialization}
use handycam_rs.Usb.Polling.{IsClock, IsPolled, poll_status_acknowledgement-IsPolled}
use handycam_rs.Usb.Schedule.{
  operate, Replays, run_actions, replay_initialization-Replays, replay_initialization-literal,
}
use handycam_rs.Usb.Transfers.{
  Completion, Callback, completes, panics, Slots, run_callbacks, submitted_session,
}
use handycam_rs.Usb.Session.{IsReaped, run_callbacks-IsReaped}
use handycam_rs.Usb.Devices.{CameraSelector, Device, is_match, select_device}
use handycam_rs.Usb.Selection.{IsOnly, select_device-IsOnly}
use handycam_rs.Prelude.{
  ℕ, ◌+◌, ◌-◌, ◌≡◌, refl, false, none, some, List, [], ◌∷◌, ◌++◌, map, arith, length, replicate,
  bytes_eq, ok,
}

-- A camera whose status block starts with 0x71, on a clock in microseconds that moves while the
-- code sleeps.
abbrev camera : Usb
camera = record {
  Handle = ℕ;
  Error = Unit {0};
  read_control =
      λ clock request_type request value index size. (clock, ok (0x71 ∷ replicate (size - 1) 0));
  write_control = λ clock request_type request value index payload. (clock, ok (length payload));
  set_alternate_setting = λ clock interface alternate. (clock, ok tt);
  sleep = λ clock micros. clock + micros;
  now = λ clock. clock;
}

camera-IsClock : IsClock camera
camera-IsClock = record {
  sleep_lasts = λ clock micros. omega arith;
  read_forward = λ clock request_type request value index size. omega arith;
}

poll_status_acknowledgement-IsPolled_example :
    IsPolled camera 50 (poll_status_acknowledgement camera 0x72 0).1
poll_status_acknowledgement-IsPolled_example =
    poll_status_acknowledgement-IsPolled camera camera-IsClock 0x72 0

-- A startup scan command, two status reads and an alternate setting.
abbrev plan : List InitOp
plan =
    control_out 0 0x40 0x88 0 command_block_index (replicate 61 0 ++ 0x79 ∷ 0x10 ∷ 0x71 ∷ [])
    ∷ control_in 5 0xc0 0x88 0 0x0340 64
    ∷ control_in 5 0xc0 0x88 0 0x0340 64
    ∷ set_interface 0 0 5
    ∷ []

replay_initialization-Replays_example :
    Replays camera condition_polling plan (replay_initialization camera plan condition_polling)
replay_initialization-Replays_example = replay_initialization-Replays camera condition_polling plan

replay_initialization-literal_example :
    replay_initialization camera plan literal_replay 0 ≡ run_actions camera (map operate plan) 0
replay_initialization-literal_example = replay_initialization-literal camera plan 0

abbrev completion : ℕ → ℕ → Completion
completion status submission = record {
  status = status;
  packet_status = 0;
  actual_length = 2;
  buffer = 1 ∷ 2 ∷ 3 ∷ [];
  received_at = 0;
  submission = submission;
}

-- A packet, a failed submission on another slot, and the callbacks of both slots behind it.
abbrev callbacks : List Callback
callbacks =
    completes 0 (completion 0 0)
    ∷ completes 1 (completion 0 1)
    ∷ panics 1 submitted_session.shared.stats
    ∷ completes 0 (completion 3 0)
    ∷ []

abbrev stopped_session : Slots
stopped_session = record submitted_session {
  shared = record submitted_session.shared { running = false };
}

run_callbacks-IsReaped_example : IsReaped 1 (run_callbacks stopped_session callbacks)
run_callbacks-IsReaped_example = run_callbacks-IsReaped callbacks stopped_session 1 refl refl

abbrev other : Device
other = record { ids = some (0x054c, 0x00c1); bus_number = 1; address = 3; port_numbers = none }

abbrev handycam : Device
handycam = record {
  ids = some (0x054c, 0x00c0);
  bus_number = 1;
  address = 4;
  port_numbers = some (2 ∷ 3 ∷ []);
}

abbrev selector : CameraSelector
selector = record { bus = some 1; ports = 2 ∷ 3 ∷ [] }

select-handycam : select_device (other ∷ handycam ∷ []) selector ≡ ok handycam
unfolding select_device is_match bytes_eq
select-handycam = refl

select_device-IsOnly_example : IsOnly selector (other ∷ handycam ∷ []) handycam
select_device-IsOnly_example = select_device-IsOnly (other ∷ handycam ∷ []) selector select-handycam
