-- ===== src/Usb/Transfers.antt =====
-- The isochronous transfers of crates/handycam-libusb/src/transport.rs: the callback of a slot, and
-- the state that all slots share. Statuses and error codes are libusb's integers.
use handycam_rs.Stream.{Endpoint, boundary, video}
use handycam_rs.Prelude.{
  ℕ, zero, suc, ◌+◌, Bool, true, false, not, none, some, List, [], ◌∷◌, ◌++◌, ltb, ◌==◌,
  if◌then◌else◌, Bytes, get_elem?, set, take, wrap64,
}

pub data SessionEvent : Type 0 where
  packet : Endpoint → Bytes → ℕ → SessionEvent
  packet_error : Endpoint → ℕ → SessionEvent
  transfer_failed : Endpoint → ℕ → SessionEvent
  submit_failed : Endpoint → ℕ → SessionEvent
  callback_panicked : SessionEvent

unfoldable pub ends_session : SessionEvent → Bool
ends_session (transfer_failed endpoint status) = true
ends_session (submit_failed endpoint error) = true
ends_session callback_panicked = true
ends_session _ = false

pub record SessionStats : Type 0 where
  pub packets : ℕ
  pub nonempty_packets : ℕ
  pub packet_errors : ℕ
  pub bytes : ℕ
  pub transfer_errors : ℕ

-- The libusb statuses that the code names.
abbrev pub transfer_completed : ℕ
transfer_completed = 0

abbrev pub transfer_cancelled : ℕ
transfer_cancelled = 3

abbrev pub transfer_overflow : ℕ
transfer_overflow = 6

-- What the slots of a session share, the events sent so far in order.
pub record Shared : Type 0 where
  pub running : Bool
  pub events : List SessionEvent
  pub stats : SessionStats

pub record TransferSlot : Type 0 where
  pub endpoint : Endpoint
  pub buffer_size : ℕ
  pub submitted : Bool

-- What libusb hands to the callback: the transfer's status, its packet's status, length and
-- buffer, the time, and what a new submission would return.
pub record Completion : Type 0 where
  pub status : ℕ
  pub packet_status : ℕ
  pub actual_length : ℕ
  pub buffer : Bytes
  pub received_at : ℕ
  pub submission : ℕ

abbrev pub send : SessionEvent → Shared → Shared
send event shared = record shared { events = shared.events ++ event ∷ [] }

abbrev pub count_packet : Shared → Shared
count_packet shared = record shared {
  stats = record shared.stats { packets = wrap64 (shared.stats.packets + 1) };
}

abbrev pub count_packet_error : Shared → Shared
count_packet_error shared = record shared {
  stats = record shared.stats { packet_errors = wrap64 (shared.stats.packet_errors + 1) };
}

abbrev pub count_bytes : ℕ → Shared → Shared
count_bytes size shared = record shared {
  stats = record shared.stats {
    nonempty_packets = wrap64 (shared.stats.nonempty_packets + 1);
    bytes = wrap64 (shared.stats.bytes + size);
  };
}

abbrev pub count_transfer_error : Shared → Shared
count_transfer_error shared = record shared {
  stats = record shared.stats { transfer_errors = wrap64 (shared.stats.transfer_errors + 1) };
}

abbrev pub stop_running : Shared → Shared
stop_running shared = record shared { running = false }

-- The callback up to the new submission.
unfoldable pub receive : TransferSlot → Completion → Shared → Shared
receive slot c shared =
    if c.status == transfer_completed
    then (if c.packet_status == transfer_completed
        then (if ltb slot.buffer_size c.actual_length
            then send (packet_error slot.endpoint transfer_overflow)
                (count_packet_error (count_packet shared))
            else if ltb 0 c.actual_length
            then send (packet slot.endpoint (take c.actual_length c.buffer) c.received_at)
                (count_bytes c.actual_length (count_packet shared))
            else count_packet shared)
        else send (packet_error slot.endpoint c.packet_status)
            (count_packet_error (count_packet shared)))
    else if not (c.status == transfer_cancelled)
    then send (transfer_failed slot.endpoint c.status) (stop_running (count_transfer_error shared))
    else shared

-- The new submission, while the session runs.
unfoldable pub resubmit : TransferSlot → Completion → Shared → Shared × TransferSlot
resubmit slot c shared =
    if shared.running
    then (if c.submission == 0 then (shared, slot) else (
      send (submit_failed slot.endpoint c.submission) (stop_running shared),
      record slot { submitted = false },
    ))
    else (shared, record slot { submitted = false })

unfoldable pub handle_transfer_callback : TransferSlot → Completion → Shared → Shared × TransferSlot
unfolding receive resubmit
handle_transfer_callback slot c shared = resubmit slot c (receive slot c shared)

-- `transfer_callback` where the callback panics; the counters are what it left of them, since it counts
-- before it copies and sends a packet, which can panic.
unfoldable pub handle_panic : TransferSlot → SessionStats → Shared → Shared × TransferSlot
handle_panic slot stats shared = (
  send callback_panicked (stop_running (record shared { stats = stats })),
  record slot { submitted = false },
)

-- A run of callbacks; every slot is named by its place.
pub data Callback : Type 0 where
  completes : ℕ → Completion → Callback
  panics : ℕ → SessionStats → Callback

pub record Slots : Type 0 where
  pub shared : Shared
  pub slots : List TransferSlot

unfoldable pub run_callback : Slots → Callback → Slots
unfolding handle_transfer_callback handle_panic
run_callback session (completes i c) = elim (get_elem? session.slots i) [
  | none ↦ session
  | some slot ↦
      let (shared, slot') = handle_transfer_callback slot c session.shared in
      record { shared = shared; slots = set session.slots i slot' }
]
run_callback session (panics i stats) = elim (get_elem? session.slots i) [
  | none ↦ session
  | some slot ↦
      let (shared, slot') = handle_panic slot stats session.shared in
      record { shared = shared; slots = set session.slots i slot' }
]

unfoldable pub run_callbacks : Slots → List Callback → Slots
unfolding run_callback
run_callbacks session [] = session
run_callbacks session (callback ∷ callbacks) =
    run_callbacks (run_callback session callback) callbacks

-- `allocate_and_submit` where every allocation and submission succeeds: boundary and video slots
-- in turn, 32 of each.
abbrev pub slot_pairs : ℕ → List TransferSlot
slot_pairs zero = []
slot_pairs (suc n) =
    record { endpoint = boundary; buffer_size = 8; submitted = true }
    ∷ record { endpoint = video; buffer_size = 768; submitted = true }
    ∷ slot_pairs n

abbrev pub transfers_per_endpoint : ℕ
transfers_per_endpoint = 32

abbrev pub submitted_session : Slots
submitted_session = record {
  shared = record {
    running = true;
    events = [];
    stats = record {
      packets = 0;
      nonempty_packets = 0;
      packet_errors = 0;
      bytes = 0;
      transfer_errors = 0;
    };
  };
  slots = slot_pairs transfers_per_endpoint;
}
