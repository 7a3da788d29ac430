-- ===== src/Tests/Streaming.antt =====
-- A streaming session of crates/handycam-cli/src/main.rs, and a wait.
use handycam_rs.Stream.{new, CompressedFrame}
use handycam_rs.Usb.Transfers.{SessionEvent}
use handycam_rs.Cli.Streaming.{Streams, empty, taken, full, Offered, default_stats, Streaming}
use handycam_rs.Cli.Streaming.Accounts.{accepted, IsQueue, Accounts}
use handycam_rs.Cli.Reconnect.{Driver, wait_interruptibly}
use handycam_rs.Cli.Reconnect.Waiting.{IsClock, IsWait, wait_interruptibly-IsWait}
use handycam_rs.Tests.Sessions.{session}
use handycam_rs.Prelude.{
  ℕ, ◌+◌, ◌≡◌, refl, sym, false, some, List, [], ◌∷◌, ◌++◌, append-nil, arith, ok,
}

-- The queue and the history; a frame is taken while nothing is in the queue.
abbrev World : Type 0
World = List CompressedFrame × List SessionEvent

abbrev offer : List CompressedFrame → CompressedFrame → List CompressedFrame × Offered
offer [] frame = (frame ∷ [], taken)
offer (held ∷ queue) frame = (held ∷ queue, full)

abbrev world : Streams
world = record {
  World = World;
  SinkFailure = Unit {0};
  PollError = Unit {0};
  stopping = λ w. (w, false);
  try_recv = λ w. (w, empty);
  poll = λ w. ((w.0, w.1 ++ session), ok session);
  try_send = λ frame w. ((((offer w.0 frame).0, w.1)), (offer w.0 frame).1);
}

offer-sends :
    (queue : List CompressedFrame) (frame : CompressedFrame)
    → (offer queue frame).0 ≡ queue ++ accepted (offer queue frame).1 frame
offer-sends [] frame = refl
offer-sends (held ∷ queue) frame = sym (append-nil (held ∷ queue))

abbrev world_queue : IsQueue world
world_queue = record {
  queue = λ w. w.0;
  history = λ w. w.1;
  sends = λ frame w. offer-sends w.0 frame;
  keeps = λ frame w. refl;
  brings = λ w. refl;
  polls = λ w. refl;
  asks = λ w. (refl, refl);
  receives = λ w. (refl, refl);
}

abbrev start : Streaming
start = record { decoder = new; stats = default_stats }

-- A world that is a clock.
abbrev clock_world : Streams
clock_world = record {
  World = ℕ;
  SinkFailure = Unit {0};
  PollError = Unit {0};
  stopping = λ w. (w, false);
  try_recv = λ w. (w, empty);
  poll = λ w. (w, ok []);
  try_send = λ frame w. (w, taken);
}

abbrev driver : Driver clock_world
driver = record {
  OtherError = Unit {0};
  now = λ w. w;
  sleep = λ micros w. w + micros;
  recv = λ w. (w, empty);
  open_session = λ w. (w, ok tt);
  stop_session = λ w. w;
  join = λ w. (w, false);
}

abbrev clock : IsClock clock_world driver
clock = record {
  sleep_lasts = λ micros w. omega arith;
  ask_forward = λ w. omega arith;
  receive_forward = λ w. omega arith;
}

wait-runs : wait_interruptibly clock_world driver 500_000 7 ≡ (500_007, some (ok false))
unfolding wait_interruptibly
wait-runs = refl

wait_interruptibly-IsWait_example :
    IsWait clock_world driver clock 500_007 (wait_interruptibly clock_world driver 500_000 7)
wait_interruptibly-IsWait_example = wait_interruptibly-IsWait clock_world driver clock 500_000 7
