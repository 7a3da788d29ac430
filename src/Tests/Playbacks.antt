-- ===== src/Tests/Playbacks.antt =====
-- A replay of recorded images by crates/handycam-cli/src/main.rs.
use handycam_rs.Stream.{CompressedFrame}
use handycam_rs.Sink.{ready, closed}
use handycam_rs.Cli.Streaming.{Streams, received, empty, taken}
use handycam_rs.Cli.Reconnect.{wait_for_sink}
use handycam_rs.Cli.Playback.{Player, run_replay}
use handycam_rs.Cli.Playback.Rounds.{IsOffered, IsPlayed, run_replay-IsPlayed}
use handycam_rs.Prelude.{ℕ, ◌+◌, ◌≡◌, refl, true, false, some, List, [], ◌∷◌, ◌++◌, Bytes, ok}

-- A queue that takes every frame, and a clock that moves while the code sleeps.
abbrev world : Streams
world = record {
  World = List CompressedFrame × ℕ;
  SinkFailure = Unit {0};
  PollError = Unit {0};
  stopping = λ w. (w, false);
  try_recv = λ w. (w, empty);
  poll = λ w. (w, ok []);
  try_send = λ frame w. ((w.0 ++ frame ∷ [], w.1), taken);
}

abbrev player : Player world
player = record {
  now = λ w. w.1;
  sleep = λ micros w. (w.0, w.1 + micros);
  recv = λ w. (w, received ready);
  join = λ w. (w, false);
  drain = λ w. (w, closed ∷ []);
}

world-IsOffered : IsOffered world player
world-IsOffered = record {
  offered = λ w. w.0;
  offers = λ frame w. refl;
  asks = λ w. refl;
  receives = λ w. refl;
  sleeps = λ micros w. refl;
  waits = λ w. refl;
  joins = λ w. refl;
  drains = λ w. refl;
}

abbrev images : List Bytes
images = (1 ∷ []) ∷ (2 ∷ []) ∷ []

-- Each frame takes one turn and five looks at its deadline, 40 ms later; the last turn finds none left.
two_images : run_replay world player images false 13 ([], 0) ≡ (
  (
    record {
      sequence = 0;
      timestamp_11bit_ms = 0;
      timestamp_unwrapped_ms = 0;
      timestamp_delta_to_next_ms = 40;
      flags = 0;
      jpeg = 1 ∷ [];
    }
        ∷ record {
          sequence = 1;
          timestamp_11bit_ms = 40;
          timestamp_unwrapped_ms = 40;
          timestamp_delta_to_next_ms = 40;
          flags = 0;
          jpeg = 2 ∷ [];
        }
        ∷ [],
    80_000,
  ),
  some (ok 2),
)
unfolding run_replay
two_images = refl

run_replay-IsPlayed_example :
    IsPlayed world player world-IsOffered images true
      ([], 0)
      (wait_for_sink (received ready))
      (run_replay world player images true 20 ([], 0))
run_replay-IsPlayed_example =
    run_replay-IsPlayed world player world-IsOffered images true 20 ([], 0)
