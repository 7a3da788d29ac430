-- ===== src/Cli/Playback.antt =====
-- crates/handycam-cli/src/main.rs: `run_replay` behind the loading of its frames. A turn is a frame that
-- is offered, a look at the deadline, or the start of another round. Instants are microseconds.
-- The count of frames, which the code logs at its end, is the result.
pub mod Rounds
use handycam_rs.Stream.{CompressedFrame}
use handycam_rs.Sink.{SinkStatus, failed, ready, closed}
use handycam_rs.Cli.Streaming.{
  increment, Received, Offered, taken, full, receiver_gone, Streams, AppError, sink, check_sink,
}
use handycam_rs.Cli.Reconnect.{wait_for_sink}
use handycam_rs.Prelude.{
  ℕ, zero, suc, ◌+◌, ◌-◌, ◌*◌, ◌/◌, ◌%◌, ◌^◌, ◌≤◌, ◌<◌, min, max, bit_and, bit_or, ◌≡◌, refl, sym,
  ap, ap₂, ◌∙◌, ◌≢◌, ◌↔◌, ◌⊎◌, inl, inr, Bool, true, false, not, ◌&&◌, ◌||◌, Option, none, some,
  List, [], ◌∷◌, ◌++◌, map, reverse, append-nil, append_assoc, arith, ltb, leb, ◌==◌, if◌then◌else◌,
  ltb→lt, lt→ltb, le→ltb_false, leb→le, ==_iff, ==_refl, Bool-cases, Option-cases, Bytes, length,
  get_elem?, get_or, set, take, drop, replicate, any, All, length-append, take-append-drop,
  take-length-append, drop-length-append, length-take, length-drop, length-replicate, All-append,
  IsByte, bytes_eq, bytes_eq_iff, u32_max, u64_max, wrap64, saturating_add, saturating_sub,
  saturating_mul, checked_sub, wrapping_sub16, ◌<<<◌, ◌>>>◌, be_bytes, length-be_bytes, Result, ok,
  err, ok_or, Ensures, bind-Ensures, Fails, bind-Fails, Result-cases,
}

-- What `run_replay` uses besides the stop flag and the channels; `join` tells whether the thread
-- panicked, `drain` what `try_recv` still finds behind it.
pub record Player (io : Streams) : Type 1 where
  pub now : io.World → ℕ
  pub sleep : ℕ → io.World → io.World
  pub recv : io.World → io.World × Received io.SinkFailure
  pub join : io.World → io.World × Bool
  pub drain : io.World → io.World × List (SinkStatus io.SinkFailure)

pub data ReplayEnd (SinkFailure : Type 0) : Type 0 where
  app : AppError SinkFailure → ReplayEnd SinkFailure
  sink_panicked : ReplayEnd SinkFailure

-- The locals of the loop, with the frames that are left in its round; `waiting` tells where it is.
pub record Playing : Type 0 where
  pub left : List Bytes
  pub sequence : ℕ
  pub deadline : ℕ
  pub waiting : Bool

abbrev pub frame_interval : ℕ
frame_interval = 1_000_000 / 25

unfoldable pub replay_frame : ℕ → Bytes → CompressedFrame
replay_frame sequence jpeg = record {
  sequence = sequence;
  timestamp_11bit_ms = bit_and (wrap64 (sequence * 40)) 0x07ff;
  timestamp_unwrapped_ms = wrap64 (sequence * 40);
  timestamp_delta_to_next_ms = 40;
  flags = 0;
  jpeg = jpeg;
}

module _ (io : Streams) (player : Player io) where
  open io use {World, SinkFailure, stopping, try_recv, try_send}
  open player use {now, sleep, recv, join, drain}

  -- Where the loop goes on there is no end; an end has the error that `sink_error` gets.
  abbrev pub PlayTurn : Type 0
  PlayTurn = World × Playing × Option (Option (AppError SinkFailure))

  unfoldable pub deadline_turn : Playing → World → PlayTurn
  deadline_turn s w =
      let (w', stop) = stopping w in
      if not (ltb (now w) s.deadline)
      then (w, record s { waiting = false }, none)
      else if stop
      then (w', s, some none)
      else (sleep (min (s.deadline - now w') 10_000) w', s, none)

  unfoldable pub after_offer : Playing → List Bytes → World × Offered → PlayTurn
  after_offer s rest (w, receiver_gone) = (w, s, some none)
  after_offer s rest (w, taken) = (
    w,
    record {
      left = rest;
      sequence = increment s.sequence;
      deadline = s.deadline + frame_interval;
      waiting = true;
    },
    none,
  )
  after_offer s rest (w, full) = (
    w,
    record {
      left = rest;
      sequence = increment s.sequence;
      deadline = s.deadline + frame_interval;
      waiting = true;
    },
    none,
  )

  unfoldable pub after_check :
      Playing
      → Bytes
      → List Bytes
      → World
      → Option (Result (AppError SinkFailure) (Unit {0}))
      → PlayTurn
  unfolding after_offer replay_frame
  after_check s jpeg rest w (some (ok done)) = (w, s, some none)
  after_check s jpeg rest w (some (err error)) = (w, s, some (some error))
  after_check s jpeg rest w none = after_offer s rest (try_send (replay_frame s.sequence jpeg) w)

  unfoldable pub offer_turn : List Bytes → Bool → Playing → List Bytes → World → PlayTurn
  unfolding after_check check_sink
  offer_turn jpeg_frames repeat s [] w =
      if repeat then (w, record s { left = jpeg_frames }, none) else (w, s, some none)
  offer_turn jpeg_frames repeat s (jpeg ∷ rest) w =
      let (w', stop) = stopping w in
      let (w'', status) = try_recv w' in
      if stop then (w', s, some none) else after_check s jpeg rest w'' (check_sink status)

  unfoldable pub play_turn : List Bytes → Bool → Playing → World → PlayTurn
  unfolding deadline_turn offer_turn
  play_turn jpeg_frames repeat s w =
      if s.waiting then deadline_turn s w else offer_turn jpeg_frames repeat s s.left w

  unfoldable pub behind_turn : (Playing → World → PlayTurn) → PlayTurn → PlayTurn
  behind_turn rest (w, s, none) = rest s w
  behind_turn rest (w, s, some ending) = (w, s, some ending)

  -- So many turns.
  unfoldable pub play_turns : List Bytes → Bool → ℕ → Playing → World → PlayTurn
  unfolding play_turn behind_turn
  play_turns jpeg_frames repeat zero s w = (w, s, none)
  play_turns jpeg_frames repeat (suc turns) s w =
      behind_turn (play_turns jpeg_frames repeat turns) (play_turn jpeg_frames repeat s w)

  -- `sink_error` behind the statuses that are left.
  unfoldable pub last_error :
      Option (AppError SinkFailure) → List (SinkStatus SinkFailure) → Option (AppError SinkFailure)
  last_error found [] = found
  last_error found (failed error ∷ statuses) = last_error (some (sink error)) statuses
  last_error found (ready ∷ statuses) = last_error found statuses
  last_error found (closed ∷ statuses) = last_error found statuses

  abbrev pub Played : Type 0
  Played = World × Option (Result (ReplayEnd SinkFailure) ℕ)

  unfoldable pub outcome_of : ℕ → Option (AppError SinkFailure) → Result (ReplayEnd SinkFailure) ℕ
  outcome_of sequence none = ok sequence
  outcome_of sequence (some error) = err (app error)

  -- Behind the loop; no result while it runs.
  unfoldable pub finish_playing : PlayTurn → Played
  unfolding last_error outcome_of
  finish_playing (w, s, none) = (w, none)
  finish_playing (w, s, some sink_error) =
      let (w', panicked) = join w in
      let (w'', statuses) = drain w' in
      if panicked
      then (w', some (err sink_panicked))
      else (w'', some (outcome_of s.sequence (last_error sink_error statuses)))

  unfoldable pub start_playing : List Bytes → World → Playing
  start_playing jpeg_frames w = record {
    left = jpeg_frames;
    sequence = 0;
    deadline = now w;
    waiting = false;
  }

  unfoldable pub behind_ready_sink :
      List Bytes → Bool → ℕ → World × Result (AppError SinkFailure) (Unit {0}) → Played
  unfolding play_turns finish_playing start_playing
  behind_ready_sink jpeg_frames repeat turns (w, err error) = (w, some (err (app error)))
  behind_ready_sink jpeg_frames repeat turns (w, ok done) =
      finish_playing (play_turns jpeg_frames repeat turns (start_playing jpeg_frames w) w)

  unfoldable pub run_replay : List Bytes → Bool → ℕ → World → Played
  unfolding behind_ready_sink wait_for_sink
  run_replay jpeg_frames repeat turns w =
      let (w', status) = recv w in
      behind_ready_sink jpeg_frames repeat turns (w', wait_for_sink status)
