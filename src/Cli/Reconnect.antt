-- ===== src/Cli/Reconnect.antt =====
-- crates/handycam-cli/src/main.rs: `run_stream`, which opens the camera again and again and runs a
-- session each time. Instants are microseconds.
pub mod Waiting
use handycam_rs.Jpeg.{JpegDecoder}
use handycam_rs.Stream.{new}
use handycam_rs.Sink.{SinkStatus, ready, closed, failed}
use handycam_rs.Cli.Streaming.{
  DriverStats, default_stats, increment, Received, received, empty, disconnected, Streams, AppError,
  sink, sink_stopped, check_sink, SessionEnd, stopped, sink_closed, session_lost, Session,
  run_session,
}
use handycam_rs.Prelude.{
  ℕ, zero, suc, ◌+◌, ◌*◌, ◌/◌, min, Bool, true, false, not, ◌&&◌, Option, none, some, ltb,
  if◌then◌else◌, Result, ok, err,
}

-- The errors of rusb that the code tells apart.
pub data RusbError : Type 0 where
  no_device io timeout : RusbError
  other_error : ℕ → RusbError

pub data OpenError (E : Type 0) : Type 0 where
  no_camera : OpenError E
  usb : RusbError → OpenError E
  other : E → OpenError E

unfoldable pub should_retry_open : {E : Type 0} → OpenError E → Bool
should_retry_open no_camera = true
should_retry_open (usb no_device) = true
should_retry_open (usb io) = true
should_retry_open (usb timeout) = true
should_retry_open (usb (other_error code)) = false
should_retry_open (other error) = false

-- What `run_stream` uses besides what a session does; `join` tells whether the thread panicked.
pub record Driver (io : Streams) : Type 1 where
  pub OtherError : Type 0
  pub now : io.World → ℕ
  pub sleep : ℕ → io.World → io.World
  pub recv : io.World → io.World × Received io.SinkFailure
  pub open_session : io.World → io.World × Result (OpenError OtherError) (Unit {0})
  pub stop_session : io.World → io.World
  pub join : io.World → io.World × Bool

pub data StreamError (SinkFailure OtherError : Type 0) : Type 0 where
  app : AppError SinkFailure → StreamError SinkFailure OtherError
  open_failed : OpenError OtherError → StreamError SinkFailure OtherError
  camera_disconnected sink_panicked : StreamError SinkFailure OtherError

unfoldable pub wait_for_sink : {E : Type 0} → Received E → Result (AppError E) (Unit {0})
wait_for_sink (received ready) = ok tt
wait_for_sink (received (failed error)) = err (sink error)
wait_for_sink (received closed) = err sink_stopped
wait_for_sink disconnected = err sink_stopped
wait_for_sink empty = err sink_stopped

abbrev pub first_retry_delay : ℕ
first_retry_delay = 500_000

abbrev pub last_retry_delay : ℕ
last_retry_delay = 5_000_000

abbrev pub next_retry_delay : ℕ → ℕ
next_retry_delay delay = min (delay * 2) last_retry_delay

module _ (io : Streams) (driver : Driver io) where
  open io use {World, SinkFailure, stopping, try_recv}
  open driver use {OtherError, now, sleep, recv, open_session, stop_session, join}

  -- `none` where the fuel ran out.
  abbrev pub Waited : Type 0
  Waited = World × Option (Result (AppError SinkFailure) Bool)

  -- `result?; return Ok(true)`
  unfoldable pub end_of_wait :
      Result (AppError SinkFailure) (Unit {0}) → Result (AppError SinkFailure) Bool
  end_of_wait (ok done) = ok true
  end_of_wait (err error) = err error

  unfoldable pub wait_checked :
      (World → Waited) → World → Option (Result (AppError SinkFailure) (Unit {0})) → Waited
  unfolding end_of_wait
  wait_checked rest w (some result) = (w, some (end_of_wait result))
  wait_checked rest w none = rest (sleep 50_000 w)

  unfoldable pub wait_turn : ℕ → (World → Waited) → World → Waited
  unfolding wait_checked check_sink
  wait_turn deadline rest w =
      let (w', stop) = stopping w in
      let (w'', status) = try_recv w' in
      if not (ltb (now w) deadline)
      then (w, some (ok false))
      else if stop
      then (w', some (ok true))
      else wait_checked rest w'' (check_sink status)

  unfoldable pub wait_until : ℕ → ℕ → World → Waited
  unfolding wait_turn
  wait_until zero deadline w = (w, none)
  wait_until (suc fuel) deadline w = wait_turn deadline (wait_until fuel deadline) w

  -- Sleeps of 50 ms: at most as many as fill the duration.
  unfoldable pub wait_interruptibly : ℕ → World → Waited
  unfolding wait_until
  wait_interruptibly duration w = wait_until (suc (duration / 50_000 + 1)) (now w + duration) w

  abbrev pub Outcome : Type 0
  Outcome = Result (StreamError SinkFailure OtherError) (Unit {0})

  -- How `run_stream` leaves its loop: with a `break`, or with an early return that does not join the
  -- output thread.
  pub data LoopEnd : Type 0 where
    breaks : Outcome → LoopEnd
    returns : AppError SinkFailure → LoopEnd
    still_running : LoopEnd

  -- The rest of the loop, from its locals.
  abbrev pub Loop : Type 0
  Loop = ℕ → DriverStats → World → World × LoopEnd

  unfoldable pub behind_wait : Loop → ℕ → DriverStats → Waited → World × LoopEnd
  behind_wait rest delay stats (w, some (ok true)) = (w, breaks (ok tt))
  behind_wait rest delay stats (w, some (ok false)) = rest (next_retry_delay delay) stats w
  behind_wait rest delay stats (w, some (err error)) = (w, returns error)
  behind_wait rest delay stats (w, none) = (w, still_running)

  -- `match session_result`, on the world behind `session.stop()`.
  unfoldable pub behind_session :
      Bool
      → Loop
      → DriverStats
      → Option (Result (AppError SinkFailure) SessionEnd)
      → World
      → World × LoopEnd
  behind_session no_reconnect rest stats none w = (w, still_running)
  behind_session no_reconnect rest stats (some (ok stopped)) w = (w, breaks (ok tt))
  behind_session no_reconnect rest stats (some (ok sink_closed)) w = (w, breaks (ok tt))
  behind_session no_reconnect rest stats (some (ok session_lost)) w =
      if no_reconnect then (w, breaks (err camera_disconnected)) else rest first_retry_delay stats w
  behind_session no_reconnect rest stats (some (err error)) w = (w, breaks (err (app error)))

  module _ (lib : JpegDecoder) (session_turns : ℕ) (no_reconnect : Bool) where
    unfoldable pub opened : Loop → DriverStats → World → World × LoopEnd
    unfolding run_session behind_session
    opened rest stats w =
        let (w', s, ending) =
          run_session lib io session_turns
            (record {
              decoder = new;
              stats = record stats { reconnects = increment stats.reconnects };
            })
            w in
        behind_session no_reconnect rest s.stats ending (stop_session w')

    unfoldable pub behind_open :
        Loop → ℕ → DriverStats → World × Result (OpenError OtherError) (Unit {0}) → World × LoopEnd
    unfolding opened behind_wait wait_interruptibly
    behind_open rest delay stats (w, ok done) = opened rest stats w
    behind_open rest delay stats (w, err error) =
        if should_retry_open error && not no_reconnect
        then behind_wait rest delay stats (wait_interruptibly delay w)
        else (w, breaks (err (open_failed error)))

    unfoldable pub end_of_check : Result (AppError SinkFailure) (Unit {0}) → Outcome
    end_of_check (ok done) = ok tt
    end_of_check (err error) = err (app error)

    unfoldable pub stream_checked :
        Loop
        → ℕ
        → DriverStats
        → World
        → Option (Result (AppError SinkFailure) (Unit {0}))
        → World × LoopEnd
    unfolding behind_open end_of_check
    stream_checked rest delay stats w (some result) = (w, breaks (end_of_check result))
    stream_checked rest delay stats w none = behind_open rest delay stats (open_session w)

    unfoldable pub stream_turn : Loop → ℕ → DriverStats → World → World × LoopEnd
    unfolding stream_checked check_sink
    stream_turn rest delay stats w =
        let (w', stop) = stopping w in
        let (w'', status) = try_recv w' in
        if stop
        then (w', breaks (ok tt))
        else stream_checked rest delay stats w'' (check_sink status)

    -- So many turns of the loop.
    unfoldable pub stream_loop : ℕ → Loop
    unfolding stream_turn
    stream_loop zero delay stats w = (w, still_running)
    stream_loop (suc turns) delay stats w = stream_turn (stream_loop turns) delay stats w

    -- Behind the loop: `drop(frame_sender)` and `join`; no result while it runs.
    unfoldable pub finish_stream : World × LoopEnd → World × Option Outcome
    finish_stream (w, breaks outcome) =
        let (w', panicked) = join w in (w', some (if panicked then err sink_panicked else outcome))
    finish_stream (w, returns error) = (w, some (err (app error)))
    finish_stream (w, still_running) = (w, none)

    unfoldable pub behind_ready :
        ℕ → World → Result (AppError SinkFailure) (Unit {0}) → World × Option Outcome
    unfolding stream_loop finish_stream
    behind_ready turns w (ok done) =
        finish_stream (stream_loop turns first_retry_delay default_stats w)
    behind_ready turns w (err error) = (w, some (err (app error)))

    -- `run_stream`, from `wait_for_sink`.
    unfoldable pub run_stream : ℕ → World → World × Option Outcome
    unfolding behind_ready wait_for_sink
    run_stream turns w = let (w', status) = recv w in behind_ready turns w' (wait_for_sink status)
