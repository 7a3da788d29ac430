-- ===== src/Cli/Streaming.antt =====
-- crates/handycam-cli/src/main.rs: `run_session`, which feeds the frames of a USB session to the
-- output thread. The session, the two channels and the stop flag are a parameter.
pub mod Accounts
pub mod Events
pub mod Sessions
use handycam_rs.Jpeg.{JpegDecoder}
use handycam_rs.Stream.{
  Endpoint, boundary, video, CompressedFrame, StreamDecoder, reset, PushResult, push_packet,
  is_header, marks_boundary,
}
use handycam_rs.Usb.Transfers.{
  SessionEvent, packet, packet_error, transfer_failed, submit_failed, callback_panicked,
}
use handycam_rs.Sink.{SinkStatus, ready, closed, failed}
use handycam_rs.Prelude.{
  ℕ, zero, suc, ◌+◌, Bool, true, false, not, ◌&&◌, Option, none, some, List, [], ◌∷◌, leb,
  if◌then◌else◌, Bytes, wrap64, Result, ok, err,
}

-- The counters are `u64`.
pub record DriverStats : Type 0 where
  pub boundaries : ℕ
  pub headers : ℕ
  pub frames : ℕ
  pub timestamp_gaps : ℕ
  pub queue_drops : ℕ
  pub protocol_errors : ℕ
  pub reconnects : ℕ

abbrev pub default_stats : DriverStats
default_stats = record {
  boundaries = 0;
  headers = 0;
  frames = 0;
  timestamp_gaps = 0;
  queue_drops = 0;
  protocol_errors = 0;
  reconnects = 0;
}

-- `+= 1`
abbrev pub increment : ℕ → ℕ
increment n = wrap64 (n + 1)

-- What `try_recv`, `try_send` and `recv` return.
pub data Received (E : Type 0) : Type 0 where
  received : SinkStatus E → Received E
  empty disconnected : Received E

pub data Offered : Type 0 where
  taken full receiver_gone : Offered

pub record Streams : Type 1 where
  pub World : Type 0
  pub SinkFailure : Type 0
  pub PollError : Type 0
  pub stopping : World → World × Bool
  pub try_recv : World → World × Received SinkFailure
  pub poll : World → World × Result PollError (List SessionEvent)
  pub try_send : CompressedFrame → World → World × Offered

pub data AppError (SinkFailure : Type 0) : Type 0 where
  sink : SinkFailure → AppError SinkFailure
  sink_stopped : AppError SinkFailure

unfoldable pub check_sink : {E : Type 0} → Received E → Option (Result (AppError E) (Unit {0}))
check_sink (received ready) = none
check_sink (received closed) = some (ok tt)
check_sink (received (failed error)) = some (err (sink error))
check_sink empty = none
check_sink disconnected = some (err sink_stopped)

-- `Disconnected` without its message.
pub data SessionEnd : Type 0 where
  stopped sink_closed session_lost : SessionEnd

unfoldable pub is_nominal_camera_delta : ℕ → Bool
is_nominal_camera_delta delta_ms = leb 39 delta_ms && leb delta_ms 41

pub record Streaming : Type 0 where
  pub decoder : StreamDecoder
  pub stats : DriverStats

unfoldable pub count_packet : Endpoint → Bytes → DriverStats → DriverStats
count_packet boundary payload stats =
    if marks_boundary payload
    then record stats { boundaries = increment stats.boundaries }
    else stats
count_packet video payload stats =
    if is_header payload then record stats { headers = increment stats.headers } else stats

unfoldable pub count_gap : CompressedFrame → DriverStats → DriverStats
unfolding is_nominal_camera_delta
count_gap frame stats =
    if not (is_nominal_camera_delta frame.timestamp_delta_to_next_ms)
    then record stats { timestamp_gaps = increment stats.timestamp_gaps }
    else stats

-- What `try_send` leaves of the counters, and whether the session goes on.
unfoldable pub count_offer : Offered → DriverStats → DriverStats × Option SessionEnd
count_offer taken stats = (record stats { frames = increment stats.frames }, none)
count_offer full stats = (record stats { queue_drops = increment stats.queue_drops }, none)
count_offer receiver_gone stats = (stats, some sink_closed)

module _ (lib : JpegDecoder) (io : Streams) where
  open io use {World, SinkFailure, PollError, stopping, try_recv, poll, try_send}

  abbrev pub Handled : Type 0
  Handled = World × Streaming × Option SessionEnd

  abbrev pub offer_frame : StreamDecoder → CompressedFrame → DriverStats → World → Handled
  offer_frame decoder frame stats w =
      let (w', offered) = try_send frame w in
      let (stats', ending) = count_offer offered (count_gap frame stats) in
      (w', record { decoder = decoder; stats = stats' }, ending)

  unfoldable pub handle_pushed : PushResult lib → DriverStats → World → Handled
  unfolding count_gap count_offer
  handle_pushed (decoder, ok (some frame)) stats w = offer_frame decoder frame stats w
  handle_pushed (decoder, ok none) stats w = (w, record { decoder = decoder; stats = stats }, none)
  handle_pushed (decoder, err error) stats w = (
    w,
    record {
      decoder = reset decoder;
      stats = record stats { protocol_errors = increment stats.protocol_errors };
    },
    none,
  )

  unfoldable pub stream_event : Streaming → World → SessionEvent → Handled
  unfolding count_packet handle_pushed
  stream_event s w (packet endpoint payload received_at) =
      handle_pushed (push_packet lib s.decoder (record { endpoint = endpoint; payload = payload }))
        (count_packet endpoint payload s.stats) w
  stream_event s w (packet_error endpoint status) =
      (w, record s { decoder = reset s.decoder }, none)
  stream_event s w (transfer_failed endpoint status) = (w, s, some session_lost)
  stream_event s w (submit_failed endpoint error) = (w, s, some session_lost)
  stream_event s w callback_panicked = (w, s, some session_lost)

  -- The `for` loop over the events of a poll; an end leaves the rest of them.
  unfoldable pub stream_next : (Streaming → World → Handled) → Handled → Handled
  stream_next rest (w, s, none) = rest s w
  stream_next rest (w, s, some ending) = (w, s, some ending)

  unfoldable pub stream_events : List SessionEvent → Streaming → World → Handled
  unfolding stream_event stream_next
  stream_events [] s w = (w, s, none)
  stream_events (event ∷ events) s w = stream_next (stream_events events) (stream_event s w event)

  -- The result of `run_session`; none of it while the session goes on.
  abbrev pub Session : Type 0
  Session = World × Streaming × Option (Result (AppError SinkFailure) SessionEnd)

  -- `check_sink` ends the session.
  unfoldable pub end_of_sink :
      Result (AppError SinkFailure) (Unit {0}) → Result (AppError SinkFailure) SessionEnd
  end_of_sink (ok done) = ok sink_closed
  end_of_sink (err error) = err error

  unfoldable pub end_of_poll : World → Streaming → Session
  end_of_poll w s =
      let (w', stop) = stopping w in (w', s, some (ok (if stop then stopped else session_lost)))

  -- What goes on behind the events of a poll.
  unfoldable pub session_next : (Streaming → World → Session) → Handled → Session
  session_next rest (w, s, none) = rest s w
  session_next rest (w, s, some ending) = (w, s, some (ok ending))

  unfoldable pub behind_poll :
      (Streaming → World → Session)
      → Streaming
      → World × Result PollError (List SessionEvent)
      → Session
  unfolding stream_events session_next end_of_poll
  behind_poll rest s (w, ok events) = session_next rest (stream_events events s w)
  behind_poll rest s (w, err error) = end_of_poll w s

  unfoldable pub behind_sink :
      (Streaming → World → Session)
      → Streaming
      → World
      → Option (Result (AppError SinkFailure) (Unit {0}))
      → Session
  unfolding behind_poll end_of_sink
  behind_sink rest s w (some result) = (w, s, some (end_of_sink result))
  behind_sink rest s w none = behind_poll rest s (poll w)

  unfoldable pub session_turn : (Streaming → World → Session) → Streaming → World → Session
  unfolding behind_sink check_sink
  session_turn rest s w =
      let (w', stop) = stopping w in
      let (w'', status) = try_recv w' in
      if stop then (w', s, some (ok stopped)) else behind_sink rest s w'' (check_sink status)

  -- So many turns of the loop.
  unfoldable pub run_session : ℕ → Streaming → World → Session
  unfolding session_turn
  run_session zero s w = (w, s, none)
  run_session (suc turns) s w = session_turn (run_session turns) s w
