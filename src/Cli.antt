-- ===== src/Cli.antt =====
-- crates/handycam-cli/src/main.rs: how the capture loop turns USB events into video frames. Instants
-- are microseconds.
pub mod Capture
pub mod Streaming
pub mod Recording
pub mod Reconnect
pub mod Replaying
pub mod Playback
use handycam_rs.Jpeg.{JpegDecoder}
use handycam_rs.Stream.{CompressedFrame, StreamDecoder, reset, PushResult, push_packet}
use handycam_rs.Media.{MonotonicTimestamp, from_micros, TimedVideoFrame}
use handycam_rs.Usb.Transfers.{
  SessionEvent, packet, packet_error, transfer_failed, submit_failed, callback_panicked,
}
use handycam_rs.Prelude.{
  ℕ, ◌-◌, ◌*◌, min, Bool, true, false, none, some, List, [], ◌∷◌, ltb, if◌then◌else◌, u64_max, ok,
  err,
}

-- `monotonic_timestamp`: time since the origin, none before it.
abbrev pub monotonic_timestamp : ℕ → ℕ → MonotonicTimestamp
monotonic_timestamp origin observed = from_micros (min (observed - origin) u64_max)

-- `checked_sub(...).unwrap_or(received_at)`
abbrev pub observed_start : ℕ → CompressedFrame → ℕ
observed_start received_at frame =
    let frame_duration = frame.timestamp_delta_to_next_ms * 1_000 in
    if ltb received_at frame_duration then received_at else received_at - frame_duration

-- The locals of `run_capture_session` that its USB events touch.
pub record VideoCapture : Type 0 where
  pub decoder : StreamDecoder
  pub source_discontinuity : Bool

-- What an event brings: at most one frame, or the end of the session.
pub data EventOutcome : Type 0 where
  nothing : EventOutcome
  frame_ready : TimedVideoFrame → EventOutcome
  disconnected : EventOutcome

abbrev pub discard : VideoCapture → VideoCapture
discard c = record { decoder = reset c.decoder; source_discontinuity = true }

module _ (lib : JpegDecoder) where
  -- The `match` on what the decoder returns.
  unfoldable pub accept_pushed : ℕ → ℕ → Bool → PushResult lib → VideoCapture × EventOutcome
  accept_pushed origin received_at flagged (decoder, ok none) =
      (record { decoder = decoder; source_discontinuity = flagged }, nothing)
  accept_pushed origin received_at flagged (decoder, ok (some frame)) = (
    record { decoder = decoder; source_discontinuity = false },
    frame_ready (record {
      observed_at = monotonic_timestamp origin (observed_start received_at frame);
      frame = frame;
      source_discontinuity = flagged;
    }),
  )
  accept_pushed origin received_at flagged (decoder, err e) =
      (discard (record { decoder = decoder; source_discontinuity = flagged }), nothing)

  unfoldable pub handle_event : ℕ → VideoCapture → SessionEvent → VideoCapture × EventOutcome
  unfolding accept_pushed
  handle_event origin c (packet endpoint payload received_at) =
      accept_pushed origin received_at c.source_discontinuity
        (push_packet lib c.decoder (record { endpoint = endpoint; payload = payload }))
  handle_event origin c (packet_error endpoint status) = (discard c, nothing)
  handle_event origin c (transfer_failed endpoint status) = (c, disconnected)
  handle_event origin c (submit_failed endpoint error) = (c, disconnected)
  handle_event origin c callback_panicked = (c, disconnected)

  -- The frames of a run of events, up to the end of the session.
  unfoldable pub add_frame : EventOutcome → List TimedVideoFrame → List TimedVideoFrame
  add_frame nothing later = later
  add_frame (frame_ready frame) later = frame ∷ later
  add_frame disconnected later = []

  unfoldable pub captured_frames : ℕ → VideoCapture → List SessionEvent → List TimedVideoFrame
  unfolding handle_event add_frame
  captured_frames origin c [] = []
  captured_frames origin c (event ∷ events) =
      let handled = handle_event origin c event in
      add_frame handled.1 (captured_frames origin handled.0 events)
