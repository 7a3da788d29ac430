-- ===== src/Cli/Capture.antt =====
-- The discontinuity flags of the frames that the capture loop of crates/handycam-cli/src/main.rs makes.
use handycam_rs.Jpeg.{JpegDecoder}
use handycam_rs.Stream.{StreamDecoder, new, reset, PushResult, push_packet, push_at}
use handycam_rs.Stream.Timeline.{Expects, Kept, push_at-Kept}
use handycam_rs.Media.{TimedVideoFrame}
use handycam_rs.Usb.Transfers.{
  SessionEvent, packet, packet_error, transfer_failed, submit_failed, callback_panicked,
}
use handycam_rs.Cli.{
  VideoCapture, EventOutcome, nothing, frame_ready, disconnected, discard, accept_pushed,
  handle_event, add_frame, captured_frames,
}
use handycam_rs.Prelude.{
  ℕ, ◌+◌, ◌≡◌, refl, sym, ap, Bool, true, false, Option, none, some, List, [], ◌∷◌, All, IsByte,
  wrap64, ok, err,
}

-- Bytes in every packet.
abbrev pub IsWireEvent : SessionEvent → Type 0
IsWireEvent (packet endpoint payload received_at) = All IsByte payload
IsWireEvent _ = Unit

-- A flagged frame starts the time again, any other starts where the one before it ended.
abbrev pub Placed : ℕ → Bool → ℕ → Type 0
Placed due true position = position ≡ 0
Placed due false position = position ≡ due

abbrev pub IsFlagged : ℕ → List TimedVideoFrame → Type 0
IsFlagged due [] = Unit
IsFlagged due (e ∷ es) =
    Placed due e.source_discontinuity e.frame.timestamp_unwrapped_ms
    × IsFlagged (wrap64 (e.frame.timestamp_unwrapped_ms + e.frame.timestamp_delta_to_next_ms)) es

-- The frame that the decoder is at has the time that the flag says.
abbrev Ready : ℕ → VideoCapture → Type 0
Ready due c =
    (sequence : ℕ) × (unwrapped : ℕ) × (timestamp : Option ℕ) × Expects c.decoder sequence unwrapped
      timestamp
    × Placed due c.source_discontinuity unwrapped

reset-Expects : (d : StreamDecoder) → Expects (reset d) 0 0 none
reset-Expects d = record { counts = refl; starts = λ h. (refl, refl); runs = λ h. cc }

discard-Ready : (due : ℕ) (c : VideoCapture) → Ready due (discard c)
discard-Ready due c = (0, 0, none, reset-Expects c.decoder, refl)

-- What an event leaves.
abbrev Handled : ℕ → VideoCapture × EventOutcome → Type 0
Handled due (c, nothing) = Ready due c
Handled due (c, frame_ready e) =
    Placed due e.source_discontinuity e.frame.timestamp_unwrapped_ms
    × Ready (wrap64 (e.frame.timestamp_unwrapped_ms + e.frame.timestamp_delta_to_next_ms)) c
Handled due (c, disconnected) = Unit

module _ (lib : JpegDecoder) where
  accept_pushed-Handled :
      (due origin received_at : ℕ) (flagged : Bool) (sequence unwrapped : ℕ) (timestamp : Option ℕ)
      (pushed : PushResult lib)
      → Kept lib sequence unwrapped timestamp pushed
      → Placed due flagged unwrapped
      → Handled due (accept_pushed lib origin received_at flagged pushed)
  unfolding accept_pushed
  accept_pushed-Handled due origin received_at flagged n t s (decoder, ok none) kept placed =
      (n, t, s, kept, placed)
  accept_pushed-Handled due origin received_at flagged n t s (decoder, ok (some frame)) kept
        placed =
      let here = kept.0.positioned in
      (
        rw here placed,
        (_, _, _, kept.1, ap (λ (u : ℕ). wrap64 (u + frame.timestamp_delta_to_next_ms)) (sym here)),
      )
  accept_pushed-Handled due origin received_at flagged n t s (decoder, err e) kept placed =
      discard-Ready due (record { decoder = decoder; source_discontinuity = flagged })

  handle_event-Handled :
      (due origin : ℕ) (c : VideoCapture) (event : SessionEvent)
      → IsWireEvent event
      → Ready due c
      → Handled due (handle_event lib origin c event)
  unfolding handle_event push_packet
  handle_event-Handled due origin c (packet endpoint payload received_at) wire
        (n, t, s, expects, placed) =
      accept_pushed-Handled due origin received_at c.source_discontinuity n t s
        (push_at lib endpoint c.decoder payload)
        (push_at-Kept lib c.decoder expects payload wire endpoint) placed
  handle_event-Handled due origin c (packet_error endpoint status) wire ready = discard-Ready due c
  handle_event-Handled due origin c (transfer_failed endpoint status) wire ready = tt
  handle_event-Handled due origin c (submit_failed endpoint error) wire ready = tt
  handle_event-Handled due origin c callback_panicked wire ready = tt

  add_frame-IsFlagged :
      (due : ℕ) (handled : VideoCapture × EventOutcome)
      (later : VideoCapture → List TimedVideoFrame)
      → Handled due handled
      → ((next : ℕ) (c : VideoCapture) → Ready next c → IsFlagged next (later c))
      → IsFlagged due (add_frame lib handled.1 (later handled.0))
  unfolding add_frame
  add_frame-IsFlagged due (c, nothing) later h rest = rest due c h
  add_frame-IsFlagged due (c, frame_ready e) later h rest = (h.0, rest _ c h.1)
  add_frame-IsFlagged due (c, disconnected) later h rest = tt

  captured-IsFlagged :
      (due origin : ℕ) (c : VideoCapture) (events : List SessionEvent)
      → All IsWireEvent events
      → Ready due c
      → IsFlagged due (captured_frames lib origin c events)
  unfolding captured_frames
  captured-IsFlagged due origin c [] wire ready = tt
  captured-IsFlagged due origin c (event ∷ events) wire ready =
      add_frame-IsFlagged due (handle_event lib origin c event)
        (λ c'. captured_frames lib origin c' events)
        (handle_event-Handled due origin c event wire.0 ready)
        (λ next c' ready'. captured-IsFlagged next origin c' events wire.1 ready')

  -- Every frame that the capture loop makes of its events either starts where the frame before it ends, the
  -- first at time 0, or carries the discontinuity flag and starts the unwrapped time again at 0:
  -- whatever packets, packet errors and malformed records arrive, no gap goes unmarked.
  pub captured_frames-IsFlagged :
      (origin : ℕ) (events : List SessionEvent)
      → All IsWireEvent events
      → IsFlagged 0 (
          captured_frames lib origin
            (record { decoder = new; source_discontinuity = false })
            events)
  captured_frames-IsFlagged origin events wire =
      captured-IsFlagged 0 origin (record { decoder = new; source_discontinuity = false }) events
        wire (0, 0, none, reset-Expects new, refl)
