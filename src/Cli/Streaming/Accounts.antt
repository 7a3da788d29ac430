-- ===== src/Cli/Streaming/Accounts.antt =====
-- What becomes of the frames of a streaming session: crates/handycam-cli/src/main.rs.
use handycam_rs.Jpeg.{JpegDecoder}
use handycam_rs.Stream.{CompressedFrame, StreamDecoder}
use handycam_rs.Usb.Transfers.{SessionEvent}
use handycam_rs.Media.{TimedVideoFrame}
use handycam_rs.Cli.{captured_frames}
use handycam_rs.Cli.Streaming.{
  DriverStats, Offered, taken, full, receiver_gone, Streams, SessionEnd, sink_closed,
  is_nominal_camera_delta, Session,
}
use handycam_rs.Prelude.{
  ℕ, suc, ◌+◌, ◌≡◌, Bool, true, false, Option, some, List, [], ◌∷◌, ◌++◌, map, if◌then◌else◌,
  length, take, wrap64, Result, ok, err,
}

-- Frames, each with whether the queue took it.
abbrev pub Offers : Type 0
Offers = List (CompressedFrame × Bool)

abbrev pub frames_of : Offers → List CompressedFrame
frames_of [] = []
frames_of ((frame, took) ∷ offers) = frame ∷ frames_of offers

abbrev pub taken_of : Offers → List CompressedFrame
taken_of [] = []
taken_of ((frame, true) ∷ offers) = frame ∷ taken_of offers
taken_of ((frame, false) ∷ offers) = taken_of offers

abbrev pub dropped_of : Offers → ℕ
dropped_of [] = 0
dropped_of ((frame, true) ∷ offers) = dropped_of offers
dropped_of ((frame, false) ∷ offers) = suc (dropped_of offers)

abbrev pub gaps_of : List CompressedFrame → ℕ
gaps_of [] = 0
gaps_of (frame ∷ frames) =
    if is_nominal_camera_delta frame.timestamp_delta_to_next_ms
    then gaps_of frames
    else suc (gaps_of frames)

abbrev pub frame_of : TimedVideoFrame → CompressedFrame
frame_of event = event.frame

-- The frames, drops and gaps counted so far.
abbrev pub tally_of : DriverStats → ℕ × ℕ × ℕ
tally_of stats = (stats.frames, stats.queue_drops, stats.timestamp_gaps)

-- The queue is full only for a frame that is then dropped.
abbrev pub accepted : Offered → CompressedFrame → List CompressedFrame
accepted taken frame = frame ∷ []
accepted full frame = []
accepted receiver_gone frame = []

-- What a poll brings.
abbrev pub brought {ℓ} : {E : Type ℓ} → Result E (List SessionEvent) → List SessionEvent
brought (ok events) = events
brought (err error) = []

-- A world with all that was sent to the queue, and all that the session brought.
pub record IsQueue (io : Streams) : Type 0 where
  pub queue : io.World → List CompressedFrame
  pub history : io.World → List SessionEvent
  pub sends :
      (frame : CompressedFrame) (w : io.World)
      → queue (io.try_send frame w).0 ≡ queue w ++ accepted (io.try_send frame w).1 frame
  pub keeps : (frame : CompressedFrame) (w : io.World) → history (io.try_send frame w).0 ≡ history w
  pub brings : (w : io.World) → history (io.poll w).0 ≡ history w ++ brought (io.poll w).1
  pub polls : (w : io.World) → queue (io.poll w).0 ≡ queue w
  pub asks :
      (w : io.World) → (queue (io.stopping w).0 ≡ queue w) × (history (io.stopping w).0 ≡ history w)
  pub receives :
      (w : io.World) → (queue (io.try_recv w).0 ≡ queue w) × (history (io.try_recv w).0 ≡ history w)

-- Nothing is left unless the output thread is gone.
abbrev pub AllOffered : {E : Type 0} → Option (Result E SessionEnd) → List CompressedFrame → Type 0
AllOffered (some (ok sink_closed)) left = Unit
AllOffered _ left = left ≡ []

-- The counters are those of the type, so that they agree up to multiples of 2^64.
pub record Accounts (lib : JpegDecoder) (io : Streams) (q : IsQueue io)
    (before : List CompressedFrame) (past : List SessionEvent) (tally : ℕ × ℕ × ℕ)
    (decoded : List SessionEvent → List CompressedFrame) (r : Session lib io) : Type 0 where
  pub events : List SessionEvent
  pub offers : Offers
  pub left : List CompressedFrame
  pub brought_by : q.history r.0 ≡ past ++ events
  pub all : frames_of offers ++ left ≡ decoded events
  pub queued : q.queue r.0 ≡ before ++ taken_of offers
  pub frames : wrap64 r.1.stats.frames ≡ wrap64 (tally.0 + length (taken_of offers))
  pub drops : wrap64 r.1.stats.queue_drops ≡ wrap64 (tally.1 + dropped_of offers)
  pub gaps :
      wrap64 r.1.stats.timestamp_gaps ≡ wrap64 (tally.2 + gaps_of (frames_of offers ++ take 1 left))
  pub complete : AllOffered r.2 left

-- The frames that the capture loop makes of these events.
abbrev pub captured :
    JpegDecoder → ℕ → Bool → StreamDecoder → List SessionEvent → List CompressedFrame
captured lib origin flag decoder events =
    map frame_of (
      captured_frames lib origin (record { decoder = decoder; source_discontinuity = flag }) events)
