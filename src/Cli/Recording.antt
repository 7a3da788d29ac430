-- ===== src/Cli/Recording.antt =====
-- crates/handycam-cli/src/main.rs: `run_capture_session`. What its loop asks of the outside in one pass is
-- a `Round`; the passes are a list of them.
pub mod Sorting
pub mod Steps
pub mod Gathering
pub mod Passes
pub mod Events
pub mod Files
use handycam_rs.Jpeg.{JpegDecoder}
use handycam_rs.Stream
use handycam_rs.Media.{from_micros, TimedVideoFrame, TimedAudioChunk, TimedMediaEvent}
use handycam_rs.Media
use handycam_rs.Sync.{MediaTiming, SynchronizationError, AvSynchronizer, event_timing}
use handycam_rs.Sync.Position.{event_observed_timestamp}
use handycam_rs.Sync
use handycam_rs.Matroska.{MatroskaError, MatroskaWriter, write_video, write_audio, flush}
use handycam_rs.LinuxAudio.{AudioCaptureEvent, chunk, failed, closed}
use handycam_rs.Usb.Transfers.{SessionEvent}
use handycam_rs.Cli.{VideoCapture, EventOutcome, nothing, frame_ready, disconnected, handle_event}
use handycam_rs.Prelude.Int.{ℤ, pos, negsuc}
use handycam_rs.Prelude.Run.{Run, ◌>>=◌, lift, map_err}
use handycam_rs.Prelude.{
  ℕ, suc, ◌+◌, max, Bool, true, false, Option, none, some, List, [], ◌∷◌, ◌++◌, leb, ◌==◌,
  if◌then◌else◌, wrap64, saturating_add, saturating_sub, saturating_mul, Result, ok, err,
}

-- The key of `sort_by_key(event_observed_timestamp)`.
abbrev pub key : TimedMediaEvent → ℕ
key event = (event_observed_timestamp event).micros

-- What the standard library's `sort_by_key` is documented to do, a stable sort, in place of its code.
unfoldable pub insert : TimedMediaEvent → List TimedMediaEvent → List TimedMediaEvent
insert event [] = event ∷ []
insert event (next ∷ events) =
    let behind = insert event events in
    if leb (key event) (key next) then event ∷ next ∷ events else next ∷ behind

unfoldable pub sort_by_key : List TimedMediaEvent → List TimedMediaEvent
unfolding insert
sort_by_key [] = []
sort_by_key (event ∷ events) = insert event (sort_by_key events)

-- `delay_ms.unsigned_abs()`
abbrev pub unsigned_abs : ℤ → ℕ
unsigned_abs (pos n) = n
unsigned_abs (negsuc n) = suc n

unfoldable pub delayed_pts : ℤ → ℕ → ℕ
delayed_pts (pos n) pts = saturating_add pts (saturating_mul n 1_000)
delayed_pts (negsuc n) pts = saturating_sub pts (saturating_mul (suc n) 1_000)

unfoldable pub apply_audio_delay : MediaTiming → ℤ → MediaTiming
unfolding delayed_pts
apply_audio_delay timing delay_ms = record timing { pts_us = delayed_pts delay_ms timing.pts_us }

-- The locals of the function, and its writer. The counters are `u64`.
pub record CaptureState : Type 0 where
  pub capture : VideoCapture
  pub synchronizer : AvSynchronizer
  pub writer : MatroskaWriter
  pub video_frames : ℕ
  pub audio_chunks : ℕ
  pub maximum_video_drift_us : ℕ
  pub maximum_audio_drift_us : ℕ

abbrev pub start_capture : MatroskaWriter → CaptureState
start_capture writer = record {
  capture = record { decoder = Stream.new; source_discontinuity = false };
  synchronizer = Sync.new (from_micros 0);
  writer = writer;
  video_frames = 0;
  audio_chunks = 0;
  maximum_video_drift_us = 0;
  maximum_audio_drift_us = 0;
}

pub data CaptureError (AudioError PollError : Type 0) : Type 0 where
  no_captured_audio no_captured_video : CaptureError AudioError PollError
  audio_worker : AudioError → CaptureError AudioError PollError
  audio_closed camera_disconnected : CaptureError AudioError PollError
  poll_failed : PollError → CaptureError AudioError PollError
  synchronization : SynchronizationError → CaptureError AudioError PollError
  writing : MatroskaError → CaptureError AudioError PollError

-- What the stop flag, the audio channel, the session and the clock answer in a pass.
pub record Round (AudioError PollError : Type 0) : Type 0 where
  pub stopping : Bool
  pub audio : List (AudioCaptureEvent AudioError)
  pub polled : Result PollError (List SessionEvent)
  pub stopping_at_error : Bool
  pub report_due : Bool

module _ (lib : JpegDecoder) (AudioError PollError : Type 0) where
  abbrev pub Capturing : Type 0 → Type 0
  Capturing A = Run CaptureState (CaptureError AudioError PollError) A

  -- The loop over `audio_events.try_iter()`.
  unfoldable pub gather_audio :
      List (AudioCaptureEvent AudioError)
      → Result (CaptureError AudioError PollError) (List TimedMediaEvent)
  gather_audio [] = ok []
  gather_audio (chunk c ∷ events) = elim (gather_audio events) [
    | ok media ↦ ok (Media.audio c ∷ media)
    | err error ↦ err error
  ]
  gather_audio (failed error ∷ events) = err (audio_worker error)
  gather_audio (closed ∷ events) = err audio_closed

  -- An event of the session in front of what the rest of them brings.
  abbrev pub Gathered : Type 0
  Gathered = VideoCapture × Result (CaptureError AudioError PollError) (List TimedMediaEvent)

  unfoldable pub add_media : TimedVideoFrame → Gathered → Gathered
  add_media frame (c, ok media) = (c, ok (Media.video frame ∷ media))
  add_media frame (c, err error) = (c, err error)

  unfoldable pub gather_next : VideoCapture → EventOutcome → (VideoCapture → Gathered) → Gathered
  unfolding add_media
  gather_next c nothing rest = rest c
  gather_next c (frame_ready frame) rest = add_media frame (rest c)
  gather_next c disconnected rest = (c, err camera_disconnected)

  -- The loop over `usb_events`.
  unfoldable pub gather_video : ℕ → List SessionEvent → VideoCapture → Gathered
  unfolding handle_event gather_next
  gather_video origin [] c = (c, ok [])
  gather_video origin (event ∷ events) c =
      let (c', outcome) = handle_event lib origin c event in
      gather_next c' outcome (gather_video origin events)

  unfoldable pub take_video : ℕ → List SessionEvent → Capturing (List TimedMediaEvent)
  unfolding gather_video
  take_video origin events state =
      let (c, media) = gather_video origin events state.capture in
      (record state { capture = c }, media)

  unfoldable pub behind_video : Result MatroskaError MatroskaWriter → Capturing (Unit {0})
  behind_video (ok writer) state =
      (record state { writer = writer; video_frames = wrap64 (state.video_frames + 1) }, ok tt)
  behind_video (err error) state = (state, err (writing error))

  unfoldable pub behind_audio : Result MatroskaError MatroskaWriter → Capturing (Unit {0})
  behind_audio (ok writer) state =
      (record state { writer = writer; audio_chunks = wrap64 (state.audio_chunks + 1) }, ok tt)
  behind_audio (err error) state = (state, err (writing error))

  -- The two matches on the event, behind its timing.
  unfoldable pub write_media :
      ℤ → TimedMediaEvent → Result SynchronizationError MediaTiming → Capturing (Unit {0})
  unfolding behind_video behind_audio write_video write_audio apply_audio_delay
  write_media delay_ms event (err error) state = (state, err (synchronization error))
  write_media delay_ms (Media.video frame) (ok timing) state =
      behind_video (write_video state.writer frame timing) (record state {
        maximum_video_drift_us =
            max state.maximum_video_drift_us (unsigned_abs timing.observed_drift_us);
      })
  write_media delay_ms (Media.audio audio) (ok timing) state =
      behind_audio (write_audio state.writer audio (apply_audio_delay timing delay_ms))
        (record state {
          maximum_audio_drift_us =
              max state.maximum_audio_drift_us (unsigned_abs timing.observed_drift_us);
        })

  unfoldable pub record_event : ℤ → TimedMediaEvent → Capturing (Unit {0})
  unfolding event_timing write_media
  record_event delay_ms event state =
      let (synchronizer, timing) = event_timing state.synchronizer event in
      write_media delay_ms event timing (record state { synchronizer = synchronizer })

  unfoldable pub record_events : ℤ → List TimedMediaEvent → Capturing (Unit {0})
  unfolding record_event
  record_events delay_ms [] = lift (ok tt)
  record_events delay_ms (event ∷ events) = do
    recorded ← record_event delay_ms event
    record_events delay_ms events

  -- The flush with the periodic report.
  unfoldable pub report : Bool → Capturing (Unit {0})
  unfolding flush
  report false state = (state, ok tt)
  report true state = elim (flush state.writer) [
    | ok writer ↦ (record state { writer = writer }, ok tt)
    | err error ↦ (state, err (writing error))
  ]

  -- What the stop flag leads to; a pass returns whether the loop goes on.
  unfoldable pub finish : Capturing Bool
  finish state =
      if state.audio_chunks == 0
      then (state, err no_captured_audio)
      else if state.video_frames == 0
      then (state, err no_captured_video)
      else (state, ok false)

  unfoldable pub record_round :
      ℕ → ℤ → Bool → List TimedMediaEvent → List SessionEvent → Capturing Bool
  unfolding take_video record_events report sort_by_key
  record_round origin delay_ms report_due audio events = do
    video ← take_video origin events
    recorded ← record_events delay_ms (sort_by_key (audio ++ video))
    reported ← report report_due
    lift (ok true)

  -- The match on what the poll returned.
  unfoldable pub behind_poll :
      ℕ
      → ℤ
      → Round AudioError PollError
      → List TimedMediaEvent
      → Result PollError (List SessionEvent)
      → Capturing Bool
  unfolding record_round
  behind_poll origin delay_ms round audio (ok events) state =
      record_round origin delay_ms round.report_due audio events state
  behind_poll origin delay_ms round audio (err error) state =
      if round.stopping_at_error then (state, ok false) else (state, err (poll_failed error))

  unfoldable pub behind_stop : ℕ → ℤ → Round AudioError PollError → Bool → Capturing Bool
  unfolding finish gather_audio behind_poll
  behind_stop origin delay_ms round true = finish
  behind_stop origin delay_ms round false = do
    audio ← lift (gather_audio round.audio)
    behind_poll origin delay_ms round audio round.polled

  unfoldable pub capture_round : ℕ → ℤ → Round AudioError PollError → Capturing Bool
  unfolding behind_stop
  capture_round origin delay_ms round = behind_stop origin delay_ms round round.stopping

  -- The result; none of it while the loop goes on.
  abbrev pub Captured : Type 0
  Captured = CaptureState × Option (Result (CaptureError AudioError PollError) (Unit {0}))

  unfoldable pub next_round :
      (CaptureState → Captured)
      → CaptureState × Result (CaptureError AudioError PollError) Bool
      → Captured
  next_round rest (state, ok true) = rest state
  next_round rest (state, ok false) = (state, some (ok tt))
  next_round rest (state, err error) = (state, some (err error))

  unfoldable pub run_capture_session :
      ℕ → ℤ → List (Round AudioError PollError) → CaptureState → Captured
  unfolding capture_round next_round
  run_capture_session origin delay_ms [] state = (state, none)
  run_capture_session origin delay_ms (round ∷ rounds) state =
      next_round (run_capture_session origin delay_ms rounds)
        (capture_round origin delay_ms round state)
