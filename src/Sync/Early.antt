-- ===== src/Sync/Early.antt =====
-- Events that crates/handycam-core/src/sync.rs's synchronizer sees from before the stream's start.
use mathlib.Core.Path.{subst}
use handycam_rs.Media.{
  MonotonicTimestamp, TimedVideoFrame, TimedAudioChunk, TimedMediaEvent, video, audio,
}
use handycam_rs.Sync.{
  MediaTiming, SynchronizationError, observation_before_stream_start, AvSynchronizer, place_video,
  place_audio, event_timing,
}
use handycam_rs.Sync.Position.{observed_pts_late, event_timing_early}
use handycam_rs.Sync.Shared.{Timing}
use handycam_rs.Prelude.{
  ℕ, ◌≤◌, ◌<◌, ◌≡◌, refl, ap, ◌∙◌, inl, inr, List, [], ◌∷◌, map, arith, ltb, if◌then◌else◌,
  Bool-cases, Result, ok, err,
}

-- When an event was observed.
abbrev pub time_of : TimedMediaEvent → MonotonicTimestamp
time_of (video frame) = frame.observed_at
time_of (audio chunk) = chunk.observed_start

-- The synchronizer's answers to a run of events.
unfoldable pub timings : AvSynchronizer → List TimedMediaEvent → List Timing
timings sync [] = []
timings sync (event ∷ events) =
    let (sync', timing) = event_timing sync event in timing ∷ timings sync' events

abbrev pub on_time : MonotonicTimestamp → List TimedMediaEvent → List TimedMediaEvent
on_time start [] = []
on_time start (event ∷ events) =
    let later = on_time start events in
    if ltb (time_of event).micros start.micros then later else event ∷ later

abbrev pub put_next : (List MediaTiming → List Timing) → List MediaTiming → List Timing
put_next later [] = []
put_next later (timing ∷ placed) = ok timing ∷ later placed

-- An error in the place of each early event, and the next of the timings in that of any other.
abbrev pub with_errors : MonotonicTimestamp → List TimedMediaEvent → List MediaTiming → List Timing
with_errors start [] placed = []
with_errors start (event ∷ events) placed =
    if ltb (time_of event).micros start.micros
    then err (observation_before_stream_start start (time_of event))
      ∷ with_errors start events placed
    else put_next (with_errors start events) placed

pub record IsScreened (sync : AvSynchronizer) (start : MonotonicTimestamp)
    (events : List TimedMediaEvent) : Type 0 where
  pub placed : List MediaTiming
  pub alone : timings sync (on_time start events) ≡ map ok placed
  pub among : timings sync events ≡ with_errors start events placed

place_video-start :
    (sync : AvSynchronizer) (frame : TimedVideoFrame) (o : Result SynchronizationError ℕ)
    → (place_video sync frame o).0.stream_start ≡ sync.stream_start
unfolding place_video
place_video-start sync frame (ok observed) = refl
place_video-start sync frame (err e) = refl

place_audio-start :
    (sync : AvSynchronizer) (chunk : TimedAudioChunk) (o : Result SynchronizationError ℕ)
    → (place_audio sync chunk o).0.stream_start ≡ sync.stream_start
unfolding place_audio
place_audio-start sync chunk (ok observed) = refl
place_audio-start sync chunk (err e) = refl

event_timing-start :
    (sync : AvSynchronizer) (event : TimedMediaEvent)
    → (event_timing sync event).0.stream_start ≡ sync.stream_start
unfolding event_timing
event_timing-start sync (video frame) = place_video-start sync frame _
event_timing-start sync (audio chunk) = place_audio-start sync chunk _

event_timing_late :
    (sync : AvSynchronizer) (event : TimedMediaEvent)
    → sync.stream_start.micros ≤ (time_of event).micros
    → (timing : MediaTiming) × ((event_timing sync event).1 ≡ ok timing)
unfolding event_timing place_video place_audio
event_timing_late sync (video frame) h = rw (observed_pts_late sync frame.observed_at h) (_, refl)
event_timing_late sync (audio chunk) h =
    rw (observed_pts_late sync chunk.observed_start h) (_, refl)

event_timing_refused :
    (sync : AvSynchronizer) (event : TimedMediaEvent)
    → (time_of event).micros < sync.stream_start.micros
    → event_timing sync event
      ≡ (sync, err (observation_before_stream_start sync.stream_start (time_of event)))
event_timing_refused sync (video frame) h = event_timing_early sync (video frame) h
event_timing_refused sync (audio chunk) h = event_timing_early sync (audio chunk) h

screened :
    (start : MonotonicTimestamp) (events : List TimedMediaEvent) (sync : AvSynchronizer)
    → sync.stream_start ≡ start
    → IsScreened sync start events
unfolding timings
screened start [] sync same = record { placed = []; alone = refl; among = refl }
screened start (event ∷ events) sync same =
    elim (Bool-cases (ltb (time_of event).micros start.micros)) [
      | inl e ↦
          let rest = screened start events sync same in
          let refused : event_timing sync event
              ≡ (sync, err (observation_before_stream_start start (time_of event))) =
            subst
              (λ s.
                event_timing sync event
                ≡ (sync, err (observation_before_stream_start s (time_of event))))
              same
              (event_timing_refused sync event
                (ground (arith, e, ap (λ (s : MonotonicTimestamp). s.micros) same))) in
          record {
            placed = rest.placed;
            alone = rw e rest.alone;
            among = rw (e, refused, rest.among) refl;
          }
      | inr e ↦
          let (timing, answered) =
            event_timing_late sync event
              (ground (arith, e, ap (λ (s : MonotonicTimestamp). s.micros) same)) in
          let rest =
            screened start events (event_timing sync event).0
              (event_timing-start sync event ∙ same) in
          record {
            placed = timing ∷ rest.placed;
            alone = rw (e, answered, rest.alone) refl;
            among = rw (e, answered, rest.among) refl;
          }
    ]

-- Of the events of a run, exactly those that were observed before the stream's start are refused,
-- with both times; every other gets the timing that it gets in the run without these: an early event
-- neither anchors a clock nor moves one.
pub timings-IsScreened :
    (sync : AvSynchronizer) (events : List TimedMediaEvent)
    → IsScreened sync sync.stream_start events
timings-IsScreened sync events = screened sync.stream_start events sync refl
