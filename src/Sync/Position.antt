-- ===== src/Sync/Position.antt =====
-- Where crates/handycam-core/src/sync.rs's synchronizer puts an event.
use handycam_rs.Sync.{
  SynchronizationError, observation_before_stream_start, ClockAnchor, AvSynchronizer, anchored_pts,
  observed_pts, TimingResult, video_position_us, place_video, video_timing, place_audio,
  event_timing,
}
use handycam_rs.Media.{
  MonotonicTimestamp, TimedVideoFrame, TimedAudioChunk, TimedMediaEvent, video, audio,
}
use handycam_rs.Prelude.{
  ℕ, ◌+◌, ◌-◌, ◌^◌, ◌≤◌, ◌<◌, ◌≡◌, refl, none, some, List, [], ◌∷◌, arith, lt→ltb, le→ltb_false,
  Result, ok, err,
}

-- main.rs: `event_observed_timestamp`.
abbrev pub event_observed_timestamp : TimedMediaEvent → MonotonicTimestamp
event_observed_timestamp (video frame) = frame.observed_at
event_observed_timestamp (audio chunk) = chunk.observed_start

observed_pts_early :
    (sync : AvSynchronizer) (t : MonotonicTimestamp)
    → t.micros < sync.stream_start.micros
    → observed_pts sync t ≡ err (observation_before_stream_start sync.stream_start t)
unfolding observed_pts
observed_pts_early sync t h = rw (lt→ltb _ _ h)

pub observed_pts_late :
    (sync : AvSynchronizer) (t : MonotonicTimestamp)
    → sync.stream_start.micros ≤ t.micros
    → observed_pts sync t ≡ ok (t.micros - sync.stream_start.micros)
unfolding observed_pts
observed_pts_late sync t h = rw (le→ltb_false _ _ h)

-- An event that was observed before the stream's start is refused, naming both times, and leaves
-- the synchronizer as it was: no clock is anchored to it.
pub event_timing_early :
    (sync : AvSynchronizer) (e : TimedMediaEvent)
    → (event_observed_timestamp e).micros < sync.stream_start.micros
    → event_timing sync e
      ≡ (sync, err (observation_before_stream_start sync.stream_start (event_observed_timestamp e)))
unfolding event_timing
event_timing_early sync (video f) h = rw (observed_pts_early sync f.observed_at h)
event_timing_early sync (audio c) h = rw (observed_pts_early sync c.observed_start h)

-- The synchronizer after a run of events.
unfoldable pub after_events : AvSynchronizer → List TimedMediaEvent → AvSynchronizer
after_events sync [] = sync
after_events sync (e ∷ events) = after_events (event_timing sync e).0 events

-- The stream's start and a video anchor, once set, stay.
record Anchored (start : MonotonicTimestamp) (anchor : ClockAnchor) (sync : AvSynchronizer)
    : Type 0 where
  started : sync.stream_start ≡ start
  anchored : sync.video_anchor ≡ some anchor

place_video-Anchored :
    {start : MonotonicTimestamp} {anchor : ClockAnchor} (sync : AvSynchronizer)
    (f : TimedVideoFrame) (o : Result SynchronizationError ℕ)
    → Anchored start anchor sync
    → Anchored start anchor (place_video sync f o).0
unfolding place_video
place_video-Anchored sync f (err e) a = a
place_video-Anchored sync f (ok t) a = record { started = a.started; anchored = rw a.anchored }

place_audio-Anchored :
    {start : MonotonicTimestamp} {anchor : ClockAnchor} (sync : AvSynchronizer)
    (c : TimedAudioChunk) (o : Result SynchronizationError ℕ)
    → Anchored start anchor sync
    → Anchored start anchor (place_audio sync c o).0
unfolding place_audio
place_audio-Anchored sync c (err e) a = a
place_audio-Anchored sync c (ok t) a = record { started = a.started; anchored = a.anchored }

after_events-Anchored :
    {start : MonotonicTimestamp} {anchor : ClockAnchor} (events : List TimedMediaEvent)
    (sync : AvSynchronizer)
    → Anchored start anchor sync
    → Anchored start anchor (after_events sync events)
unfolding after_events event_timing
after_events-Anchored [] sync a = a
after_events-Anchored (video f ∷ events) sync a =
    after_events-Anchored events _ (place_video-Anchored sync f (observed_pts sync f.observed_at) a)
after_events-Anchored (audio c ∷ events) sync a =
    after_events-Anchored events _
      (place_audio-Anchored sync c (observed_pts sync c.observed_start) a)

-- The presentation time of a result.
abbrev pub HasPts : ℕ → TimingResult → Type 0
HasPts pts (sync, err e) = ⊥
HasPts pts (sync, ok timing) = timing.pts_us ≡ pts

anchored_pts_ahead :
    (anchor : ClockAnchor) (position : ℕ)
    → anchor.media_position_us ≤ position
    → anchor.pts_us + (position - anchor.media_position_us) < 2 ^ 64
    → anchored_pts anchor position ≡ anchor.pts_us + (position - anchor.media_position_us)
unfolding anchored_pts
anchored_pts_ahead anchor position h k = ground arith

place_video-HasPts :
    (sync : AvSynchronizer) (f : TimedVideoFrame) (observed : ℕ) (anchor : ClockAnchor)
    → sync.video_anchor ≡ some anchor
    → HasPts (anchored_pts anchor (video_position_us f)) (place_video sync f (ok observed))
unfolding place_video
place_video-HasPts sync f observed anchor e = rw e refl

anchor_of : AvSynchronizer → TimedVideoFrame → ClockAnchor
anchor_of sync first = record {
  media_position_us = video_position_us first;
  pts_us = first.observed_at.micros - sync.stream_start.micros;
}

first-Anchored :
    (sync : AvSynchronizer) (first : TimedVideoFrame)
    → sync.video_anchor ≡ none
    → sync.stream_start.micros ≤ first.observed_at.micros
    → Anchored sync.stream_start (anchor_of sync first) (video_timing sync first).0
unfolding video_timing anchor_of
first-Anchored sync first unset early =
    rw (observed_pts_late sync first.observed_at early)
      (record { started = refl; anchored = rw unset refl })

-- Arrival jitter does not move a frame. From the first frame on that is timed, whatever events
-- come in between and whenever a later frame is observed, its presentation time is that of the
-- first frame plus the time between the two on the camera's clock (for a position not before
-- the first frame's, while the sum fits 64 bits).
pub video_timing_anchored :
    (sync : AvSynchronizer) (first later : TimedVideoFrame) (between : List TimedMediaEvent)
    → sync.video_anchor ≡ none
    → sync.stream_start.micros ≤ first.observed_at.micros
    → sync.stream_start.micros ≤ later.observed_at.micros
    → video_position_us first ≤ video_position_us later
    → first.observed_at.micros
        - sync.stream_start.micros
        + (video_position_us later - video_position_us first)
      < 2 ^ 64
    → HasPts
        (first.observed_at.micros
          - sync.stream_start.micros
          + (video_position_us later - video_position_us first))
        (video_timing (after_events (video_timing sync first).0 between) later)
unfolding video_timing anchor_of
video_timing_anchored sync first later between unset early late order fits =
    let anchor = anchor_of sync first in
    let middle = after_events (video_timing sync first).0 between in
    let held : Anchored sync.stream_start anchor middle =
      after_events-Anchored between _ (first-Anchored sync first unset early) in
    let seen : observed_pts middle later.observed_at
        ≡ ok (later.observed_at.micros - middle.stream_start.micros) =
      observed_pts_late middle later.observed_at (rw held.started late) in
    rw (← anchored_pts_ahead anchor (video_position_us later) order fits, seen)
      (place_video-HasPts middle later _ anchor held.anchored)
