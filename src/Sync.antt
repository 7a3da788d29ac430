-- ===== src/Sync.antt =====
-- crates/handycam-core/src/sync.rs: the audio and video clocks on one timeline.
-- A method returns the new synchronizer and its result.
pub mod Shared
pub mod Position
pub mod Early
pub mod FromZero
pub mod Contiguous
use handycam_rs.Media.{
  MonotonicTimestamp, duration_since, TimedVideoFrame, TimedAudioChunk, TimedMediaEvent,
}
use handycam_rs.Media
use handycam_rs.Prelude.Int.{ℤ, pos, negsuc, sub_ℕ}
use handycam_rs.Prelude.{
  ℕ, ◌-◌, ◌/◌, ◌^◌, min, Bool, false, not, ◌||◌, Option, none, some, leb, ◌==◌, if◌then◌else◌,
  saturating_add, saturating_sub, saturating_mul, Result, ok, err, ok_or,
}

pub record MediaTiming : Type 0 where
  pub pts_us : ℕ
  pub duration_us : ℕ
  pub observed_drift_us : ℤ
  pub discontinuity : Bool

pub data SynchronizationError : Type 0 where
  observation_before_stream_start : MonotonicTimestamp → MonotonicTimestamp → SynchronizationError

pub record ClockAnchor : Type 0 where
  pub media_position_us : ℕ
  pub pts_us : ℕ

pub record AvSynchronizer : Type 0 where
  pub stream_start : MonotonicTimestamp
  pub video_anchor : Option ClockAnchor
  pub audio_anchor : Option ClockAnchor
  pub last_video_position_us : Option ℕ
  pub last_audio_end_us : Option ℕ

abbrev pub new : MonotonicTimestamp → AvSynchronizer
new stream_start = record {
  stream_start = stream_start;
  video_anchor = none;
  audio_anchor = none;
  last_video_position_us = none;
  last_audio_end_us = none;
}

unfoldable pub anchored_pts : ClockAnchor → ℕ → ℕ
anchored_pts anchor position_us =
    if leb anchor.media_position_us position_us
    then saturating_add anchor.pts_us (position_us - anchor.media_position_us)
    else saturating_sub anchor.pts_us (anchor.media_position_us - position_us)

-- `sample_frames.saturating_mul(1_000_000) / u64::from(sample_rate_hz)`
unfoldable pub samples_to_us : ℕ → ℕ → ℕ
samples_to_us sample_frames sample_rate_hz = saturating_mul sample_frames 1_000_000 / sample_rate_hz

-- The i128 difference, clamped to i64.
abbrev pub clamp_i64 : ℤ → ℤ
clamp_i64 (pos n) = pos (min n (2 ^ 63 - 1))
clamp_i64 (negsuc n) = negsuc (min n (2 ^ 63 - 1))

unfoldable pub signed_difference : ℕ → ℕ → ℤ
signed_difference left right = clamp_i64 (sub_ℕ left right)

unfoldable pub observed_pts : AvSynchronizer → MonotonicTimestamp → Result SynchronizationError ℕ
observed_pts sync observed =
    ok_or (duration_since observed sync.stream_start)
      (observation_before_stream_start sync.stream_start observed)

-- `*anchor.get_or_insert(candidate)`: the anchor used, which is also the one kept.
abbrev pub get_or_insert : Option ClockAnchor → ClockAnchor → ClockAnchor
get_or_insert none candidate = candidate
get_or_insert (some anchor) candidate = anchor

-- `last.is_some_and(|last| position_us != last)`
abbrev pub jumped : Option ℕ → ℕ → Bool
jumped none position_us = false
jumped (some last) position_us = not (position_us == last)

-- The timing that both methods build.
pub timing_at : ClockAnchor → ℕ → ℕ → ℕ → Bool → MediaTiming
timing_at anchor position_us duration_us observed_pts_us discontinuity =
    let pts = anchored_pts anchor position_us in
    record {
      pts_us = pts;
      duration_us = duration_us;
      observed_drift_us = signed_difference observed_pts_us pts;
      discontinuity = discontinuity;
    }

abbrev pub TimingResult : Type 0
TimingResult = AvSynchronizer × Result SynchronizationError MediaTiming

abbrev pub video_position_us : TimedVideoFrame → ℕ
video_position_us event = saturating_mul event.frame.timestamp_unwrapped_ms 1_000

abbrev pub video_duration_us : TimedVideoFrame → ℕ
video_duration_us event = saturating_mul event.frame.timestamp_delta_to_next_ms 1_000

-- `video_timing` behind `self.observed_pts(event.observed_at)?`.
pub place_video : AvSynchronizer → TimedVideoFrame → Result SynchronizationError ℕ → TimingResult
unfolding timing_at
place_video sync event (err e) = (sync, err e)
place_video sync event (ok observed) =
    let position = video_position_us event in
    let duration = video_duration_us event in
    let anchor =
      get_or_insert sync.video_anchor
        (record { media_position_us = position; pts_us = observed }) in
    let discontinuity = event.source_discontinuity || jumped sync.last_video_position_us position in
    (
      record sync {
        video_anchor = some anchor;
        last_video_position_us = some (saturating_add position duration);
      },
      ok (timing_at anchor position duration observed discontinuity),
    )

unfoldable pub video_timing : AvSynchronizer → TimedVideoFrame → TimingResult
unfolding place_video
video_timing sync event = place_video sync event (observed_pts sync event.observed_at)

abbrev pub audio_position_us : TimedAudioChunk → ℕ
audio_position_us event = samples_to_us event.chunk.start_sample_frame event.format.sample_rate_hz

abbrev pub audio_duration_us : TimedAudioChunk → ℕ
audio_duration_us event = samples_to_us event.chunk.sample_frames event.format.sample_rate_hz

-- `audio_timing` behind `self.observed_pts(event.observed_start)?`.
pub place_audio : AvSynchronizer → TimedAudioChunk → Result SynchronizationError ℕ → TimingResult
unfolding timing_at
place_audio sync event (err e) = (sync, err e)
place_audio sync event (ok observed) =
    let position = audio_position_us event in
    let duration = audio_duration_us event in
    let anchor =
      get_or_insert sync.audio_anchor
        (record { media_position_us = position; pts_us = observed }) in
    let discontinuity = event.source_discontinuity || jumped sync.last_audio_end_us position in
    (
      record sync {
        audio_anchor = some anchor;
        last_audio_end_us = some (saturating_add position duration);
      },
      ok (timing_at anchor position duration observed discontinuity),
    )

unfoldable pub audio_timing : AvSynchronizer → TimedAudioChunk → TimingResult
unfolding place_audio
audio_timing sync event = place_audio sync event (observed_pts sync event.observed_start)

unfoldable pub event_timing : AvSynchronizer → TimedMediaEvent → TimingResult
unfolding video_timing audio_timing
event_timing sync (Media.video frame) = video_timing sync frame
event_timing sync (Media.audio chunk) = audio_timing sync chunk
