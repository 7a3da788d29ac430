-- ===== src/Sync/FromZero.antt =====
-- The synchronizer of crates/handycam-core/src/sync.rs for a stream that starts at time 0.
use handycam_rs.Media.{TimedVideoFrame, TimedAudioChunk, TimedMediaEvent, from_micros}
use handycam_rs.Media
use handycam_rs.Sync.{
  MediaTiming, SynchronizationError, ClockAnchor, AvSynchronizer, anchored_pts, get_or_insert,
  timing_at, TimingResult, video_position_us, place_video, place_audio, audio_position_us,
  event_timing,
}
use handycam_rs.Sync
use handycam_rs.Sync.Position.{event_observed_timestamp, observed_pts_late}
use handycam_rs.Prelude.{ℕ, ◌≤◌, ◌≡◌, refl, Option, none, some, arith, u64_max, ok}

abbrev pub Fits : Option ClockAnchor → Type 0
Fits none = Unit
Fits (some anchor) = anchor.pts_us ≤ u64_max

pub record IsFromZero (sync : AvSynchronizer) : Type 0 where
  pub from_zero : sync.stream_start.micros ≡ 0
  pub video_fits : Fits sync.video_anchor
  pub audio_fits : Fits sync.audio_anchor

pub new-IsFromZero : IsFromZero (Sync.new (from_micros 0))
new-IsFromZero = record { from_zero = refl; video_fits = tt; audio_fits = tt }

-- A time for the event, within a u64.
pub record IsTimed (r : TimingResult) : Type 0 where
  pub timing : MediaTiming
  pub succeeds : r.1 ≡ ok timing
  pub fits : timing.pts_us ≤ u64_max
  pub remains : IsFromZero r.0

anchored_pts_le :
    (anchor : ClockAnchor) (position : ℕ)
    → anchor.pts_us ≤ u64_max
    → anchored_pts anchor position ≤ u64_max
unfolding anchored_pts
anchored_pts_le anchor position h = ground arith

get_or_insert-Fits :
    (held : Option ClockAnchor) (candidate : ClockAnchor)
    → Fits held
    → candidate.pts_us ≤ u64_max
    → (get_or_insert held candidate).pts_us ≤ u64_max
get_or_insert-Fits none candidate h fits = fits
get_or_insert-Fits (some anchor) candidate h fits = h

place_video-IsTimed :
    (sync : AvSynchronizer) (event : TimedVideoFrame) (observed : ℕ)
    → observed ≤ u64_max
    → IsFromZero sync
    → IsTimed (place_video sync event (ok observed))
unfolding place_video timing_at
place_video-IsTimed sync event observed h z =
    let candidate : ClockAnchor = record {
      media_position_us = video_position_us event;
      pts_us = observed;
    } in
    let kept = get_or_insert-Fits sync.video_anchor candidate z.video_fits h in
    record {
      timing = _;
      succeeds = refl;
      fits =
          anchored_pts_le (get_or_insert sync.video_anchor candidate) (video_position_us event)
            kept;
      remains = record { from_zero = z.from_zero; video_fits = kept; audio_fits = z.audio_fits };
    }

place_audio-IsTimed :
    (sync : AvSynchronizer) (event : TimedAudioChunk) (observed : ℕ)
    → observed ≤ u64_max
    → IsFromZero sync
    → IsTimed (place_audio sync event (ok observed))
unfolding place_audio timing_at
place_audio-IsTimed sync event observed h z =
    let candidate : ClockAnchor = record {
      media_position_us = audio_position_us event;
      pts_us = observed;
    } in
    let kept = get_or_insert-Fits sync.audio_anchor candidate z.audio_fits h in
    record {
      timing = _;
      succeeds = refl;
      fits =
          anchored_pts_le (get_or_insert sync.audio_anchor candidate) (audio_position_us event)
            kept;
      remains = record { from_zero = z.from_zero; video_fits = z.video_fits; audio_fits = kept };
    }

-- Every event with a 64-bit time is given one.
pub event_timing-IsTimed :
    (sync : AvSynchronizer) (event : TimedMediaEvent)
    → (event_observed_timestamp event).micros ≤ u64_max
    → IsFromZero sync
    → IsTimed (event_timing sync event)
unfolding event_timing
event_timing-IsTimed sync (Media.video f) h z =
    rw (observed_pts_late sync f.observed_at (omega (arith, z.from_zero)))
      (place_video-IsTimed sync f _ (omega arith) z)
event_timing-IsTimed sync (Media.audio c) h z =
    rw (observed_pts_late sync c.observed_start (omega (arith, z.from_zero)))
      (place_audio-IsTimed sync c _ (omega arith) z)
