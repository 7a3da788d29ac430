-- ===== src/Sync/Contiguous.antt =====
-- The decoder of crates/handycam-core/src/stream.rs feeding the synchronizer of sync.rs: frames
-- that were decoded without a gap are presented without a gap.
use handycam_rs.Jpeg.{JpegDecoder}
use handycam_rs.Stream.Run.{decode_packets}
use handycam_rs.Stream.Timeline.{IsWire, Timeline, decode_packets-Timeline}
use handycam_rs.Stream.{EndpointPacket, CompressedFrame, StreamDecoder, with_max_record_size}
use handycam_rs.Sync.Position.{observed_pts_late}
use handycam_rs.Sync.Shared.{Timing, video_results}
use handycam_rs.Sync.{
  AvSynchronizer, new, observed_pts, jumped, TimingResult, video_position_us, video_duration_us,
  place_video, video_timing, event_timing,
}
use handycam_rs.Media.{MonotonicTimestamp, TimedVideoFrame, TimedMediaEvent, video}
use handycam_rs.Prelude.{
  ℕ, ◌+◌, ◌-◌, ◌*◌, ◌^◌, ◌≤◌, ◌<◌, ◌≡◌, refl, false, Option, none, List, [], ◌∷◌, arith, wrap64, ok,
  err,
}

abbrev pub frames_of : List TimedVideoFrame → List CompressedFrame
frames_of [] = []
frames_of (e ∷ es) = e.frame ∷ frames_of es

abbrev pub video_events : List TimedVideoFrame → List TimedMediaEvent
video_events [] = []
video_events (e ∷ es) = video e ∷ video_events es

-- Observed after the start, with no loss reported by the transport, and at a time whose end fits
-- 64 bits of microseconds.
abbrev pub IsOrdinary : MonotonicTimestamp → List TimedVideoFrame → Type 0
IsOrdinary start [] = Unit
IsOrdinary start (e ∷ es) =
    (start.micros ≤ e.observed_at.micros)
    × (e.source_discontinuity ≡ false)
    × ((e.frame.timestamp_unwrapped_ms + e.frame.timestamp_delta_to_next_ms) * 1_000 < 2 ^ 64)
    × IsOrdinary start es

-- Every event is timed, for as long as its frame lasts, and none is marked as a discontinuity.
abbrev pub IsSmooth : List TimedVideoFrame → List Timing → Type 0
IsSmooth [] [] = Unit
IsSmooth (e ∷ es) (ok timing ∷ rest) =
    (timing.discontinuity ≡ false)
    × (timing.duration_us ≡ e.frame.timestamp_delta_to_next_ms * 1_000)
    × IsSmooth es rest
IsSmooth _ _ = ⊥

-- The synchronizer expects the next frame at this unwrapped time, or has seen none.
record Awaits (start : MonotonicTimestamp) (unwrapped : ℕ) (sync : AvSynchronizer) : Type 0 where
  started : sync.stream_start ≡ start
  unbroken : jumped sync.last_video_position_us (unwrapped * 1_000) ≡ false

abbrev Timed : MonotonicTimestamp → TimedVideoFrame → ℕ → TimingResult → Type 0
Timed start e next (sync, err x) = ⊥
Timed start e next (sync, ok timing) =
    (timing.discontinuity ≡ false)
    × (timing.duration_us ≡ e.frame.timestamp_delta_to_next_ms * 1_000)
    × Awaits start next sync

place_video-Timed :
    (start : MonotonicTimestamp) (sync : AvSynchronizer) (e : TimedVideoFrame)
    (unwrapped observed : ℕ)
    → Awaits start unwrapped sync
    → e.source_discontinuity ≡ false
    → e.frame.timestamp_unwrapped_ms ≡ unwrapped
    → (unwrapped + e.frame.timestamp_delta_to_next_ms) * 1_000 < 2 ^ 64
    → Timed start e
        (wrap64 (unwrapped + e.frame.timestamp_delta_to_next_ms))
        (place_video sync e (ok observed))
unfolding place_video
place_video-Timed start sync e u observed awaits sound at fits =
    let delta = e.frame.timestamp_delta_to_next_ms in
    let position : video_position_us e ≡ u * 1_000 = omega (arith, at) in
    let duration : video_duration_us e ≡ delta * 1_000 = omega arith in
    (
      rw (sound, position) awaits.unbroken,
      duration,
      record { started = awaits.started; unbroken = ground arith },
    )

IsSmooth-cons :
    (start : MonotonicTimestamp) (e : TimedVideoFrame) (es : List TimedVideoFrame) (next : ℕ)
    (r : TimingResult)
    → Timed start e next r
    → ((sync : AvSynchronizer)
        → Awaits start next sync
        → IsSmooth es (video_results sync (video_events es)))
    → IsSmooth (e ∷ es) (r.1 ∷ video_results r.0 (video_events es))
IsSmooth-cons start e es next (sync, err x) timed rest = absurd timed
IsSmooth-cons start e es next (sync, ok timing) timed rest = (timed.0, timed.1, rest sync timed.2)

video_results-IsSmooth :
    (start : MonotonicTimestamp) (es : List TimedVideoFrame) (sync : AvSynchronizer)
    (sequence unwrapped : ℕ) (stamp : Option ℕ)
    → Timeline sequence unwrapped stamp (frames_of es)
    → IsOrdinary start es
    → Awaits start unwrapped sync
    → IsSmooth es (video_results sync (video_events es))
unfolding video_results event_timing video_timing
video_results-IsSmooth start [] sync n u s line ordinary awaits = tt
video_results-IsSmooth start (e ∷ es) sync n u s (due, line) ordinary awaits =
    let seen : observed_pts sync e.observed_at
        ≡ ok (e.observed_at.micros - sync.stream_start.micros) =
      observed_pts_late sync e.observed_at (rw awaits.started ordinary.0) in
    let delta = e.frame.timestamp_delta_to_next_ms in
    let timed : Timed start e (wrap64 (u + delta)) (video_timing sync e) = rw seen (
      place_video-Timed start sync e u _ awaits ordinary.1 due.positioned
        (rw due.positioned at ordinary.2)) in
    IsSmooth-cons start e es (wrap64 (u + delta)) (video_timing sync e) timed
      λ sync' awaits'. video_results-IsSmooth start es sync' _ _ _ line ordinary.3 awaits'

-- The frames that a new decoder emits from any run of packets without an error are presented by a
-- new synchronizer as one unbroken sequence: each is timed, lasts to the next frame's stamp, and
-- none is flagged as a discontinuity, however the arrival times jitter (observed no earlier than
-- the start, no loss reported by the transport, and times that fit 64 bits).
pub decode_packets-IsSmooth :
    (lib : JpegDecoder) (maximum : ℕ) (ps : List EndpointPacket) (start : MonotonicTimestamp)
    (es : List TimedVideoFrame) {d : StreamDecoder}
    → IsWire ps
    → decode_packets lib (with_max_record_size maximum) ps ≡ ok (d, frames_of es)
    → IsOrdinary start es
    → IsSmooth es (video_results (new start) (video_events es))
decode_packets-IsSmooth lib maximum ps start es wire decoded ordinary =
    video_results-IsSmooth start es (new start) 0 0 none
      (decode_packets-Timeline lib maximum ps wire decoded) ordinary
      (record { started = refl; unbroken = refl })
