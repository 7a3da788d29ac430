-- ===== src/Sync/Shared.antt =====
-- How the two streams share crates/handycam-core/src/sync.rs's synchronizer: neither sees the other.
use handycam_rs.Sync.{
  MediaTiming, SynchronizationError, AvSynchronizer, observed_pts, place_video, place_audio,
  event_timing,
}
use handycam_rs.Media.{
  MonotonicTimestamp, TimedVideoFrame, TimedAudioChunk, TimedMediaEvent, video, audio,
}
use handycam_rs.Prelude.{ℕ, ◌≡◌, refl, ap₂, List, [], ◌∷◌, Result, ok, err}

abbrev pub Timing : Type 0
Timing = Result SynchronizationError MediaTiming

-- The results for the video events of a run, in order.
unfoldable pub video_results : AvSynchronizer → List TimedMediaEvent → List Timing
video_results sync [] = []
video_results sync (video frame ∷ events) =
    let (sync', timing) = event_timing sync (video frame) in timing ∷ video_results sync' events
video_results sync (audio chunk ∷ events) = video_results (event_timing sync (audio chunk)).0 events

unfoldable pub audio_results : AvSynchronizer → List TimedMediaEvent → List Timing
audio_results sync [] = []
audio_results sync (audio chunk ∷ events) =
    let (sync', timing) = event_timing sync (audio chunk) in timing ∷ audio_results sync' events
audio_results sync (video frame ∷ events) = audio_results (event_timing sync (video frame)).0 events

-- The events of one stream alone.
abbrev pub only_video : List TimedMediaEvent → List TimedMediaEvent
only_video [] = []
only_video (video frame ∷ events) = video frame ∷ only_video events
only_video (audio chunk ∷ events) = only_video events

abbrev pub only_audio : List TimedMediaEvent → List TimedMediaEvent
only_audio [] = []
only_audio (video frame ∷ events) = only_audio events
only_audio (audio chunk ∷ events) = audio chunk ∷ only_audio events

-- The same origin and the same video clock, whatever the audio clock.
record SameVideo (a b : AvSynchronizer) : Type 0 where
  start : a.stream_start ≡ b.stream_start
  anchor : a.video_anchor ≡ b.video_anchor
  last : a.last_video_position_us ≡ b.last_video_position_us

record SameAudio (a b : AvSynchronizer) : Type 0 where
  start : a.stream_start ≡ b.stream_start
  anchor : a.audio_anchor ≡ b.audio_anchor
  last : a.last_audio_end_us ≡ b.last_audio_end_us

place_video-SameVideo :
    (a b : AvSynchronizer) (f : TimedVideoFrame) (o : Result SynchronizationError ℕ)
    → SameVideo a b
    → SameVideo (place_video a f o).0 (place_video b f o).0
      × ((place_video a f o).1 ≡ (place_video b f o).1)
unfolding place_video
place_video-SameVideo a b f (err e) s = (s, refl)
place_video-SameVideo a b f (ok t) s =
    rw (s.anchor, s.last) (record { start = s.start; anchor = refl; last = refl }, refl)

place_audio-SameVideo :
    (a b : AvSynchronizer) (c : TimedAudioChunk) (o : Result SynchronizationError ℕ)
    → SameVideo a b
    → SameVideo (place_audio a c o).0 b
unfolding place_audio
place_audio-SameVideo a b c (err e) s = s
place_audio-SameVideo a b c (ok t) s = record { start = s.start; anchor = s.anchor; last = s.last }

observed_pts_same :
    (a b : AvSynchronizer) (t : MonotonicTimestamp)
    → a.stream_start ≡ b.stream_start
    → observed_pts a t ≡ observed_pts b t
unfolding observed_pts
observed_pts_same a b t e = rw e

video_results-SameVideo :
    (events : List TimedMediaEvent) (a b : AvSynchronizer)
    → SameVideo a b
    → video_results a events ≡ video_results b (only_video events)
unfolding video_results event_timing
video_results-SameVideo [] a b s = refl
video_results-SameVideo (video f ∷ events) a b s =
    let kept = place_video-SameVideo a b f (observed_pts a f.observed_at) s in
    rw (← observed_pts_same a b f.observed_at s.start)
      (ap₂ ◌∷◌ kept.1 (video_results-SameVideo events _ _ kept.0))
video_results-SameVideo (audio c ∷ events) a b s =
    video_results-SameVideo events _ b
      (place_audio-SameVideo a b c (observed_pts a c.observed_start) s)

-- However audio and video events interleave, each video frame gets the timing, or the error, that
-- it gets in the stream of the video events alone.
pub video_results-only_video :
    (events : List TimedMediaEvent) (sync : AvSynchronizer)
    → video_results sync events ≡ video_results sync (only_video events)
video_results-only_video events sync =
    video_results-SameVideo events sync sync (record { start = refl; anchor = refl; last = refl })

place_audio-SameAudio :
    (a b : AvSynchronizer) (c : TimedAudioChunk) (o : Result SynchronizationError ℕ)
    → SameAudio a b
    → SameAudio (place_audio a c o).0 (place_audio b c o).0
      × ((place_audio a c o).1 ≡ (place_audio b c o).1)
unfolding place_audio
place_audio-SameAudio a b c (err e) s = (s, refl)
place_audio-SameAudio a b c (ok t) s =
    rw (s.anchor, s.last) (record { start = s.start; anchor = refl; last = refl }, refl)

place_video-SameAudio :
    (a b : AvSynchronizer) (f : TimedVideoFrame) (o : Result SynchronizationError ℕ)
    → SameAudio a b
    → SameAudio (place_video a f o).0 b
unfolding place_video
place_video-SameAudio a b f (err e) s = s
place_video-SameAudio a b f (ok t) s = record { start = s.start; anchor = s.anchor; last = s.last }

audio_results-SameAudio :
    (events : List TimedMediaEvent) (a b : AvSynchronizer)
    → SameAudio a b
    → audio_results a events ≡ audio_results b (only_audio events)
unfolding audio_results event_timing
audio_results-SameAudio [] a b s = refl
audio_results-SameAudio (audio c ∷ events) a b s =
    let kept = place_audio-SameAudio a b c (observed_pts a c.observed_start) s in
    rw (← observed_pts_same a b c.observed_start s.start)
      (ap₂ ◌∷◌ kept.1 (audio_results-SameAudio events _ _ kept.0))
audio_results-SameAudio (video f ∷ events) a b s =
    audio_results-SameAudio events _ b
      (place_video-SameAudio a b f (observed_pts a f.observed_at) s)

-- And each audio chunk gets what it gets in the stream of the audio events alone.
pub audio_results-only_audio :
    (events : List TimedMediaEvent) (sync : AvSynchronizer)
    → audio_results sync events ≡ audio_results sync (only_audio events)
audio_results-only_audio events sync =
    audio_results-SameAudio events sync sync (record { start = refl; anchor = refl; last = refl })
