-- ===== src/Tests/Timing.antt =====
-- Runs of the synchronizer and of the sample clock: crates/handycam-core/src/sync.rs and audio.rs.
use handycam_rs.Media.{
  MonotonicTimestamp, from_micros, signed_16_little_endian, hardware, TimedVideoFrame,
  TimedAudioChunk, TimedMediaEvent, video, audio,
}
use handycam_rs.Audio.Clock.{push_all, Covers, push_all-Covers}
use handycam_rs.Sync.{new, video_timing}
use handycam_rs.Sync.Shared.{
  video_results, audio_results, video_results-only_video, audio_results-only_audio,
}
use handycam_rs.Sync.Early.{IsScreened, timings-IsScreened}
use handycam_rs.Sync.Position.{after_events, HasPts, video_timing_anchored}
use handycam_rs.Sync.Contiguous.{video_events, IsSmooth, decode_packets-IsSmooth}
use handycam_rs.Tests.Decoding.{
  stub, capture, first_frame, second_frame, decode-capture, capture-IsWire,
}
use handycam_rs.Prelude.{◌≡◌, refl, false, List, [], ◌∷◌, arith, Bytes}

abbrev start : MonotonicTimestamp
start = from_micros 1_000

-- The second frame arrives late.
abbrev pub first_event : TimedVideoFrame
first_event = record {
  observed_at = from_micros 1_500;
  frame = first_frame;
  source_discontinuity = false;
}

abbrev second_event : TimedVideoFrame
second_event = record {
  observed_at = from_micros 99_000;
  frame = second_frame;
  source_discontinuity = false;
}

abbrev pub chunk_event : TimedAudioChunk
chunk_event = record {
  observed_start = from_micros 2_000;
  timestamp_accuracy = hardware;
  format = record { sample_rate_hz = 16_000; channels = 2; encoding = signed_16_little_endian };
  chunk = record { pcm = 0 ∷ 0 ∷ 0 ∷ 0 ∷ []; start_sample_frame = 0; sample_frames = 1 };
  source_discontinuity = false;
}

abbrev events : List TimedMediaEvent
events = video first_event ∷ audio chunk_event ∷ video second_event ∷ []

decode_packets-IsSmooth_example :
    IsSmooth
      (first_event ∷ second_event ∷ [])
      (video_results (new start) (video_events (first_event ∷ second_event ∷ [])))
decode_packets-IsSmooth_example =
    decode_packets-IsSmooth stub 1000 capture start (first_event ∷ second_event ∷ []) capture-IsWire
      decode-capture (ground arith)

-- 500 microseconds behind the start, and 40 milliseconds on the camera's clock.
video_timing_anchored_example : HasPts 40_500 (
    video_timing
      (after_events (video_timing (new start) first_event).0 (audio chunk_event ∷ []))
      second_event)
video_timing_anchored_example =
    video_timing_anchored (new start) first_event second_event (audio chunk_event ∷ []) refl
      (omega arith) (omega arith) (omega arith) (omega arith)

video_results-only_video_example :
    video_results (new start) events
    ≡ video_results (new start) (video first_event ∷ video second_event ∷ [])
video_results-only_video_example = video_results-only_video events (new start)

audio_results-only_audio_example :
    audio_results (new start) events ≡ audio_results (new start) (audio chunk_event ∷ [])
audio_results-only_audio_example = audio_results-only_audio events (new start)

-- The first two events are early.
timings-IsScreened_example :
    IsScreened
      (new (from_micros 4_000))
      (from_micros 4_000)
      (audio chunk_event ∷ video first_event ∷ audio chunk_event ∷ video second_event ∷ [])
timings-IsScreened_example =
    timings-IsScreened (new (from_micros 4_000))
      (audio chunk_event ∷ video first_event ∷ audio chunk_event ∷ video second_event ∷ [])

abbrev pcm_packets : List Bytes
pcm_packets = (1 ∷ 2 ∷ 3 ∷ 4 ∷ []) ∷ (1 ∷ 2 ∷ []) ∷ (5 ∷ 6 ∷ 7 ∷ 8 ∷ []) ∷ []

push_all-Covers_example :
    Covers 7
      (push_all (record { next_sample_frame = 7 }) pcm_packets).0.next_sample_frame
      (push_all (record { next_sample_frame = 7 }) pcm_packets).1
push_all-Covers_example = push_all-Covers pcm_packets (record { next_sample_frame = 7 })
