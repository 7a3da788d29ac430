-- ===== src/Audio.antt =====
-- crates/handycam-core/src/audio.rs: PCM packets counted into a sample-frame timeline.
-- A `usize` is 64 bits wide.
pub mod Clock
use handycam_rs.Prelude.{
  ℕ, ◌+◌, ◌*◌, ◌/◌, ◌%◌, ◌^◌, not, ltb, ◌==◌, if◌then◌else◌, Bytes, length, u32_max, wrap64, Result,
  ok, err,
}

abbrev pub audio_channels : ℕ
audio_channels = 2

abbrev pub audio_sample_rate_hz : ℕ
audio_sample_rate_hz = 16_000

abbrev pub audio_bytes_per_sample : ℕ
audio_bytes_per_sample = 2

abbrev pub audio_bytes_per_sample_frame : ℕ
audio_bytes_per_sample_frame = audio_channels * audio_bytes_per_sample

abbrev pub audio_sample_frames_per_usb_frame : ℕ
audio_sample_frames_per_usb_frame = 16

abbrev pub audio_bytes_per_usb_frame : ℕ
audio_bytes_per_usb_frame = audio_sample_frames_per_usb_frame * audio_bytes_per_sample_frame

pub record AudioChunk : Type 0 where
  pub pcm : Bytes
  pub start_sample_frame : ℕ
  pub sample_frames : ℕ

unfoldable pub start_timestamp_us : AudioChunk → ℕ
start_timestamp_us chunk = wrap64 (chunk.start_sample_frame * 1_000_000) / audio_sample_rate_hz

pub record AudioClock : Type 0 where
  pub next_sample_frame : ℕ

abbrev pub new : AudioClock
new = record { next_sample_frame = 0 }

abbrev pub reset : AudioClock → AudioClock
reset clock = record clock { next_sample_frame = 0 }

pub data AudioPacketError : Type 0 where
  misaligned_length : ℕ → AudioPacketError
  too_large : ℕ → AudioPacketError

-- The clock and the result; `u32::try_from` fails above u32::MAX.
unfoldable pub push_pcm : AudioClock → Bytes → AudioClock × Result AudioPacketError AudioChunk
push_pcm clock pcm =
    let sample_frames = length pcm / audio_bytes_per_sample_frame in
    if not (length pcm % audio_bytes_per_sample_frame == 0)
    then (clock, err (misaligned_length (length pcm)))
    else if ltb u32_max sample_frames
    then (clock, err (too_large (length pcm)))
    else (
      record { next_sample_frame = wrap64 (clock.next_sample_frame + sample_frames) },
      ok (record {
        pcm = pcm;
        start_sample_frame = clock.next_sample_frame;
        sample_frames = sample_frames;
      }),
    )

-- `delta_ms as u32 * (AUDIO_SAMPLE_RATE_HZ / 1_000)`
unfoldable pub audio_sample_frames_for_video_delta : ℕ → ℕ
audio_sample_frames_for_video_delta delta_ms = delta_ms * (audio_sample_rate_hz / 1_000) % 2 ^ 32
