-- ===== src/LinuxAudio.antt =====
-- crates/handycam-linux-audio/src/lib.rs: what the two frontends of audio capture share.
pub mod Device
pub mod Worker
pub mod Arecord
use handycam_rs.Audio.{audio_bytes_per_sample_frame}
use handycam_rs.Media.{TimedAudioChunk}
use handycam_rs.Prelude.Int.{ℤ, pos_part}
use handycam_rs.Prelude.{ℕ, ◌+◌, ◌*◌, ◌/◌, saturating_add, saturating_sub, saturating_mul}

abbrev pub period_sample_frames : ℕ
period_sample_frames = 640

abbrev pub period_bytes : ℕ
period_bytes = period_sample_frames * audio_bytes_per_sample_frame

-- An error's message is the error itself.
pub data AudioCaptureEvent (E : Type 0) : Type 0 where
  chunk : TimedAudioChunk → AudioCaptureEvent E
  failed : E → AudioCaptureEvent E
  closed : AudioCaptureEvent E

-- Of the errors, those of `configure_pcm`.
pub data AudioCaptureError (E : Type 0) : Type 0 where
  alsa : E → AudioCaptureError E
  unexpected_rate : ℕ → ℕ → AudioCaptureError E
  unexpected_period : ℕ → ℕ → AudioCaptureError E

unfoldable pub first_sample_timestamp_ns : ℕ → ℕ → ℕ → ℕ → ℕ
first_sample_timestamp_ns status_ns available_frames period_frames sample_rate_hz =
    let frames_before_hardware = saturating_add available_frames period_frames in
    saturating_sub status_ns (saturating_mul frames_before_hardware 1_000_000_000 / sample_rate_hz)

-- `libc::timespec`
pub record Timespec : Type 0 where
  pub tv_sec : ℤ
  pub tv_nsec : ℤ

-- `u64::try_from(n).unwrap_or(0)`, and `n.max(0) as u64`: `pos_part`.

unfoldable pub timespec_ns : Timespec → ℕ
timespec_ns timestamp =
    saturating_add (saturating_mul (pos_part timestamp.tv_sec) 1_000_000_000)
      (pos_part timestamp.tv_nsec)
