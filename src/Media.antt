-- ===== src/Media.antt =====
-- crates/handycam-core/src/media.rs: the timed-media types shared by the backends.
use handycam_rs.Audio.{AudioChunk}
use handycam_rs.Stream.{CompressedFrame}
use handycam_rs.Prelude.{
  ◌>>=◌, ℕ, Bool, Option, none, some, ◌==◌, if◌then◌else◌, checked_sub, Result, ok, ok_or,
}

pub record MonotonicTimestamp : Type 0 where
  pub micros : ℕ

abbrev pub from_micros : ℕ → MonotonicTimestamp
from_micros microseconds = record { micros = microseconds }

-- `self.0.checked_sub(earlier.0)`
abbrev pub duration_since : MonotonicTimestamp → MonotonicTimestamp → Option ℕ
duration_since t earlier = checked_sub t.micros earlier.micros

pub data PcmEncoding : Type 0 where
  signed_16_little_endian : PcmEncoding

pub data TimestampAccuracy : Type 0 where
  hardware estimated : TimestampAccuracy

-- The rate and the channel count are `NonZeroU32` in the source.
pub record AudioFormat : Type 0 where
  pub sample_rate_hz : ℕ
  pub channels : ℕ
  pub encoding : PcmEncoding

pub data AudioFormatError : Type 0 where
  zero_sample_rate zero_channels : AudioFormatError

-- `NonZeroU32::new`
abbrev non_zero : ℕ → Option ℕ
non_zero n = if n == 0 then none else some n

unfoldable pub pcm_s16le : ℕ → ℕ → Result AudioFormatError AudioFormat
pcm_s16le sample_rate_hz channels = do
  rate ← ok_or (non_zero sample_rate_hz) zero_sample_rate
  count ← ok_or (non_zero channels) zero_channels
  ok (record { sample_rate_hz = rate; channels = count; encoding = signed_16_little_endian })

pub record TimedVideoFrame : Type 0 where
  pub observed_at : MonotonicTimestamp
  pub frame : CompressedFrame
  pub source_discontinuity : Bool

pub record TimedAudioChunk : Type 0 where
  pub observed_start : MonotonicTimestamp
  pub timestamp_accuracy : TimestampAccuracy
  pub format : AudioFormat
  pub chunk : AudioChunk
  pub source_discontinuity : Bool

pub data TimedMediaEvent : Type 0 where
  video : TimedVideoFrame → TimedMediaEvent
  audio : TimedAudioChunk → TimedMediaEvent
