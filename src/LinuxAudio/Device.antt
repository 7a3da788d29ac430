-- ===== src/LinuxAudio/Device.antt =====
-- crates/handycam-linux-audio/src/lib.rs: what it uses of the alsa crate, and `configure_pcm`.
use handycam_rs.Audio.{audio_channels, audio_sample_rate_hz}
use handycam_rs.LinuxAudio.{
  period_sample_frames, AudioCaptureError, alsa, unexpected_rate, unexpected_period, Timespec,
}
use handycam_rs.Prelude.Int.{ℤ}
use handycam_rs.Prelude.Run.{Run, ◌>>=◌, lift, map_err}
use handycam_rs.Prelude.{ℕ, ◌*◌, Bool, true, List, Bytes, not, ◌==◌, if◌then◌else◌, Result, ok, err}

-- The calls of `configure_pcm` that set something and return nothing.
pub data Setting : Type 0 where
  new_capture_nonblocking : Bytes → Setting
  any access_rw_interleaved format_s16le : Setting
  channels : ℕ → Setting
  buffer_size : ℕ → Setting
  hw_params sw_params_current : Setting
  avail_min : ℕ → Setting
  tstamp_mode : Bool → Setting
  tstamp_type_monotonic : Setting
  sw_params prepare start : Setting

-- A sample frame is the two's complement words of its two channels.
abbrev pub SampleFrame : Type 0
SampleFrame = ℕ × ℕ

pub record PcmStatus : Type 0 where
  pub htstamp : Timespec
  pub avail : ℤ

-- The device, together with the flag that other threads clear and the receiving end of the
-- channel, which they may drop.
pub record Alsa : Type 1 where
  pub Pcm : Type 0
  pub Error : Type 0
  pub is_again : Error → Bool
  pub set : Setting → Run Pcm Error (Unit {0})
  pub set_rate_near : ℕ → Run Pcm Error ℕ
  pub set_period_size_near : ℕ → Run Pcm Error ℕ
  pub io_i16 : Run Pcm Error (Unit {0})
  pub wait : ℕ → Run Pcm Error Bool
  pub readi : ℕ → Run Pcm Error (List SampleFrame)
  pub try_recover : Error → Run Pcm Error (Unit {0})
  pub status : Run Pcm Error PcmStatus
  pub drop : Pcm → Pcm
  pub is_running : Pcm → Pcm × Bool
  pub takes_chunk : Pcm → Pcm × Bool

module _ (lib : Alsa) where
  open lib use {Pcm, Error, set, set_rate_near, set_period_size_near}

  abbrev pub Configure : Type 0 → Type 0
  Configure A = Run Pcm (AudioCaptureError Error) A

  -- A call of the crate and its `?`.
  unfoldable pub call : {A : Type 0} → Run Pcm Error A → Configure A
  call m pcm = let (pcm', r) = m pcm in (pcm', map_err alsa r)

  -- The tests behind the two calls that choose a value.
  unfoldable pub check_rate : ℕ → Result (AudioCaptureError Error) (Unit {0})
  check_rate rate =
      if not (rate == audio_sample_rate_hz)
      then err (unexpected_rate audio_sample_rate_hz rate)
      else ok tt

  unfoldable pub check_period : ℕ → Result (AudioCaptureError Error) (Unit {0})
  check_period period =
      if not (period == period_sample_frames)
      then err (unexpected_period period_sample_frames period)
      else ok tt

  unfoldable pub configure_pcm : Bytes → Configure (Unit {0})
  unfolding call check_rate check_period
  configure_pcm device = do
    opened ← call (set (new_capture_nonblocking device))
    hardware ← call (set any)
    accessed ← call (set access_rw_interleaved)
    formatted ← call (set format_s16le)
    counted ← call (set (channels audio_channels))
    rate ← call (set_rate_near audio_sample_rate_hz)
    rated ← lift (check_rate rate)
    period ← call (set_period_size_near period_sample_frames)
    timed ← lift (check_period period)
    buffered ← call (set (buffer_size (period_sample_frames * 4)))
    applied ← call (set hw_params)
    software ← call (set sw_params_current)
    least ← call (set (avail_min period_sample_frames))
    stamped ← call (set (tstamp_mode true))
    clocked ← call (set tstamp_type_monotonic)
    accepted ← call (set sw_params)
    prepared ← call (set prepare)
    call (set start)
