-- ===== src/LinuxAudio/Worker.antt =====
-- `run_alsa_capture` of crates/handycam-linux-audio/src/lib.rs. Its two loops are one, over the
-- phases of a period; what a run does is noted in order.
pub mod Recording
use handycam_rs.Audio.{
  AudioChunk, AudioClock, AudioPacketError, new, push_pcm, audio_channels, audio_sample_rate_hz,
}
use handycam_rs.Media.{
  from_micros, hardware, AudioFormat, AudioFormatError, pcm_s16le, TimedAudioChunk,
}
use handycam_rs.LinuxAudio.{
  period_sample_frames, AudioCaptureEvent, chunk, failed, closed, first_sample_timestamp_ns,
  timespec_ns,
}
use handycam_rs.LinuxAudio.Device.{SampleFrame, PcmStatus, Alsa}
use handycam_rs.Prelude.Int.{pos_part}
use handycam_rs.Prelude.{
  ℕ, zero, suc, ◌-◌, ◌/◌, ◌%◌, Bool, true, false, not, List, [], ◌∷◌, ◌++◌, ltb, ◌==◌,
  if◌then◌else◌, Bytes, length, saturating_sub, Result, ok, err,
}

-- `to_le_bytes` of the two samples of each frame.
unfoldable pub pcm_bytes : List SampleFrame → Bytes
pcm_bytes [] = []
pcm_bytes ((left, right) ∷ frames) =
    left % 256 ∷ left / 256 % 256 ∷ right % 256 ∷ right / 256 % 256 ∷ pcm_bytes frames

-- Where the worker stands: in front of `pcm.wait`, or with the first frames of a period.
pub data Phase : Type 0 where
  awaiting : Phase
  reading : List SampleFrame → Phase

pub record Worker : Type 0 where
  pub clock : AudioClock
  pub source_discontinuity : Bool
  pub phase : Phase

abbrev pub start_worker : Worker
start_worker = record { clock = new; source_discontinuity = false; phase = awaiting }

abbrev pub at_phase : Phase → Worker → Worker
at_phase phase w = record w { phase = phase }

-- What one pass does: frames read, a period given up, a recovery, an event sent, a panic.
pub data Note (E : Type 0) : Type 0 where
  frames : List SampleFrame → Note E
  abandoned recovered : Note E
  sent : AudioCaptureEvent E → Note E
  panicked : Note E

pub data Turn (E : Type 0) : Type 0 where
  goes_on : Worker → Turn E
  notes : Note E → Worker → Turn E
  ends : List (Note E) → Turn E

module _ (lib : Alsa) (monotonic_origin_ns : ℕ) (format : AudioFormat) where
  open lib use {
    Pcm, Error, is_again, wait, readi, try_recover, status, drop, is_running, takes_chunk,
  }

  abbrev pub fails : Error → Turn Error
  fails error = ends (sent (failed error) ∷ [])

  pub after_wait : Worker → Result Error Bool → Turn Error
  after_wait w (ok false) = goes_on w
  after_wait w (ok true) = goes_on (at_phase (reading []) w)
  after_wait w (err error) = fails error

  -- `Ok(_) => {}` behind EAGAIN.
  pub after_retry : Worker → Result Error Bool → Turn Error
  after_retry w (ok ready) = goes_on w
  after_retry w (err error) = fails error

  pub after_recovery : Worker → Result Error (Unit {0}) → Turn Error
  after_recovery w (ok done) =
      notes recovered (record w { source_discontinuity = true; phase = reading [] })
  after_recovery w (err error) = fails error

  pub after_read :
      Worker → List SampleFrame → Pcm × Result Error (List SampleFrame) → Pcm × Turn Error
  unfolding after_retry after_recovery
  after_read w got (pcm, ok more) = (pcm, notes (frames more) (at_phase (reading (got ++ more)) w))
  after_read w got (pcm, err error) =
      let retried = wait 100 pcm in
      let recovery = try_recover error pcm in
      if is_again error
      then (retried.0, after_retry w retried.1)
      else (recovery.0, after_recovery w recovery.1)

  -- The chunk, and whether the receiver is still there.
  pub send_chunk :
      Worker → ℕ → AudioClock × Result AudioPacketError AudioChunk → Pcm → Pcm × Turn Error
  send_chunk w observed_us (clock, err error) pcm = (pcm, ends (panicked ∷ []))
  send_chunk w observed_us (clock, ok audio) pcm =
      let event = chunk (record {
        observed_start = from_micros observed_us;
        timestamp_accuracy = hardware;
        format = format;
        chunk = audio;
        source_discontinuity = w.source_discontinuity;
      }) in
      let (pcm', taken) = takes_chunk pcm in
      (
        pcm',
        if taken
            then notes (sent event)
                (record { clock = clock; source_discontinuity = false; phase = awaiting })
            else ends [],
      )

  abbrev pub observed_us_of : PcmStatus → ℕ
  observed_us_of status =
      saturating_sub
        (first_sample_timestamp_ns (timespec_ns status.htstamp) (pos_part status.avail)
          period_sample_frames audio_sample_rate_hz)
        monotonic_origin_ns
      / 1_000

  pub after_status : Worker → List SampleFrame → Pcm × Result Error PcmStatus → Pcm × Turn Error
  unfolding send_chunk
  after_status w got (pcm, ok status) =
      send_chunk w (observed_us_of status) (push_pcm w.clock (pcm_bytes got)) pcm
  after_status w got (pcm, err error) = (pcm, fails error)

  -- A pass of the outer loop up to the period, or of the inner loop.
  pub turn_at : Phase → Worker → Pcm → Pcm × Turn Error
  unfolding after_wait after_read after_status
  turn_at awaiting w pcm =
      let (pcm', running) = is_running pcm in
      let (waited, ready) = wait 100 pcm' in
      if running then (waited, after_wait w ready) else (drop pcm', ends (sent closed ∷ []))
  turn_at (reading got) w pcm =
      let (pcm', running) = is_running pcm in
      if ltb (length got) period_sample_frames
      then (if running
          then after_read w got (readi (period_sample_frames - length got) pcm')
          else (pcm', notes abandoned (at_phase awaiting w)))
      else if not (length got == period_sample_frames)
      then (pcm, notes abandoned (at_phase awaiting w))
      else after_status w got (status pcm)

  unfoldable pub turn : Worker → Pcm → Pcm × Turn Error
  unfolding turn_at
  turn w pcm = turn_at w.phase w pcm

  unfoldable pub follow : Turn Error → (Worker → List (Note Error)) → List (Note Error)
  follow (goes_on w) rest = rest w
  follow (notes note w) rest = note ∷ rest w
  follow (ends last) rest = last

  -- So many passes of the loops.
  unfoldable pub run_turns : ℕ → Worker → Pcm → List (Note Error)
  unfolding turn follow
  run_turns zero w pcm = []
  run_turns (suc n) w pcm =
      let (pcm', outcome) = turn w pcm in follow outcome (λ w'. run_turns n w' pcm')

module _ (lib : Alsa) (turns monotonic_origin_ns : ℕ) where
  open lib use {Pcm, Error, io_i16}

  pub with_io : AudioFormat → Pcm × Result Error (Unit {0}) → List (Note Error)
  unfolding run_turns
  with_io format (pcm, ok io) = run_turns lib monotonic_origin_ns format turns start_worker pcm
  with_io format (pcm, err error) = sent (failed error) ∷ []

  -- `expect` on the format, then `pcm.io_i16()`.
  pub with_format : Result AudioFormatError AudioFormat → Pcm → List (Note Error)
  unfolding with_io
  with_format (ok format) pcm = with_io format (io_i16 pcm)
  with_format (err error) pcm = panicked ∷ []

  unfoldable pub run_alsa_capture : Pcm → List (Note Error)
  unfolding with_format
  run_alsa_capture pcm = with_format (pcm_s16le audio_sample_rate_hz audio_channels) pcm
