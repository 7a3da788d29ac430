-- ===== src/LinuxAudio/Worker/Recording.antt =====
-- What the ALSA worker of crates/handycam-linux-audio/src/lib.rs sends.
use handycam_rs.Audio.{AudioClock, push_pcm}
use handycam_rs.Media.{hardware, signed_16_little_endian, AudioFormat, pcm_s16le, TimedAudioChunk}
use handycam_rs.LinuxAudio.{chunk, failed, closed}
use handycam_rs.LinuxAudio.Device.{SampleFrame, PcmStatus, Alsa}
use handycam_rs.LinuxAudio.Worker.{
  pcm_bytes, Phase, awaiting, reading, Worker, at_phase, Note, frames, abandoned, recovered, sent,
  panicked, Turn, after_wait, after_retry, after_recovery, after_read, send_chunk, after_status,
  observed_us_of, turn_at, turn, follow, run_turns, with_io, run_alsa_capture,
}
use handycam_rs.Prelude.{
  ℕ, zero, suc, ◌+◌, ◌*◌, ◌/◌, ◌%◌, ◌≡◌, refl, inl, inr, Bool, true, false, List, [], ◌∷◌, ◌++◌,
  arith, ltb, ◌==◌, Bool-cases, Bytes, length, wrap64, Result, ok, err,
}

abbrev pub camera_format : AudioFormat
camera_format = record { sample_rate_hz = 16_000; channels = 2; encoding = signed_16_little_endian }

-- A sample in two bytes, the low one first, and the left and right samples of frames in turn.
abbrev pub sample_bytes : ℕ → Bytes
sample_bytes sample = sample % 256 ∷ sample / 256 % 256 ∷ []

abbrev pub interleaved : List SampleFrame → Bytes
interleaved [] = []
interleaved (frame ∷ later) = sample_bytes frame.0 ++ sample_bytes frame.1 ++ interleaved later

pcm_bytes-interleaved : (got : List SampleFrame) → pcm_bytes got ≡ interleaved got
unfolding pcm_bytes
pcm_bytes-interleaved [] = refl
pcm_bytes-interleaved ((left, right) ∷ later) = rw (pcm_bytes-interleaved later) refl

-- A period: 640 frames, exactly those that were read, behind the frame `from`.
pub record IsPeriod (format : AudioFormat) (flag : Bool) (from : ℕ) (pending : List SampleFrame)
    (c : TimedAudioChunk) : Type 0 where
  pub filled : length pending ≡ 640
  pub whole : c.chunk.sample_frames ≡ 640
  pub same : c.chunk.pcm ≡ interleaved pending
  pub starts : c.chunk.start_sample_frame ≡ from
  pub marked : c.source_discontinuity ≡ flag
  pub formatted : c.format ≡ format
  pub accurate : c.timestamp_accuracy ≡ hardware

-- What is sent, after what was noted: `flag` tells a recovery since the last chunk, `from` counts
-- the frames sent, `pending` are the frames read of the period.
abbrev pub IsRecording :
    {E : Type 0} → AudioFormat → Bool → ℕ → List SampleFrame → List (Note E) → Type 0
IsRecording format flag from pending [] = Unit
IsRecording format flag from pending (frames more ∷ notes) =
    IsRecording format flag from (pending ++ more) notes
IsRecording format flag from pending (abandoned ∷ notes) = IsRecording format flag from [] notes
IsRecording format flag from pending (recovered ∷ notes) = IsRecording format true from [] notes
IsRecording format flag from pending (sent (chunk c) ∷ notes) =
    IsPeriod format flag from pending c × IsRecording format false (wrap64 (from + 640)) [] notes
IsRecording format flag from pending (sent (failed error) ∷ notes) = notes ≡ []
IsRecording format flag from pending (sent closed ∷ notes) = notes ≡ []
IsRecording format flag from pending (panicked ∷ notes) = ⊥

length-pcm_bytes : (got : List SampleFrame) → length (pcm_bytes got) ≡ length got * 4
unfolding pcm_bytes
length-pcm_bytes [] = refl
length-pcm_bytes ((left, right) ∷ got) = omega (arith, length-pcm_bytes got)

push_pcm-period :
    (clock : AudioClock) (got : List SampleFrame)
    → length got ≡ 640
    → push_pcm clock (pcm_bytes got) ≡ (
      record { next_sample_frame = wrap64 (clock.next_sample_frame + 640) },
      ok (record {
        pcm = pcm_bytes got;
        start_sample_frame = clock.next_sample_frame;
        sample_frames = 640;
      }),
    )
unfolding push_pcm
push_pcm-period clock got full =
    let bytes : length (pcm_bytes got) ≡ 2_560 = omega (arith, length-pcm_bytes got) in
    rw (bytes) refl

abbrev pending_of : Phase → List SampleFrame
pending_of awaiting = []
pending_of (reading got) = got

module _ (lib : Alsa) (origin : ℕ) (format : AudioFormat) where
  open lib use {Pcm, Error}

  abbrev Recorded : Worker → List (Note Error) → Type 0
  Recorded w notes =
      IsRecording format w.source_discontinuity w.clock.next_sample_frame (pending_of w.phase) notes

  -- Whatever follows the turn, if it goes on from what the turn leaves.
  abbrev Leads : Worker → Turn Error → Type 0
  Leads w outcome =
      (rest : Worker → List (Note Error))
      → ((w' : Worker) → Recorded w' (rest w'))
      → Recorded w (follow lib origin format outcome rest)

  after_wait-Leads :
      (w : Worker) (r : Result Error Bool)
      → pending_of w.phase ≡ []
      → Leads w (after_wait lib origin format w r)
  unfolding after_wait follow
  after_wait-Leads w (ok false) h rest rests = rests w
  after_wait-Leads w (ok true) h rest rests = rw h (rests (at_phase (reading []) w))
  after_wait-Leads w (err e) h rest rests = refl

  after_retry-Leads :
      (w : Worker) (r : Result Error Bool) → Leads w (after_retry lib origin format w r)
  unfolding after_retry follow
  after_retry-Leads w (ok ready) rest rests = rests w
  after_retry-Leads w (err e) rest rests = refl

  after_recovery-Leads :
      (w : Worker) (r : Result Error (Unit {0})) → Leads w (after_recovery lib origin format w r)
  unfolding after_recovery follow
  after_recovery-Leads w (ok done) rest rests =
      rests (record w { source_discontinuity = true; phase = reading [] })
  after_recovery-Leads w (err e) rest rests = refl

  after_read-Leads :
      (w : Worker) (got : List SampleFrame) (r : Pcm × Result Error (List SampleFrame))
      → pending_of w.phase ≡ got
      → Leads w (after_read lib origin format w got r).1
  unfolding after_read follow
  after_read-Leads w got (pcm, ok more) h rest rests =
      rw h (rests (at_phase (reading (got ++ more)) w))
  after_read-Leads w got (pcm, err e) h rest rests = elim (Bool-cases (lib.is_again e)) [
    | inl again ↦ rw again (after_retry-Leads w (lib.wait 100 pcm).1 rest rests)
    | inr fresh ↦ rw fresh (after_recovery-Leads w (lib.try_recover e pcm).1 rest rests)
  ]

  send_chunk-Leads :
      (w : Worker) (got : List SampleFrame) (observed_us : ℕ) (pcm : Pcm)
      → pending_of w.phase ≡ got
      → length got ≡ 640
      → Leads w
          (send_chunk lib origin format w observed_us (push_pcm w.clock (pcm_bytes got)) pcm).1
  unfolding send_chunk follow
  send_chunk-Leads w got observed_us pcm h full rest rests =
      rw (push_pcm-period w.clock got full) (elim (Bool-cases (lib.takes_chunk pcm).1) [
        | inl taken ↦ rw taken (
          record {
            filled = rw h full;
            whole = refl;
            same = rw h (pcm_bytes-interleaved _);
            starts = refl;
            marked = refl;
            formatted = refl;
            accurate = refl;
          },
          rests (record {
            clock = record { next_sample_frame = wrap64 (w.clock.next_sample_frame + 640) };
            source_discontinuity = false;
            phase = awaiting;
          }),
        )
        | inr gone ↦ rw gone tt
      ])

  after_status-Leads :
      (w : Worker) (got : List SampleFrame) (r : Pcm × Result Error PcmStatus)
      → pending_of w.phase ≡ got
      → length got ≡ 640
      → Leads w (after_status lib origin format w got r).1
  unfolding after_status follow
  after_status-Leads w got (pcm, ok status) h full rest rests =
      send_chunk-Leads w got (observed_us_of lib origin format status) pcm h full rest rests
  after_status-Leads w got (pcm, err e) h full rest rests = refl

  turn_at-Leads :
      (phase : Phase) (w : Worker) (pcm : Pcm)
      → w.phase ≡ phase
      → Leads w (turn_at lib origin format phase w pcm).1
  unfolding turn_at follow
  turn_at-Leads awaiting w pcm h rest rests = elim (Bool-cases (lib.is_running pcm).1) [
    | inl running ↦
        rw running
          (after_wait-Leads w (lib.wait 100 (lib.is_running pcm).0).1 (rw h refl) rest rests)
    | inr stopped ↦ rw stopped refl
  ]
  turn_at-Leads (reading got) w pcm h rest rests =
      let pending : pending_of w.phase ≡ got = rw h refl in
      elim (Bool-cases (ltb (length got) 640)) [
        | inl more ↦ elim (Bool-cases (lib.is_running pcm).1) [
          | inl running ↦ rw (more, running) (after_read-Leads w got _ pending rest rests)
          | inr stopped ↦ rw (more, stopped) (rests (at_phase awaiting w))
        ]
        | inr enough ↦ elim (Bool-cases (length got == 640)) [
          | inl full ↦
              rw (enough, full)
                (after_status-Leads w got (lib.status pcm) pending (ground arith) rest rests)
          | inr over ↦ rw (enough, over) (rests (at_phase awaiting w))
        ]
      ]

  run_turns-Recorded :
      (n : ℕ) (w : Worker) (pcm : Pcm) → Recorded w (run_turns lib origin format n w pcm)
  unfolding run_turns turn
  run_turns-Recorded zero w pcm = tt
  run_turns-Recorded (suc n) w pcm =
      turn_at-Leads w.phase w pcm refl (λ w'. run_turns lib origin format n w' _)
        (λ w'. run_turns-Recorded n w' _)

module _ (lib : Alsa) (turns origin : ℕ) where
  with_io-IsRecording :
      (format : AudioFormat) (r : lib.Pcm × Result lib.Error (Unit {0}))
      → IsRecording format false 0 [] (with_io lib turns origin format r)
  unfolding with_io
  with_io-IsRecording format (pcm, ok io) = run_turns-Recorded lib origin format turns _ pcm
  with_io-IsRecording format (pcm, err e) = refl

  -- Whatever the device, the flag and the receiver do, in any number of passes of its loops, the ALSA
  -- worker sends chunks of exactly the 640 sample frames that it read since the last chunk or
  -- recovery, in little-endian bytes; each starts where the one before it ended, the first at
  -- frame 0, and is flagged exactly where a recovery happened since the last one; an error or the
  -- close is sent last; and the worker does not panic.
  pub run_alsa_capture-IsRecording :
      (pcm : lib.Pcm) → IsRecording camera_format false 0 [] (run_alsa_capture lib turns origin pcm)
  unfolding run_alsa_capture pcm_s16le
  run_alsa_capture-IsRecording pcm = with_io-IsRecording camera_format (lib.io_i16 pcm)
