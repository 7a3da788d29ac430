-- ===== src/LinuxAudio/Arecord.antt =====
-- `run_capture` of crates/handycam-linux-audio/src/lib.rs: the output of `arecord`, cut into periods.
-- Instants are microseconds.
use handycam_rs.Audio.{
  AudioChunk, AudioClock, AudioPacketError, new, push_pcm, audio_channels, audio_sample_rate_hz,
}
use handycam_rs.Media.{
  from_micros, estimated, signed_16_little_endian, AudioFormat, AudioFormatError, pcm_s16le,
  TimedAudioChunk,
}
use handycam_rs.LinuxAudio.{period_bytes, AudioCaptureEvent, chunk, failed, closed}
use handycam_rs.Prelude.{
  ℕ, zero, suc, ◌+◌, ◌-◌, ◌*◌, ◌<◌, min, ◌≡◌, refl, sym, ap, ◌∙◌, inl, inr, Bool, true, false,
  Option, none, some, List, [], ◌∷◌, ◌++◌, append_assoc, arith, ltb, leb, if◌then◌else◌, Bool-cases,
  Bytes, length, take, drop, All, length-append, take-length-append, drop-length-append, u64_max,
  wrap64, Result, ok, err,
}

-- The reader: its bytes, then the end of the file or an error.
pub record Input (E : Type 0) : Type 0 where
  pub bytes : Bytes
  pub ending : Option E

-- What a failing `read_exact` ends with.
unfoldable pub last_event : {E : Type 0} → Option E → AudioCaptureEvent E
last_event none = closed
last_event (some error) = failed error

-- `observed_end - 40 ms` since the origin, none before it.
unfoldable pub observed_us : ℕ → ℕ → ℕ
observed_us origin observed_end =
    let observed_start = if ltb observed_end 40_000 then observed_end else observed_end - 40_000 in
    min (observed_start - origin) u64_max

-- The events sent; a panic of `expect` has no event behind it.
module _ {E : Type 0} (origin : ℕ) (format : AudioFormat) (now : ℕ → ℕ) (takes : ℕ → Bool) where
  -- The chunk that the `i`-th pass sends, and what follows if the receiver takes it.
  unfoldable pub send_period :
      ℕ
      → AudioClock × Result AudioPacketError AudioChunk
      → (AudioClock → List (AudioCaptureEvent E))
      → List (AudioCaptureEvent E)
  send_period i (clock, err error) rest = []
  send_period i (clock, ok audio) rest =
      if takes i
      then chunk (record {
        observed_start = from_micros (observed_us origin (now i));
        timestamp_accuracy = estimated;
        format = format;
        chunk = audio;
        source_discontinuity = false;
      })
        ∷ rest clock
      else []

  -- The loop, with fuel, from the `i`-th pass.
  unfoldable pub read_periods : ℕ → ℕ → AudioClock → Input E → List (AudioCaptureEvent E)
  unfolding send_period last_event
  read_periods zero i clock input = []
  read_periods (suc fuel) i clock input =
      let after = λ (clock' : AudioClock).
        read_periods fuel (suc i) clock' (record input { bytes = drop period_bytes input.bytes }) in
      if ltb (length input.bytes) period_bytes
      then last_event input.ending ∷ []
      else send_period i (push_pcm clock (take period_bytes input.bytes)) after

module _ {E : Type 0} (origin : ℕ) (now : ℕ → ℕ) (takes : ℕ → Bool) where
  unfoldable pub with_arecord_format :
      Result AudioFormatError AudioFormat → Input E → List (AudioCaptureEvent E)
  unfolding read_periods
  with_arecord_format (ok format) input =
      read_periods origin format now takes (suc (length input.bytes)) 0 new input
  with_arecord_format (err error) input = []

  -- A period takes bytes, so that there are fewer passes than bytes, and one.
  unfoldable pub run_capture : Input E → List (AudioCaptureEvent E)
  unfolding with_arecord_format
  run_capture input = with_arecord_format (pcm_s16le audio_sample_rate_hz audio_channels) input

-- The `i`-th period as a chunk.
pub record IsChunkOf (i from : ℕ) (period : Bytes) (origin : ℕ) (now : ℕ → ℕ) (c : TimedAudioChunk)
    : Type 0 where
  pub same : c.chunk.pcm ≡ period
  pub starts : c.chunk.start_sample_frame ≡ from
  pub whole : c.chunk.sample_frames ≡ 640
  pub formatted :
      c.format
      ≡ record { sample_rate_hz = 16_000; channels = 2; encoding = signed_16_little_endian }
  pub observed :
      c.observed_start
      ≡ from_micros
          (min (if leb 40_000 (now i) then now i - 40_000 - origin else now i - origin) u64_max)
  pub accurate : c.timestamp_accuracy ≡ estimated
  pub unflagged : c.source_discontinuity ≡ false

abbrev camera_format : AudioFormat
camera_format = record { sample_rate_hz = 16_000; channels = 2; encoding = signed_16_little_endian }

-- One chunk for each period, then the end.
abbrev pub Delivers :
    {E : Type 0} → ℕ → (ℕ → ℕ) → Option E → ℕ → ℕ → List Bytes → List (AudioCaptureEvent E) → Type 0
Delivers origin now none i from [] events = events ≡ closed ∷ []
Delivers origin now (some error) i from [] events = events ≡ failed error ∷ []
Delivers origin now ending i from (period ∷ periods) (chunk c ∷ events) =
    IsChunkOf i from period origin now c
    × Delivers origin now ending (suc i) (wrap64 (from + 640)) periods events
Delivers origin now ending i from (period ∷ periods) _ = ⊥

abbrev pub concat : List Bytes → Bytes
concat [] = []
concat (period ∷ periods) = period ++ concat periods

abbrev pub IsWhole : Bytes → Type 0
IsWhole period = length period ≡ 2_560

observed_us_lem :
    (origin read : ℕ)
    → observed_us origin read
      ≡ min (if leb 40_000 read then read - 40_000 - origin else read - origin) u64_max
unfolding observed_us
observed_us_lem origin read = elim (Bool-cases (leb 40_000 read)) [
  | inl e ↦ let late : ltb read 40_000 ≡ false = ground arith in rw (e, late) refl
  | inr e ↦ let early : ltb read 40_000 ≡ true = ground arith in rw (e, early) refl
]

last_event-Delivers :
    {E : Type 0} (origin : ℕ) (now : ℕ → ℕ) (ending : Option E) (i from : ℕ)
    → Delivers origin now ending i from [] (last_event ending ∷ [])
unfolding last_event
last_event-Delivers origin now none i from = refl
last_event-Delivers origin now (some error) i from = refl

push_pcm-whole :
    (clock : AudioClock) (period : Bytes)
    → IsWhole period
    → push_pcm clock period ≡ (
      record { next_sample_frame = wrap64 (clock.next_sample_frame + 640) },
      ok (record {
        pcm = period;
        start_sample_frame = clock.next_sample_frame;
        sample_frames = 640;
      }),
    )
unfolding push_pcm
push_pcm-whole clock period whole = rw whole refl

length-concat :
    (periods : List Bytes) → All IsWhole periods → length (concat periods) ≡ length periods * 2_560
length-concat [] whole = refl
length-concat (period ∷ periods) whole =
    omega (arith, length-append period (concat periods), whole.0, length-concat periods whole.1)

module _ {E : Type 0} (origin : ℕ) (now : ℕ → ℕ) (takes : ℕ → Bool)
    (taken : (i : ℕ) → takes i ≡ true) where
  abbrev periods_of : ℕ → ℕ → AudioClock → Input E → List (AudioCaptureEvent E)
  periods_of = read_periods origin camera_format now takes

  read_periods-Delivers :
      (periods : List Bytes) (rest : Bytes) (ending : Option E) (fuel i : ℕ) (clock : AudioClock)
      → All IsWhole periods
      → length rest < 2_560
      → length periods < fuel
      → Delivers origin now ending i clock.next_sample_frame periods
          (periods_of fuel i clock (record { bytes = concat periods ++ rest; ending = ending }))
  unfolding read_periods
  read_periods-Delivers [] rest ending zero i clock whole short enough = elim enough [ ]
  read_periods-Delivers (period ∷ periods) rest ending zero i clock whole short enough =
      elim enough [ ]
  read_periods-Delivers [] rest ending (suc fuel) i clock whole short enough =
      let stops : ltb (length rest) 2_560 ≡ true = ground arith in
      rw stops (last_event-Delivers origin now ending i clock.next_sample_frame)
  read_periods-Delivers (period ∷ periods) rest ending (suc fuel) i clock whole short enough =
      let later = concat periods ++ rest in
      let shape : (period ++ concat periods) ++ rest ≡ period ++ later =
        append_assoc period (concat periods) rest in
      let goes : ltb (length (period ++ later)) 2_560 ≡ false =
        ground (arith, length-append period later, whole.0) in
      let first : take 2_560 (period ++ later) ≡ period =
        ap (λ (n : ℕ). take n (period ++ later)) (sym whole.0) ∙ take-length-append period later in
      let second : drop 2_560 (period ++ later) ≡ later =
        ap (λ (n : ℕ). drop n (period ++ later)) (sym whole.0) ∙ drop-length-append period later in
      rw (shape, goes, first, second, push_pcm-whole clock period whole.0, taken i)
        (
          record {
            same = refl;
            starts = refl;
            whole = refl;
            formatted = refl;
            observed = ap from_micros (observed_us_lem origin (now i));
            accurate = refl;
            unflagged = refl;
          },
          read_periods-Delivers periods rest ending fuel (suc i) _ whole.1 short (omega arith),
        )

  -- With a receiver that takes every chunk: whatever whole periods of 2560 bytes the reader brings,
  -- with fewer bytes behind them, the worker sends one chunk with exactly the bytes of each, in
  -- order, numbered by its first sample frame from 0 in steps of 640, estimated to start 40 ms before
  -- its read returned (at the read where the clock has not run that long), counted from the origin (0
  -- before it), and never flagged; then a close where the reader ended, or a failure with its error,
  -- and nothing else.
  pub run_capture-Delivers :
      (periods : List Bytes) (rest : Bytes) (ending : Option E)
      → All IsWhole periods
      → length rest < 2_560
      → Delivers origin now ending 0 0 periods (
          run_capture origin now takes (record { bytes = concat periods ++ rest; ending = ending }))
  unfolding run_capture with_arecord_format pcm_s16le
  run_capture-Delivers periods rest ending whole short =
      read_periods-Delivers periods rest ending (suc (length (concat periods ++ rest))) 0 new whole
        short (omega (arith, length-append (concat periods) rest, length-concat periods whole))
