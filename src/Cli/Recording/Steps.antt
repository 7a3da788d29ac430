-- ===== src/Cli/Recording/Steps.antt =====
-- What the capture loop of crates/handycam-cli/src/main.rs makes of its state: steps of the writer, and
-- counters.
use handycam_rs.Media.{AudioFormat, TimedVideoFrame, TimedAudioChunk, TimedMediaEvent}
use handycam_rs.Media
use handycam_rs.Sync.{AvSynchronizer, MediaTiming, SynchronizationError, event_timing}
use handycam_rs.Sync.Position.{event_observed_timestamp, after_events}
use handycam_rs.Sync.FromZero.{IsFromZero}
use handycam_rs.Matroska.{MatroskaWriter, same_format, pcm_length, write_duration, flush}
use handycam_rs.Matroska.Session.{
  TimedEvent, write_event, Step, packet, save, write_steps, events_of, IsWritable,
}
use handycam_rs.Matroska.Open.{IsOpen}
use handycam_rs.Cli.Recording.{delayed_pts, apply_audio_delay, CaptureState}
use handycam_rs.Prelude.Int.{ℤ, pos, negsuc}
use handycam_rs.Prelude.{
  ℕ, suc, ◌+◌, ◌-◌, ◌*◌, ◌^◌, ◌≤◌, ◌<◌, min, ◌≡◌, refl, sym, ap, ap₂, ◌∙◌, inl, inr, true, List, [],
  ◌∷◌, ◌++◌, arith, length, All, All-append, u64_max, wrap64, Result, ok, err, ◌>>=◌, Result-cases,
}

-- A 64-bit time, and content that the writer takes.
abbrev pub IsRecordable : AudioFormat → TimedMediaEvent → Type 0
IsRecordable format (Media.video event) =
    (event.observed_at.micros ≤ u64_max) × (length event.frame.jpeg < 2 ^ 55)
IsRecordable format (Media.audio event) =
    (event.observed_start.micros ≤ u64_max)
    × (length event.chunk.pcm < 2 ^ 55)
    × (same_format event.format format ≡ true)
    × (length event.chunk.pcm ≡ pcm_length event)

pub IsRecordable-observed :
    (format : AudioFormat) (event : TimedMediaEvent)
    → IsRecordable format event
    → (event_observed_timestamp event).micros ≤ u64_max
IsRecordable-observed format (Media.video event) h = h.0
IsRecordable-observed format (Media.audio event) h = h.0

-- A time moved by so many milliseconds, later or earlier, within 64 bits.
abbrev pub shifted : ℤ → ℕ → ℕ
shifted (pos n) pts = min (pts + n * 1_000) u64_max
shifted (negsuc n) pts = pts - min (suc n * 1_000) u64_max

shifted_le : (delay_ms : ℤ) (pts : ℕ) → pts ≤ u64_max → shifted delay_ms pts ≤ u64_max
shifted_le (pos n) pts h = omega arith
shifted_le (negsuc n) pts h = omega arith

delayed_pts-shifted : (delay_ms : ℤ) (pts : ℕ) → delayed_pts delay_ms pts ≡ shifted delay_ms pts
unfolding delayed_pts
delayed_pts-shifted (pos n) pts = omega arith
delayed_pts-shifted (negsuc n) pts = omega arith

pub apply_audio_delay-shifted :
    (timing : MediaTiming) (delay_ms : ℤ)
    → apply_audio_delay timing delay_ms ≡ record timing { pts_us = shifted delay_ms timing.pts_us }
unfolding apply_audio_delay
apply_audio_delay-shifted timing delay_ms =
    ap (λ pts. record timing { pts_us = pts }) (delayed_pts-shifted delay_ms timing.pts_us)

-- What the event is written as.
abbrev pub timed : ℤ → TimedMediaEvent → MediaTiming → TimedEvent
timed delay_ms (Media.video event) timing = (Media.video event, timing)
timed delay_ms (Media.audio event) timing =
    (Media.audio event, record timing { pts_us = shifted delay_ms timing.pts_us })

pub timed-IsWritable :
    (delay_ms : ℤ) (format : AudioFormat) (event : TimedMediaEvent) (timing : MediaTiming)
    → IsRecordable format event
    → timing.pts_us ≤ u64_max
    → IsWritable format (timed delay_ms event timing)
timed-IsWritable delay_ms format (Media.video event) timing h fits = (omega arith, h.1)
timed-IsWritable delay_ms format (Media.audio event) timing h fits =
    (omega (arith, shifted_le delay_ms timing.pts_us fits), h.1, h.2, h.3)

abbrev pub videos_in : List TimedMediaEvent → ℕ
videos_in [] = 0
videos_in (Media.video event ∷ events) = suc (videos_in events)
videos_in (Media.audio event ∷ events) = videos_in events

abbrev pub audios_in : List TimedMediaEvent → ℕ
audios_in [] = 0
audios_in (Media.video event ∷ events) = audios_in events
audios_in (Media.audio event ∷ events) = suc (audios_in events)

abbrev pub media_of : List TimedEvent → List TimedMediaEvent
media_of [] = []
media_of ((event, timing) ∷ events) = event ∷ media_of events

abbrev pub time_first :
    ℤ
    → TimedMediaEvent
    → Result SynchronizationError MediaTiming
    → List TimedEvent
    → List TimedEvent
time_first delay_ms event (ok timing) later = timed delay_ms event timing ∷ later
time_first delay_ms event (err error) later = later

-- The media, each with the time that the synchronizer gives it, one after the other.
abbrev pub time_media : ℤ → AvSynchronizer → List TimedMediaEvent → List TimedEvent
time_media delay_ms sync [] = []
time_media delay_ms sync (event ∷ events) =
    time_first delay_ms event (event_timing sync event).1
      (time_media delay_ms (event_timing sync event).0 events)

-- A state that can go on recording in this format.
pub record IsReady (format : AudioFormat) (state : CaptureState) : Type 0 where
  pub in_format : state.writer.audio_format ≡ format
  pub is_open : IsOpen state.writer
  pub from_zero : IsFromZero state.synchronizer

-- The state behind a run of steps: its writer, its counters (modulo 2^64), and the media written.
pub record Follows (format : AudioFormat) (delay_ms : ℤ) (from : CaptureState) (steps : List Step)
    (to : CaptureState) : Type 0 where
  pub ready : IsReady format to
  pub writable : All (IsWritable format) (events_of steps)
  pub written : write_steps from.writer steps ≡ ok to.writer
  pub times : events_of steps ≡ time_media delay_ms from.synchronizer (media_of (events_of steps))
  pub synchronized : to.synchronizer ≡ after_events from.synchronizer (media_of (events_of steps))
  pub videos :
      wrap64 to.video_frames ≡ wrap64 (from.video_frames + videos_in (media_of (events_of steps)))
  pub audios :
      wrap64 to.audio_chunks ≡ wrap64 (from.audio_chunks + audios_in (media_of (events_of steps)))

events_of-append : (xs ys : List Step) → events_of (xs ++ ys) ≡ events_of xs ++ events_of ys
events_of-append [] ys = refl
events_of-append (packet event ∷ xs) ys = ap (◌∷◌ event) (events_of-append xs ys)
events_of-append (save ∷ xs) ys = events_of-append xs ys

media_of-append : (xs ys : List TimedEvent) → media_of (xs ++ ys) ≡ media_of xs ++ media_of ys
media_of-append [] ys = refl
media_of-append ((event, timing) ∷ xs) ys = ap (◌∷◌ event) (media_of-append xs ys)

pub media_in-append :
    (xs ys : List Step)
    → media_of (events_of (xs ++ ys)) ≡ media_of (events_of xs) ++ media_of (events_of ys)
media_in-append xs ys =
    ap media_of (events_of-append xs ys) ∙ media_of-append (events_of xs) (events_of ys)

pub videos_in-append :
    (xs ys : List TimedMediaEvent) → videos_in (xs ++ ys) ≡ videos_in xs + videos_in ys
videos_in-append [] ys = omega arith
videos_in-append (Media.video event ∷ xs) ys = omega (arith, videos_in-append xs ys)
videos_in-append (Media.audio event ∷ xs) ys = videos_in-append xs ys

audios_in-append :
    (xs ys : List TimedMediaEvent) → audios_in (xs ++ ys) ≡ audios_in xs + audios_in ys
audios_in-append [] ys = omega arith
audios_in-append (Media.video event ∷ xs) ys = audios_in-append xs ys
audios_in-append (Media.audio event ∷ xs) ys = omega (arith, audios_in-append xs ys)

write_steps-append :
    (writer : MatroskaWriter) (xs ys : List Step)
    → write_steps writer (xs ++ ys) ≡ (write_steps writer xs >>= λ writer'. write_steps writer' ys)
unfolding write_steps flush
write_steps-append writer [] ys = refl
write_steps-append writer (packet event ∷ xs) ys = elim (Result-cases (write_event writer event)) [
  | inl (next, e) ↦ rw e (write_steps-append next xs ys)
  | inr (error, e) ↦ rw e refl
]
write_steps-append writer (save ∷ xs) ys = write_steps-append (write_duration writer) xs ys

time_first-append :
    (delay_ms : ℤ) (event : TimedMediaEvent) (r : Result SynchronizationError MediaTiming)
    (xs ys : List TimedEvent)
    → time_first delay_ms event r (xs ++ ys) ≡ time_first delay_ms event r xs ++ ys
time_first-append delay_ms event (ok timing) xs ys = refl
time_first-append delay_ms event (err error) xs ys = refl

time_media-append :
    (delay_ms : ℤ) (sync : AvSynchronizer) (xs ys : List TimedMediaEvent)
    → time_media delay_ms sync (xs ++ ys)
      ≡ time_media delay_ms sync xs ++ time_media delay_ms (after_events sync xs) ys
unfolding after_events
time_media-append delay_ms sync [] ys = refl
time_media-append delay_ms sync (event ∷ xs) ys =
    ap (time_first delay_ms event (event_timing sync event).1)
      (time_media-append delay_ms (event_timing sync event).0 xs ys)
    ∙ time_first-append delay_ms event (event_timing sync event).1
        (time_media delay_ms (event_timing sync event).0 xs)
        (time_media delay_ms (after_events (event_timing sync event).0 xs) ys)

after_events-append :
    (sync : AvSynchronizer) (xs ys : List TimedMediaEvent)
    → after_events sync (xs ++ ys) ≡ after_events (after_events sync xs) ys
unfolding after_events
after_events-append sync [] ys = refl
after_events-append sync (event ∷ xs) ys = after_events-append (event_timing sync event).0 xs ys

-- Two runs, one behind the other.
pub Follows-trans :
    (format : AudioFormat) (delay_ms : ℤ) (from mid to : CaptureState) (xs ys : List Step)
    → Follows format delay_ms from xs mid
    → Follows format delay_ms mid ys to
    → Follows format delay_ms from (xs ++ ys) to
Follows-trans format delay_ms from mid to xs ys first second =
    let joined = media_in-append xs ys in
    record {
      ready = second.ready;
      writable = rw (events_of-append xs ys) (
          All-append (IsWritable format) (events_of xs) (events_of ys)
            (first.writable, second.writable));
      written = write_steps-append from.writer xs ys ∙ rw first.written second.written;
      times =
          events_of-append xs ys
          ∙ ap₂ ◌++◌ first.times (
              second.times
              ∙ ap (λ (sync : AvSynchronizer). time_media delay_ms sync (media_of (events_of ys)))
                  first.synchronized)
          ∙ sym (
              time_media-append delay_ms from.synchronizer (media_of (events_of xs))
                (media_of (events_of ys)))
          ∙ ap (time_media delay_ms from.synchronizer) (sym joined);
      synchronized =
          second.synchronized
          ∙ ap (λ (sync : AvSynchronizer). after_events sync (media_of (events_of ys)))
              first.synchronized
          ∙ sym (
              after_events-append from.synchronizer (media_of (events_of xs))
                (media_of (events_of ys)))
          ∙ ap (after_events from.synchronizer) (sym joined);
      videos = omega (
        arith,
        ap videos_in joined,
        videos_in-append (media_of (events_of xs)) (media_of (events_of ys)),
        first.videos,
        second.videos,
      );
      audios = omega (
        arith,
        ap audios_in joined,
        audios_in-append (media_of (events_of xs)) (media_of (events_of ys)),
        first.audios,
        second.audios,
      );
    }

-- A run of no steps, where the writer and the counters stay.
pub Follows-refl :
    (format : AudioFormat) (delay_ms : ℤ) (state : CaptureState)
    → IsReady format state
    → Follows format delay_ms state [] state
unfolding write_steps after_events
Follows-refl format delay_ms state ready = record {
  ready = ready;
  writable = tt;
  written = refl;
  times = refl;
  synchronized = refl;
  videos = omega arith;
  audios = omega arith;
}
