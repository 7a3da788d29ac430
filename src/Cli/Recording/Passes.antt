-- ===== src/Cli/Recording/Passes.antt =====
-- One pass of the capture loop of crates/handycam-cli/src/main.rs.
use handycam_rs.Jpeg.{JpegDecoder}
use handycam_rs.Media.{AudioFormat, TimedVideoFrame, TimedAudioChunk, TimedMediaEvent}
use handycam_rs.Media
use handycam_rs.Sync.Position.{event_observed_timestamp}
use handycam_rs.LinuxAudio.{AudioCaptureEvent, chunk, failed, closed}
use handycam_rs.Stream.{default_max_record_size}
use handycam_rs.Stream.Sizes.{Within}
use handycam_rs.Usb.Transfers.{SessionEvent}
use handycam_rs.Cli.{VideoCapture, captured_frames}
use handycam_rs.Matroska.Session.{Step, events_of}
use handycam_rs.Cli.Recording.{
  insert, sort_by_key, CaptureState, CaptureError, Round, Gathered, take_video, record_events,
  report, finish, record_round, behind_poll, behind_stop, capture_round, gather_audio, gather_video,
}
use handycam_rs.Cli.Recording.Steps.{
  IsRecordable, IsReady, Follows, media_of, media_in-append, Follows-trans, Follows-refl,
}
use handycam_rs.Cli.Recording.Events.{record_events-Records, report-Records}
use handycam_rs.Cli.Recording.Gathering.{
  IsExpected, IsShort, IsSmall, GathersAudio, GathersVideo, gather_audio-GathersAudio,
  gather_video-GathersVideo,
}
use handycam_rs.Prelude.Int.{ℤ}
use handycam_rs.Prelude.Run.{continue_with, ◌>>=◌, lift}
use handycam_rs.Prelude.{
  ℕ, ◌≡◌, refl, ap₂, ◌∙◌, inl, inr, Bool, true, false, List, [], ◌∷◌, ◌++◌, map, append-nil, arith,
  leb, ◌==◌, Bool-cases, All, All-append, Result, ok, err,
}

-- What a pass that goes on takes: chunks, and the events that bring frames.
pub record Pass : Type 0 where
  pub chunks : List TimedAudioChunk
  pub events : List SessionEvent
  pub frames : List TimedVideoFrame

abbrev pub gathered : List TimedAudioChunk → List TimedVideoFrame → List TimedMediaEvent
gathered chunks frames = map Media.audio chunks ++ map Media.video frames

abbrev pub media_of_pass : Pass → List TimedMediaEvent
media_of_pass pass = sort_by_key (gathered pass.chunks pass.frames)

-- Chunks that the writer takes, packets of the camera's size.
abbrev pub IsAudioFor : AudioFormat → {E : Type 0} → AudioCaptureEvent E → Type 0
IsAudioFor format (chunk c) = IsRecordable format (Media.audio c)
IsAudioFor format (failed error) = Unit
IsAudioFor format closed = Unit

abbrev pub ArePackets : {E : Type 0} → Result E (List SessionEvent) → Type 0
ArePackets (ok events) = All IsShort events
ArePackets (err error) = Unit

abbrev pub IsRoundFor :
    AudioFormat → {AudioError PollError : Type 0} → Round AudioError PollError → Type 0
IsRoundFor format round = All (IsAudioFor format) round.audio × ArePackets round.polled

insert-All :
    (P : TimedMediaEvent → Type 0) (event : TimedMediaEvent) (events : List TimedMediaEvent)
    → P event
    → All P events
    → All P (insert event events)
unfolding insert
insert-All P event [] p all = (p, tt)
insert-All P event (next ∷ events) p all =
    elim (Bool-cases
      (leb (event_observed_timestamp event).micros (event_observed_timestamp next).micros)) [
        | inl e ↦ rw e (p, all)
        | inr e ↦ rw e (all.0, insert-All P event events p all.1)
      ]

sort_by_key-All :
    (P : TimedMediaEvent → Type 0) (events : List TimedMediaEvent)
    → All P events
    → All P (sort_by_key events)
unfolding sort_by_key
sort_by_key-All P [] all = tt
sort_by_key-All P (event ∷ events) all =
    insert-All P event (sort_by_key events) all.0 (sort_by_key-All P events all.1)

chunks-IsRecordable :
    (E : Type 0) (format : AudioFormat) (chunks : List TimedAudioChunk)
    → All (IsAudioFor format {E = E}) (map chunk chunks)
    → All (IsRecordable format) (map Media.audio chunks)
chunks-IsRecordable E format [] all = tt
chunks-IsRecordable E format (c ∷ chunks) all = (all.0, chunks-IsRecordable E format chunks all.1)

frames-IsRecordable :
    (format : AudioFormat) (frames : List TimedVideoFrame)
    → All IsSmall frames
    → All (IsRecordable format) (map Media.video frames)
frames-IsRecordable format [] all = tt
frames-IsRecordable format (frame ∷ frames) all =
    ((all.0.0, omega arith), frames-IsRecordable format frames all.1)

media-IsRecordable :
    (E : Type 0) (format : AudioFormat) (chunks : List TimedAudioChunk)
    (frames : List TimedVideoFrame)
    → All (IsAudioFor format {E = E}) (map chunk chunks)
    → All IsSmall frames
    → All (IsRecordable format) (sort_by_key (gathered chunks frames))
media-IsRecordable E format chunks frames audio video =
    sort_by_key-All (IsRecordable format) (gathered chunks frames) (
      All-append (IsRecordable format) (map Media.audio chunks) (map Media.video frames)
        (chunks-IsRecordable E format chunks audio, frames-IsRecordable format frames video))

-- A pass that goes on: it wrote its media, and the frames are those of its events.
pub record Passed (lib : JpegDecoder) {AudioError PollError : Type 0} (origin : ℕ)
    (format : AudioFormat) (delay_ms : ℤ) (from : CaptureState) (round : Round AudioError PollError)
    (to : CaptureState) : Type 0 where
  pub pass : Pass
  pub steps : List Step
  pub running : round.stopping ≡ false
  pub heard : round.audio ≡ map chunk pass.chunks
  pub polled : round.polled ≡ ok pass.events
  pub follows : Follows format delay_ms from steps to
  pub wrote : media_of (events_of steps) ≡ media_of_pass pass
  pub split :
      (more : List SessionEvent)
      → captured_frames lib origin from.capture (pass.events ++ more)
        ≡ pass.frames ++ captured_frames lib origin to.capture more
  pub bounded : Within default_max_record_size to.capture.decoder

-- A pass that does not go on writes nothing.
abbrev pub Passes :
    (lib : JpegDecoder) {AudioError PollError : Type 0} (origin : ℕ)
    → AudioFormat
    → ℤ
    → CaptureState
    → Round AudioError PollError
    → CaptureState × Result (CaptureError AudioError PollError) Bool
    → Type 0
Passes lib origin format delay_ms from round (to, ok true) =
    Passed lib origin format delay_ms from round to
Passes lib origin format delay_ms from round (to, ok false) = Follows format delay_ms from [] to
Passes lib origin format delay_ms from round (to, err error) =
    IsExpected error × Follows format delay_ms from [] to

module _ (lib : JpegDecoder) (AudioError PollError : Type 0) (origin : ℕ) (format : AudioFormat)
    (delay_ms : ℤ) where
  abbrev ThisRound : Type 0
  ThisRound = Round AudioError PollError

  abbrev Bounded : CaptureState → Type 0
  Bounded state = Within default_max_record_size state.capture.decoder

  abbrev with_capture : CaptureState → VideoCapture → CaptureState
  with_capture state c = record state { capture = c }

  with_capture-Follows :
      (state : CaptureState) (c : VideoCapture)
      → IsReady format state
      → Follows format delay_ms state [] (with_capture state c)
  with_capture-Follows state c ready =
      let f = Follows-refl format delay_ms state ready in
      record {
        ready = record {
          in_format = ready.in_format;
          is_open = ready.is_open;
          from_zero = ready.from_zero;
        };
        writable = tt;
        written = f.written;
        times = f.times;
        synchronized = f.synchronized;
        videos = f.videos;
        audios = f.audios;
      }

  -- The rest of a pass, once its frames are gathered.
  abbrev recorded :
      Bool
      → List TimedMediaEvent
      → CaptureState × Result (CaptureError AudioError PollError) (List TimedMediaEvent)
      → CaptureState × Result (CaptureError AudioError PollError) Bool
  recorded due audio r = continue_with r (λ video s.
      continue_with
        (record_events lib AudioError PollError delay_ms (sort_by_key (audio ++ video)) s)
        (λ done s'.
          continue_with (report lib AudioError PollError due s') (λ reported. lift (ok true))))

  recorded-Passes :
      (round : ThisRound) (chunks : List TimedAudioChunk) (events : List SessionEvent)
      (state : CaptureState) (r : Gathered lib AudioError PollError)
      → All (IsAudioFor format {E = AudioError}) (map chunk chunks)
      → round.stopping ≡ false
      → round.audio ≡ map chunk chunks
      → round.polled ≡ ok events
      → IsReady format state
      → GathersVideo lib AudioError PollError origin
          (λ more. captured_frames lib origin state.capture (events ++ more))
          r
      → Passes lib origin format delay_ms state round
          (recorded round.report_due (map Media.audio chunks) (with_capture state r.0, r.1))
  unfolding continue_with lift
  recorded-Passes round chunks events state (c, ok media) audio running heard polled ready
        (frames, same, split, small, bounded) =
      let from = with_capture state c in
      let next = with_capture-Follows state c ready in
      let a =
        record_events-Records lib AudioError PollError format delay_ms
          (sort_by_key (gathered chunks frames)) from
          (media-IsRecordable AudioError format chunks frames audio small) next.ready in
      let b =
        report-Records lib AudioError PollError format delay_ms round.report_due a.to
          a.follows.ready in
      rw (same, a.succeeds, b.succeeds)
        (record {
          pass = record { chunks = chunks; events = events; frames = frames };
          steps = a.steps ++ b.steps;
          running = running;
          heard = heard;
          polled = polled;
          follows =
              Follows-trans format delay_ms state from b.to [] (a.steps ++ b.steps) next
                (Follows-trans format delay_ms from a.to b.to a.steps b.steps a.follows b.follows);
          wrote =
              media_in-append a.steps b.steps
              ∙ ap₂ ◌++◌ a.wrote b.wrote
              ∙ append-nil (sort_by_key (gathered chunks frames));
          split = λ more. rw (b.capture_kept, a.capture_kept) (split more);
          bounded = rw (b.capture_kept, a.capture_kept) bounded;
        })
  recorded-Passes round chunks events state (c, err error) audio running heard polled ready h =
      (h, with_capture-Follows state c ready)

  record_round-Passes :
      (round : ThisRound) (chunks : List TimedAudioChunk) (events : List SessionEvent)
      (state : CaptureState)
      → All (IsAudioFor format {E = AudioError}) (map chunk chunks)
      → round.stopping ≡ false
      → round.audio ≡ map chunk chunks
      → round.polled ≡ ok events
      → All IsShort events
      → IsReady format state
      → Bounded state
      → Passes lib origin format delay_ms state round (
          record_round lib AudioError PollError origin delay_ms round.report_due
            (map Media.audio chunks)
            events
            state)
  unfolding record_round take_video ◌>>=◌
  record_round-Passes round chunks events state audio running heard polled short ready bounded =
      recorded-Passes round chunks events state
        (gather_video lib AudioError PollError origin events state.capture) audio running heard
        polled ready
        (gather_video-GathersVideo lib AudioError PollError origin events state.capture short
          bounded)

  behind_poll-Passes :
      (round : ThisRound) (chunks : List TimedAudioChunk) (state : CaptureState)
      (polled : Result PollError (List SessionEvent))
      → round.polled ≡ polled
      → All (IsAudioFor format {E = AudioError}) (map chunk chunks)
      → round.stopping ≡ false
      → round.audio ≡ map chunk chunks
      → ArePackets polled
      → IsReady format state
      → Bounded state
      → Passes lib origin format delay_ms state round (
          behind_poll lib AudioError PollError origin delay_ms round
            (map Media.audio chunks)
            polled
            state)
  unfolding behind_poll
  behind_poll-Passes round chunks state (ok events) polled audio running heard short ready bounded =
      record_round-Passes round chunks events state audio running heard polled short ready bounded
  behind_poll-Passes round chunks state (err error) polled audio running heard short ready bounded =
      elim (Bool-cases round.stopping_at_error) [
        | inl e ↦ rw e (Follows-refl format delay_ms state ready)
        | inr e ↦ rw e (tt, Follows-refl format delay_ms state ready)
      ]

  heard-Passes :
      (round : ThisRound) (state : CaptureState)
      (r : Result (CaptureError AudioError PollError) (List TimedMediaEvent))
      → GathersAudio round.audio r
      → round.stopping ≡ false
      → IsRoundFor format round
      → IsReady format state
      → Bounded state
      → Passes lib origin format delay_ms state round (
          continue_with
            (state, r)
            (λ audio.
              behind_poll lib AudioError PollError origin delay_ms round audio round.polled))
  unfolding continue_with
  heard-Passes round state (ok media) (chunks, heard, same) running fits ready bounded = rw same (
      behind_poll-Passes round chunks state round.polled refl (rw (← heard) fits.0) running heard
        fits.1 ready bounded)
  heard-Passes round state (err error) h running fits ready bounded =
      (h, Follows-refl format delay_ms state ready)

  finish-Passes :
      (round : ThisRound) (state : CaptureState)
      → IsReady format state
      → Passes lib origin format delay_ms state round (finish lib AudioError PollError state)
  unfolding finish
  finish-Passes round state ready = elim (Bool-cases (state.audio_chunks == 0)) [
    | inl silent ↦ rw silent (tt, Follows-refl format delay_ms state ready)
    | inr heard ↦ elim (Bool-cases (state.video_frames == 0)) [
      | inl dark ↦ rw (heard, dark) (tt, Follows-refl format delay_ms state ready)
      | inr seen ↦ rw (heard, seen) (Follows-refl format delay_ms state ready)
    ]
  ]

  behind_stop-Passes :
      (round : ThisRound) (state : CaptureState) (stopping : Bool)
      → round.stopping ≡ stopping
      → IsRoundFor format round
      → IsReady format state
      → Bounded state
      → Passes lib origin format delay_ms state round
          (behind_stop lib AudioError PollError origin delay_ms round stopping state)
  unfolding behind_stop ◌>>=◌ lift
  behind_stop-Passes round state true e fits ready bounded = finish-Passes round state ready
  behind_stop-Passes round state false e fits ready bounded =
      heard-Passes round state (gather_audio lib AudioError PollError round.audio)
        (gather_audio-GathersAudio lib AudioError PollError round.audio) e fits ready bounded

  pub capture_round-Passes :
      (round : ThisRound) (state : CaptureState)
      → IsRoundFor format round
      → IsReady format state
      → Bounded state
      → Passes lib origin format delay_ms state round
          (capture_round lib AudioError PollError origin delay_ms round state)
  unfolding capture_round
  capture_round-Passes round state fits ready bounded =
      behind_stop-Passes round state round.stopping refl fits ready bounded
