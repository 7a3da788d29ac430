-- ===== src/Cli/Recording/Events.antt =====
-- How the capture loop of crates/handycam-cli/src/main.rs records the media of a pass.
use handycam_rs.Jpeg.{JpegDecoder}
use handycam_rs.Media.{AudioFormat, TimedVideoFrame, TimedAudioChunk, TimedMediaEvent}
use handycam_rs.Media
use handycam_rs.Sync.{AvSynchronizer, MediaTiming, SynchronizationError, event_timing}
use handycam_rs.Sync.Position.{after_events}
use handycam_rs.Sync.FromZero.{event_timing-IsTimed}
use handycam_rs.Matroska.{write_video, write_audio, write_duration, flush}
use handycam_rs.Matroska.Session.{
  TimedEvent, write_event, Step, packet, save, write_steps, events_of, IsWritable,
}
use handycam_rs.Matroska.Open.{GoesOn, write_event-GoesOn, write_duration-IsOpen}
use handycam_rs.Cli.Recording.{
  unsigned_abs, apply_audio_delay, CaptureState, CaptureError, behind_video, behind_audio,
  write_media, record_event, record_events, report,
}
use handycam_rs.Cli.Recording.Steps.{
  IsRecordable, IsRecordable-observed, apply_audio_delay-shifted, timed, timed-IsWritable, media_of,
  time_media, IsReady, Follows, media_in-append, Follows-trans, Follows-refl,
}
use handycam_rs.Prelude.Run.{continue_with, ◌>>=◌, lift}
use handycam_rs.Prelude.Int.{ℤ}
use handycam_rs.Prelude.{
  ◌+◌, ◌≤◌, max, ◌≡◌, refl, ap, ap₂, ◌∙◌, Bool, true, false, List, [], ◌∷◌, ◌++◌, arith, All,
  u64_max, wrap64, Result, ok,
}

-- A run of the state that succeeds, writes these media, and leaves the decoder alone.
pub record Records (format : AudioFormat) (delay_ms : ℤ) (from : CaptureState)
    (media : List TimedMediaEvent) {AudioError PollError : Type 0}
    (r : CaptureState × Result (CaptureError AudioError PollError) (Unit {0})) : Type 0 where
  pub to : CaptureState
  pub steps : List Step
  pub succeeds : r ≡ (to, ok tt)
  pub follows : Follows format delay_ms from steps to
  pub wrote : media_of (events_of steps) ≡ media
  pub capture_kept : to.capture ≡ from.capture

module _ (lib : JpegDecoder) (AudioError PollError : Type 0) (format : AudioFormat)
    (delay_ms : ℤ) where
  abbrev Done :
      CaptureState
      → List TimedMediaEvent
      → CaptureState × Result (CaptureError AudioError PollError) (Unit {0})
      → Type 0
  Done from media r = Records format delay_ms from media r

  written_on :
      (event : TimedEvent) (state : CaptureState)
      → IsWritable format event
      → IsReady format state
      → GoesOn state.writer (write_event state.writer event)
  written_on event state writable ready =
      write_event-GoesOn state.writer event (rw ready.in_format writable) ready.is_open

  write_media-Records :
      (event : TimedMediaEvent) (timing : MediaTiming) (sync : AvSynchronizer)
      (state : CaptureState)
      → IsRecordable format event
      → timing.pts_us ≤ u64_max
      → IsReady format state
      → event_timing sync event ≡ (state.synchronizer, ok timing)
      → Done
          (record state { synchronizer = sync })
          (event ∷ [])
          (write_media lib AudioError PollError delay_ms event (ok timing) state)
  unfolding write_media behind_video behind_audio write_steps write_event after_events
  write_media-Records (Media.video frame) timing sync state h fits ready timely =
      let event = timed delay_ms (Media.video frame) timing in
      let writable = timed-IsWritable delay_ms format (Media.video frame) timing h fits in
      let w = written_on event state writable ready in
      let e : write_video state.writer frame timing ≡ ok w.writer = w.succeeds in
      rw e (record {
        to = record state {
          writer = w.writer;
          video_frames = wrap64 (state.video_frames + 1);
          maximum_video_drift_us =
              max state.maximum_video_drift_us (unsigned_abs timing.observed_drift_us);
        };
        steps = packet event ∷ [];
        succeeds = refl;
        follows = record {
          ready = record {
            in_format = w.format_kept ∙ ready.in_format;
            is_open = w.is_open;
            from_zero = ready.from_zero;
          };
          writable = (writable, tt);
          written = rw e refl;
          times = rw (timely, time_media) refl;
          synchronized = rw (timely, after_events) refl;
          videos = omega arith;
          audios = omega arith;
        };
        wrote = refl;
        capture_kept = refl;
      })
  write_media-Records (Media.audio audio) timing sync state h fits ready timely =
      let event = timed delay_ms (Media.audio audio) timing in
      let writable = timed-IsWritable delay_ms format (Media.audio audio) timing h fits in
      let w = written_on event state writable ready in
      let e : write_audio state.writer audio (apply_audio_delay timing delay_ms) ≡ ok w.writer =
        ap (λ t. write_audio state.writer audio t) (apply_audio_delay-shifted timing delay_ms)
        ∙ w.succeeds in
      rw e (record {
        to = record state {
          writer = w.writer;
          audio_chunks = wrap64 (state.audio_chunks + 1);
          maximum_audio_drift_us =
              max state.maximum_audio_drift_us (unsigned_abs timing.observed_drift_us);
        };
        steps = packet event ∷ [];
        succeeds = refl;
        follows = record {
          ready = record {
            in_format = w.format_kept ∙ ready.in_format;
            is_open = w.is_open;
            from_zero = ready.from_zero;
          };
          writable = (writable, tt);
          written = rw w.succeeds refl;
          times = rw (timely, time_media) refl;
          synchronized = rw (timely, after_events) refl;
          videos = omega arith;
          audios = omega arith;
        };
        wrote = refl;
        capture_kept = refl;
      })

  record_event-Records :
      (event : TimedMediaEvent) (state : CaptureState)
      → IsRecordable format event
      → IsReady format state
      → Done state (event ∷ []) (record_event lib AudioError PollError delay_ms event state)
  unfolding record_event
  record_event-Records event state h ready =
      let t =
        event_timing-IsTimed state.synchronizer event (IsRecordable-observed format event h)
          ready.from_zero in
      let later = record state { synchronizer = (event_timing state.synchronizer event).0 } in
      let next : IsReady format later = record {
        in_format = ready.in_format;
        is_open = ready.is_open;
        from_zero = t.remains;
      } in
      rw t.succeeds (
        write_media-Records event t.timing state.synchronizer later h t.fits next (
          ap (λ (r : Result SynchronizationError MediaTiming). (later.synchronizer, r)) t.succeeds))

  abbrev Next : Type 0
  Next = CaptureState → CaptureState × Result (CaptureError AudioError PollError) (Unit {0})

  pub continue-Records :
      (from : CaptureState) (first second : List TimedMediaEvent)
      (r : CaptureState × Result (CaptureError AudioError PollError) (Unit {0})) (next : Next)
      → Done from first r
      → ((mid : CaptureState) → IsReady format mid → Done mid second (next mid))
      → Done from (first ++ second) (continue_with r (λ done. next))
  unfolding continue_with
  continue-Records from first second r next a rests =
      let b = rests a.to a.follows.ready in
      rw a.succeeds (record {
        to = b.to;
        steps = a.steps ++ b.steps;
        succeeds = b.succeeds;
        follows = Follows-trans format delay_ms from a.to b.to a.steps b.steps a.follows b.follows;
        wrote = media_in-append a.steps b.steps ∙ ap₂ ◌++◌ a.wrote b.wrote;
        capture_kept = b.capture_kept ∙ a.capture_kept;
      })

  pub record_events-Records :
      (events : List TimedMediaEvent) (state : CaptureState)
      → All (IsRecordable format) events
      → IsReady format state
      → Done state events (record_events lib AudioError PollError delay_ms events state)
  unfolding record_events lift ◌>>=◌
  record_events-Records [] state h ready = record {
    to = state;
    steps = [];
    succeeds = refl;
    follows = Follows-refl format delay_ms state ready;
    wrote = refl;
    capture_kept = refl;
  }
  record_events-Records (event ∷ events) state h ready =
      continue-Records state (event ∷ []) events
        (record_event lib AudioError PollError delay_ms event state)
        (record_events lib AudioError PollError delay_ms events)
        (record_event-Records event state h.0 ready)
        (λ mid ready'. record_events-Records events mid h.1 ready')

  pub report-Records :
      (due : Bool) (state : CaptureState)
      → IsReady format state
      → Done state [] (report lib AudioError PollError due state)
  unfolding report flush write_steps after_events
  report-Records false state ready = record {
    to = state;
    steps = [];
    succeeds = refl;
    follows = Follows-refl format delay_ms state ready;
    wrote = refl;
    capture_kept = refl;
  }
  report-Records true state ready = record {
    to = record state { writer = write_duration state.writer };
    steps = save ∷ [];
    succeeds = refl;
    follows = record {
      ready = record {
        in_format = ready.in_format;
        is_open = write_duration-IsOpen state.writer ready.is_open;
        from_zero = ready.from_zero;
      };
      writable = tt;
      written = refl;
      times = refl;
      synchronized = refl;
      videos = omega arith;
      audios = omega arith;
    };
    wrote = refl;
    capture_kept = refl;
  }
