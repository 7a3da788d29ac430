-- ===== src/Cli/Recording/Gathering.antt =====
-- What a pass of the capture loop of crates/handycam-cli/src/main.rs gathers before it writes.
use handycam_rs.Jpeg.{JpegDecoder}
use handycam_rs.Stream.{default_max_record_size, PushResult, push_at, push_packet}
use handycam_rs.Stream.Sizes.{Within, IsSized, push_at-IsSized}
use handycam_rs.Media.{TimedVideoFrame, TimedAudioChunk, TimedMediaEvent}
use handycam_rs.Media
use handycam_rs.LinuxAudio.{AudioCaptureEvent, chunk, failed, closed}
use handycam_rs.Usb.Transfers.{
  SessionEvent, packet, packet_error, transfer_failed, submit_failed, callback_panicked,
}
use handycam_rs.Cli.{
  VideoCapture, EventOutcome, nothing, frame_ready, disconnected, accept_pushed, handle_event,
  add_frame, captured_frames,
}
use handycam_rs.Cli.Recording.{
  CaptureError, synchronization, writing, gather_audio, Gathered, add_media, gather_next,
  gather_video,
}
use handycam_rs.Prelude.{
  ℕ, ◌+◌, ◌*◌, ◌≤◌, ◌≡◌, refl, ap, Bool, none, some, List, [], ◌∷◌, ◌++◌, map, arith, length, All,
  u64_max, Result, ok, err,
}

-- An end that the camera, the audio worker or the user brings, not the synchronizer or the writer.
abbrev pub IsExpected : {AudioError PollError : Type 0} → CaptureError AudioError PollError → Type 0
IsExpected (synchronization error) = ⊥
IsExpected (writing error) = ⊥
IsExpected error = Unit

-- A packet of at most a record and a header's eight bytes.
abbrev pub IsShort : SessionEvent → Type 0
IsShort (packet endpoint payload received_at) = length payload ≤ default_max_record_size + 8
IsShort _ = Unit

-- A frame of a 64-bit time and of bounded size.
abbrev pub IsSmall : TimedVideoFrame → Type 0
IsSmall event =
    (event.observed_at.micros ≤ u64_max)
    × (length event.frame.jpeg ≤ 625 + 2 * default_max_record_size)

-- All chunks, or the first failure.
abbrev pub GathersAudio :
    {AudioError PollError : Type 0}
    → List (AudioCaptureEvent AudioError)
    → Result (CaptureError AudioError PollError) (List TimedMediaEvent)
    → Type 0
GathersAudio events (ok media) =
    (chunks : List TimedAudioChunk) × (events ≡ map chunk chunks) × (media ≡ map Media.audio chunks)
GathersAudio events (err error) = IsExpected error

module _ (lib : JpegDecoder) (AudioError PollError : Type 0) where
  add_chunk-GathersAudio :
      (c : TimedAudioChunk) (events : List (AudioCaptureEvent AudioError))
      (r : Result (CaptureError AudioError PollError) (List TimedMediaEvent))
      → GathersAudio events r
      → GathersAudio
          (chunk c ∷ events)
          (elim r [ ok media ↦ ok (Media.audio c ∷ media) | err error ↦ err error ])
  add_chunk-GathersAudio c events (ok media) (chunks, same, gathered) =
      (c ∷ chunks, ap (◌∷◌ (chunk c)) same, ap (◌∷◌ (Media.audio c)) gathered)
  add_chunk-GathersAudio c events (err error) h = h

  pub gather_audio-GathersAudio :
      (events : List (AudioCaptureEvent AudioError))
      → GathersAudio events (gather_audio lib AudioError PollError events)
  unfolding gather_audio
  gather_audio-GathersAudio [] = ([], refl, refl)
  gather_audio-GathersAudio (chunk c ∷ events) =
      add_chunk-GathersAudio c events (gather_audio lib AudioError PollError events)
        (gather_audio-GathersAudio events)
  gather_audio-GathersAudio (failed error ∷ events) = tt
  gather_audio-GathersAudio (closed ∷ events) = tt

  abbrev IsBounded : VideoCapture → Type 0
  IsBounded c = Within default_max_record_size c.decoder

  -- What an event leaves, and the frame that it brings.
  abbrev Leaves : VideoCapture × EventOutcome → Type 0
  Leaves (c, nothing) = IsBounded c
  Leaves (c, frame_ready frame) = IsBounded c × IsSmall frame
  Leaves (c, disconnected) = Unit

  accept_pushed-Leaves :
      (origin received_at : ℕ) (flagged : Bool) (pushed : PushResult lib)
      → IsSized lib default_max_record_size pushed
      → Leaves (accept_pushed lib origin received_at flagged pushed)
  unfolding accept_pushed
  accept_pushed-Leaves origin received_at flagged (decoder, ok none) sized = sized
  accept_pushed-Leaves origin received_at flagged (decoder, ok (some frame)) sized =
      (sized.0, (omega arith, sized.1))
  accept_pushed-Leaves origin received_at flagged (decoder, err error) sized = (sized.0, tt)

  handle_event-Leaves :
      (origin : ℕ) (c : VideoCapture) (event : SessionEvent)
      → IsShort event
      → IsBounded c
      → Leaves (handle_event lib origin c event)
  unfolding handle_event push_packet
  handle_event-Leaves origin c (packet endpoint payload received_at) short bounded =
      accept_pushed-Leaves origin received_at c.source_discontinuity
        (push_at lib endpoint c.decoder payload)
        (push_at-IsSized lib default_max_record_size endpoint c.decoder payload bounded short)
  handle_event-Leaves origin c (packet_error endpoint status) short bounded = (bounded.0, tt)
  handle_event-Leaves origin c (transfer_failed endpoint status) short bounded = tt
  handle_event-Leaves origin c (submit_failed endpoint error) short bounded = tt
  handle_event-Leaves origin c callback_panicked short bounded = tt

  -- All frames that the events bring, or the end of the session.
  abbrev pub GathersVideo :
      ℕ → (List SessionEvent → List TimedVideoFrame) → Gathered lib AudioError PollError → Type 0
  GathersVideo origin captured (c, ok media) =
      (frames : List TimedVideoFrame) × (media ≡ map Media.video frames)
      × ((more : List SessionEvent) → captured more ≡ frames ++ captured_frames lib origin c more)
      × All IsSmall frames
      × IsBounded c
  GathersVideo origin captured (c, err error) = IsExpected error

  add_media-GathersVideo :
      (origin : ℕ) (frame : TimedVideoFrame) (captured : List SessionEvent → List TimedVideoFrame)
      (r : Gathered lib AudioError PollError)
      → IsSmall frame
      → GathersVideo origin captured r
      → GathersVideo origin
          (λ more. frame ∷ captured more)
          (add_media lib AudioError PollError frame r)
  unfolding add_media
  add_media-GathersVideo origin frame captured (c, ok media) small
        (frames, same, split, smalls, bounded) =
      (
        frame ∷ frames,
        ap (◌∷◌ (Media.video frame)) same,
        λ more. ap (◌∷◌ frame) (split more),
        (small, smalls),
        bounded,
      )
  add_media-GathersVideo origin frame captured (c, err error) small h = h

  gather_next-GathersVideo :
      (origin : ℕ) (events : List SessionEvent) (handled : VideoCapture × EventOutcome)
      → Leaves handled
      → ((c : VideoCapture)
          → IsBounded c
          → GathersVideo origin
              (λ more. captured_frames lib origin c (events ++ more))
              (gather_video lib AudioError PollError origin events c))
      → GathersVideo origin
          (λ more. add_frame lib handled.1 (captured_frames lib origin handled.0 (events ++ more)))
          (gather_next lib AudioError PollError handled.0 handled.1
            (gather_video lib AudioError PollError origin events))
  unfolding gather_next add_frame
  gather_next-GathersVideo origin events (c, nothing) leaves rests = rests c leaves
  gather_next-GathersVideo origin events (c, frame_ready frame) leaves rests =
      add_media-GathersVideo origin frame (λ more. captured_frames lib origin c (events ++ more))
        (gather_video lib AudioError PollError origin events c) leaves.1 (rests c leaves.0)
  gather_next-GathersVideo origin events (c, disconnected) leaves rests = tt

  pub gather_video-GathersVideo :
      (origin : ℕ) (events : List SessionEvent) (c : VideoCapture)
      → All IsShort events
      → IsBounded c
      → GathersVideo origin
          (λ more. captured_frames lib origin c (events ++ more))
          (gather_video lib AudioError PollError origin events c)
  unfolding gather_video captured_frames
  gather_video-GathersVideo origin [] c short bounded = ([], refl, λ more. refl, tt, bounded)
  gather_video-GathersVideo origin (event ∷ events) c short bounded =
      gather_next-GathersVideo origin events (handle_event lib origin c event)
        (handle_event-Leaves origin c event short.0 bounded)
        (λ c' bounded'. gather_video-GathersVideo origin events c' short.1 bounded')
