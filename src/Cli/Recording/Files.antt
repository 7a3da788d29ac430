-- ===== src/Cli/Recording/Files.antt =====
-- The file that the capture loop of crates/handycam-cli/src/main.rs leaves.
use handycam_rs.Jpeg.{JpegDecoder}
use handycam_rs.Media.{AudioFormat, TimedVideoFrame, TimedMediaEvent, from_micros}
use handycam_rs.LinuxAudio.{chunk}
use handycam_rs.Stream.{default_max_record_size}
use handycam_rs.Stream
use handycam_rs.Stream.Sizes.{Within}
use handycam_rs.Sync
use handycam_rs.Usb.Transfers.{SessionEvent}
use handycam_rs.Cli.{captured_frames}
use handycam_rs.Matroska.Session.{TimedEvent, Step, events_of, event_block, latest_end}
use handycam_rs.Matroska.Duration.{IsFile}
use handycam_rs.Matroska.{MatroskaWriter, into_inner}
use handycam_rs.Cli.Recording.{CaptureState, CaptureError, Round, Captured}
use handycam_rs.Cli.Recording.Steps.{Follows, media_of, time_media, videos_in, audios_in}
use handycam_rs.Cli.Recording.Gathering.{IsExpected}
use handycam_rs.Cli.Recording.Passes.{Pass, media_of_pass, Passes}
use handycam_rs.Prelude.Int.{ℤ}
use handycam_rs.Prelude.{
  ℕ, ◌≡◌, false, Option, none, some, List, [], ◌∷◌, ◌++◌, map, Bytes, length, wrap64, Result, ok,
  err,
}

-- The media of the passes, the events that they polled, and the frames of these.
abbrev pub media_of_passes : List Pass → List TimedMediaEvent
media_of_passes [] = []
media_of_passes (pass ∷ passes) = media_of_pass pass ++ media_of_passes passes

abbrev pub polled_by : List Pass → List SessionEvent
polled_by [] = []
polled_by (pass ∷ passes) = pass.events ++ polled_by passes

abbrev pub frames_in : List Pass → List TimedVideoFrame
frames_in [] = []
frames_in (pass ∷ passes) = pass.frames ++ frames_in passes

-- The passes that went on are the first of the rounds.
abbrev pub Begins :
    {AudioError PollError : Type 0} → List Pass → List (Round AudioError PollError) → Type 0
Begins [] rounds = Unit
Begins (pass ∷ passes) [] = ⊥
Begins (pass ∷ passes) (round ∷ rounds) =
    (round.stopping ≡ false)
    × (round.audio ≡ map chunk pass.chunks)
    × (round.polled ≡ ok pass.events)
    × Begins passes rounds

-- The loop goes on with every round, or ends as expected.
abbrev pub Ends :
    {AudioError PollError : Type 0}
    → List Pass
    → List (Round AudioError PollError)
    → Option (Result (CaptureError AudioError PollError) (Unit {0}))
    → Type 0
Ends passes rounds none = length passes ≡ length rounds
Ends passes rounds (some (ok done)) = Unit
Ends passes rounds (some (err error)) = IsExpected error

record Session (lib : JpegDecoder) {AudioError PollError : Type 0} (origin : ℕ)
    (format : AudioFormat) (delay_ms : ℤ) (from : CaptureState)
    (rounds : List (Round AudioError PollError)) (r : Captured lib AudioError PollError)
    : Type 0 where
  passes : List Pass
  steps : List Step
  begins : Begins passes rounds
  follows : Follows format delay_ms from steps r.0
  wrote : media_of (events_of steps) ≡ media_of_passes passes
  frames : captured_frames lib origin from.capture (polled_by passes) ≡ frames_in passes
  ended : Ends passes rounds r.1

module _ (lib : JpegDecoder) (AudioError PollError : Type 0) (origin : ℕ) (format : AudioFormat)
    (delay_ms : ℤ) where
  abbrev Rounds : Type 0
  Rounds = List (Round AudioError PollError)

  abbrev Bounded : CaptureState → Type 0
  Bounded state = Within default_max_record_size state.capture.decoder

-- What a capture leaves: its passes, what it wrote for them, its file when it is closed, and how it ended.
pub record IsCapture (lib : JpegDecoder) {AudioError PollError : Type 0} (origin : ℕ) (delay_ms : ℤ)
    (writer : MatroskaWriter) (header : Bytes) (rounds : List (Round AudioError PollError))
    (r : Captured lib AudioError PollError) : Type 0 where
  pub passes : List Pass
  pub events : List TimedEvent
  pub begins : Begins passes rounds
  pub frames :
      captured_frames lib origin
        (record { decoder = Stream.new; source_discontinuity = false })
        (polled_by passes)
      ≡ frames_in passes
  pub wrote : events ≡ time_media delay_ms (Sync.new (from_micros 0)) (media_of_passes passes)
  pub file :
      IsFile writer.duration_offset
        (latest_end writer.maximum_end_us events)
        header
        (map event_block events)
        (into_inner r.0.writer)
  pub videos : wrap64 r.0.video_frames ≡ wrap64 (videos_in (media_of_passes passes))
  pub audios : wrap64 r.0.audio_chunks ≡ wrap64 (audios_in (media_of_passes passes))
  pub ended : Ends passes rounds r.1
