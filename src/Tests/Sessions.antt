-- ===== src/Tests/Sessions.antt =====
-- Runs of the capture loop's USB events: crates/handycam-cli/src/main.rs.
use handycam_rs.Stream.{
  boundary, video, new, push_packet, is_header, marks_boundary, header_timestamp, header_flags,
  timestamp_delta,
}
use handycam_rs.Jpeg.{reconstruct_jpeg}
use handycam_rs.Usb.Transfers.{SessionEvent, packet, packet_error, transfer_failed}
use handycam_rs.Media.{TimedVideoFrame}
use handycam_rs.Cli.{VideoCapture, captured_frames}
use handycam_rs.Cli.Capture.{IsFlagged, captured_frames-IsFlagged}
use handycam_rs.Tests.Decoding.{stub, mark, header}
use handycam_rs.Prelude.{ℕ, ◌≡◌, refl, Bool, true, false, List, [], ◌∷◌, arith}

-- A frame, a lost packet, and two frames more: three headers are spent on opening records.
abbrev pub session : List SessionEvent
session =
    packet boundary mark 0
    ∷ packet video (header 100) 0
    ∷ packet boundary mark 1_000
    ∷ packet video (header 140) 2_000
    ∷ packet boundary mark 40_000
    ∷ packet video (header 180) 42_000
    ∷ packet_error video 1
    ∷ packet boundary mark 80_000
    ∷ packet video (header 220) 82_000
    ∷ packet boundary mark 120_000
    ∷ packet video (header 260) 122_000
    ∷ packet boundary mark 160_000
    ∷ packet video (header 300) 162_000
    ∷ transfer_failed video 5
    ∷ []

abbrev start : VideoCapture
start = record { decoder = new; source_discontinuity = false }

abbrev stamps : List TimedVideoFrame → List (ℕ × ℕ × Bool)
stamps [] = []
stamps (e ∷ es) =
    (e.frame.timestamp_unwrapped_ms, e.observed_at.micros, e.source_discontinuity) ∷ stamps es

-- Both frames lie at time 0: the second is flagged.
captured-session :
    stamps (captured_frames stub 0 start session) ≡ (0, 2_000, false) ∷ (0, 122_000, true) ∷ []
unfolding captured_frames push_packet is_header marks_boundary header_timestamp header_flags
    timestamp_delta reconstruct_jpeg
captured-session = refl

captured_frames-IsFlagged_example : IsFlagged 0 (captured_frames stub 0 start session)
captured_frames-IsFlagged_example = captured_frames-IsFlagged stub 0 session (ground arith)
