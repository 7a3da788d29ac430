-- ===== src/Tests/Recordings.antt =====
-- A run of the capture loop of crates/handycam-cli/src/main.rs.
use handycam_rs.Media.{video, audio}
use handycam_rs.LinuxAudio.{AudioCaptureEvent, chunk}
use handycam_rs.Cli.Recording.{Round, sort_by_key}
use handycam_rs.Tests.Timing.{first_event, chunk_event}
use handycam_rs.Tests.Sessions.{session}
use handycam_rs.Prelude.{◌≡◌, refl, Bool, true, false, List, [], ◌∷◌, take, ok}

abbrev round : Bool → List (AudioCaptureEvent (Unit {0})) → Round (Unit {0}) (Unit {0})
round stopping heard = record {
  stopping = stopping;
  audio = heard;
  polled = ok (take 13 session);
  stopping_at_error = false;
  report_due = true;
}

-- A chunk and two frames, then the stop.
abbrev rounds : List (Round (Unit {0}) (Unit {0}))
rounds = round false (chunk chunk_event ∷ []) ∷ round true [] ∷ []

-- Two chunks of one time, and a frame observed before them.
sorted_media :
    sort_by_key (audio chunk_event ∷ video first_event ∷ audio chunk_event ∷ [])
    ≡ video first_event ∷ audio chunk_event ∷ audio chunk_event ∷ []
unfolding sort_by_key
sorted_media = refl
