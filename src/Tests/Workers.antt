-- ===== src/Tests/Workers.antt =====
-- Runs of the audio workers of crates/handycam-linux-audio/src/lib.rs and of the output thread of
-- crates/handycam-cli/src/sink.rs.
use handycam_rs.Jpeg.{mjpeg, yuyv}
use handycam_rs.LinuxAudio.{first_sample_timestamp_ns}
use handycam_rs.LinuxAudio.Device.{Alsa}
use handycam_rs.Audio.{push_pcm}
use handycam_rs.Media.{pcm_s16le}
use handycam_rs.LinuxAudio.Worker.{pcm_bytes, Note, frames, sent, run_alsa_capture}
use handycam_rs.LinuxAudio.Worker.Recording.{
  camera_format, IsRecording, run_alsa_capture-IsRecording,
}
use handycam_rs.LinuxAudio.Arecord.{Delivers, concat, run_capture, run_capture-Delivers}
use handycam_rs.Sink.{stdout, v4l2, Outputs, configure_v4l2, spawn}
use handycam_rs.Sink.Frames.{encode_frames}
use handycam_rs.Sink.Stdout.{IsStream, Streams, spawn-Streams}
use handycam_rs.Sink.Device.{IsDevice, PlaysBehind, spawn-Plays}
use handycam_rs.Tests.Decoding.{stub, first_frame}
use handycam_rs.Prelude.Int.{pos}
use handycam_rs.Prelude.{
  ℕ, suc, min, ◌≡◌, refl, sym, true, false, none, List, [], ◌∷◌, ◌++◌, append-nil, arith, ltb, ◌==◌,
  if◌then◌else◌, ==_refl, Bytes, length, take, replicate, ok, err,
}

-- The test of the source.
first_sample-test : first_sample_timestamp_ns 2_000_000_000 160 640 16_000 ≡ 1_950_000_000
unfolding first_sample_timestamp_ns
first_sample-test = refl

-- A device that counts its calls of the flag: an overrun at the third, a stop at the eighth.
abbrev device : Alsa
device = record {
  Pcm = ℕ;
  Error = Unit {0};
  is_again = λ _. false;
  set = λ setting n. (n, ok tt);
  set_rate_near = λ rate n. (n, ok rate);
  set_period_size_near = λ size n. (n, ok size);
  io_i16 = λ n. (n, ok tt);
  wait = λ timeout n. (n, ok true);
  readi = λ size n. (n, if n == 3 then err tt else ok (replicate (min size 400) (1, 0x1234)));
  try_recover = λ error n. (n, ok tt);
  status =
      λ n. (n, ok (record { htstamp = record { tv_sec = pos 1; tv_nsec = pos 0 }; avail = pos 0 }));
  drop = λ n. n;
  is_running = λ n. (suc n, ltb n 8);
  takes_chunk = λ n. (n, true);
}

abbrev kinds : List (Note (Unit {0})) → Bytes
kinds [] = []
kinds (frames more ∷ notes) = length more ∷ kinds notes
kinds (sent event ∷ notes) = 2 ∷ kinds notes
kinds (note ∷ notes) = 1 ∷ kinds notes

-- 400 frames, the overrun, then a whole period of 400 and 240.
alsa-notes : take 5 (kinds (run_alsa_capture device 8 0 0)) ≡ 400 ∷ 1 ∷ 400 ∷ 240 ∷ 2 ∷ []
unfolding run_alsa_capture push_pcm pcm_bytes pcm_s16le
alsa-notes = refl

run_alsa_capture-IsRecording_example :
    IsRecording camera_format false 0 [] (run_alsa_capture device 8 0 0)
run_alsa_capture-IsRecording_example = run_alsa_capture-IsRecording device 8 0 0

abbrev periods : List Bytes
periods = replicate 2_560 7 ∷ []

run_capture-Delivers_example :
    Delivers {E = Unit {0}} 0
      (λ i. 1_000_000)
      none
      0
      0
      periods
      (run_capture 0
        (λ i. 1_000_000)
        (λ i. true)
        (record { bytes = concat periods ++ 1 ∷ 2 ∷ []; ending = none }))
run_capture-Delivers_example =
    run_capture-Delivers 0 (λ i. 1_000_000) (λ i. true) (λ i. refl) periods (1 ∷ 2 ∷ []) none
      (refl, tt) (omega arith)

-- An output that keeps what it gets, as bytes and as buffers.
abbrev outputs : Outputs
outputs = record {
  State = Bytes × List Bytes;
  IoError = Unit {0};
  is_broken_pipe = λ _. true;
  write_all = λ bytes s. ((s.0 ++ bytes, s.1), ok tt);
  flush = λ s. (s, ok tt);
  Colorspace = ℕ;
  Quantization = ℕ;
  jpeg = 7;
  smpte170m = 1;
  full_range = 1;
  limited_range = 2;
  new_format = λ width height fourcc. record {
    width = width;
    height = height;
    fourcc = fourcc;
    stride = 0;
    size = 0;
    colorspace = 0;
    quantization = 0;
  };
  with_path = λ path s. (s, ok tt);
  query_caps = λ s. (s, ok (true, true));
  set_format = λ format s. (s, ok format);
  set_params = λ rate s. (s, ok tt);
  write = λ bytes s. ((s.0, s.1 ++ bytes ∷ []), ok (length bytes));
}

abbrev stream : IsStream outputs
stream = record {
  contents = λ s. s.0;
  written = λ s. s.0;
  buffers = λ s. ([], sym (append-nil s.0));
  empties = λ s. refl;
  appends = λ bytes s. record {
    kept = bytes;
    lost = [];
    split = append-nil bytes;
    behind = refl;
    whole = refl;
  };
  flushes = λ s. refl;
}

spawn-Streams_example :
    Streams stub outputs stream
      ([], [])
      (encode_frames stub mjpeg (first_frame ∷ first_frame ∷ []))
      (spawn stub outputs stdout mjpeg (first_frame ∷ first_frame ∷ []) ([], []))
spawn-Streams_example =
    spawn-Streams stub outputs stream mjpeg (first_frame ∷ first_frame ∷ []) ([], [])

abbrev screen : IsDevice outputs
screen = record { shown = λ s. s.1; shows = λ bytes s. rw (==_refl (length bytes)) refl }

spawn-Plays_example :
    PlaysBehind stub outputs screen
      (configure_v4l2 stub outputs [] yuyv ([], []))
      (encode_frames stub yuyv (first_frame ∷ []))
      (spawn stub outputs (v4l2 []) yuyv (first_frame ∷ []) ([], []))
spawn-Plays_example = spawn-Plays stub outputs screen [] yuyv (first_frame ∷ []) ([], [])
