-- ===== src/Tests/Files.antt =====
-- Files of crates/handycam-matroska/src/lib.rs.
use handycam_rs.Media.{AudioFormat, TimedVideoFrame, video, audio, signed_16_little_endian}
use handycam_rs.Sync.{MediaTiming}
use handycam_rs.Prelude.Int.{pos}
use handycam_rs.Matroska.F64.{f64_bits}
use handycam_rs.Matroska.{MatroskaError, File, MatroskaWriter, new, into_inner}
use handycam_rs.Matroska.Session.{
  Step, packet, save, write_steps, events_of, event_block, latest_end,
}
use handycam_rs.Matroska.Duration.{IsFile, write_steps-IsFile}
use handycam_rs.Tests.Decoding.{first_frame}
use handycam_rs.Tests.Timing.{first_event, chunk_event}
use handycam_rs.Prelude.{
  ℕ, ◌-◌, ◌≡◌, refl, false, List, [], ◌∷◌, map, arith, Bytes, take, drop, Result, ok, err, ◌>>=◌,
}

f64-16000 : f64_bits 16_000 1 ≡ 0x40cf400000000000
unfolding f64_bits
f64-16000 = refl

f64-tenth : f64_bits 1 10 ≡ 0x3fb999999999999a
unfolding f64_bits
f64-tenth = refl

abbrev format : AudioFormat
format = record { sample_rate_hz = 16_000; channels = 2; encoding = signed_16_little_endian }

abbrev empty_file : File
empty_file = record { bytes = []; position = 0 }

-- The eleven bytes that end with the duration's payload.
abbrev duration_element : Result MatroskaError MatroskaWriter → Bytes
duration_element (ok writer) = take 11 (drop (writer.duration_offset - 3) writer.output.bytes)
duration_element (err e) = []

-- The offset that the header returns is that of the payload of the element 0x4489.
header_duration :
    duration_element (new empty_file format)
    ≡ 0x44 ∷ 0x89 ∷ 0x88 ∷ 0 ∷ 0 ∷ 0 ∷ 0 ∷ 0 ∷ 0 ∷ 0 ∷ 0 ∷ []
unfolding new
header_duration = refl

-- A header of twelve bytes, the duration behind the first three.
abbrev pub short_header : Bytes
short_header = 0x44 ∷ 0x89 ∷ 0x88 ∷ 0 ∷ 0 ∷ 0 ∷ 0 ∷ 0 ∷ 0 ∷ 0 ∷ 0 ∷ 0xec ∷ []

abbrev pub writer : MatroskaWriter
writer = record {
  output = record { bytes = short_header; position = 12 };
  audio_format = format;
  duration_offset = 3;
  maximum_end_us = 0;
}

abbrev timing : ℕ → MediaTiming
timing pts = record {
  pts_us = pts;
  duration_us = 40_000;
  observed_drift_us = pos 0;
  discontinuity = false;
}

abbrev short_event : TimedVideoFrame
short_event = record first_event { frame = record first_frame { jpeg = 0xff ∷ 0xd8 ∷ [] } }

abbrev steps : List Step
steps =
    packet (video short_event, timing 5_000) ∷ save ∷ packet (audio chunk_event, timing 2_000) ∷ []

write_steps-IsFile_example :
    IsFile 3
      (latest_end 0 (events_of steps))
      short_header
      (map event_block (events_of steps))
      (write_steps writer steps >>= into_inner)
write_steps-IsFile_example =
    write_steps-IsFile writer short_header steps (omega arith) (ground arith) (refl, refl)
