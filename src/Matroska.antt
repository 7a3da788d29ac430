-- ===== src/Matroska.antt =====
-- crates/handycam-matroska/src/lib.rs: the Matroska file of the capture, written event by event.
-- The output is a seekable file whose writes succeed; the only error of its own is a size.
pub mod F64
pub mod Reader
pub mod Clusters
pub mod Session
pub mod Duration
pub mod Open
pub mod Ebml
use handycam_rs.Matroska.F64.{f64_from, f64_thousandths}
use handycam_rs.Matroska.Ebml.{
  IoError, Write, vec_write, size_width, write_id, element, uint_element,
}
use handycam_rs.Media.{AudioFormat, TimedVideoFrame, TimedAudioChunk}
use handycam_rs.Sync.{MediaTiming}
use handycam_rs.Prelude.{
  ◌>>=◌, ℕ, ◌+◌, ◌/◌, max, bit_or, Bool, not, ◌&&◌, [], ◌∷◌, ◌++◌, ◌==◌, if◌then◌else◌, Bytes,
  length, take, drop, saturating_add, saturating_mul, Result, ok, err,
}

abbrev pub video_track : ℕ
video_track = 1

abbrev pub audio_track : ℕ
audio_track = 2

pub data MatroskaError : Type 0 where
  io : IoError → MatroskaError
  audio_format_changed : MatroskaError
  invalid_pcm_length : ℕ → ℕ → MatroskaError

-- A seekable file: its contents and the position.
pub record File : Type 0 where
  pub bytes : Bytes
  pub position : ℕ

-- Overwrites at the position, and grows the file where it ends.
abbrev pub write_at : File → Bytes → File
write_at file payload = record {
  bytes =
      take file.position file.bytes ++ payload ++ drop (file.position + length payload) file.bytes;
  position = file.position + length payload;
}

abbrev pub file_write : Write File
file_write = record { write_all = λ file payload. ok (write_at file payload) }

-- `From<io::Error>`, the conversion of `?`.
abbrev pub as_io {ℓ} : {A : Type ℓ} → Result IoError A → Result MatroskaError A
as_io (ok a) = ok a
as_io (err e) = err (io e)

unfoldable pub write_cluster : {W : Type 0} → Write W → W → ℕ → ℕ → Bytes → Result IoError W
unfolding element uint_element
write_cluster to output pts_ms track payload = do
  cluster ← uint_element vec_write [] 0xe7 pts_ms
  let block = bit_or 0x80 track ∷ 0 ∷ 0 ∷ 0x80 ∷ payload
  cluster ← element vec_write cluster 0xa3 block
  element to output 0x1f43b675 cluster

-- `write_header` up to the info element.
pub write_ebml : {W : Type 0} → Write W → W → Result IoError W
unfolding element uint_element
write_ebml to output = do
  ebml ← uint_element vec_write [] 0x4286 1
  ebml ← uint_element vec_write ebml 0x42f7 1
  ebml ← uint_element vec_write ebml 0x42f2 4
  ebml ← uint_element vec_write ebml 0x42f3 8
  ebml ← element vec_write ebml 0x4282 (b'm' ∷ b'a' ∷ b't' ∷ b'r' ∷ b'o' ∷ b's' ∷ b'k' ∷ b'a' ∷ [])
  ebml ← uint_element vec_write ebml 0x4287 4
  ebml ← uint_element vec_write ebml 0x4285 2
  element to output 0x1a45dfa3 ebml

-- The info element, and where in it the duration's payload starts.
pub info_payload : Result IoError (Bytes × ℕ)
unfolding element uint_element f64_thousandths
info_payload = do
  info ← uint_element vec_write [] 0x2ad7b1 1_000_000
  let duration_payload_in_info = length info + 3
  info ← element vec_write info 0x4489 (f64_thousandths 0)
  info ← element vec_write info 0x4d80 (b'h' ∷ b'a' ∷ b'n' ∷ b'd' ∷ b'y' ∷ b'c' ∷ b'a' ∷ b'm' ∷ [])
  info ← element vec_write info 0x5741 (b'h' ∷ b'a' ∷ b'n' ∷ b'd' ∷ b'y' ∷ b'c' ∷ b'a' ∷ b'm' ∷ [])
  ok (info, duration_payload_in_info)

pub tracks_payload : AudioFormat → Result IoError Bytes
unfolding element uint_element f64_from
tracks_payload audio_format = do
  video ← uint_element vec_write [] 0xd7 video_track
  video ← uint_element vec_write video 0x73c5 video_track
  video ← uint_element vec_write video 0x83 1
  video ← element vec_write video 0x86 (b'V' ∷ b'_' ∷ b'M' ∷ b'J' ∷ b'P' ∷ b'E' ∷ b'G' ∷ [])
  video ← uint_element vec_write video 0x23e383 40_000_000
  video_settings ← uint_element vec_write [] 0xb0 320
  video_settings ← uint_element vec_write video_settings 0xba 240
  video ← element vec_write video 0xe0 video_settings
  tracks ← element vec_write [] 0xae video
  audio ← uint_element vec_write [] 0xd7 audio_track
  audio ← uint_element vec_write audio 0x73c5 audio_track
  audio ← uint_element vec_write audio 0x83 2
  audio ← element vec_write audio 0x86 (
      b'A' ∷ b'_' ∷ b'P' ∷ b'C' ∷ b'M' ∷ b'/' ∷ b'I' ∷ b'N' ∷ b'T' ∷ b'/' ∷ b'L' ∷ b'I' ∷ b'T' ∷ [])
  audio_settings ← element vec_write [] 0xb5 (f64_from audio_format.sample_rate_hz)
  audio_settings ← uint_element vec_write audio_settings 0x9f audio_format.channels
  audio_settings ← uint_element vec_write audio_settings 0x6264 16
  audio ← element vec_write audio 0xe1 audio_settings
  element vec_write tracks 0xae audio

-- The segment's size is unknown: eight bytes of ones.
abbrev pub unknown_size : Bytes
unknown_size = 0x01 ∷ 0xff ∷ 0xff ∷ 0xff ∷ 0xff ∷ 0xff ∷ 0xff ∷ 0xff ∷ []

-- The offset of the duration's payload.
unfoldable pub write_header : File → AudioFormat → Result IoError (File × ℕ)
unfolding write_ebml write_id element size_width info_payload tracks_payload
write_header output audio_format = do
  output ← write_ebml file_write output
  output ← write_id file_write output 0x18538067
  let output = write_at output unknown_size
  described ← info_payload
  let info = described.0
  let info_start = output.position
  width ← size_width (length info)
  let info_header_size = 4 + width
  output ← element file_write output 0x1549a966 info
  let duration_offset = info_start + info_header_size + described.1
  tracks ← tracks_payload audio_format
  output ← element file_write output 0x1654ae6b tracks
  ok (output, duration_offset)

pub record MatroskaWriter : Type 0 where
  pub output : File
  pub audio_format : AudioFormat
  pub duration_offset : ℕ
  pub maximum_end_us : ℕ

unfoldable pub new : File → AudioFormat → Result MatroskaError MatroskaWriter
unfolding write_header
new output audio_format = do
  written ← as_io (write_header output audio_format)
  ok (record {
    output = written.0;
    audio_format = audio_format;
    duration_offset = written.1;
    maximum_end_us = 0;
  })

-- A cluster and the new maximum; a `usize` is 64 bits wide.
unfoldable pub write_packet :
    MatroskaWriter → ℕ → Bytes → MediaTiming → Result MatroskaError MatroskaWriter
unfolding write_cluster
write_packet writer track payload timing = do
  output ← as_io (write_cluster file_write writer.output (timing.pts_us / 1_000) track payload)
  ok (record writer {
    output = output;
    maximum_end_us = max writer.maximum_end_us (saturating_add timing.pts_us timing.duration_us);
  })

unfoldable pub write_video :
    MatroskaWriter → TimedVideoFrame → MediaTiming → Result MatroskaError MatroskaWriter
unfolding write_packet
write_video writer event timing = write_packet writer video_track event.frame.jpeg timing

-- There is one encoding, so formats agree when their numbers do.
abbrev pub same_format : AudioFormat → AudioFormat → Bool
same_format a b = a.sample_rate_hz == b.sample_rate_hz && a.channels == b.channels

abbrev pub pcm_length : TimedAudioChunk → ℕ
pcm_length event = saturating_mul (saturating_mul event.chunk.sample_frames event.format.channels) 2

unfoldable pub write_audio :
    MatroskaWriter → TimedAudioChunk → MediaTiming → Result MatroskaError MatroskaWriter
unfolding write_packet
write_audio writer event timing =
    let expected = pcm_length event in
    if not (same_format event.format writer.audio_format)
    then err audio_format_changed
    else if not (length event.chunk.pcm == expected)
    then err (invalid_pcm_length expected (length event.chunk.pcm))
    else write_packet writer audio_track event.chunk.pcm timing

-- `write_duration`: the duration goes to its place, and the position back to the end.
unfoldable pub write_duration : MatroskaWriter → MatroskaWriter
write_duration writer =
    let end = length writer.output.bytes in
    let output = record writer.output { position = writer.duration_offset } in
    let output = write_at output (f64_thousandths writer.maximum_end_us) in
    record writer { output = record output { position = end } }

-- The file's own `flush` has no effect on its contents.
unfoldable pub flush : MatroskaWriter → Result MatroskaError MatroskaWriter
unfolding write_duration
flush writer = ok (write_duration writer)

unfoldable pub into_inner : MatroskaWriter → Result MatroskaError File
unfolding flush
into_inner writer = do writer ← flush writer; ok writer.output
