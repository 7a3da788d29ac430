-- ===== src/Matroska/Session.antt =====
-- Runs of the writer of crates/handycam-matroska/src/lib.rs over the timed events of a capture.
use handycam_rs.Matroska.Reader.{Block, read_cluster}
use handycam_rs.Matroska.Clusters.{
  AtEnd, file_write-IsAppending, block_of, write_cluster-WritesCluster,
}
use handycam_rs.Matroska.{
  video_track, audio_track, MatroskaError, MatroskaWriter, write_packet, write_video, write_audio,
  flush, same_format, pcm_length,
}
use handycam_rs.Media.{AudioFormat, TimedMediaEvent, video, audio}
use handycam_rs.Sync.{MediaTiming}
use handycam_rs.Prelude.{
  ℕ, ◌/◌, ◌^◌, ◌<◌, max, ◌≡◌, refl, true, some, List, [], ◌∷◌, ◌++◌, arith, ◌==◌, ==_iff, Bytes,
  length, saturating_add, Result, ok, ◌>>=◌,
}

abbrev pub TimedEvent : Type 0
TimedEvent = TimedMediaEvent × MediaTiming

unfoldable pub write_event : MatroskaWriter → TimedEvent → Result MatroskaError MatroskaWriter
unfolding write_video write_audio
write_event writer (video event, timing) = write_video writer event timing
write_event writer (audio event, timing) = write_audio writer event timing

-- What the capture loop does with the writer: it writes an event, or flushes.
pub data Step : Type 0 where
  packet : TimedEvent → Step
  save : Step

unfoldable pub write_steps : MatroskaWriter → List Step → Result MatroskaError MatroskaWriter
unfolding write_event flush
write_steps writer [] = ok writer
write_steps writer (packet event ∷ steps) =
    write_event writer event >>= λ writer'. write_steps writer' steps
write_steps writer (save ∷ steps) = flush writer >>= λ writer'. write_steps writer' steps

abbrev pub events_of : List Step → List TimedEvent
events_of [] = []
events_of (packet event ∷ steps) = event ∷ events_of steps
events_of (save ∷ steps) = events_of steps

-- The block that an event becomes: its time in whole milliseconds, its track and its bytes.
abbrev pub event_block : TimedEvent → Block
event_block (video event, timing) = block_of (timing.pts_us / 1_000) video_track event.frame.jpeg
event_block (audio event, timing) = block_of (timing.pts_us / 1_000) audio_track event.chunk.pcm

-- A 64-bit time, content of less than 2^55 bytes, and audio in the writer's format with as many
-- bytes as its sample frames need.
abbrev pub IsWritable : AudioFormat → TimedEvent → Type 0
IsWritable format (video event, timing) =
    (timing.pts_us < 2 ^ 64) × (length event.frame.jpeg < 2 ^ 55)
IsWritable format (audio event, timing) =
    (timing.pts_us < 2 ^ 64)
    × (length event.chunk.pcm < 2 ^ 55)
    × (same_format event.format format ≡ true)
    × (length event.chunk.pcm ≡ pcm_length event)

-- The latest end of the events, or `latest`.
abbrev pub latest_end : ℕ → List TimedEvent → ℕ
latest_end latest [] = latest
latest_end latest (event ∷ events) =
    latest_end (max latest (saturating_add event.1.pts_us event.1.duration_us)) events

-- One packet, in front of whatever follows.
pub record AppendedPacket (from : MatroskaWriter) (bytes : Bytes) (block : Block)
    (timing : MediaTiming) (result : Result MatroskaError MatroskaWriter) : Type 0 where
  pub writer : MatroskaWriter
  pub image : Bytes
  pub succeeds : result ≡ ok writer
  pub at_end : AtEnd writer.output (bytes ++ image)
  pub reads_back : (rest : Bytes) → read_cluster (image ++ rest) ≡ some (block, rest)
  pub latest_known :
      writer.maximum_end_us
      ≡ max from.maximum_end_us (saturating_add timing.pts_us timing.duration_us)
  pub offset_kept : writer.duration_offset ≡ from.duration_offset
  pub format_kept : writer.audio_format ≡ from.audio_format

write_packet-AppendedPacket :
    (writer : MatroskaWriter) (bytes content : Bytes) (track : ℕ) (timing : MediaTiming)
    → timing.pts_us < 2 ^ 64
    → track < 128
    → length content < 2 ^ 55
    → AtEnd writer.output bytes
    → AppendedPacket writer bytes
        (block_of (timing.pts_us / 1_000) track content)
        timing
        (write_packet writer track content timing)
unfolding write_packet
write_packet-AppendedPacket writer bytes content track timing wide named fits at =
    let cluster =
      write_cluster-WritesCluster file_write-IsAppending writer.output bytes content
        (timing.pts_us / 1_000) track (omega arith) named fits at in
    record {
      writer = record writer {
        output = cluster.output;
        maximum_end_us =
            max writer.maximum_end_us (saturating_add timing.pts_us timing.duration_us);
      };
      image = cluster.image;
      succeeds = rw (cluster.succeeds) refl;
      at_end = cluster.at;
      reads_back = cluster.reads_back;
      latest_known = refl;
      offset_kept = refl;
      format_kept = refl;
    }

pub write_event-AppendedPacket :
    (writer : MatroskaWriter) (bytes : Bytes) (event : TimedEvent)
    → IsWritable writer.audio_format event
    → AtEnd writer.output bytes
    → AppendedPacket writer bytes (event_block event) event.1 (write_event writer event)
unfolding write_event write_video write_audio
write_event-AppendedPacket writer bytes (video event, timing) h at =
    write_packet-AppendedPacket writer bytes event.frame.jpeg video_track timing h.0 (omega arith)
      h.1 at
write_event-AppendedPacket writer bytes (audio event, timing) h at =
    let appended =
      write_packet-AppendedPacket writer bytes event.chunk.pcm audio_track timing h.0 (omega arith)
        h.1 at in
    let expected : (length event.chunk.pcm == pcm_length event) ≡ true =
      (==_iff (length event.chunk.pcm) (pcm_length event)).1 h.3 in
    rw (h.2, expected) appended
