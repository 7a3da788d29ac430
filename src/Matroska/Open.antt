-- ===== src/Matroska/Open.antt =====
-- A file that the writer of crates/handycam-matroska/src/lib.rs goes on with, one step at a time.
use handycam_rs.Matroska.F64.{f64_thousandths}
use handycam_rs.Matroska.Clusters.{AtEnd}
use handycam_rs.Matroska.Session.{TimedEvent, write_event, IsWritable, write_event-AppendedPacket}
use handycam_rs.Matroska.Duration.{patched, length-duration, flush-AtEnd, patched-SameAround}
use handycam_rs.Matroska.{MatroskaError, MatroskaWriter, write_duration}
use handycam_rs.Prelude.{◌+◌, ◌≤◌, ◌≡◌, ◌++◌, append_assoc, arith, Bytes, length, Result, ok}

-- A header with room for the duration, and what was appended to it.
pub record IsOpen (writer : MatroskaWriter) : Type 0 where
  pub header : Bytes
  pub tail : Bytes
  pub room : writer.duration_offset + 8 ≤ length header
  pub at_end : AtEnd writer.output (header ++ tail)

-- A write that succeeds, with a writer that can go on.
pub record GoesOn (from : MatroskaWriter) (result : Result MatroskaError MatroskaWriter)
    : Type 0 where
  pub writer : MatroskaWriter
  pub succeeds : result ≡ ok writer
  pub is_open : IsOpen writer
  pub format_kept : writer.audio_format ≡ from.audio_format

pub write_event-GoesOn :
    (writer : MatroskaWriter) (event : TimedEvent)
    → IsWritable writer.audio_format event
    → IsOpen writer
    → GoesOn writer (write_event writer event)
write_event-GoesOn writer event writable o =
    let appended = write_event-AppendedPacket writer (o.header ++ o.tail) event writable o.at_end in
    record {
      writer = appended.writer;
      succeeds = appended.succeeds;
      is_open = record {
        header = o.header;
        tail = o.tail ++ appended.image;
        room = omega (arith, appended.offset_kept, o.room);
        at_end = rw (append_assoc o.header o.tail appended.image) at appended.at_end;
      };
      format_kept = appended.format_kept;
    }

pub write_duration-IsOpen :
    (writer : MatroskaWriter) → IsOpen writer → IsOpen (write_duration writer)
unfolding write_duration
write_duration-IsOpen writer o =
    let duration = f64_thousandths writer.maximum_end_us in
    let same =
      patched-SameAround writer.duration_offset duration o.header
        (length-duration writer.maximum_end_us) o.room in
    record {
      header = patched writer.duration_offset duration o.header;
      tail = o.tail;
      room = omega (arith, same.0, o.room);
      at_end = flush-AtEnd writer o.header o.tail o.room o.at_end;
    }
