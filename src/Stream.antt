-- ===== src/Stream.antt =====
-- crates/handycam-core/src/stream.rs: the cross-endpoint frame assembler `StreamDecoder`.
-- A method returns the new decoder and its result.
pub mod Words
pub mod Run
pub mod Timeline
pub mod Clock
pub mod Records
pub mod Bounds
pub mod Sizes
use handycam_rs.Jpeg.{JpegDecoder, FrameConversionError, reconstruct_jpeg}
use handycam_rs.Prelude.{
  ℕ, ◌+◌, ◌*◌, ◌<◌, bit_and, bit_or, Bool, true, false, not, ◌&&◌, Option, none, some, [], ◌∷◌,
  ◌++◌, map, ltb, leb, ◌==◌, if◌then◌else◌, Bytes, length, get_or, take, drop, replicate, bytes_eq,
  wrap64, wrapping_sub16, ◌<<<◌, Result, ok, err,
}
use mathlib.Core.Option

abbrev pub default_max_record_size : ℕ
default_max_record_size = 256 * 1024

pub data Endpoint : Type 0 where
  boundary video : Endpoint

pub record EndpointPacket : Type 0 where
  pub endpoint : Endpoint
  pub payload : Bytes

pub record CompressedFrame : Type 0 where
  pub sequence : ℕ
  pub timestamp_11bit_ms : ℕ
  pub timestamp_unwrapped_ms : ℕ
  pub timestamp_delta_to_next_ms : ℕ
  pub flags : ℕ
  pub jpeg : Bytes

pub record PendingRecord : Type 0 where
  pub timestamp : ℕ
  pub unwrapped_timestamp : ℕ
  pub flags : ℕ
  pub entropy : Bytes

pub data StreamDecodeError (lib : JpegDecoder) : Type 0 where
  record_too_large : ℕ → StreamDecodeError lib
  frame_conversion : FrameConversionError lib → StreamDecodeError lib

pub record StreamDecoder : Type 0 where
  pub boundary_pending : Bool
  pub current : Option PendingRecord
  pub discard_first_record : Bool
  pub next_sequence : ℕ
  pub max_record_size : ℕ

abbrev pub with_max_record_size : ℕ → StreamDecoder
with_max_record_size maximum = record {
  boundary_pending = false;
  current = none;
  discard_first_record = true;
  next_sequence = 0;
  max_record_size = maximum;
}

abbrev pub new : StreamDecoder
new = with_max_record_size default_max_record_size

abbrev pub reset : StreamDecoder → StreamDecoder
reset d = record d {
  boundary_pending = false;
  current = none;
  discard_first_record = true;
  next_sequence = 0;
}

-- `data.len() >= 8 && data[..6] == [0xff; 6]`
unfoldable pub is_header : Bytes → Bool
unfolding bytes_eq
is_header payload = leb 8 (length payload) && bytes_eq (take 6 payload) (replicate 6 0xff)

-- `data.first().is_some_and(|byte| byte & 0x08 != 0)`
unfoldable pub marks_boundary : Bytes → Bool
marks_boundary [] = false
marks_boundary (byte ∷ rest) = not (bit_and byte 0x08 == 0)

-- `(u16::from(data[6] & 0x07) << 8) | u16::from(data[7])`
unfoldable pub header_timestamp : Bytes → ℕ
header_timestamp payload = bit_or (bit_and (get_or payload 6 0) 0x07 <<< 8) (get_or payload 7 0)

unfoldable pub header_flags : Bytes → ℕ
header_flags payload = bit_and (get_or payload 6 0) 0xf8

-- `timestamp.wrapping_sub(record.timestamp) & 0x07ff`
unfoldable pub timestamp_delta : ℕ → ℕ → ℕ
timestamp_delta timestamp earlier = bit_and (wrapping_sub16 timestamp earlier) 0x07ff

-- `next_unwrapped`, from the record that the header ends.
pub next_unwrapped : ℕ → Option PendingRecord → ℕ
next_unwrapped timestamp none = 0
next_unwrapped timestamp (some finished) =
    wrap64 (finished.unwrapped_timestamp + timestamp_delta timestamp finished.timestamp)

-- The record that a header opens.
pub open_record : StreamDecoder → Bytes → PendingRecord
unfolding next_unwrapped
open_record d payload =
    let timestamp = header_timestamp payload in
    record {
      timestamp = timestamp;
      unwrapped_timestamp =
          if d.discard_first_record then 0 else next_unwrapped timestamp d.current;
      flags = header_flags payload;
      entropy = drop 8 payload;
    }

abbrev pub from_zero : PendingRecord → PendingRecord
from_zero r = record r { unwrapped_timestamp = 0 }

module _ (lib : JpegDecoder) where
  abbrev pub PushResult : Type 0
  PushResult = StreamDecoder × Result (StreamDecodeError lib) (Option CompressedFrame)

  -- `reconstruct_jpeg(&record.entropy)?` and the frame built from it.
  pub emit_frame :
      StreamDecoder → PendingRecord → ℕ → Result (FrameConversionError lib) Bytes → PushResult
  emit_frame d finished delta (err e) = (d, err (frame_conversion e))
  emit_frame d finished delta (ok jpeg) = (
    record d { next_sequence = wrap64 (d.next_sequence + 1) },
    ok (
        some (record {
          sequence = d.next_sequence;
          timestamp_11bit_ms = finished.timestamp;
          timestamp_unwrapped_ms = finished.unwrapped_timestamp;
          timestamp_delta_to_next_ms = delta;
          flags = finished.flags;
          jpeg = jpeg;
        })),
  )

  -- `if let Some(record) = finished`, on the decoder whose `current` is already the new record.
  pub finish_record : StreamDecoder → ℕ → Option PendingRecord → PushResult
  unfolding emit_frame
  finish_record d timestamp none = (d, ok none)
  finish_record d timestamp (some finished) =
      if d.discard_first_record
      then (
        record d { discard_first_record = false; current = Option.map from_zero d.current },
        ok none,
      )
      else emit_frame d finished (timestamp_delta timestamp finished.timestamp)
          (reconstruct_jpeg lib finished.entropy)

  pub push_header : StreamDecoder → Bytes → PushResult
  unfolding finish_record open_record
  push_header d payload =
      finish_record (record d { boundary_pending = false; current = some (open_record d payload) })
        (header_timestamp payload) d.current

  -- `if let Some(record) = self.current.as_mut()`
  pub extend_record : StreamDecoder → Option PendingRecord → Bytes → PushResult
  extend_record d none payload = (d, ok none)
  extend_record d (some r) payload =
      if ltb d.max_record_size (length r.entropy + length payload)
      then (
        record d { current = none; boundary_pending = false; discard_first_record = true },
        err (record_too_large d.max_record_size),
      )
      else (record d { current = some (record r { entropy = r.entropy ++ payload }) }, ok none)

  unfoldable pub push_video : StreamDecoder → Bytes → PushResult
  unfolding push_header extend_record
  push_video d payload =
      if is_header payload && d.boundary_pending
      then push_header d payload
      else extend_record d d.current payload

  pub push_boundary : StreamDecoder → Bytes → PushResult
  push_boundary d payload =
      (if marks_boundary payload then record d { boundary_pending = true } else d, ok none)

  pub push_at : Endpoint → StreamDecoder → Bytes → PushResult
  unfolding push_boundary
  push_at boundary d payload = push_boundary d payload
  push_at video d payload = push_video d payload

  unfoldable pub push_packet : StreamDecoder → EndpointPacket → PushResult
  unfolding push_at push_video
  push_packet d packet = push_at packet.endpoint d packet.payload
