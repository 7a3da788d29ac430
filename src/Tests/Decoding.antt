-- ===== src/Tests/Decoding.antt =====
-- Runs of the decoder of crates/handycam-core/src/stream.rs.
use handycam_rs.Jpeg.{JpegDecoder, reconstruct_jpeg, jpeg_header}
use handycam_rs.Stream.Run.{decode_packets}
use handycam_rs.Stream.Timeline.{IsWire, Timeline, decode_packets-Timeline}
use handycam_rs.Stream.Clock.{IsPositioned, decode_packets-IsPositioned}
use handycam_rs.Stream.Records.{
  video_packet, boundary_packet, record_packets, running, next_record, frame_of,
  decode_packets-record,
}
use handycam_rs.Stream.Bounds.{
  IsBounded, push_packet-IsBounded, IsOverlong, push_packet-long_header, Answers,
  push_packet-record_too_large,
}
use handycam_rs.Stream.{
  EndpointPacket, CompressedFrame, PendingRecord, record_too_large, StreamDecoder,
  with_max_record_size, is_header, marks_boundary, header_timestamp, header_flags, timestamp_delta,
  push_packet,
}
use handycam_rs.Prelude.{
  ℕ, ◌/◌, ◌%◌, ◌≡◌, refl, ◌↔◌, true, none, List, [], ◌∷◌, ◌++◌, arith, Bytes, ok, err,
}

-- A JPEG decoder that returns a picture of nothing.
abbrev pub stub : JpegDecoder
stub = record {
  Error = Unit {0};
  PixelFormat = Unit {0};
  is_rgb24 = λ _. true;
  decode = λ _. ok [];
  info = λ _. none;
}

abbrev pub mark : Bytes
mark = 0x08 ∷ 0 ∷ 0 ∷ 0 ∷ 0 ∷ []

abbrev pub header : ℕ → Bytes
header timestamp =
    0xff ∷ 0xff ∷ 0xff ∷ 0xff ∷ 0xff ∷ 0xff ∷ timestamp / 256 ∷ timestamp % 256 ∷ 0x11 ∷ 0x22 ∷ []

-- The stamps wrap: 2028, then 20 forty milliseconds later.
abbrev pub capture : List EndpointPacket
capture =
    boundary_packet mark
    ∷ video_packet (header 1988)
    ∷ boundary_packet mark
    ∷ video_packet (header 2028)
    ∷ boundary_packet mark
    ∷ video_packet (header 20)
    ∷ boundary_packet mark
    ∷ video_packet (header 60)
    ∷ []

abbrev pub image : Bytes
unfolding jpeg_header
image = jpeg_header ++ 0x11 ∷ 0x22 ∷ 0xff ∷ 0xd9 ∷ []

abbrev pub first_frame : CompressedFrame
first_frame = record {
  sequence = 0;
  timestamp_11bit_ms = 2028;
  timestamp_unwrapped_ms = 0;
  timestamp_delta_to_next_ms = 40;
  flags = 0;
  jpeg = image;
}

abbrev pub second_frame : CompressedFrame
second_frame = record {
  sequence = 1;
  timestamp_11bit_ms = 20;
  timestamp_unwrapped_ms = 40;
  timestamp_delta_to_next_ms = 40;
  flags = 0;
  jpeg = image;
}

abbrev pub end_state : StreamDecoder
end_state =
    running 1000 2
      (record { timestamp = 60; unwrapped_timestamp = 80; flags = 0; entropy = 0x11 ∷ 0x22 ∷ [] })

pub decode-capture :
    decode_packets stub (with_max_record_size 1000) capture
    ≡ ok (end_state, first_frame ∷ second_frame ∷ [])
unfolding decode_packets push_packet is_header marks_boundary header_timestamp header_flags
    timestamp_delta reconstruct_jpeg jpeg_header
decode-capture = refl

pub capture-IsWire : IsWire capture
capture-IsWire = ground arith

decode_packets-Timeline_example : Timeline 0 0 none (first_frame ∷ second_frame ∷ [])
decode_packets-Timeline_example =
    decode_packets-Timeline stub 1000 capture capture-IsWire decode-capture

-- The instants, of which the header at 1988 opens the record that is discarded.
decode_packets-IsPositioned_example :
    IsPositioned 2028 (first_frame ∷ second_frame ∷ []) (2028 ∷ 2068 ∷ [])
decode_packets-IsPositioned_example =
    decode_packets-IsPositioned stub 1000 capture 2028 (2068 ∷ []) capture-IsWire decode-capture
      (ground arith) (ground arith)

abbrev open_at_2028 : PendingRecord
open_at_2028 = record { timestamp = 2028; unwrapped_timestamp = 0; flags = 0; entropy = 0x11 ∷ [] }

decode_packets-record_example :
    decode_packets stub
      (running 1000 0 open_at_2028)
      (record_packets ((0x22 ∷ []) ∷ [] ∷ []) mark (header 20))
    ≡ ok (
      running 1000 1 (next_record open_at_2028 (header 20)),
      frame_of 0 open_at_2028 (header 20) image ∷ [],
    )
unfolding is_header marks_boundary header_timestamp header_flags timestamp_delta reconstruct_jpeg
    jpeg_header
decode_packets-record_example =
    decode_packets-record stub 1000 0 ((0x22 ∷ []) ∷ [] ∷ []) mark (header 20) image open_at_2028
      refl refl (omega arith) refl

abbrev small : StreamDecoder
small = running 4 7 open_at_2028

push_packet-IsBounded_example :
    IsBounded (push_packet stub small (video_packet (0x22 ∷ 0x33 ∷ 0x44 ∷ []))).0
push_packet-IsBounded_example =
    push_packet-IsBounded stub small (video_packet (0x22 ∷ 0x33 ∷ 0x44 ∷ [])) (ground arith)
      (ground arith)

push_packet-record_too_large_example :
    Answers stub small
      (video_packet (1 ∷ 2 ∷ 3 ∷ 4 ∷ []))
      (push_packet stub small (video_packet (1 ∷ 2 ∷ 3 ∷ 4 ∷ [])))
push_packet-record_too_large_example =
    push_packet-record_too_large stub small (video_packet (1 ∷ 2 ∷ 3 ∷ 4 ∷ []))

-- The fourth byte takes the record past the maximum.
refused_packet :
    push_packet stub small (video_packet (1 ∷ 2 ∷ 3 ∷ 4 ∷ []))
    ≡ (record (with_max_record_size 4) { next_sequence = 7 }, err (record_too_large 4))
unfolding push_packet is_header
refused_packet = refl

abbrev announced : StreamDecoder
announced = record (running 1 7 open_at_2028) { boundary_pending = true }

-- A header that closes an open record.
push_packet-long_header_example :
    IsOverlong stub announced (video_packet (header 1988))
    ↔ (¬ IsBounded (push_packet stub announced (video_packet (header 1988))).0)
push_packet-long_header_example =
    push_packet-long_header stub announced (video_packet (header 1988)) (omega arith)

abbrev unannounced : List EndpointPacket
unannounced = video_packet (header 1988) ∷ boundary_packet [] ∷ video_packet (header 2028) ∷ []

abbrev roomy : StreamDecoder
roomy = running 100 7 open_at_2028

abbrev grown : StreamDecoder
grown = running 100 7 (record open_at_2028 { entropy = 0x11 ∷ header 1988 ++ header 2028 })

-- Both headers went into the open record.
unmarked_run : decode_packets stub roomy unannounced ≡ ok (grown, [])
unfolding decode_packets push_packet is_header marks_boundary header_timestamp header_flags
    timestamp_delta reconstruct_jpeg jpeg_header
unmarked_run = refl

abbrev no_frames : List CompressedFrame
no_frames = []
