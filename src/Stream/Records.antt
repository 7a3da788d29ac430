-- ===== src/Stream/Records.antt =====
-- How crates/handycam-core/src/stream.rs's decoder puts a record together from its packets, and
-- that the unwrapped times follow the camera's clock.
use handycam_rs.Jpeg.{JpegDecoder, reconstruct_jpeg}
use handycam_rs.Stream.Run.{then_decode, decode_packets}
use handycam_rs.Stream.{
  boundary, video, EndpointPacket, CompressedFrame, PendingRecord, StreamDecoder, is_header,
  marks_boundary, header_timestamp, header_flags, timestamp_delta, extend_record, push_video,
  push_packet,
}
use handycam_rs.Prelude.{
  ℕ, ◌+◌, ◌≤◌, ◌≡◌, inl, inr, true, false, none, some, List, [], ◌∷◌, ◌++◌, append-nil,
  append_assoc, arith, le→ltb_false, Bool-cases, Bytes, length, drop, length-append, wrap64, ok,
}

abbrev pub concat : List Bytes → Bytes
concat [] = []
concat (c ∷ cs) = c ++ concat cs

abbrev pub video_packet : Bytes → EndpointPacket
video_packet payload = record { endpoint = video; payload = payload }

abbrev pub boundary_packet : Bytes → EndpointPacket
boundary_packet payload = record { endpoint = boundary; payload = payload }

-- Continuation packets, then the boundary that announces the next header, then that header.
abbrev pub record_packets : List Bytes → Bytes → Bytes → List EndpointPacket
record_packets [] mark header = boundary_packet mark ∷ video_packet header ∷ []
record_packets (c ∷ cs) mark header = video_packet c ∷ record_packets cs mark header

-- A decoder in the middle of record `r`, its first record already discarded.
abbrev pub running : ℕ → ℕ → PendingRecord → StreamDecoder
running maximum sequence r = record {
  boundary_pending = false;
  current = some r;
  discard_first_record = false;
  next_sequence = sequence;
  max_record_size = maximum;
}

-- The record that the next header opens.
abbrev pub next_record : PendingRecord → Bytes → PendingRecord
next_record r header = record {
  timestamp = header_timestamp header;
  unwrapped_timestamp =
      wrap64 (r.unwrapped_timestamp + timestamp_delta (header_timestamp header) r.timestamp);
  flags = header_flags header;
  entropy = drop 8 header;
}

-- The frame made of record `r`, ended by the next header.
abbrev pub frame_of : ℕ → PendingRecord → Bytes → Bytes → CompressedFrame
frame_of sequence r header jpeg = record {
  sequence = sequence;
  timestamp_11bit_ms = r.timestamp;
  timestamp_unwrapped_ms = r.unwrapped_timestamp;
  timestamp_delta_to_next_ms = timestamp_delta (header_timestamp header) r.timestamp;
  flags = r.flags;
  jpeg = jpeg;
}

module _ (lib : JpegDecoder) (maximum sequence : ℕ) where
  push_video_continuation :
      (r : PendingRecord) (c : Bytes)
      → length r.entropy + length c ≤ maximum
      → push_video lib (running maximum sequence r) c
        ≡ (running maximum sequence (record r { entropy = r.entropy ++ c }), ok none)
  unfolding push_video extend_record
  push_video_continuation r c h = elim (Bool-cases (is_header c)) [
    | inl e ↦ rw (e, le→ltb_false _ _ h)
    | inr e ↦ rw (e, le→ltb_false _ _ h)
  ]

  push_video_next :
      (r : PendingRecord) (header jpeg : Bytes)
      → is_header header ≡ true
      → reconstruct_jpeg lib r.entropy ≡ ok jpeg
      → push_video lib (record (running maximum sequence r) { boundary_pending = true }) header ≡ (
        running maximum (wrap64 (sequence + 1)) (next_record r header),
        ok (some (frame_of sequence r header jpeg)),
      )
  unfolding push_video
  push_video_next r header jpeg e image = rw (e, image)

  -- A record that is sent as any number of continuation packets of any sizes, packets that look
  -- like headers included, followed by a marked boundary packet and the next header, becomes
  -- exactly one frame: the JPEG of all its payload bytes in order, with the record's own flags and
  -- time, and the decoder goes on with the next record.
  pub decode_packets-record :
      (cs : List Bytes) (mark header jpeg : Bytes) (r : PendingRecord)
      → marks_boundary mark ≡ true
      → is_header header ≡ true
      → length (r.entropy ++ concat cs) ≤ maximum
      → reconstruct_jpeg lib (r.entropy ++ concat cs) ≡ ok jpeg
      → decode_packets lib (running maximum sequence r) (record_packets cs mark header)
        ≡ ok (
          running maximum (wrap64 (sequence + 1)) (next_record r header),
          frame_of sequence r header jpeg ∷ [],
        )
  unfolding decode_packets push_packet then_decode
  decode_packets-record [] mark header jpeg r m e size image =
      rw m (rw (push_video_next r header jpeg e (rw append-nil at image)))
  decode_packets-record (x ∷ cs) mark header jpeg r m e size image =
      let fits : length r.entropy + length x ≤ maximum =
        omega
          (arith, length-append r.entropy (x ++ concat cs), length-append x (concat cs), size) in
      let assoc = append_assoc r.entropy x (concat cs) in
      rw (push_video_continuation r x fits) (
        rw (
          decode_packets-record cs mark header jpeg (record r { entropy = r.entropy ++ x }) m e
            (rw assoc size) (rw assoc image)))
