-- ===== src/Stream/Bounds.antt =====
-- The memory that the decoder of crates/handycam-core/src/stream.rs holds for a record, and the
-- packets that can make it emit a frame.
use mathlib.Core.Path.{subst}
use handycam_rs.Jpeg.{JpegDecoder, FrameConversionError, reconstruct_jpeg}
use handycam_rs.Stream.Run.{RunResult, prepend, then_decode, decode_packets}
use handycam_rs.Stream.{
  Endpoint, boundary, video, EndpointPacket, CompressedFrame, PendingRecord, StreamDecodeError,
  record_too_large, frame_conversion, StreamDecoder, with_max_record_size, is_header,
  marks_boundary, header_timestamp, open_record, PushResult, emit_frame, finish_record, push_header,
  extend_record, push_video, push_boundary, push_at, push_packet,
}
use handycam_rs.Prelude.{
  ℕ, ◌+◌, ◌≤◌, ◌<◌, ◌≡◌, refl, sym, ap, ◌∙◌, ◌↔◌, ◌⊎◌, inl, inr, true, false, ◌&&◌, Option, none,
  some, List, [], ◌∷◌, arith, ltb, ltb→lt, Bool-cases, Bytes, length, length-append, length-drop,
  Result, ok, err, ◌>>=◌,
}

-- The open record holds at most the configured maximum.
abbrev pub Holds : ℕ → Option PendingRecord → Type 0
Holds maximum none = Unit
Holds maximum (some r) = length r.entropy ≤ maximum

abbrev pub IsBounded : StreamDecoder → Type 0
IsBounded d = Holds d.max_record_size d.current

-- No packet of the run announces a header.
abbrev pub IsUnmarked : List EndpointPacket → Type 0
IsUnmarked [] = Unit
IsUnmarked (p ∷ ps) = (p.endpoint ≡ boundary → marks_boundary p.payload ≡ false) × IsUnmarked ps

module _ (lib : JpegDecoder) where
  extend_record-IsBounded :
      (d : StreamDecoder) (current : Option PendingRecord) (payload : Bytes)
      → d.current ≡ current
      → IsBounded (extend_record lib d current payload).0
  unfolding extend_record
  extend_record-IsBounded d none payload e = rw e tt
  extend_record-IsBounded d (some r) payload e = ground (arith, length-append r.entropy payload)

  finish_record-IsBounded :
      (d : StreamDecoder) (timestamp : ℕ) (finished : Option PendingRecord) (r : PendingRecord)
      → d.current ≡ some r
      → length r.entropy ≤ d.max_record_size
      → IsBounded (finish_record lib d timestamp finished).0
  unfolding finish_record emit_frame
  finish_record-IsBounded d timestamp none r e h = rw e h
  finish_record-IsBounded d timestamp (some f) r e h = ground (arith)

  push_video-IsBounded :
      (d : StreamDecoder) (payload : Bytes)
      → length payload ≤ d.max_record_size + 8
      → IsBounded (push_video lib d payload).0
  unfolding push_video push_header open_record
  push_video-IsBounded d payload h = elim (Bool-cases (is_header payload && d.boundary_pending)) [
    | inl e ↦ rw e (
        finish_record-IsBounded _ _ d.current (open_record d payload) refl
          (omega (arith, length-drop 8 payload)))
    | inr e ↦ rw e (extend_record-IsBounded d d.current payload refl)
  ]

  push_at-IsBounded :
      (e : Endpoint) (d : StreamDecoder) (payload : Bytes)
      → IsBounded d
      → length payload ≤ d.max_record_size + 8
      → IsBounded (push_at lib e d payload).0
  unfolding push_at push_boundary
  push_at-IsBounded boundary d payload b h = elim (Bool-cases (marks_boundary payload)) [
    | inl e ↦ rw e b
    | inr e ↦ rw e b
  ]
  push_at-IsBounded video d payload b h = push_video-IsBounded d payload h

  -- No packet of up to eight bytes (a header's own size) more than the maximum makes the decoder
  -- hold a record beyond the maximum.
  pub push_packet-IsBounded :
      (d : StreamDecoder) (p : EndpointPacket)
      → IsBounded d
      → length p.payload ≤ d.max_record_size + 8
      → IsBounded (push_packet lib d p).0
  unfolding push_packet
  push_packet-IsBounded d p b h = push_at-IsBounded p.endpoint d p.payload b h

  finish_record-overfull :
      (d : StreamDecoder) (timestamp : ℕ) (finished : Option PendingRecord) (r : PendingRecord)
      → d.current ≡ some r
      → d.max_record_size < length r.entropy
      → ¬ IsBounded (finish_record lib d timestamp finished).0
  unfolding finish_record emit_frame
  finish_record-overfull d timestamp none r e h =
      λ bounded. absurd (omega (arith, h, subst (Holds d.max_record_size) e bounded))
  finish_record-overfull d timestamp (some f) r e h = ground (arith)

  -- A header that a boundary announced, of more than eight bytes (its own size) over the maximum.
  pub record IsOverlong (d : StreamDecoder) (p : EndpointPacket) : Type 0 where
    pub on_video : p.endpoint ≡ video
    pub headed : is_header p.payload ≡ true
    pub announced : d.boundary_pending ≡ true
    pub long : d.max_record_size + 8 < length p.payload

  long_header-overfull :
      (d : StreamDecoder) (payload : Bytes)
      → is_header payload ≡ true
      → d.boundary_pending ≡ true
      → d.max_record_size + 8 < length payload
      → ¬ IsBounded (push_at lib video d payload).0
  unfolding push_at push_video push_header open_record
  long_header-overfull d payload headed announced long =
      rw (headed, announced)
        (finish_record-overfull _ _ d.current (open_record d payload) refl
          (omega (arith, long, length-drop 8 payload)))

  headed_video :
      (e : Endpoint) (d : StreamDecoder) (payload : Bytes)
      → IsBounded d
      → ¬ IsBounded (push_at lib e d payload).0
      → d.max_record_size + 8 < length payload
      → IsOverlong d (record { endpoint = e; payload = payload })
  unfolding push_at push_video push_boundary
  headed_video boundary d payload b over long =
      absurd (over (elim (Bool-cases (marks_boundary payload)) [ inl e ↦ rw e b | inr e ↦ rw e b ]))
  headed_video video d payload b over long =
      elim (Bool-cases (is_header payload && d.boundary_pending)) [
        | inl e ↦ record {
          on_video = refl;
          headed = ground (arith, e);
          announced = ground (arith, e);
          long = long;
        }
        | inr e ↦ absurd (over (rw e (extend_record-IsBounded d d.current payload refl)))
      ]

  only_long_header :
      (e : Endpoint) (d : StreamDecoder) (payload : Bytes)
      → IsBounded d
      → ¬ IsBounded (push_at lib e d payload).0
      → IsOverlong d (record { endpoint = e; payload = payload })
  unfolding push_at push_video
  only_long_header e d payload b over =
      elim (Bool-cases (ltb (d.max_record_size + 8) (length payload))) [
        | inr short ↦ absurd (over (push_at-IsBounded e d payload b (ground (arith, short))))
        | inl long ↦ headed_video e d payload b over (ltb→lt _ _ long)
      ]

  -- The payload behind a header is not checked: whatever record is open, a packet takes the decoder
  -- from a record within the maximum, or none, to one beyond it exactly where it is a header that a
  -- boundary announced and has more than eight bytes over the maximum.
  pub push_packet-long_header :
      (d : StreamDecoder) (p : EndpointPacket)
      → IsBounded d
      → IsOverlong d p ↔ (¬ IsBounded (push_packet lib d p).0)
  unfolding push_packet
  push_packet-long_header d p b = (
    λ h.
        subst (λ e. ¬ IsBounded (push_at lib e d p.payload).0) (sym h.on_video)
          (long_header-overfull d p.payload h.headed h.announced h.long),
    λ over. only_long_header p.endpoint d p.payload b over,
  )

  -- A packet on the video endpoint, no announced header, that would take the open record past the
  -- maximum.
  pub record IsTooLarge (d : StreamDecoder) (p : EndpointPacket) : Type 0 where
    pub on_video : p.endpoint ≡ video
    pub held : PendingRecord
    pub continues : d.current ≡ some held
    pub unannounced : (is_header p.payload && d.boundary_pending) ≡ false
    pub over : d.max_record_size < length held.entropy + length p.payload

  -- A result that is no error of a record's size.
  abbrev pub IsSized : Result (StreamDecodeError lib) (Option CompressedFrame) → Type 0
  IsSized (ok frame) = Unit
  IsSized (err (record_too_large maximum)) = ⊥
  IsSized (err (frame_conversion error)) = Unit

  -- The two answers to a packet.
  abbrev pub Answers : StreamDecoder → EndpointPacket → PushResult lib → Type 0
  Answers d p pushed =
      (IsTooLarge d p
        × (pushed ≡ (
          record (with_max_record_size d.max_record_size) { next_sequence = d.next_sequence },
          err (record_too_large d.max_record_size),
        )))
      ⊎ ((¬ IsTooLarge d p) × IsSized pushed.1)

  emit_frame-IsSized :
      (d : StreamDecoder) (finished : PendingRecord) (delta : ℕ)
      (jpeg : Result (FrameConversionError lib) Bytes)
      → IsSized (emit_frame lib d finished delta jpeg).1
  unfolding emit_frame
  emit_frame-IsSized d finished delta (ok jpeg) = tt
  emit_frame-IsSized d finished delta (err e) = tt

  finish_record-IsSized :
      (d : StreamDecoder) (timestamp : ℕ) (finished : Option PendingRecord)
      → IsSized (finish_record lib d timestamp finished).1
  unfolding finish_record emit_frame
  finish_record-IsSized d timestamp none = tt
  finish_record-IsSized d timestamp (some finished) = elim (Bool-cases d.discard_first_record) [
    | inl e ↦ rw e tt
    | inr e ↦ rw e (emit_frame-IsSized _ finished _ (reconstruct_jpeg lib finished.entropy))
  ]

  extend_record-Answers :
      (d : StreamDecoder) (current : Option PendingRecord) (payload : Bytes)
      → d.current ≡ current
      → (is_header payload && d.boundary_pending) ≡ false
      → Answers d
          (record { endpoint = video; payload = payload })
          (extend_record lib d current payload)
  unfolding extend_record
  extend_record-Answers d none payload c plain =
      inr ((λ large. absurd (ground (arith, c, large.continues))), tt)
  extend_record-Answers d (some held) payload c plain =
      elim (Bool-cases (ltb d.max_record_size (length held.entropy + length payload))) [
        | inl e ↦ rw e (
            inl (
              record {
                on_video = refl;
                held = held;
                continues = c;
                unannounced = plain;
                over = ltb→lt _ _ e;
              },
              refl,
            ))
        | inr e ↦ rw e (
            inr (
              λ large.
                  let same : held ≡ large.held =
                    ap (λ o. elim o [ none ↦ held | some r ↦ r ]) (sym c ∙ large.continues) in
                  absurd (
                    ground
                      (arith, e, ap (λ (r : PendingRecord). length r.entropy) same, large.over)),
              tt,
            ))
      ]

  push_at-Answers :
      (e : Endpoint) (d : StreamDecoder) (payload : Bytes)
      → Answers d (record { endpoint = e; payload = payload }) (push_at lib e d payload)
  unfolding push_at push_boundary push_video push_header
  push_at-Answers boundary d payload = inr ((λ large. absurd (ground (arith, large.on_video))), tt)
  push_at-Answers video d payload = elim (Bool-cases (is_header payload && d.boundary_pending)) [
    | inl e ↦ rw e (
        inr (
          λ large. absurd cc (e, large.unannounced),
          finish_record-IsSized _ (header_timestamp payload) d.current,
        ))
    | inr e ↦ rw e (extend_record-Answers d d.current payload refl e)
  ]

  -- Every packet is answered in one of two ways. One on the video endpoint that is no announced
  -- header, and would take the open record past the maximum, is refused with that maximum, and all
  -- that is left of the decoder is its frame count: it holds no record and no boundary, and will
  -- discard the first record again, like a new one. To any other packet, whatever state the decoder
  -- is in, there is no error of a record's size.
  pub push_packet-record_too_large :
      (d : StreamDecoder) (p : EndpointPacket) → Answers d p (push_packet lib d p)
  unfolding push_packet
  push_packet-record_too_large d p = push_at-Answers p.endpoint d p.payload

  abbrev Quiet : PushResult lib → Type 0
  Quiet (d, err e) = Unit
  Quiet (d, ok none) = d.boundary_pending ≡ false
  Quiet (d, ok (some f)) = ⊥

  extend_record-Quiet :
      (d : StreamDecoder) (current : Option PendingRecord) (payload : Bytes)
      → d.boundary_pending ≡ false
      → Quiet (extend_record lib d current payload)
  unfolding extend_record
  extend_record-Quiet d none payload b = b
  extend_record-Quiet d (some r) payload b =
      elim (Bool-cases (ltb d.max_record_size (length r.entropy + length payload))) [
        | inl h ↦ rw h tt
        | inr h ↦ rw h b
      ]

  push_at-Quiet :
      (e : Endpoint) (d : StreamDecoder) (payload : Bytes)
      → d.boundary_pending ≡ false
      → (e ≡ boundary → marks_boundary payload ≡ false)
      → Quiet (push_at lib e d payload)
  unfolding push_at push_boundary push_video
  push_at-Quiet boundary d payload b h = rw (h refl) b
  push_at-Quiet video d payload b h = elim (Bool-cases (is_header payload && d.boundary_pending)) [
    | inl e ↦ absurd (ground arith)
    | inr e ↦ rw e (extend_record-Quiet d d.current payload b)
  ]

  abbrev NoFrames : RunResult lib → Type 0
  NoFrames (err e) = Unit
  NoFrames (ok (d, fs)) = fs ≡ []

  resume-NoFrames :
      (rest : RunResult lib) → NoFrames rest → NoFrames (rest >>= λ r. ok (r.0, prepend none r.1))
  resume-NoFrames (err e) h = tt
  resume-NoFrames (ok (d, fs)) h = h

  then_decode-NoFrames :
      (pushed : PushResult lib) (k : StreamDecoder → RunResult lib)
      → Quiet pushed
      → ((d : StreamDecoder) → d.boundary_pending ≡ false → NoFrames (k d))
      → NoFrames (then_decode lib pushed k)
  unfolding then_decode
  then_decode-NoFrames (d, err e) k q ih = tt
  then_decode-NoFrames (d, ok none) k q ih = resume-NoFrames (k d) (ih d q)
  then_decode-NoFrames (d, ok (some f)) k q ih = absurd q

  run-NoFrames :
      (ps : List EndpointPacket) (d : StreamDecoder)
      → d.boundary_pending ≡ false
      → IsUnmarked ps
      → NoFrames (decode_packets lib d ps)
  unfolding decode_packets push_packet
  run-NoFrames [] d b u = refl
  run-NoFrames (p ∷ ps) d b u =
      then_decode-NoFrames (push_at lib p.endpoint d p.payload) (λ d'. decode_packets lib d' ps)
        (push_at-Quiet p.endpoint d p.payload b u.0) (λ d' b'. run-NoFrames ps d' b' u.1)

  -- Without a marked boundary packet no frame comes out, whatever is sent on the video endpoint,
  -- packets that look like headers included, and whatever record was open before.
  pub decode_packets_unmarked :
      (ps : List EndpointPacket) (d : StreamDecoder) {d' : StreamDecoder}
      {fs : List CompressedFrame}
      → d.boundary_pending ≡ false
      → IsUnmarked ps
      → decode_packets lib d ps ≡ ok (d', fs)
      → fs ≡ []
  decode_packets_unmarked ps d b u h = rw h at (run-NoFrames ps d b u)
