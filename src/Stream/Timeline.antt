-- ===== src/Stream/Timeline.antt =====
-- The timeline of the frames that crates/handycam-core/src/stream.rs's decoder emits.
use mathlib.Core.Path.{subst}
use handycam_rs.Jpeg.{JpegDecoder, FrameConversionError, reconstruct_jpeg}
use handycam_rs.Stream.Words.{header_timestamp-lt, timestamp_delta_lem}
use handycam_rs.Stream.Run.{RunResult, prepend, then_decode, decode_packets}
use handycam_rs.Stream.{
  Endpoint, boundary, video, EndpointPacket, CompressedFrame, PendingRecord, StreamDecoder,
  with_max_record_size, is_header, marks_boundary, header_timestamp, timestamp_delta, open_record,
  from_zero, PushResult, emit_frame, finish_record, push_header, extend_record, push_video,
  push_boundary, push_at, push_packet,
}
use handycam_rs.Prelude.{
  ℕ, ◌+◌, ◌%◌, ◌<◌, ◌≡◌, refl, sym, ap, inl, inr, Bool, true, false, ◌&&◌, Option, none, some, List,
  [], ◌∷◌, arith, ltb, if◌then◌else◌, Bool-cases, Bytes, length, All, IsByte, wrap64, Result, ok,
  err, ◌>>=◌,
}

-- Bytes on every packet.
abbrev pub IsWire : List EndpointPacket → Type 0
IsWire [] = Unit
IsWire (p ∷ ps) = All IsByte p.payload × IsWire ps

abbrev pub At : Option ℕ → ℕ → Type 0
At none timestamp = Unit
At (some expected) timestamp = timestamp ≡ expected

-- The frame that is due: its number, its unwrapped time, and its 11-bit time where known.
pub record IsDue (sequence unwrapped : ℕ) (timestamp : Option ℕ) (f : CompressedFrame)
    : Type 0 where
  pub numbered : f.sequence ≡ sequence
  pub positioned : f.timestamp_unwrapped_ms ≡ unwrapped
  pub stamped : At timestamp f.timestamp_11bit_ms
  pub delta_small : f.timestamp_delta_to_next_ms < 2048

-- Numbers count up, and each frame starts where the one before it ends.
abbrev pub Timeline : ℕ → ℕ → Option ℕ → List CompressedFrame → Type 0
Timeline sequence unwrapped timestamp [] = Unit
Timeline sequence unwrapped timestamp (f ∷ fs) =
    IsDue sequence unwrapped timestamp f
    × Timeline (wrap64 (sequence + 1)) (wrap64 (unwrapped + f.timestamp_delta_to_next_ms))
        (some ((f.timestamp_11bit_ms + f.timestamp_delta_to_next_ms) % 2048)) fs

abbrev pub Pending : ℕ → Option ℕ → Option PendingRecord → Type 0
Pending unwrapped timestamp none = ⊥
Pending unwrapped timestamp (some r) =
    (r.unwrapped_timestamp ≡ unwrapped) × At timestamp r.timestamp × (r.timestamp < 2048)

-- What the decoder holds of the frame that is due.
pub record Expects (d : StreamDecoder) (sequence unwrapped : ℕ) (timestamp : Option ℕ)
    : Type 0 where
  pub counts : d.next_sequence ≡ sequence
  pub starts : d.discard_first_record ≡ true → (unwrapped ≡ 0) × (timestamp ≡ none)
  pub runs : d.discard_first_record ≡ false → Pending unwrapped timestamp d.current

module _ (lib : JpegDecoder) where
  -- After a packet: the same frame is due, or it was emitted and the next one is due.
  abbrev pub Kept : ℕ → ℕ → Option ℕ → PushResult lib → Type 0
  Kept sequence unwrapped timestamp (d, err e) = Unit
  Kept sequence unwrapped timestamp (d, ok none) = Expects d sequence unwrapped timestamp
  Kept sequence unwrapped timestamp (d, ok (some f)) =
      IsDue sequence unwrapped timestamp f
      × Expects d (wrap64 (sequence + 1)) (wrap64 (unwrapped + f.timestamp_delta_to_next_ms))
          (some ((f.timestamp_11bit_ms + f.timestamp_delta_to_next_ms) % 2048))

  module _ (d : StreamDecoder) {sequence unwrapped : ℕ} {timestamp : Option ℕ}
      (due : Expects d sequence unwrapped timestamp) where
    open due use {counts, starts, runs}

    extend_record-Kept :
        (current : Option PendingRecord) (payload : Bytes)
        → d.current ≡ current
        → Kept sequence unwrapped timestamp (extend_record lib d current payload)
    unfolding extend_record
    extend_record-Kept none payload e = due
    extend_record-Kept (some r) payload e =
        elim (Bool-cases (ltb d.max_record_size (length r.entropy + length payload))) [
          | inl h ↦ rw h tt
          | inr h ↦ rw h (record { counts = counts; starts = starts; runs = λ k. rw e at (runs k) })
        ]

    module _ (payload : Bytes) (wire : All IsByte payload) where
      abbrev opened : StreamDecoder
      opened = record d { boundary_pending = false; current = some (open_record d payload) }

      delta_closes :
          (r : PendingRecord)
          → r.timestamp < 2048
          → header_timestamp payload
            ≡ (r.timestamp + timestamp_delta (header_timestamp payload) r.timestamp) % 2048
      delta_closes r small =
          let now = header_timestamp-lt payload wire in
          omega (arith, timestamp_delta_lem (header_timestamp payload) r.timestamp now small)

      emit_frame-Kept :
          (r : PendingRecord) (image : Result (FrameConversionError lib) Bytes)
          → d.discard_first_record ≡ false
          → Pending unwrapped timestamp (some r)
          → d.current ≡ some r
          → Kept sequence unwrapped timestamp (
              emit_frame lib opened r
                (timestamp_delta (header_timestamp payload) r.timestamp)
                image)
      unfolding emit_frame open_record
      emit_frame-Kept r (err e) k p c = tt
      emit_frame-Kept r (ok jpeg) k (at, stamp, small) c =
          let now = header_timestamp-lt payload wire in
          (
            record {
              numbered = counts;
              positioned = at;
              stamped = stamp;
              delta_small =
                  omega
                    (arith, timestamp_delta_lem (header_timestamp payload) r.timestamp now small);
            },
            record {
              counts = ap (λ (n : ℕ). wrap64 (n + 1)) counts;
              starts = λ h. cc;
              runs = λ h. rw (k, c) (rw at refl, delta_closes r small, now);
            },
          )

      restarted : PushResult lib
      restarted = (
        record opened {
          discard_first_record = false;
          current = some (from_zero (open_record d payload));
        },
        ok none,
      )

      restarted-Kept : d.discard_first_record ≡ true → Kept sequence unwrapped timestamp restarted
      unfolding restarted open_record
      restarted-Kept k = record {
        counts = counts;
        starts = λ h. cc;
        runs = λ h. rw ((starts k).0, (starts k).1) (refl, tt, header_timestamp-lt payload wire);
      }

      finish_record-Kept :
          (current : Option PendingRecord) (discard : Bool)
          → d.current ≡ current
          → d.discard_first_record ≡ discard
          → Kept sequence unwrapped timestamp
              (finish_record lib opened (header_timestamp payload) current)
      unfolding finish_record restarted
      finish_record-Kept none discard c k = record {
        counts = counts;
        starts = starts;
        runs = λ h. absurd (rw c at (runs h));
      }
      finish_record-Kept (some r) true c k =
          let image = reconstruct_jpeg lib r.entropy in
          let delta = timestamp_delta (header_timestamp payload) r.timestamp in
          subst
            (λ b.
              Kept sequence unwrapped timestamp
                (if b then restarted else emit_frame lib opened r delta image))
            (sym k) (restarted-Kept k)
      finish_record-Kept (some r) false c k =
          let image = reconstruct_jpeg lib r.entropy in
          let delta = timestamp_delta (header_timestamp payload) r.timestamp in
          subst
            (λ b.
              Kept sequence unwrapped timestamp
                (if b then restarted else emit_frame lib opened r delta image))
            (sym k) (emit_frame-Kept r image k (rw c at (runs k)) c)

      push_video-Kept : Kept sequence unwrapped timestamp (push_video lib d payload)
      unfolding push_video push_header
      push_video-Kept = elim (Bool-cases (is_header payload && d.boundary_pending)) [
        | inl h ↦ rw h (finish_record-Kept d.current d.discard_first_record refl refl)
        | inr h ↦ rw h (extend_record-Kept d.current payload refl)
      ]

      pub push_at-Kept :
          (e : Endpoint) → Kept sequence unwrapped timestamp (push_at lib e d payload)
      unfolding push_at push_boundary
      push_at-Kept boundary = elim (Bool-cases (marks_boundary payload)) [
        | inl h ↦ rw h (record { counts = counts; starts = starts; runs = runs })
        | inr h ↦ rw h due
      ]
      push_at-Kept video = push_video-Kept

  -- A run up to its first error.
  abbrev Decoded : ℕ → ℕ → Option ℕ → RunResult lib → Type 0
  Decoded sequence unwrapped timestamp (err e) = Unit
  Decoded sequence unwrapped timestamp (ok (d, fs)) = Timeline sequence unwrapped timestamp fs

  resume :
      (n t : ℕ) (s : Option ℕ) (rest : RunResult lib)
      → Decoded n t s rest
      → Decoded n t s (rest >>= λ r. ok (r.0, prepend none r.1))
  resume n t s (err e) h = tt
  resume n t s (ok (d, fs)) h = h

  resume_after :
      (f : CompressedFrame) (n t : ℕ) (s : Option ℕ) (rest : RunResult lib)
      → IsDue n t s f
      → Decoded
          (wrap64 (n + 1))
          (wrap64 (t + f.timestamp_delta_to_next_ms))
          (some ((f.timestamp_11bit_ms + f.timestamp_delta_to_next_ms) % 2048))
          rest
      → Decoded n t s (rest >>= λ r. ok (r.0, prepend (some f) r.1))
  resume_after f n t s (err e) due h = tt
  resume_after f n t s (ok (d, fs)) due h = (due, h)

  then_decode-Decoded :
      (pushed : PushResult lib) (k : StreamDecoder → RunResult lib) (n t : ℕ) (s : Option ℕ)
      → Kept n t s pushed
      → ((d : StreamDecoder) (n' t' : ℕ) (s' : Option ℕ)
          → Expects d n' t' s'
          → Decoded n' t' s' (k d))
      → Decoded n t s (then_decode lib pushed k)
  unfolding then_decode
  then_decode-Decoded (d, err e) k n t s kept ih = tt
  then_decode-Decoded (d, ok none) k n t s kept ih = resume n t s (k d) (ih d n t s kept)
  then_decode-Decoded (d, ok (some f)) k n t s kept ih =
      resume_after f n t s (k d) kept.0 (ih d _ _ _ kept.1)

  decode_packets-Decoded :
      (ps : List EndpointPacket) (d : StreamDecoder) (sequence unwrapped : ℕ) (timestamp : Option ℕ)
      → IsWire ps
      → Expects d sequence unwrapped timestamp
      → Decoded sequence unwrapped timestamp (decode_packets lib d ps)
  unfolding decode_packets push_packet
  decode_packets-Decoded [] d n t s w due = tt
  decode_packets-Decoded (p ∷ ps) d n t s w due =
      then_decode-Decoded (push_at lib p.endpoint d p.payload) (λ d'. decode_packets lib d' ps) n t
        s (push_at-Kept d due p.payload w.0 p.endpoint)
        (λ d' n' t' s' due'. decode_packets-Decoded ps d' n' t' s' w.1 due')

  fresh_Expects : (maximum : ℕ) → Expects (with_max_record_size maximum) 0 0 none
  fresh_Expects maximum = record { counts = refl; starts = λ h. (refl, refl); runs = λ h. cc }

  -- From a new (or reset) decoder, whatever packets arrive, the frames emitted up to the first
  -- error are numbered 0, 1, 2 and so on; the first lies at unwrapped time 0, and each next one
  -- where the frame before it ends, in unwrapped time and on the camera's 11-bit clock.
  pub decode_packets-Timeline :
      (maximum : ℕ) (ps : List EndpointPacket) {d : StreamDecoder} {fs : List CompressedFrame}
      → IsWire ps
      → decode_packets lib (with_max_record_size maximum) ps ≡ ok (d, fs)
      → Timeline 0 0 none fs
  decode_packets-Timeline maximum ps w h =
      rw h at (decode_packets-Decoded ps _ 0 0 none w (fresh_Expects maximum))
