-- ===== src/Stream/Sizes.antt =====
-- The size of the images that crates/handycam-core/src/stream.rs's decoder emits.
use handycam_rs.Jpeg.{JpegDecoder, FrameConversionError, reconstruct_jpeg}
use handycam_rs.Jpeg.Size.{reconstruct_jpeg-length}
use handycam_rs.Stream.Bounds.{Holds}
use handycam_rs.Stream.{
  Endpoint, boundary, video, PendingRecord, StreamDecoder, is_header, marks_boundary,
  timestamp_delta, open_record, PushResult, emit_frame, finish_record, push_header, extend_record,
  push_video, push_boundary, push_at,
}
use handycam_rs.Prelude.{
  ℕ, ◌+◌, ◌*◌, ◌≤◌, ◌≡◌, refl, inl, inr, false, ◌&&◌, Option, none, some, arith, ltb, Bool-cases,
  Bytes, length, length-append, length-drop, Result, ok, err,
}

-- Of the decoder: its maximum, and a record within it.
abbrev pub Within : ℕ → StreamDecoder → Type 0
Within maximum d = (d.max_record_size ≡ maximum) × Holds maximum d.current

module _ (lib : JpegDecoder) where
  -- A scan is at most stuffed in every byte.
  abbrev pub IsSized : ℕ → PushResult lib → Type 0
  IsSized maximum (d, ok (some frame)) = Within maximum d × (length frame.jpeg ≤ 625 + 2 * maximum)
  IsSized maximum (d, ok none) = Within maximum d
  IsSized maximum (d, err e) = Within maximum d

  emit_frame-IsSized :
      (maximum : ℕ) (d : StreamDecoder) (finished : PendingRecord) (delta : ℕ)
      (r : Result (FrameConversionError lib) Bytes)
      → Within maximum d
      → ((jpeg : Bytes) → r ≡ ok jpeg → length jpeg ≤ 625 + 2 * maximum)
      → IsSized maximum (emit_frame lib d finished delta r)
  unfolding emit_frame
  emit_frame-IsSized maximum d finished delta (ok jpeg) within small = (within, small jpeg refl)
  emit_frame-IsSized maximum d finished delta (err e) within small = within

  finish_record-IsSized :
      (maximum : ℕ) (d : StreamDecoder) (timestamp : ℕ) (r : PendingRecord)
      (finished : Option PendingRecord)
      → d.current ≡ some r
      → length r.entropy ≤ maximum
      → d.max_record_size ≡ maximum
      → Holds maximum finished
      → IsSized maximum (finish_record lib d timestamp finished)
  unfolding finish_record
  finish_record-IsSized maximum d timestamp r none e fits same held = (same, rw e fits)
  finish_record-IsSized maximum d timestamp r (some f) e fits same held =
      elim (Bool-cases d.discard_first_record) [
        | inl first ↦ rw first (same, rw e fits)
        | inr later ↦ rw later (
            emit_frame-IsSized maximum (record d { discard_first_record = false }) f
              (timestamp_delta timestamp f.timestamp) (reconstruct_jpeg lib f.entropy)
              (same, rw e fits)
              (λ jpeg made. omega (arith, reconstruct_jpeg-length lib f.entropy jpeg made)))
      ]

  extend_record-IsSized :
      (maximum : ℕ) (d : StreamDecoder) (current : Option PendingRecord) (payload : Bytes)
      → d.current ≡ current
      → Within maximum d
      → IsSized maximum (extend_record lib d current payload)
  unfolding extend_record
  extend_record-IsSized maximum d none payload e within = within
  extend_record-IsSized maximum d (some r) payload e within =
      elim (Bool-cases (ltb d.max_record_size (length r.entropy + length payload))) [
        | inl over ↦ rw over (within.0, tt)
        | inr under ↦ rw under (within.0, ground (arith, length-append r.entropy payload))
      ]

  -- Packets of up to the maximum and a header's eight bytes keep the decoder within its maximum, and a
  -- frame that they complete is no larger than the header of the image and twice the maximum.
  pub push_at-IsSized :
      (maximum : ℕ) (endpoint : Endpoint) (d : StreamDecoder) (payload : Bytes)
      → Within maximum d
      → length payload ≤ maximum + 8
      → IsSized maximum (push_at lib endpoint d payload)
  unfolding push_at push_boundary push_video push_header open_record
  push_at-IsSized maximum boundary d payload within short =
      elim (Bool-cases (marks_boundary payload)) [ inl e ↦ rw e within | inr e ↦ rw e within ]
  push_at-IsSized maximum video d payload within short =
      elim (Bool-cases (is_header payload && d.boundary_pending)) [
        | inl e ↦ rw e (
            finish_record-IsSized maximum _ _ (open_record d payload) d.current refl
              (omega (arith, length-drop 8 payload)) within.0 within.1)
        | inr e ↦ rw e (extend_record-IsSized maximum d d.current payload refl within)
      ]
