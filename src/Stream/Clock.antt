-- ===== src/Stream/Clock.antt =====
-- The unwrapped times of crates/handycam-core/src/stream.rs against the camera's clock, of which a
-- header carries only the low eleven bits.
use handycam_rs.Jpeg.{JpegDecoder}
use handycam_rs.Stream.Run.{decode_packets}
use handycam_rs.Stream.Timeline.{IsWire, Timeline, decode_packets-Timeline}
use handycam_rs.Stream.{EndpointPacket, CompressedFrame, StreamDecoder, with_max_record_size}
use handycam_rs.Prelude.{
  ℕ, ◌+◌, ◌-◌, ◌%◌, ◌^◌, ◌≤◌, ◌<◌, ◌≡◌, sym, ◌∙◌, Option, none, List, [], ◌∷◌, arith, wrap64, ok,
}

-- The frames' 11-bit stamps are those of the given instants of the camera's clock.
abbrev pub IsStamped : List CompressedFrame → List ℕ → Type 0
IsStamped [] [] = Unit
IsStamped (f ∷ fs) (t ∷ ts) = (f.timestamp_11bit_ms ≡ t % 2048) × IsStamped fs ts
IsStamped _ _ = ⊥

-- Instants in order, each less than 2048 ms behind the one before, and all of them less than
-- 2^64 ms behind `origin`.
abbrev pub IsPaced : ℕ → ℕ → List ℕ → Type 0
IsPaced origin before [] = Unit
IsPaced origin before (t ∷ ts) =
    (before ≤ t) × (t < before + 2048) × (t < origin + 2 ^ 64) × IsPaced origin t ts

-- Every frame's unwrapped time is the time since `origin`.
abbrev pub IsPositioned : ℕ → List CompressedFrame → List ℕ → Type 0
IsPositioned origin (f ∷ fs) (t ∷ ts) =
    (f.timestamp_unwrapped_ms ≡ t - origin) × IsPositioned origin fs ts
IsPositioned origin _ _ = Unit

-- The delta of a frame whose successor carries the stamp of a later instant.
delta_elapsed :
    (before now stamp delta : ℕ)
    → stamp ≡ before % 2048
    → delta < 2048
    → before ≤ now
    → now < before + 2048
    → now % 2048 ≡ (stamp + delta) % 2048
    → delta ≡ now - before
delta_elapsed before now stamp delta s d h k e = omega arith

Timeline-IsPositioned :
    (origin before sequence unwrapped : ℕ) (stamp : Option ℕ) (fs : List CompressedFrame)
    (ts : List ℕ)
    → Timeline sequence unwrapped stamp fs
    → IsStamped fs (before ∷ ts)
    → unwrapped ≡ before - origin
    → origin ≤ before
    → IsPaced origin before ts
    → IsPositioned origin fs (before ∷ ts)
Timeline-IsPositioned origin before n u s [] ts line stamped at h paced = tt
Timeline-IsPositioned origin before n u s (f ∷ []) [] (due, line) stamped at h paced =
    (due.positioned ∙ at, tt)
Timeline-IsPositioned origin before n u s (f ∷ []) (t ∷ ts) (due, line) stamped at h paced =
    absurd stamped.1
Timeline-IsPositioned origin before n u s (f ∷ g ∷ fs) [] (due, line) stamped at h paced =
    absurd stamped.1
Timeline-IsPositioned origin before n u s (f ∷ g ∷ fs) (t ∷ ts) (due, line) stamped at h paced =
    let delta = f.timestamp_delta_to_next_ms in
    let elapsed : delta ≡ t - before =
      delta_elapsed before t f.timestamp_11bit_ms delta stamped.0 due.delta_small paced.0 paced.1
        (sym stamped.1.0 ∙ line.0.stamped) in
    (
      due.positioned ∙ at,
      Timeline-IsPositioned origin t _ (wrap64 (u + delta)) _ (g ∷ fs) ts line stamped.1
          (omega arith) (omega arith) paced.3,
    )

module _ (lib : JpegDecoder) where
  -- Unwrapping recovers the camera's clock. Where the emitted frames carry the 11-bit stamps of
  -- instants that follow one another by less than 2048 ms, over less than 2^64 ms in all, the
  -- unwrapped time of each frame is exactly its time since the first frame.
  pub decode_packets-IsPositioned :
      (maximum : ℕ) (ps : List EndpointPacket) (origin : ℕ) (ts : List ℕ) {d : StreamDecoder}
      {fs : List CompressedFrame}
      → IsWire ps
      → decode_packets lib (with_max_record_size maximum) ps ≡ ok (d, fs)
      → IsStamped fs (origin ∷ ts)
      → IsPaced origin origin ts
      → IsPositioned origin fs (origin ∷ ts)
  decode_packets-IsPositioned maximum ps origin ts {fs} w h stamped paced =
      Timeline-IsPositioned origin origin 0 0 none fs ts
        (decode_packets-Timeline lib maximum ps w h) stamped (omega arith) (omega arith) paced
