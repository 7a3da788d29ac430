-- ===== src/Audio/Clock.antt =====
-- The timeline of crates/handycam-core/src/audio.rs's `AudioClock`.
use handycam_rs.Audio.{
  AudioChunk, start_timestamp_us, AudioClock, AudioPacketError, misaligned_length, too_large,
  push_pcm, audio_sample_frames_for_video_delta,
}
use handycam_rs.Prelude.{
  ℕ, ◌+◌, ◌*◌, ◌/◌, ◌%◌, ◌^◌, ◌≤◌, ◌<◌, ◌≡◌, refl, ap, ◌∙◌, ◌⊎◌, inl, inr, List, [], ◌∷◌, arith,
  ltb, ◌==◌, Bool-cases, Bytes, length, u32_max, wrap64, Result, ok, err,
}

abbrev add_chunk : Result AudioPacketError AudioChunk → List AudioChunk → List AudioChunk
add_chunk (err e) chunks = chunks
add_chunk (ok chunk) chunks = chunk ∷ chunks

-- Packets pushed one after another; a refused packet gives no chunk.
unfoldable pub push_all : AudioClock → List Bytes → AudioClock × List AudioChunk
push_all clock [] = (clock, [])
push_all clock (pcm ∷ rest) =
    let (clock', pushed) = push_pcm clock pcm in
    let (last, chunks) = push_all clock' rest in (last, add_chunk pushed chunks)

-- Chunks that follow one another without gap or overlap, from one frame to another.
abbrev pub Covers : ℕ → ℕ → List AudioChunk → Type 0
Covers from to [] = to ≡ from
Covers from to (c ∷ cs) =
    (c.start_sample_frame ≡ from)
    × (length c.pcm ≡ c.sample_frames * 4)
    × (c.sample_frames ≤ u32_max)
    × Covers (wrap64 (from + c.sample_frames)) to cs

-- A packet is refused, and the clock stays, or it becomes the next chunk.
push_pcm_cases :
    (clock : AudioClock) (pcm : Bytes)
    → ((e : AudioPacketError) × (push_pcm clock pcm ≡ (clock, err e)))
      ⊎ ((c : AudioChunk) × (push_pcm clock pcm ≡ (
        record { next_sample_frame = wrap64 (clock.next_sample_frame + c.sample_frames) },
        ok c,
      ))
          × (c.start_sample_frame ≡ clock.next_sample_frame)
          × (c.pcm ≡ pcm)
          × (length pcm ≡ c.sample_frames * 4)
          × (c.sample_frames ≤ u32_max))
unfolding push_pcm
push_pcm_cases clock pcm = elim (Bool-cases (length pcm % 4 == 0)) [
  | inr e ↦ inl (misaligned_length (length pcm), rw e)
  | inl e ↦ elim (Bool-cases (ltb u32_max (length pcm / 4))) [
    | inl f ↦ inl (too_large (length pcm), rw (e, f))
    | inr f ↦ inr (
      record {
        pcm = pcm;
        start_sample_frame = clock.next_sample_frame;
        sample_frames = length pcm / 4;
      },
      rw (e, f),
      refl,
      refl,
      ground arith,
      ground arith,
    )
  ]
]

-- Whatever packets are pushed, the chunks that come out cover the clock's advance exactly: each
-- starts where the one before it ended, holds four bytes for each of its sample frames, and the
-- clock stands behind the last; refused packets leave no trace.
pub push_all-Covers :
    (packets : List Bytes) (clock : AudioClock)
    → Covers clock.next_sample_frame
        (push_all clock packets).0.next_sample_frame
        (push_all clock packets).1
unfolding push_all
push_all-Covers [] clock = refl
push_all-Covers (pcm ∷ rest) clock = elim (push_pcm_cases clock pcm) [
  | inl (e, refused) ↦ rw (refused, add_chunk) (push_all-Covers rest clock)
  | inr (c, pushed, start, same, len, fits) ↦
      rw (pushed, add_chunk) (start, ap length same ∙ len, fits, push_all-Covers rest _)
]

-- A video interval of d milliseconds is d USB audio frames of 16 sample frames, and a chunk that
-- starts after so many sample frames starts at exactly d * 1000 microseconds.
pub start_timestamp_us-delta :
    (delta_ms : ℕ) (pcm : Bytes) (count : ℕ)
    → delta_ms < 2 ^ 16
    → start_timestamp_us (record {
      pcm = pcm;
      start_sample_frame = audio_sample_frames_for_video_delta delta_ms;
      sample_frames = count;
    })
      ≡ delta_ms * 1_000
unfolding start_timestamp_us audio_sample_frames_for_video_delta
start_timestamp_us-delta delta_ms pcm count h = omega arith
