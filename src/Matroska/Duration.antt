-- ===== src/Matroska/Duration.antt =====
-- Whole files of crates/handycam-matroska/src/lib.rs: packets behind the header, and the duration that
-- each flush writes over the one in the header.
use mathlib.Core.Path.{subst}
use handycam_rs.Matroska.F64.{f64_thousandths}
use handycam_rs.Matroska.Reader.{Block, HoldsBlocks}
use handycam_rs.Matroska.Reader.Numbers.{drop-append, take-exact, drop-exact}
use handycam_rs.Matroska.Clusters.{AtEnd}
use handycam_rs.Matroska.Session.{
  Step, packet, save, write_steps, events_of, event_block, IsWritable, latest_end,
  write_event-AppendedPacket,
}
use handycam_rs.Matroska.{MatroskaError, File, MatroskaWriter, write_duration, flush, into_inner}
use handycam_rs.Prelude.{
  ℕ, zero, suc, ◌+◌, ◌≤◌, ◌≡◌, refl, sym, ap, ap₂, ◌∙◌, List, [], ◌∷◌, ◌++◌, map, append-nil,
  append_assoc, arith, Bytes, length, take, drop, All, length-append, length-take, length-drop,
  Result, ok, ◌>>=◌,
}

-- The same bytes but for the eight at `offset`.
abbrev pub SameAround : ℕ → Bytes → Bytes → Type 0
SameAround offset header header' =
    (length header' ≡ length header)
    × (take offset header' ≡ take offset header)
    × (drop (offset + 8) header' ≡ drop (offset + 8) header)

abbrev pub patched : ℕ → Bytes → Bytes → Bytes
patched offset duration header = take offset header ++ duration ++ drop (offset + 8) header

pub length-duration : (micros : ℕ) → length (f64_thousandths micros) ≡ 8
unfolding f64_thousandths
length-duration micros = refl

take-append-short : (n : ℕ) (xs ys : Bytes) → n ≤ length xs → take n (xs ++ ys) ≡ take n xs
take-append-short zero xs ys h = refl
take-append-short (suc n) [] ys h = absurd (omega arith)
take-append-short (suc n) (x ∷ xs) ys h = ap (◌∷◌ x) (take-append-short n xs ys (omega arith))

-- A flush at the end of `header ++ tail` writes the duration into the header alone.
pub flush-AtEnd :
    (writer : MatroskaWriter) (header tail : Bytes)
    → writer.duration_offset + 8 ≤ length header
    → AtEnd writer.output (header ++ tail)
    → AtEnd
        (write_duration writer).output
        (patched writer.duration_offset (f64_thousandths writer.maximum_end_us) header ++ tail)
unfolding write_duration
flush-AtEnd writer header tail room at =
    let offset = writer.duration_offset in
    let duration = f64_thousandths writer.maximum_end_us in
    let eight : length duration ≡ 8 = length-duration writer.maximum_end_us in
    let front : take offset writer.output.bytes ≡ take offset header =
      ap (take offset) at.0 ∙ take-append-short offset header tail (omega arith) in
    let behind : drop (offset + 8) writer.output.bytes ≡ drop (offset + 8) header ++ tail =
      ap (drop (offset + 8)) at.0 ∙ drop-append (offset + 8) header tail room in
    let size : length writer.output.bytes ≡ length header + length tail =
      ap length at.0 ∙ length-append header tail in
    let joined : (write_duration writer).output.bytes ≡ patched offset duration header ++ tail =
      rw (front, eight, behind)
        (sym (append_assoc (take offset header ++ duration) (drop (offset + 8) header) tail)) in
    (
      joined,
      omega (
        arith,
        size,
        eight,
        length-append (patched offset duration header) tail,
        length-append (take offset header ++ duration) (drop (offset + 8) header),
        length-append (take offset header) duration,
        length-take offset header,
        length-drop (offset + 8) header,
      ),
    )

pub patched-SameAround :
    (offset : ℕ) (duration header : Bytes)
    → length duration ≡ 8
    → offset + 8 ≤ length header
    → SameAround offset header (patched offset duration header)
patched-SameAround offset duration header eight room =
    let front = take offset header in
    let front_size : length front ≡ offset = omega (arith, length-take offset header) in
    let behind = drop (offset + 8) header in
    let both : length (front ++ duration) ≡ offset + 8 =
      omega (arith, length-append front duration) in
    (
      omega (arith, length-append (front ++ duration) behind, length-drop (offset + 8) header),
      ap (take offset) (append_assoc front duration behind)
          ∙ take-exact offset front (duration ++ behind) front_size,
      drop-exact (offset + 8) (front ++ duration) behind both,
    )

patched_twice :
    (offset : ℕ) (duration header header' : Bytes)
    → SameAround offset header header'
    → patched offset duration header' ≡ patched offset duration header
patched_twice offset duration header header' same = rw (same.1, same.2) refl

-- What a run of steps makes of the file: the header, the same but for its duration, then what
-- was there already, then the blocks of the run.
record Session (from : MatroskaWriter) (header tail : Bytes) (steps : List Step)
    (result : Result MatroskaError MatroskaWriter) : Type 0 where
  writer : MatroskaWriter
  header' : Bytes
  more : Bytes
  succeeds : result ≡ ok writer
  same : SameAround from.duration_offset header header'
  at_end : AtEnd writer.output (header' ++ (tail ++ more))
  holds : HoldsBlocks (map event_block (events_of steps)) more
  latest : writer.maximum_end_us ≡ latest_end from.maximum_end_us (events_of steps)
  offset_kept : writer.duration_offset ≡ from.duration_offset

write_steps-Session :
    (writer : MatroskaWriter) (header tail : Bytes) (steps : List Step)
    → writer.duration_offset + 8 ≤ length header
    → All (IsWritable writer.audio_format) (events_of steps)
    → AtEnd writer.output (header ++ tail)
    → Session writer header tail steps (write_steps writer steps)
unfolding write_steps flush
write_steps-Session writer header tail [] room writable at = record {
  writer = writer;
  header' = header;
  more = [];
  succeeds = refl;
  same = (refl, refl, refl);
  at_end = rw (append-nil tail) at;
  holds = refl;
  latest = refl;
  offset_kept = refl;
}
write_steps-Session writer header tail (packet event ∷ steps) room writable at =
    let first = write_event-AppendedPacket writer (header ++ tail) event writable.0 at in
    let placed : AtEnd first.writer.output (header ++ (tail ++ first.image)) =
      subst (AtEnd first.writer.output) (append_assoc header tail first.image) first.at_end in
    let rest =
      write_steps-Session first.writer header (tail ++ first.image) steps
        (omega (arith, first.offset_kept))
        (subst (λ format. All (IsWritable format) (events_of steps)) (sym first.format_kept)
          writable.1)
        placed in
    record {
      writer = rest.writer;
      header' = rest.header';
      more = first.image ++ rest.more;
      succeeds = rw (first.succeeds) rest.succeeds;
      same =
          subst (λ (offset : ℕ). SameAround offset header rest.header') first.offset_kept rest.same;
      at_end =
          subst (λ (t : Bytes). AtEnd rest.writer.output (rest.header' ++ t))
            (append_assoc tail first.image rest.more) rest.at_end;
      holds = (rest.more, first.reads_back rest.more, rest.holds);
      latest = rest.latest ∙ ap (λ (m : ℕ). latest_end m (events_of steps)) first.latest_known;
      offset_kept = rest.offset_kept ∙ first.offset_kept;
    }
write_steps-Session writer header tail (save ∷ steps) room writable at =
    let saved = write_duration writer in
    let duration = f64_thousandths writer.maximum_end_us in
    let header1 = patched writer.duration_offset duration header in
    let same =
      patched-SameAround writer.duration_offset duration header
        (length-duration writer.maximum_end_us) room in
    let rest =
      write_steps-Session saved header1 tail steps (omega (arith, same.0)) writable
        (flush-AtEnd writer header tail room at) in
    record {
      writer = rest.writer;
      header' = rest.header';
      more = rest.more;
      succeeds = rest.succeeds;
      same = (rest.same.0 ∙ same.0, rest.same.1 ∙ same.1, rest.same.2 ∙ same.2);
      at_end = rest.at_end;
      holds = rest.holds;
      latest = rest.latest;
      offset_kept = rest.offset_kept;
    }

-- A closed file: the header with this duration in its place, then clusters with these blocks.
pub record IsFile (offset latest : ℕ) (header : Bytes) (blocks : List Block)
    (result : Result MatroskaError File) : Type 0 where
  pub file : File
  pub clusters : Bytes
  pub succeeds : result ≡ ok file
  pub contents : file.bytes ≡ patched offset (f64_thousandths latest) header ++ clusters
  pub holds : HoldsBlocks blocks clusters

-- Whatever events are written and however often the writer is flushed between them, every write
-- succeeds and the closed file is the header it started from, with nothing changed but the eight
-- bytes of the duration, which is the latest end of an event, and behind it one cluster for each
-- event, in order, in which a reader of the format finds the event's time, track and bytes (for
-- 64-bit times, content below 2^55 bytes, and audio of the writer's format and length).
pub write_steps-IsFile :
    (writer : MatroskaWriter) (header : Bytes) (steps : List Step)
    → writer.duration_offset + 8 ≤ length header
    → All (IsWritable writer.audio_format) (events_of steps)
    → AtEnd writer.output header
    → IsFile writer.duration_offset
        (latest_end writer.maximum_end_us (events_of steps))
        header
        (map event_block (events_of steps))
        (write_steps writer steps >>= into_inner)
unfolding into_inner flush
write_steps-IsFile writer header steps room writable at =
    let run =
      write_steps-Session writer header [] steps room writable (rw (append-nil header) at) in
    let fits : run.writer.duration_offset + 8 ≤ length run.header' =
      omega (arith, run.offset_kept, run.same.0) in
    let saved = flush-AtEnd run.writer run.header' run.more fits run.at_end in
    record {
      file = (write_duration run.writer).output;
      clusters = run.more;
      succeeds = rw (run.succeeds) refl;
      contents =
          saved.0
          ∙ ap₂ (λ (o l : ℕ). patched o (f64_thousandths l) run.header' ++ run.more) run.offset_kept
              run.latest
          ∙ ap (λ (h : Bytes). h ++ run.more)
              (patched_twice writer.duration_offset
                (f64_thousandths (latest_end writer.maximum_end_us (events_of steps))) header
                run.header' run.same);
      holds = run.holds;
    }
