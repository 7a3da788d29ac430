-- ===== src/Matroska/Clusters.antt =====
-- The clusters that crates/handycam-matroska/src/lib.rs appends, read back as blocks.
use handycam_rs.Prelude.Bits.{bit_or_disjoint}
use handycam_rs.Matroska.Ebml.{IoError, Write, element, uint_element}
use handycam_rs.Matroska.Reader.{
  be_value, read_element, Block, read_block, read_block_element, read_cluster_payload, read_cluster,
}
use handycam_rs.Matroska.Reader.Writing.{
  IsAppending, vec_write-IsAppending, element-Writes, uint_bytes, uint_bytes-value,
  length-uint_bytes,
}
use handycam_rs.Matroska.{File, write_at, file_write, write_cluster}
use handycam_rs.Prelude.{
  ℕ, zero, suc, ◌+◌, ◌-◌, ◌^◌, ◌≤◌, ◌<◌, bit_or, ◌≡◌, refl, sym, ap, ◌∙◌, some, [], ◌∷◌, ◌++◌,
  append-nil, arith, Bytes, length, take, drop, length-append, Result, ok,
}

-- The file ends where its position is, and holds these bytes.
abbrev pub AtEnd : File → Bytes → Type 0
AtEnd file bytes = (file.bytes ≡ bytes) × (file.position ≡ length bytes)

take-all : (n : ℕ) (bytes : Bytes) → length bytes ≤ n → take n bytes ≡ bytes
take-all zero [] h = refl
take-all zero (b ∷ bytes) h = absurd (omega arith)
take-all (suc n) [] h = refl
take-all (suc n) (b ∷ bytes) h = ap (◌∷◌ b) (take-all n bytes (omega arith))

drop-all : (n : ℕ) (bytes : Bytes) → length bytes ≤ n → drop n bytes ≡ []
drop-all zero [] h = refl
drop-all zero (b ∷ bytes) h = absurd (omega arith)
drop-all (suc n) [] h = refl
drop-all (suc n) (b ∷ bytes) h = drop-all n bytes (omega arith)

file_write-appends :
    (file : File) (bytes more : Bytes)
    → AtEnd file bytes
    → AtEnd (write_at file more) (bytes ++ more)
file_write-appends file bytes more at =
    let held = at.0 in
    let position = at.1 in
    let size : length file.bytes ≡ length bytes = ap length held in
    let front : take file.position file.bytes ≡ bytes =
      take-all file.position file.bytes (omega arith) ∙ held in
    let behind : drop (file.position + length more) file.bytes ≡ [] =
      drop-all (file.position + length more) file.bytes (omega arith) in
    (rw (front, behind, append-nil (bytes ++ more)) refl, omega (arith, length-append bytes more))

pub file_write-IsAppending : IsAppending file_write AtEnd
file_write-IsAppending = record {
  appends = λ file bytes more at. (write_at file more, refl, file_write-appends file bytes more at);
}

-- A cluster written at the end of an output.
pub record WritesCluster {W : Type 0} (At : W → Bytes → Type 0) (bytes : Bytes) (block : Block)
    (result : Result IoError W) : Type 0 where
  pub output : W
  pub image : Bytes
  pub succeeds : result ≡ ok output
  pub at : At output (bytes ++ image)
  pub reads_back : (rest : Bytes) → read_cluster (image ++ rest) ≡ some (block, rest)

-- The block element's payload.
abbrev block_bytes : ℕ → Bytes → Bytes
block_bytes track content = bit_or 0x80 track ∷ 0 ∷ 0 ∷ 0x80 ∷ content

abbrev pub block_of : ℕ → ℕ → Bytes → Block
block_of pts_ms track content = record { pts_ms = pts_ms; track = track; content = content }

read_block-block_bytes :
    (pts_ms track : ℕ) (content : Bytes)
    → track < 128
    → read_block pts_ms (block_bytes track content) ≡ some (block_of pts_ms track content)
unfolding read_block
read_block-block_bytes pts_ms track content h =
    let number : bit_or 0x80 track - 128 ≡ track = omega (arith, bit_or_disjoint 7 1 track h) in
    rw number refl

read_cluster_payload-found :
    (pts_ms : ℕ) (payload time rest block : Bytes)
    → read_element 0xe7 payload ≡ some (time, rest)
    → be_value 0 time ≡ pts_ms
    → read_element 0xa3 rest ≡ some (block, [])
    → read_cluster_payload payload ≡ read_block pts_ms block
unfolding read_cluster_payload read_block_element
read_cluster_payload-found pts_ms payload time rest block timed value blocked =
    rw (read_cluster_payload, timed, value, blocked) refl

read_cluster-found :
    (bytes payload rest : Bytes) (block : Block)
    → read_element 0x1f43b675 bytes ≡ some (payload, rest)
    → read_cluster_payload payload ≡ some block
    → read_cluster bytes ≡ some (block, rest)
unfolding read_cluster
read_cluster-found bytes payload rest block found held = rw (read_cluster, found, held) refl

module _ {W : Type 0} {to : Write W} {At : W → Bytes → Type 0} (promised : IsAppending to At) where
  pub write_cluster-WritesCluster :
      (w : W) (bytes content : Bytes) (pts_ms track : ℕ)
      → pts_ms < 2 ^ 64
      → track < 128
      → length content < 2 ^ 55
      → At w bytes
      → WritesCluster At bytes
          (block_of pts_ms track content)
          (write_cluster to w pts_ms track content)
  unfolding write_cluster uint_element
  write_cluster-WritesCluster w bytes content pts_ms track wide named fits at =
      let time = uint_bytes pts_ms in
      let block = block_bytes track content in
      let timed =
        element-Writes vec_write-IsAppending 0 0xe7 [] [] time (omega arith) (ground arith)
          (omega (arith, length-uint_bytes pts_ms)) refl in
      let blocked =
        element-Writes vec_write-IsAppending 0 0xa3 timed.output timed.image block (omega arith)
          (ground arith) (omega arith) timed.at in
      let payload = timed.image ++ blocked.image in
      let small : length payload + 1 < 2 ^ 56 = omega (
        arith,
        length-append timed.image blocked.image,
        timed.short,
        blocked.short,
        length-uint_bytes pts_ms,
      ) in
      let whole =
        element-Writes promised 3 0x1f43b675 w bytes payload (omega arith) (ground arith) small
          at in
      let block_read : read_element 0xa3 blocked.image ≡ some (block, []) =
        ap (read_element 0xa3) (sym (append-nil blocked.image)) ∙ blocked.reads_back [] in
      let held =
        read_cluster_payload-found pts_ms payload time blocked.image block
          (timed.reads_back blocked.image) (uint_bytes-value pts_ms wide) block_read
        ∙ read_block-block_bytes pts_ms track content named in
      record {
        output = whole.output;
        image = whole.image;
        succeeds =
            rw (timed.succeeds, blocked.succeeds)
              (ap (element to w 0x1f43b675) blocked.at ∙ whole.succeeds);
        at = whole.at;
        reads_back = λ rest.
            read_cluster-found (whole.image ++ rest) payload rest (block_of pts_ms track content)
              (whole.reads_back rest) held;
      }
