-- ===== src/Matroska/Reader.antt =====
-- A reader of the files of crates/handycam-matroska/src/lib.rs, after the EBML format: numbers of a
-- variable width, elements, and clusters that hold one block each.
pub mod Numbers
pub mod Elements
pub mod Writing
use handycam_rs.Prelude.{
  ℕ, ◌+◌, ◌-◌, ◌*◌, ◌^◌, ◌≡◌, ◌&&◌, Option, none, some, List, [], ◌∷◌, ltb, leb, ◌==◌,
  if◌then◌else◌, Bytes, length, take, drop,
}

-- The number whose digits in base 256 are the given bytes, behind those of `acc`.
abbrev pub be_value : ℕ → Bytes → ℕ
be_value acc [] = acc
be_value acc (b ∷ bs) = be_value (acc * 256 + b) bs

-- The width that the first byte of a number announces: its leading zeros and one more.
abbrev pub announced_width : ℕ → ℕ
announced_width b =
    if leb 128 b
    then 1
    else if leb 64 b
    then 2
    else if leb 32 b
    then 3
    else if leb 16 b
    then 4
    else if leb 8 b
    then 5
    else if leb 4 b
    then 6
    else if leb 2 b
    then 7
    else 8

-- A number with its marker bit, its width, and the bytes behind it.
unfoldable pub read_number : Bytes → Option (ℕ × ℕ × Bytes)
read_number [] = none
read_number (b ∷ bs) =
    let width = announced_width b in
    if ltb (length bs) (width - 1)
    then none
    else some (be_value b (take (width - 1) bs), width, drop (width - 1) bs)

-- A size is a number without its marker bit; all ones stands for an unknown size.
unfoldable pub read_size : Bytes → Option (ℕ × Bytes)
unfolding read_number
read_size bytes = elim (read_number bytes) [
  | none ↦ none
  | some (value, width, rest) ↦
      if value + 1 == 2 ^ (7 * width + 1) then none else some (value - 2 ^ (7 * width), rest)
]

-- The payload of an element that carries the given ID, and the bytes behind the element.
pub read_payload : Option (ℕ × Bytes) → Option (Bytes × Bytes)
read_payload none = none
read_payload (some (size, bytes)) =
    if ltb (length bytes) size then none else some (take size bytes, drop size bytes)

unfoldable pub read_element : ℕ → Bytes → Option (Bytes × Bytes)
unfolding read_number read_size read_payload
read_element id bytes = elim (read_number bytes) [
  | none ↦ none
  | some (value, width, rest) ↦ if value == id then read_payload (read_size rest) else none
]

-- A packet of the file: its time, its track and its data.
pub record Block : Type 0 where
  pub pts_ms : ℕ
  pub track : ℕ
  pub content : Bytes

-- A block of its own at the cluster's time, that is a key frame: the track, two zero bytes and
-- the flag.
unfoldable pub read_block : ℕ → Bytes → Option Block
read_block pts_ms (first ∷ time1 ∷ time0 ∷ flags ∷ content) =
    if time1 == 0 && time0 == 0 && flags == 0x80
    then some (record { pts_ms = pts_ms; track = first - 128; content = content })
    else none
read_block pts_ms _ = none

-- A block element that fills the rest of its cluster.
unfoldable pub read_block_element : ℕ → Option (Bytes × Bytes) → Option Block
unfolding read_block
read_block_element pts_ms (some (block, [])) = read_block pts_ms block
read_block_element pts_ms _ = none

unfoldable pub read_cluster_payload : Bytes → Option Block
unfolding read_element read_block_element
read_cluster_payload payload = elim (read_element 0xe7 payload) [
  | none ↦ none
  | some (time, rest) ↦ read_block_element (be_value 0 time) (read_element 0xa3 rest)
]

-- The block of the cluster that the bytes start with, and the bytes behind the cluster.
unfoldable pub read_cluster : Bytes → Option (Block × Bytes)
unfolding read_element read_cluster_payload
read_cluster bytes = elim (read_element 0x1f43b675 bytes) [
  | none ↦ none
  | some (payload, rest) ↦ elim (read_cluster_payload payload) [
    | none ↦ none
    | some block ↦ some (block, rest)
  ]
]

-- The bytes are clusters that hold these blocks in order, and nothing else.
abbrev pub HoldsBlocks : List Block → Bytes → Type 0
HoldsBlocks [] bytes = bytes ≡ []
HoldsBlocks (block ∷ blocks) bytes =
    (rest : Bytes) × (read_cluster bytes ≡ some (block, rest)) × HoldsBlocks blocks rest
