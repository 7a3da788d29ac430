-- ===== src/Matroska/Ebml.antt =====
-- The element writers of crates/handycam-matroska/src/lib.rs, over any `Write`. Its errors are those
-- of `Write` and the one that `size_width` makes.
use handycam_rs.Prelude.{
  ℕ, zero, suc, ◌+◌, ◌-◌, ◌*◌, ◌^◌, bit_or, Option, none, some, [], ◌∷◌, ◌++◌, ltb, ◌==◌,
  if◌then◌else◌, Bytes, length, drop, ◌<<<◌, be_bytes, Result, ok, ◌>>=◌, ok_or,
}

pub data IoError : Type 0 where
  invalid_input : IoError
  device : ℕ → IoError

-- `std::io::Write::write_all`; what a failed write leaves behind is not told.
pub record Write (W : Type 0) : Type 0 where
  pub write_all : W → Bytes → Result IoError W

-- `impl Write for Vec<u8>`
abbrev pub vec_write : Write Bytes
vec_write = record { write_all = λ v bytes. ok (v ++ bytes) }

-- `iter().position(|byte| *byte != 0).unwrap_or(last)`, and the slice from there on.
unfoldable pub first_set : ℕ → ℕ → Bytes → ℕ
first_set last i [] = last
first_set last i (b ∷ bs) = let later = first_set last (i + 1) bs in if b == 0 then later else i

unfoldable pub without_zeros : ℕ → Bytes → Bytes
unfolding first_set
without_zeros last bytes = drop (first_set last 0 bytes) bytes

-- `(1..=8).find(...)` from width `w` on, of which `n` are left.
unfoldable pub find_width : ℕ → ℕ → ℕ → Option ℕ
find_width zero w size = none
find_width (suc n) w size =
    let later = find_width n (w + 1) size in if ltb size (2 ^ (7 * w) - 1) then some w else later

unfoldable pub size_width : ℕ → Result IoError ℕ
unfolding find_width
size_width size = ok_or (find_width 8 1 size) invalid_input

-- `size | (1 << (7 * width))`, of which the last `width` bytes are written.
unfoldable pub size_bytes : ℕ → ℕ → Bytes
size_bytes size width = drop (8 - width) (be_bytes 8 (bit_or size (1 <<< (7 * width))))

module _ {W : Type 0} (to : Write W) where
  open to use {write_all}

  unfoldable pub write_id : W → ℕ → Result IoError W
  unfolding without_zeros
  write_id output id = write_all output (without_zeros 3 (be_bytes 4 id))

  unfoldable pub write_size : W → ℕ → Result IoError W
  unfolding size_width size_bytes
  write_size output size = do width ← size_width size; write_all output (size_bytes size width)

  unfoldable pub element : W → ℕ → Bytes → Result IoError W
  unfolding write_id write_size
  element output id payload = do
    output ← write_id output id
    output ← write_size output (length payload)
    write_all output payload

  unfoldable pub uint_element : W → ℕ → ℕ → Result IoError W
  unfolding element without_zeros
  uint_element output id value = element output id (without_zeros 7 (be_bytes 8 value))
