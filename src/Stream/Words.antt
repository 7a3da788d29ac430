-- ===== src/Stream/Words.antt =====
-- The words of a record header in crates/handycam-core/src/stream.rs, as arithmetic.
use handycam_rs.Stream.{header_timestamp, timestamp_delta}
use handycam_rs.Prelude.Bits.{bit_and_low, bit_or_disjoint}
use handycam_rs.Prelude.{
  ℕ, zero, suc, ◌+◌, ◌-◌, ◌*◌, ◌%◌, ◌^◌, ◌<◌, bit_and, ◌≡◌, ◌∙◌, [], ◌∷◌, arith, Bytes, get_or, All,
  IsByte,
}

get_or-lt : (payload : Bytes) (i : ℕ) → All IsByte payload → get_or payload i 0 < 256
get_or-lt [] i h = omega arith
get_or-lt (b ∷ bs) zero h = h.0
get_or-lt (b ∷ bs) (suc i) h = get_or-lt bs i h.1

-- The 11-bit word of a header: three bits of byte 6 above byte 7.
pub header_timestamp_lem :
    (payload : Bytes)
    → All IsByte payload
    → header_timestamp payload ≡ get_or payload 6 0 % 8 * 256 + get_or payload 7 0
unfolding header_timestamp
header_timestamp_lem payload h =
    bit_or_disjoint 8 (bit_and (get_or payload 6 0) 7) (get_or payload 7 0) (get_or-lt payload 7 h)
    ∙ omega (arith, bit_and_low 3 (get_or payload 6 0))

pub header_timestamp-lt : (payload : Bytes) → All IsByte payload → header_timestamp payload < 2048
header_timestamp-lt payload h = omega (arith, header_timestamp_lem payload h, get_or-lt payload 7 h)

-- The 11-bit difference.
pub timestamp_delta_lem :
    (now earlier : ℕ)
    → now < 2048
    → earlier < 2048
    → timestamp_delta now earlier ≡ (now + 2048 - earlier) % 2048
unfolding timestamp_delta
timestamp_delta_lem now earlier h k =
    omega (arith, bit_and_low 11 ((now + 2 ^ 16 - earlier) % 2 ^ 16))
