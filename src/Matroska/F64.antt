-- ===== src/Matroska/F64.antt =====
-- The `f64` values that crates/handycam-matroska/src/lib.rs writes, as their IEEE 754 bits: rounding
-- to the nearest, to the even one of two.
use handycam_rs.Prelude.{
  ℕ, zero, suc, ◌+◌, ◌-◌, ◌*◌, ◌/◌, ◌%◌, ◌^◌, ltb, leb, ◌==◌, if◌then◌else◌, Bytes, be_bytes,
}

-- The position of the highest one bit, among the lowest `k + 1`.
highest_bit : ℕ → ℕ → ℕ
highest_bit zero t = 0
highest_bit (suc k) t = let lower = highest_bit k t in if leb (2 ^ suc k) t then suc k else lower

-- `p / q` rounded to an integer.
round_even : ℕ → ℕ → ℕ
round_even p q =
    let low = p / q in
    let remainder = p % q in
    if ltb (2 * remainder) q
    then low
    else if ltb q (2 * remainder)
    then low + 1
    else if low % 2 == 0
    then low
    else low + 1

-- `value as f64` for a u64, which is again an integer.
pub u64_as_f64 : ℕ → ℕ
unfolding highest_bit round_even
u64_as_f64 value =
    let high = highest_bit 63 value in let unit = 2 ^ (high - 52) in round_even value unit * unit

-- The bits of `p / q`, for an integer p up to 2 ^ 64 and a divisor from 1 to 1000: p is shifted
-- up far enough for 53 bits of the quotient to lie above the point.
unfoldable pub f64_bits : ℕ → ℕ → ℕ
unfolding highest_bit round_even
f64_bits p q =
    let shifted = p * 2 ^ 63 in
    let high = highest_bit 127 (shifted / q) in
    if p == 0 then 0 else (high + 959) * 2 ^ 52 + round_even shifted (q * 2 ^ (high - 52))

-- `f64::from(value).to_be_bytes()` for a u32.
unfoldable pub f64_from : ℕ → Bytes
unfolding f64_bits
f64_from value = be_bytes 8 (f64_bits value 1)

-- `(micros as f64 / 1_000.0).to_be_bytes()`
unfoldable pub f64_thousandths : ℕ → Bytes
unfolding f64_bits u64_as_f64
f64_thousandths micros = be_bytes 8 (f64_bits (u64_as_f64 micros) 1_000)
