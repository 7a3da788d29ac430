-- ===== src/Jpeg/Yuyv/Range.antt =====
-- The values that `rgb_to_yuv` of crates/handycam-core/src/jpeg.rs can take.
use handycam_rs.Jpeg.Yuyv.{clamp_byte, luma, chroma_u, chroma_v, rgb_to_yuv}
use handycam_rs.Prelude.{ℕ, ◌+◌, ◌-◌, ◌*◌, ◌/◌, ◌≤◌, ◌<◌, ◌≡◌, arith}
use handycam_rs.Prelude.Int.{ℤ, pos, ◌+ℤ◌, ◌-ℤ◌, ◌*ℤ◌}

luma_range :
    (r g b : ℕ)
    → r < 256
    → g < 256
    → b < 256
    → (n : ℕ) × (luma r g b ≡ pos n) × (16 ≤ n) × (n ≤ 235)
unfolding luma ◌+ℤ◌ ◌-ℤ◌ ◌*ℤ◌
luma_range r g b hr hg hb =
    (16 + (66 * r + 129 * g + 25 * b + 128) / 256, ground arith, omega arith, omega arith)

chroma_u_range :
    (r g b : ℕ)
    → r < 256
    → g < 256
    → b < 256
    → (n : ℕ) × (chroma_u r g b ≡ pos n) × (16 ≤ n) × (n ≤ 240)
unfolding chroma_u ◌+ℤ◌ ◌-ℤ◌ ◌*ℤ◌
chroma_u_range r g b hr hg hb =
    ((256 * 128 + 128 + 112 * b - 38 * r - 74 * g) / 256, ground arith, omega arith, omega arith)

chroma_v_range :
    (r g b : ℕ)
    → r < 256
    → g < 256
    → b < 256
    → (n : ℕ) × (chroma_v r g b ≡ pos n) × (16 ≤ n) × (n ≤ 240)
unfolding chroma_v ◌+ℤ◌ ◌-ℤ◌ ◌*ℤ◌
chroma_v_range r g b hr hg hb =
    ((256 * 128 + 128 + 112 * r - 94 * g - 18 * b) / 256, ground arith, omega arith, omega arith)

-- A pixel in limited range, at the exact BT.601 values: no clamp acts.
pub record IsLimited (r g b : ℕ) (yuv : ℕ × ℕ × ℕ) : Type 0 where
  pub luma_exact : luma r g b ≡ pos yuv.0
  pub u_exact : chroma_u r g b ≡ pos yuv.1
  pub v_exact : chroma_v r g b ≡ pos yuv.2
  pub luma_low : 16 ≤ yuv.0
  pub luma_high : yuv.0 ≤ 235
  pub u_low : 16 ≤ yuv.1
  pub u_high : yuv.1 ≤ 240
  pub v_low : 16 ≤ yuv.2
  pub v_high : yuv.2 ≤ 240

clamp_byte-pos : (z : ℤ) (n : ℕ) → z ≡ pos n → n ≤ 240 → clamp_byte z ≡ n
unfolding clamp_byte
clamp_byte-pos z n e h = rw e (omega arith)

-- Every pixel of bytes is converted exactly: luma lies in 16..=235 and both chroma values in
-- 16..=240, so the clamps to a byte never change a value.
pub rgb_to_yuv-IsLimited :
    (r g b : ℕ) → r < 256 → g < 256 → b < 256 → IsLimited r g b (rgb_to_yuv r g b)
rgb_to_yuv-IsLimited r g b hr hg hb =
    let (y, ye, yl, yh) = luma_range r g b hr hg hb in
    let (u, ue, ul, uh) = chroma_u_range r g b hr hg hb in
    let (v, ve, vl, vh) = chroma_v_range r g b hr hg hb in
    let cy : clamp_byte (luma r g b) ≡ y = clamp_byte-pos _ y ye (omega arith) in
    let cu : clamp_byte (chroma_u r g b) ≡ u = clamp_byte-pos _ u ue (omega arith) in
    let cv : clamp_byte (chroma_v r g b) ≡ v = clamp_byte-pos _ v ve (omega arith) in
    unfold rgb_to_yuv in
    rw (cy, cu, cv)
      (record {
        luma_exact = ye;
        u_exact = ue;
        v_exact = ve;
        luma_low = yl;
        luma_high = yh;
        u_low = ul;
        u_high = uh;
        v_low = vl;
        v_high = vh;
      })
