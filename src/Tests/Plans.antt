-- ===== src/Tests/Plans.antt =====
-- Initialization plans read by crates/handycam-core/src/init.rs.
use handycam_rs.Init.Text.{lines, from_str_radix, to_digit, add_digits, split}
use handycam_rs.Init.Plan.{IsSupported, parse_init_plan-IsSupported}
use handycam_rs.Init.Errors.{RefusedAt, parse_init_plan-RefusedAt}
use handycam_rs.Init.Override.{Overridden, override_record_mode_scale_factor-Overridden}
use handycam_rs.Control.{driver_default, scale_factor_index}
use handycam_rs.Init.{
  HexCrate, InitOp, control_in, control_out, set_interface, unsupported, parse_init_plan,
  override_record_mode_scale_factor,
}
use handycam_rs.Prelude.{◌≡◌, refl, List, [], ◌∷◌, Bytes, All, ok, err}

-- A `hex` crate that refuses everything but the empty text.
abbrev stub : HexCrate
stub = record {
  FromHexError = Unit {0};
  decode = λ text. elim text [ [] ↦ ok [] | c ∷ cs ↦ err _ ];
}

-- A comment, a read of four bytes and an alternate setting.
abbrev good_text : Bytes
good_text =
    b'#' ∷ b' ' ∷ b'a' ∷ b'\n' ∷ b'0' ∷ b'\t' ∷ b'0' ∷ b'x' ∷ b'c' ∷ b'0' ∷ b'\t' ∷ b'0' ∷ b'x'
    ∷ b'8' ∷ b'8' ∷ b'\t' ∷ b'0' ∷ b'\t' ∷ b'1' ∷ b'\t' ∷ b'4' ∷ b'\t' ∷ b'\t' ∷ b'\n' ∷ b'5'
    ∷ b'\t' ∷ b'1' ∷ b'\t' ∷ b'1' ∷ b'1' ∷ b'\t' ∷ b'7' ∷ b'\t' ∷ b'0' ∷ b'\t' ∷ b'0' ∷ b'\t'
    ∷ b'\t' ∷ b'\n' ∷ []

abbrev good_plan : List InitOp
good_plan = control_in 0 0xc0 0x88 0 1 4 ∷ set_interface 5 0 7 ∷ []

parse-good_text : parse_init_plan stub good_text ≡ ok good_plan
unfolding parse_init_plan lines from_str_radix to_digit add_digits split
parse-good_text = refl

parse_init_plan-IsSupported_example : All IsSupported good_plan
parse_init_plan-IsSupported_example = parse_init_plan-IsSupported stub good_text parse-good_text

-- The third line asks for another request type.
abbrev bad_text : Bytes
bad_text =
    b'#' ∷ b' ' ∷ b'a' ∷ b'\n' ∷ b'0' ∷ b'\t' ∷ b'0' ∷ b'x' ∷ b'c' ∷ b'0' ∷ b'\t' ∷ b'0' ∷ b'x'
    ∷ b'8' ∷ b'8' ∷ b'\t' ∷ b'0' ∷ b'\t' ∷ b'1' ∷ b'\t' ∷ b'4' ∷ b'\t' ∷ b'\t' ∷ b'\n' ∷ b'0'
    ∷ b'\t' ∷ b'0' ∷ b'x' ∷ b'4' ∷ b'1' ∷ b'\t' ∷ b'0' ∷ b'x' ∷ b'8' ∷ b'8' ∷ b'\t' ∷ b'0' ∷ b'\t'
    ∷ b'1' ∷ b'\t' ∷ b'4' ∷ b'\t' ∷ b'\t' ∷ b'\n' ∷ []

parse-bad_text : parse_init_plan stub bad_text ≡ err (unsupported 3 0x41 0x88)
unfolding parse_init_plan lines from_str_radix to_digit add_digits split
parse-bad_text = refl

parse_init_plan-RefusedAt_example : RefusedAt stub (lines bad_text) 1 [] (unsupported 3 0x41 0x88)
parse_init_plan-RefusedAt_example = parse_init_plan-RefusedAt stub bad_text parse-bad_text

abbrev scale_writes : List InitOp
scale_writes =
    control_out 0 0x40 0x88 0 scale_factor_index (16 ∷ [])
    ∷ control_out 0 0x40 0x88 0 scale_factor_index (20 ∷ [])
    ∷ control_in 0 0xc0 0x88 0 1 4
    ∷ []

override_record_mode_scale_factor-Overridden_example :
    Overridden driver_default scale_writes
      (override_record_mode_scale_factor scale_writes driver_default)
override_record_mode_scale_factor-Overridden_example =
    override_record_mode_scale_factor-Overridden scale_writes driver_default
