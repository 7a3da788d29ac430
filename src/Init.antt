-- ===== src/Init.antt =====
-- crates/handycam-core/src/init.rs: initialization plans, their parser, and the override of the
-- configured scale factor. Text is its bytes; the `hex` crate enters as the parameter `HexCrate`.
pub mod Text
pub mod Plan
pub mod Errors
pub mod Override
use Prim.Native.String.{String}
use handycam_rs.Control.{scale_factor_index, ScaleFactor}
use handycam_rs.Init.Text.{lines, split, from_str_radix}
use handycam_rs.Prelude.{
  ℕ, ◌+◌, ◌%◌, Bool, true, false, not, ◌&&◌, Option, List, [], ◌∷◌, ◌++◌, reverse, ltb, ◌==◌,
  if◌then◌else◌, Bytes, length, set, Result, ok, err, ◌>>=◌, ok_or,
}

-- `hex::decode` and its error.
pub record HexCrate : Type 1 where
  pub FromHexError : Type 0
  pub decode : Bytes → Result FromHexError Bytes

pub data InitOp : Type 0 where
  control_in : ℕ → ℕ → ℕ → ℕ → ℕ → ℕ → InitOp
  control_out : ℕ → ℕ → ℕ → ℕ → ℕ → Bytes → InitOp
  set_interface : ℕ → ℕ → ℕ → InitOp

unfoldable pub delay_us : InitOp → ℕ
delay_us (control_in delay request_type request value index length) = delay
delay_us (control_out delay request_type request value index payload) = delay
delay_us (set_interface delay interface alternate) = delay

pub data InitPlanError (lib : HexCrate) : Type 0 where
  field_count : ℕ → ℕ → InitPlanError lib
  invalid_number : ℕ → String → Bytes → InitPlanError lib
  invalid_hex : ℕ → lib.FromHexError → InitPlanError lib
  payload_length : ℕ → ℕ → ℕ → InitPlanError lib
  unsupported : ℕ → ℕ → ℕ → InitPlanError lib

-- `strip_prefix("0x")`, then the radix that it selects.
pub parse_number : Bytes → Option ℕ
parse_number (a ∷ b ∷ rest) =
    if a == b'0' && b == b'x' then from_str_radix rest 16 else from_str_radix (a ∷ b ∷ rest) 10
parse_number value = from_str_radix value 10

-- `row.is_empty() || row.starts_with('#')`
unfoldable pub is_skipped : Bytes → Bool
is_skipped [] = true
is_skipped (c ∷ cs) = c == b'#'

module _ (lib : HexCrate) where
  pub parse_u64 : ℕ → String → Bytes → Result (InitPlanError lib) ℕ
  unfolding parse_number
  parse_u64 line field value = ok_or (parse_number value) (invalid_number line field value)

  unfoldable pub parse_bounded : ℕ → String → Bytes → ℕ → Result (InitPlanError lib) ℕ
  unfolding parse_u64
  parse_bounded line field value maximum = do
    parsed ← parse_u64 line field value
    if ltb maximum parsed then err (invalid_number line field value) else ok parsed

  -- `hex::decode(fields[6])` and the check of its length.
  pub control_out_of :
      ℕ → ℕ → ℕ → ℕ → ℕ → ℕ → ℕ → Result lib.FromHexError Bytes → Result (InitPlanError lib) InitOp
  control_out_of line delay request_type request value index expected (err source) =
      err (invalid_hex line source)
  control_out_of line delay request_type request value index expected (ok payload) =
      if not (length payload == expected)
      then err (payload_length line expected (length payload))
      else ok (control_out delay request_type request value index payload)

  -- The `match (request_type, request)`; `as u8` keeps the low byte.
  unfoldable pub operation_of :
      ℕ → ℕ → ℕ → ℕ → ℕ → ℕ → ℕ → Bytes → Result (InitPlanError lib) InitOp
  unfolding control_out_of
  operation_of line delay request_type request value index expected payload =
      if request_type == 0x01 && request == 0x0b && index == 0 && expected == 0
      then ok (set_interface delay (index % 256) (value % 256))
      else if request_type == 0xc0 && request == 0x88
      then ok (control_in delay request_type request value index expected)
      else if request_type == 0x40 && request == 0x88
      then control_out_of line delay request_type request value index expected (lib.decode payload)
      else err (unsupported line request_type request)

  unfoldable pub parse_fields : ℕ → List Bytes → Result (InitPlanError lib) InitOp
  unfolding parse_bounded operation_of
  parse_fields line (f0 ∷ f1 ∷ f2 ∷ f3 ∷ f4 ∷ f5 ∷ f6 ∷ f7 ∷ []) = do
    delay ← parse_bounded line "delay_us" f0 10_000_000
    request_type ← parse_bounded line "bmRequestType" f1 255
    request ← parse_bounded line "bRequest" f2 255
    value ← parse_bounded line "wValue" f3 65_535
    index ← parse_bounded line "wIndex" f4 65_535
    expected ← parse_bounded line "wLength" f5 64
    operation_of line delay request_type request value index expected f6
  parse_fields line fields = err (field_count line (length fields))

  unfoldable pub parse_row : ℕ → Bytes → Result (InitPlanError lib) InitOp
  unfolding parse_fields
  parse_row line row = parse_fields line (split b'\t' row)

  -- The loop over the enumerated lines, from line `line` on.
  unfoldable pub parse_lines :
      ℕ → List InitOp → List Bytes → Result (InitPlanError lib) (List InitOp)
  unfolding is_skipped parse_row
  parse_lines line operations [] = ok operations
  parse_lines line operations (row ∷ rows) =
      let skipped = parse_lines (line + 1) operations rows in
      let parsed = parse_row line row >>= λ operation.
      parse_lines (line + 1) (operations ++ operation ∷ []) rows in
      if is_skipped row then skipped else parsed

  unfoldable pub parse_init_plan : Bytes → Result (InitPlanError lib) (List InitOp)
  unfolding parse_lines
  parse_init_plan text = parse_lines 1 [] (lines text)

-- The operation that the override looks for, and the write that it makes there.
unfoldable pub is_scale_write : InitOp → Bool
is_scale_write (control_out delay request_type request value index payload) =
    index == scale_factor_index && length payload == 1
is_scale_write _ = false

unfoldable pub write_scale : ScaleFactor → InitOp → InitOp
write_scale scale (control_out delay request_type request value index payload) =
    control_out delay request_type request value index (set payload 0 scale.factor)
write_scale scale operation = operation

-- The loop, over the operations last to first, up to the first that fits.
pub override_reversed : ScaleFactor → List InitOp → List InitOp × Bool
override_reversed scale [] = ([], false)
override_reversed scale (operation ∷ earlier) =
    let (earlier', found) = override_reversed scale earlier in
    if is_scale_write operation
    then (write_scale scale operation ∷ earlier, true)
    else (operation ∷ earlier', found)

unfoldable pub override_record_mode_scale_factor : List InitOp → ScaleFactor → List InitOp × Bool
unfolding override_reversed is_scale_write write_scale
override_record_mode_scale_factor operations scale =
    let (reversed, found) = override_reversed scale (reverse operations) in
    (reverse reversed, found)
