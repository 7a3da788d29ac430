-- ===== src/Init/Plan.antt =====
-- What crates/handycam-core/src/init.rs's parser lets through, and the line that an error names.
use Prim.Native.String.{String}
use handycam_rs.Init.{
  HexCrate, InitOp, control_in, control_out, set_interface, InitPlanError, invalid_number,
  parse_number, is_skipped, parse_bounded, control_out_of, operation_of, parse_fields, parse_row,
  parse_lines, parse_init_plan,
}
use handycam_rs.Init.Text.{lines, split}
use handycam_rs.Prelude.{
  ℕ, ◌+◌, ◌^◌, ◌≤◌, ◌<◌, ◌≡◌, inl, inr, ◌&&◌, List, [], ◌∷◌, ◌++◌, arith, ltb, ◌==◌, if◌then◌else◌,
  Bool-cases, Option-cases, Bytes, length, All, All-append, Result, ok, err, Ensures, bind-Ensures,
}

-- The operations that the transport may be given: a vendor request 0x88 read or write of at most
-- 64 bytes, or an alternate setting of interface 0, within ten seconds.
abbrev pub IsSupported : InitOp → Type 0
IsSupported (control_in delay request_type request value index size) =
    (delay ≤ 10_000_000)
    × (request_type ≡ 0xc0)
    × (request ≡ 0x88)
    × (value < 2 ^ 16)
    × (index < 2 ^ 16)
    × (size ≤ 64)
IsSupported (control_out delay request_type request value index payload) =
    (delay ≤ 10_000_000)
    × (request_type ≡ 0x40)
    × (request ≡ 0x88)
    × (value < 2 ^ 16)
    × (index < 2 ^ 16)
    × (length payload ≤ 64)
IsSupported (set_interface delay interface alternate) =
    (delay ≤ 10_000_000) × (interface ≡ 0) × (alternate < 2 ^ 8)

module _ (lib : HexCrate) where
  bounded_result :
      (maximum n : ℕ) (e : InitPlanError lib)
      → Ensures (λ k. k ≤ maximum) (if ltb maximum n then err e else ok n)
  bounded_result maximum n e = elim (Bool-cases (ltb maximum n)) [
    | inl h ↦ rw h tt
    | inr h ↦ rw h (ground arith)
  ]

  parse_bounded-le :
      (line : ℕ) (field : String) (value : Bytes) (maximum : ℕ)
      → Ensures (λ n. n ≤ maximum) (parse_bounded lib line field value maximum)
  unfolding parse_bounded
  parse_bounded-le line field value maximum = elim (Option-cases (parse_number value)) [
    | inl e ↦ rw e tt
    | inr (n, e) ↦ rw e (bounded_result maximum n (invalid_number line field value))
  ]

  control_out_of-IsSupported :
      (line delay request_type request value index expected : ℕ)
      (decoded : Result lib.FromHexError Bytes)
      → delay ≤ 10_000_000
      → request_type ≡ 0x40
      → request ≡ 0x88
      → value < 2 ^ 16
      → index < 2 ^ 16
      → expected ≤ 64
      → Ensures IsSupported
          (control_out_of lib line delay request_type request value index expected decoded)
  unfolding control_out_of
  control_out_of-IsSupported line delay rt rq value index expected (err e) hd ht hr hv hi he = tt
  control_out_of-IsSupported line delay rt rq value index expected (ok payload) hd ht hr hv hi he =
      elim (Bool-cases (length payload == expected)) [
        | inl h ↦ rw h (hd, ht, hr, hv, hi, ground arith)
        | inr h ↦ rw h tt
      ]

  operation_of-IsSupported :
      (line delay request_type request value index expected : ℕ) (payload : Bytes)
      → delay ≤ 10_000_000
      → value < 2 ^ 16
      → index < 2 ^ 16
      → expected ≤ 64
      → Ensures IsSupported
          (operation_of lib line delay request_type request value index expected payload)
  unfolding operation_of
  operation_of-IsSupported line delay rt rq value index expected payload hd hv hi he =
      elim (Bool-cases (rt == 0x01 && rq == 0x0b && index == 0 && expected == 0)) [
        | inl a ↦ rw a (hd, ground arith, omega arith)
        | inr a ↦ rw a (elim (Bool-cases (rt == 0xc0 && rq == 0x88)) [
          | inl b ↦ rw b (hd, ground arith, ground arith, hv, hi, he)
          | inr b ↦ rw b (elim (Bool-cases (rt == 0x40 && rq == 0x88)) [
            | inl c ↦ rw c (
                control_out_of-IsSupported line delay rt rq value index expected
                  (lib.decode payload) hd (ground arith) (ground arith) hv hi he)
            | inr c ↦ rw c tt
          ])
        ])
      ]

  parse_fields-IsSupported :
      (line : ℕ) (fields : List Bytes) → Ensures IsSupported (parse_fields lib line fields)
  unfolding parse_fields
  parse_fields-IsSupported line (f0 ∷ f1 ∷ f2 ∷ f3 ∷ f4 ∷ f5 ∷ f6 ∷ f7 ∷ []) =
      bind-Ensures (λ n. n ≤ 10000000) IsSupported _ _
        (parse_bounded-le line "delay_us" f0 10_000_000)
        λ delay hd.
          bind-Ensures (λ n. n ≤ 255) IsSupported _ _ (parse_bounded-le line "bmRequestType" f1 255)
            λ rt ht.
              bind-Ensures (λ n. n ≤ 255) IsSupported _ _ (parse_bounded-le line "bRequest" f2 255)
                λ rq hr.
                  bind-Ensures (λ n. n ≤ 65535) IsSupported _ _
                    (parse_bounded-le line "wValue" f3 65_535)
                    λ value hv.
                      bind-Ensures (λ n. n ≤ 65535) IsSupported _ _
                        (parse_bounded-le line "wIndex" f4 65_535)
                        λ index hi.
                          bind-Ensures (λ n. n ≤ 64) IsSupported _ _
                            (parse_bounded-le line "wLength" f5 64)
                            λ expected he.
                              operation_of-IsSupported line delay rt rq value index expected f6 hd
                                (omega arith) (omega arith) he
  parse_fields-IsSupported line _ = tt

  parse_lines-IsSupported :
      (rows : List Bytes) (line : ℕ) (operations : List InitOp)
      → All IsSupported operations
      → Ensures (All IsSupported) (parse_lines lib line operations rows)
  unfolding parse_lines
  parse_lines-IsSupported [] line operations h = h
  parse_lines-IsSupported (row ∷ rows) line operations h = elim (Bool-cases (is_skipped row)) [
    | inl e ↦ rw e (parse_lines-IsSupported rows (line + 1) operations h)
    | inr e ↦ rw e (
        bind-Ensures IsSupported (All IsSupported) (parse_row lib line row) _
          (parse_fields-IsSupported line (split b'\t' row))
          λ operation good.
            parse_lines-IsSupported rows (line + 1) (operations ++ operation ∷ [])
              (All-append IsSupported operations (operation ∷ []) (h, (good, tt))))
  ]

  -- Whatever the text and whatever the hex decoder, a plan that is accepted holds only supported
  -- operations, every field within its bounds.
  pub parse_init_plan-IsSupported :
      (text : Bytes) {operations : List InitOp}
      → parse_init_plan lib text ≡ ok operations
      → All IsSupported operations
  unfolding parse_init_plan
  parse_init_plan-IsSupported text h = rw h at (parse_lines-IsSupported (lines text) 1 [] tt)
