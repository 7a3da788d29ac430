-- ===== src/Init/Errors.antt =====
-- The line that an error of crates/handycam-core/src/init.rs's parser names.
use Prim.Native.String.{String}
use handycam_rs.Init.{
  HexCrate, InitOp, InitPlanError, field_count, invalid_number, invalid_hex, payload_length,
  unsupported, parse_number, is_skipped, parse_bounded, control_out_of, operation_of, parse_fields,
  parse_row, parse_lines, parse_init_plan,
}
use handycam_rs.Init.Text.{lines, split}
use mathlib.Core.Path.{subst}
use handycam_rs.Prelude.{
  ℕ, ◌+◌, ◌≡◌, refl, sym, ap, ◌∙◌, inl, inr, true, false, ◌&&◌, List, [], ◌∷◌, ◌++◌, arith, ltb,
  ◌==◌, if◌then◌else◌, Bool-cases, Option-cases, Bytes, length, Result, ok, err, Fails, bind-Fails,
  Result-cases,
}

module _ (lib : HexCrate) where
  abbrev pub error_line : InitPlanError lib → ℕ
  error_line (field_count line count) = line
  error_line (invalid_number line field value) = line
  error_line (invalid_hex line source) = line
  error_line (payload_length line expected actual) = line
  error_line (unsupported line request_type request) = line

  abbrev NamesLine : ℕ → InitPlanError lib → Type 0
  NamesLine line e = error_line e ≡ line

  bounded_error :
      (line maximum n : ℕ) (e : InitPlanError lib)
      → NamesLine line e
      → Fails (NamesLine line) (if ltb maximum n then err e else ok n)
  bounded_error line maximum n e h = elim (Bool-cases (ltb maximum n)) [
    | inl k ↦ rw k h
    | inr k ↦ rw k tt
  ]

  parse_bounded-NamesLine :
      (line : ℕ) (field : String) (value : Bytes) (maximum : ℕ)
      → Fails (NamesLine line) (parse_bounded lib line field value maximum)
  unfolding parse_bounded
  parse_bounded-NamesLine line field value maximum = elim (Option-cases (parse_number value)) [
    | inl e ↦ rw e refl
    | inr (n, e) ↦ rw e (bounded_error line maximum n (invalid_number line field value) refl)
  ]

  control_out_of-NamesLine :
      (line delay rt rq value index expected : ℕ) (decoded : Result lib.FromHexError Bytes)
      → Fails (NamesLine line) (control_out_of lib line delay rt rq value index expected decoded)
  unfolding control_out_of
  control_out_of-NamesLine line delay rt rq value index expected (err e) = refl
  control_out_of-NamesLine line delay rt rq value index expected (ok payload) =
      elim (Bool-cases (length payload == expected)) [ inl h ↦ rw h tt | inr h ↦ rw h refl ]

  operation_of-NamesLine :
      (line delay rt rq value index expected : ℕ) (payload : Bytes)
      → Fails (NamesLine line) (operation_of lib line delay rt rq value index expected payload)
  unfolding operation_of
  operation_of-NamesLine line delay rt rq value index expected payload =
      elim (Bool-cases (rt == 0x01 && rq == 0x0b && index == 0 && expected == 0)) [
        | inl a ↦ rw a tt
        | inr a ↦ rw a (elim (Bool-cases (rt == 0xc0 && rq == 0x88)) [
          | inl b ↦ rw b tt
          | inr b ↦ rw b (elim (Bool-cases (rt == 0x40 && rq == 0x88)) [
            | inl c ↦ rw c (
                control_out_of-NamesLine line delay rt rq value index expected (lib.decode payload))
            | inr c ↦ rw c refl
          ])
        ])
      ]

  parse_fields-NamesLine :
      (line : ℕ) (fields : List Bytes) → Fails (NamesLine line) (parse_fields lib line fields)
  unfolding parse_fields
  parse_fields-NamesLine line (f0 ∷ f1 ∷ f2 ∷ f3 ∷ f4 ∷ f5 ∷ f6 ∷ f7 ∷ []) =
      let named = NamesLine line in
      bind-Fails named _ _ (parse_bounded-NamesLine line "delay_us" f0 10_000_000) λ delay.
        bind-Fails named _ _ (parse_bounded-NamesLine line "bmRequestType" f1 255) λ rt.
          bind-Fails named _ _ (parse_bounded-NamesLine line "bRequest" f2 255) λ rq.
            bind-Fails named _ _ (parse_bounded-NamesLine line "wValue" f3 65_535) λ value.
              bind-Fails named _ _ (parse_bounded-NamesLine line "wIndex" f4 65_535) λ index.
                bind-Fails named _ _ (parse_bounded-NamesLine line "wLength" f5 64)
                  λ expected. operation_of-NamesLine line delay rt rq value index expected f6
  parse_fields-NamesLine line _ = refl

  -- Up to a refused row there are comments, blank lines and operations; that row is none of the
  -- first two, and stands on the line that its error names.
  pub record RefusedAt (rows : List Bytes) (line : ℕ) (start : List InitOp) (e : InitPlanError lib)
      : Type 0 where
    pub before : List Bytes
    pub row : Bytes
    pub later : List Bytes
    pub splits : rows ≡ before ++ row ∷ later
    pub accepted : (operations : List InitOp) × (parse_lines lib line start before ≡ ok operations)
    pub counted : is_skipped row ≡ false
    pub refused : parse_row lib (line + length before) row ≡ err e
    pub named : error_line e ≡ line + length before

  refused_here :
      (line : ℕ) (start : List InitOp) (row : Bytes) (rows : List Bytes) (e : InitPlanError lib)
      → is_skipped row ≡ false
      → parse_row lib line row ≡ err e
      → RefusedAt (row ∷ rows) line start e
  unfolding parse_lines
  refused_here line start row rows e k h =
      let at : line ≡ line + 0 = omega arith in
      record {
        before = [];
        row = row;
        later = rows;
        splits = refl;
        accepted = (start, refl);
        counted = k;
        refused = subst (λ l. parse_row lib l row ≡ err e) at h;
        named = rw h at (parse_fields-NamesLine line (split b'\t' row)) ∙ at;
      }

  refused_later :
      (line : ℕ) (start next : List InitOp) (row : Bytes) (rows : List Bytes)
      (e : InitPlanError lib)
      → ((rest : List Bytes)
          → parse_lines lib line start (row ∷ rest) ≡ parse_lines lib (line + 1) next rest)
      → RefusedAt rows (line + 1) next e
      → RefusedAt (row ∷ rows) line start e
  refused_later line start next row rows e steps r =
      let at : line + 1 + length r.before ≡ line + length (row ∷ r.before) = omega arith in
      record {
        before = row ∷ r.before;
        row = r.row;
        later = r.later;
        splits = ap (◌∷◌ row) r.splits;
        accepted = (r.accepted.0, steps r.before ∙ r.accepted.1);
        counted = r.counted;
        refused = subst (λ l. parse_row lib l r.row ≡ err e) at r.refused;
        named = r.named ∙ at;
      }

  module _ (line : ℕ) (start : List InitOp) (row : Bytes) where
    parse_lines_skipped :
        is_skipped row ≡ true
        → (rest : List Bytes)
        → parse_lines lib line start (row ∷ rest) ≡ parse_lines lib (line + 1) start rest
    unfolding parse_lines
    parse_lines_skipped k rest = rw k

    parse_lines_parsed :
        (operation : InitOp)
        → is_skipped row ≡ false
        → parse_row lib line row ≡ ok operation
        → (rest : List Bytes)
        → parse_lines lib line start (row ∷ rest)
          ≡ parse_lines lib (line + 1) (start ++ operation ∷ []) rest
    unfolding parse_lines
    parse_lines_parsed operation k h rest = rw (k, h)

    parse_lines_refused :
        (e : InitPlanError lib)
        → is_skipped row ≡ false
        → parse_row lib line row ≡ err e
        → (rest : List Bytes) → parse_lines lib line start (row ∷ rest) ≡ err e
    unfolding parse_lines
    parse_lines_refused e k h rest = rw (k, h)

  parse_lines-RefusedAt :
      (rows : List Bytes) (line : ℕ) (start : List InitOp) (e : InitPlanError lib)
      → parse_lines lib line start rows ≡ err e
      → RefusedAt rows line start e
  parse_lines-RefusedAt [] line start e h = absurd (unfold parse_lines in cc)
  parse_lines-RefusedAt (row ∷ rows) line start e h = elim (Bool-cases (is_skipped row)) [
    | inl k ↦
        let steps = parse_lines_skipped line start row k in
        refused_later line start start row rows e steps
          (parse_lines-RefusedAt rows (line + 1) start e (sym (steps rows) ∙ h))
    | inr k ↦ elim (Result-cases (parse_row lib line row)) [
      | inl (operation, p) ↦
          let steps = parse_lines_parsed line start row operation k p in
          let next = start ++ operation ∷ [] in
          refused_later line start next row rows e steps
            (parse_lines-RefusedAt rows (line + 1) next e (sym (steps rows) ∙ h))
      | inr (e', p) ↦
          let same : e' ≡ e = cc (sym (parse_lines_refused line start row e' k p rows) ∙ h) in
          refused_here line start row rows e k (p ∙ ap err same)
    ]
  ]

  -- A plan that is refused is refused at its first bad row: all rows above it are comments, blank
  -- lines or good operations, the row itself is none of these, and the error's line number is its
  -- place in the text, counted from 1.
  pub parse_init_plan-RefusedAt :
      (text : Bytes) {e : InitPlanError lib}
      → parse_init_plan lib text ≡ err e
      → RefusedAt (lines text) 1 [] e
  unfolding parse_init_plan
  parse_init_plan-RefusedAt text {e} h = parse_lines-RefusedAt (lines text) 1 [] e h
