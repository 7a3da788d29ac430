-- ===== src/Init/Override.antt =====
-- `override_record_mode_scale_factor` of crates/handycam-core/src/init.rs: the last write only.
use mathlib.Core.Path.{subst}
use mathlib.Core.List.{reverse-append, reverse-reverse, reverse-cons}
use handycam_rs.Init.{
  InitOp, control_in, control_out, set_interface, is_scale_write, write_scale, override_reversed,
  override_record_mode_scale_factor,
}
use handycam_rs.Control.{ScaleFactor}
use handycam_rs.Prelude.{
  ℕ, ◌≡◌, refl, sym, ap, ◌∙◌, inl, inr, Bool, true, false, ◌&&◌, List, [], ◌∷◌, ◌++◌, reverse,
  append_assoc, arith, ◌==◌, Bool-cases, Bytes, length, All, All-append,
}

-- A one-byte write of the register 0x007c.
pub record IsScaleWrite (operation : InitOp) : Type 0 where
  pub delay : ℕ
  pub request_type : ℕ
  pub request : ℕ
  pub value : ℕ
  pub old : ℕ
  pub same : operation ≡ control_out delay request_type request value 0x007c (old ∷ [])

abbrev pub HasNoScaleWrite : List InitOp → Type 0
HasNoScaleWrite = All (λ operation. ¬ IsScaleWrite operation)

-- Either there is nothing to override, and nothing changes, or exactly the last write of the
-- register gets the new byte.
pub data Overridden (scale : ScaleFactor) (operations : List InitOp) (result : List InitOp × Bool)
    : Type 0 where
  untouched :
      HasNoScaleWrite operations → result ≡ (operations, false) → Overridden scale operations result
  rewritten :
      (before later : List InitOp) (delay request_type request value old : ℕ)
      → operations
        ≡ before ++ control_out delay request_type request value 0x007c (old ∷ []) ∷ later
      → HasNoScaleWrite later
      → result ≡ (
        before ++ control_out delay request_type request value 0x007c (scale.factor ∷ []) ∷ later,
        true,
      )
      → Overridden scale operations result

-- The same of the reversed list, from its front.
data FrontOverridden (scale : ScaleFactor) (operations : List InitOp) (result : List InitOp × Bool)
    : Type 0 where
  untouched :
      HasNoScaleWrite operations
      → result ≡ (operations, false)
      → FrontOverridden scale operations result
  rewritten :
      (front back : List InitOp) (delay request_type request value old : ℕ)
      → operations ≡ front ++ control_out delay request_type request value 0x007c (old ∷ []) ∷ back
      → HasNoScaleWrite front
      → result ≡ (
        front ++ control_out delay request_type request value 0x007c (scale.factor ∷ []) ∷ back,
        true,
      )
      → FrontOverridden scale operations result

-- What the code's test says of an operation, and what it writes there.
abbrev Tells : ScaleFactor → InitOp → Bool → Type 0
Tells scale operation false = ¬ IsScaleWrite operation
Tells scale operation true =
    (w : IsScaleWrite operation) × (write_scale scale operation
      ≡ control_out w.delay w.request_type w.request w.value 0x007c (scale.factor ∷ []))

one_byte : (payload : Bytes) → length payload ≡ 1 → (old : ℕ) × (payload ≡ old ∷ [])
one_byte [] h = absurd (omega (arith, h))
one_byte (old ∷ []) h = (old, refl)
one_byte (old ∷ next ∷ rest) h = absurd (omega (arith, h))

index_of : InitOp → ℕ
index_of (control_out delay request_type request value index payload) = index
index_of _ = 0

payload_of : InitOp → Bytes
payload_of (control_out delay request_type request value index payload) = payload
payload_of _ = []

write-Tells :
    (scale : ScaleFactor) (delay request_type request value old : ℕ)
    → Tells scale (control_out delay request_type request value 0x007c (old ∷ [])) true
unfolding write_scale
write-Tells scale delay request_type request value old = (
  record {
    delay = delay;
    request_type = request_type;
    request = request;
    value = value;
    old = old;
    same = refl;
  },
  refl,
)

out-Tells :
    (scale : ScaleFactor) (delay request_type request value index : ℕ) (payload : Bytes)
    → Tells scale
        (control_out delay request_type request value index payload)
        (is_scale_write (control_out delay request_type request value index payload))
unfolding is_scale_write index_of payload_of
out-Tells scale delay request_type request value index payload =
    elim (Bool-cases (index == 0x007c && length payload == 1)) [
      | inl e ↦
          let at : index ≡ 0x007c = ground (arith, e) in
          let (old, single) = one_byte payload (ground (arith, e)) in
          rw e (
            subst (λ i. Tells scale (control_out delay request_type request value i payload) true)
              (sym at)
              (subst (λ p. Tells scale (control_out delay request_type request value 0x007c p) true)
                (sym single) (write-Tells scale delay request_type request value old)))
      | inr e ↦ rw e (λ w.
          let at : index ≡ 0x007c = ap index_of w.same in
          let one : length payload ≡ 1 = ap (λ o. length (payload_of o)) w.same ∙ omega arith in
          absurd (ground (arith, e, at, one)))
    ]

is_scale_write-Tells :
    (scale : ScaleFactor) (operation : InitOp) → Tells scale operation (is_scale_write operation)
unfolding is_scale_write
is_scale_write-Tells scale (control_out delay request_type request value index payload) =
    out-Tells scale delay request_type request value index payload
is_scale_write-Tells scale (control_in delay request_type request value index size) =
    λ w. absurd (ground (arith, w.same))
is_scale_write-Tells scale (set_interface delay interface alternate) =
    λ w. absurd (ground (arith, w.same))

front_cons :
    (scale : ScaleFactor) (operation : InitOp) (rest : List InitOp)
    → ¬ IsScaleWrite operation
    → is_scale_write operation ≡ false
    → FrontOverridden scale rest (override_reversed scale rest)
    → FrontOverridden scale (operation ∷ rest) (override_reversed scale (operation ∷ rest))
unfolding override_reversed
front_cons scale operation rest other k (untouched none_fits e) =
    rw (k, e) (untouched (other, none_fits) refl)
front_cons scale operation rest other k
      (rewritten front back delay request_type request value old splits none_before e) =
    rw (k, e)
      (rewritten (operation ∷ front) back delay request_type request value old
        (ap (◌∷◌ operation) splits) (other, none_before) refl)

front_here :
    (scale : ScaleFactor) (operation : InitOp) (rest : List InitOp)
    → Tells scale operation true
    → FrontOverridden scale (operation ∷ rest) (write_scale scale operation ∷ rest, true)
front_here scale operation rest (w, writes) =
    rewritten [] rest w.delay w.request_type w.request w.value w.old (ap (λ o. o ∷ rest) w.same) tt
      (ap (λ o. (o ∷ rest, true)) writes)

override_reversed-Front :
    (scale : ScaleFactor) (operations : List InitOp)
    → FrontOverridden scale operations (override_reversed scale operations)
unfolding override_reversed
override_reversed-Front scale [] = untouched tt refl
override_reversed-Front scale (operation ∷ rest) =
    let told = is_scale_write-Tells scale operation in
    elim (Bool-cases (is_scale_write operation)) [
      | inl k ↦ rw k (front_here scale operation rest (subst (Tells scale operation) k told))
      | inr k ↦
          front_cons scale operation rest (subst (Tells scale operation) k told) k
            (override_reversed-Front scale rest)
    ]

All-reverse :
    (operations : List InitOp) → HasNoScaleWrite operations → HasNoScaleWrite (reverse operations)
All-reverse [] h = tt
All-reverse (o ∷ os) h = rw (reverse-cons o os) (
    All-append (λ operation. ¬ IsScaleWrite operation) (reverse os) (o ∷ [])
      (All-reverse os h.1, (h.0, tt)))

reverse_split :
    (front back : List InitOp) (x : InitOp)
    → reverse (front ++ x ∷ back) ≡ reverse back ++ x ∷ reverse front
reverse_split front back x =
    reverse-append front (x ∷ back)
    ∙ ap (λ l. l ++ reverse front) (reverse-cons x back)
    ∙ append_assoc (reverse back) (x ∷ []) (reverse front)

back_to_front :
    (scale : ScaleFactor) (operations : List InitOp) (r : List InitOp × Bool)
    → FrontOverridden scale (reverse operations) r
    → Overridden scale operations (reverse r.0, r.1)
back_to_front scale operations r (untouched none_fits e) =
    untouched (rw reverse-reverse at (All-reverse (reverse operations) none_fits))
      (rw e (ap (λ l. (l, false)) (reverse-reverse operations)))
back_to_front scale operations r
      (rewritten front back delay request_type request value old splits none_before e) =
    rewritten (reverse back) (reverse front) delay request_type request value old
      (sym (reverse-reverse operations) ∙ ap reverse splits ∙ reverse_split front back _)
      (All-reverse front none_before) (rw e (ap (λ l. (l, true)) (reverse_split front back _)))

-- Either no operation is a control write of one byte at index 0x007c, and the override changes
-- nothing and says so; or the byte of the last such write, and nothing else of it, becomes the scale
-- factor, every operation before and behind it stays, and the override says that it found one.
pub override_record_mode_scale_factor-Overridden :
    (operations : List InitOp) (scale : ScaleFactor)
    → Overridden scale operations (override_record_mode_scale_factor operations scale)
unfolding override_record_mode_scale_factor
override_record_mode_scale_factor-Overridden operations scale =
    back_to_front scale operations (override_reversed scale (reverse operations))
      (override_reversed-Front scale (reverse operations))
