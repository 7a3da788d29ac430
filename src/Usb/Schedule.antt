-- ===== src/Usb/Schedule.antt =====
-- What a replay of an initialization plan by crates/handycam-libusb/src/transport.rs does to the
-- camera: which operations of the plan reach it, and where it polls instead.
use handycam_rs.Init.{InitOp, delay_us}
use handycam_rs.Usb.{
  Usb, InitStrategy, literal_replay, acknowledgement_token, UsbTransportError, Run, continue_with,
  ◌>>=◌, is_status_poll, poll_run, ret, sleep_for, poll_status_acknowledgement,
}
use handycam_rs.Usb.Replay.{polled_token, perform, replay_from, replay_initialization}
use handycam_rs.Prelude.{
  ℕ, zero, suc, ◌≤◌, ◌≡◌, refl, ap, ◌∙◌, inl, inr, true, none, some, List, [], ◌∷◌, map, arith,
  Bool-cases, Option-cases, length, take, drop, All, length-drop, Result, ok, err,
}

-- An operation of the plan, behind its delay, or a poll for an acknowledgement.
pub data Action : Type 0 where
  operate : InitOp → Action
  poll : ℕ → Action

abbrev pub IsStatusPoll : InitOp → Type 0
IsStatusPoll operation = is_status_poll operation ≡ true

-- The actions of a plan under a strategy. A poll stands behind a startup scan command, for all
-- the status reads (one at least) that the plan has behind it; every other operation is kept.
pub data Schedules (strategy : InitStrategy) : List InitOp → List Action → Type 0 where
  done : Schedules strategy [] []
  kept :
      {operation : InitOp} {rest : List InitOp} {actions : List Action}
      → polled_token strategy operation rest ≡ none
      → Schedules strategy rest actions
      → Schedules strategy (operation ∷ rest) (operate operation ∷ actions)
  replaced :
      {operation : InitOp} {rest : List InitOp} {token : ℕ} {actions : List Action} (reads : ℕ)
      → 1 ≤ reads
      → polled_token strategy operation rest ≡ some token
      → All IsStatusPoll (take reads rest)
      → poll_run (drop reads rest) ≡ 0
      → Schedules strategy (drop reads rest) actions
      → Schedules strategy (operation ∷ rest) (operate operation ∷ poll token ∷ actions)

polled_token-run :
    (strategy : InitStrategy) (operation : InitOp) (rest : List InitOp) (token : ℕ)
    → polled_token strategy operation rest ≡ some token
    → 1 ≤ poll_run rest
unfolding polled_token
polled_token-run strategy operation rest token h = ground (arith, h)

module _ (lib : Usb) where
  -- One action, then those behind it unless it fails.
  unfoldable pub run_actions : List Action → Run lib (Unit {0})
  run_actions [] = ret lib tt
  run_actions (operate operation ∷ actions) = do
    slept ← sleep_for lib (delay_us operation)
    performed ← perform lib operation
    run_actions actions
  run_actions (poll token ∷ actions) = do
    attempts ← poll_status_acknowledgement lib token
    run_actions actions

  -- Some schedule of the plan is what the replay runs.
  abbrev pub Replays : InitStrategy → List InitOp → Run lib (Unit {0}) → Type 0
  Replays strategy plan replay =
      (actions : List Action) × Schedules strategy plan actions
      × ((handle : lib.Handle) → replay handle ≡ run_actions actions handle)

  replay_from-skip :
      (strategy : InitStrategy) (plan : List InitOp) (n : ℕ) (handle : lib.Handle)
      → replay_from lib strategy n plan handle ≡ replay_from lib strategy 0 (drop n plan) handle
  unfolding replay_from
  replay_from-skip strategy plan zero handle = refl
  replay_from-skip strategy [] (suc n) handle = refl
  replay_from-skip strategy (operation ∷ plan) (suc n) handle =
      replay_from-skip strategy plan n handle

  -- The reads that a plan starts with, and that none follows them.
  poll_run-reads :
      (plan : List InitOp)
      → All IsStatusPoll (take (poll_run plan) plan) × (poll_run (drop (poll_run plan) plan) ≡ 0)
  unfolding poll_run
  poll_run-reads [] = (tt, refl)
  poll_run-reads (operation ∷ plan) = elim (Bool-cases (is_status_poll operation)) [
    | inl e ↦ (rw e (e, (poll_run-reads plan).0), rw e (poll_run-reads plan).1)
    | inr e ↦ (rw e tt, rw (e, poll_run, e) refl)
  ]

  continue_same :
      {A B : Type 0} (r : lib.Handle × Result (UsbTransportError lib) A) (f g : A → Run lib B)
      → ((a : A) (handle : lib.Handle) → f a handle ≡ g a handle)
      → continue_with r f ≡ continue_with r g
  unfolding continue_with
  continue_same (handle, ok a) f g same = same a handle
  continue_same (handle, err e) f g same = refl

  Replays-kept :
      (strategy : InitStrategy) (operation : InitOp) (rest : List InitOp)
      → polled_token strategy operation rest ≡ none
      → Replays strategy rest (replay_from lib strategy 0 rest)
      → Replays strategy (operation ∷ rest) (replay_from lib strategy 0 (operation ∷ rest))
  unfolding replay_from run_actions ◌>>=◌ continue_with sleep_for
  Replays-kept strategy operation rest e (actions, scheduled, same) = (
    operate operation ∷ actions,
    kept e scheduled,
    λ handle. rw e (
        continue_same (perform lib operation (lib.sleep handle (delay_us operation)))
          (λ performed. replay_from lib strategy 0 rest) (λ performed. run_actions actions)
          (λ performed later. same later)),
  )

  Replays-replaced :
      (strategy : InitStrategy) (operation : InitOp) (rest : List InitOp) (token : ℕ)
      → polled_token strategy operation rest ≡ some token
      → Replays strategy
          (drop (poll_run rest) rest)
          (replay_from lib strategy 0 (drop (poll_run rest) rest))
      → Replays strategy (operation ∷ rest) (replay_from lib strategy 0 (operation ∷ rest))
  unfolding replay_from run_actions ◌>>=◌ continue_with sleep_for
  Replays-replaced strategy operation rest token e (actions, scheduled, same) = (
    operate operation ∷ poll token ∷ actions,
    replaced (poll_run rest) (polled_token-run strategy operation rest token e) e
        (poll_run-reads rest).0 (poll_run-reads rest).1 scheduled,
    λ handle. rw e (
        continue_same (perform lib operation (lib.sleep handle (delay_us operation)))
          (λ performed later.
            continue_with (poll_status_acknowledgement lib token later)
              (λ attempts. replay_from lib strategy (poll_run rest) rest))
          (λ performed later.
            continue_with (poll_status_acknowledgement lib token later)
              (λ attempts. run_actions actions))
          (λ performed later.
            continue_same (poll_status_acknowledgement lib token later)
              (λ attempts. replay_from lib strategy (poll_run rest) rest)
              (λ attempts. run_actions actions)
              (λ attempts last. replay_from-skip strategy rest (poll_run rest) last ∙ same last))),
  )

  replays :
      (strategy : InitStrategy) (fuel : ℕ) (plan : List InitOp)
      → length plan ≤ fuel
      → Replays strategy plan (replay_from lib strategy 0 plan)
  unfolding replay_from run_actions
  replays strategy fuel [] enough = ([], done, λ handle. refl)
  replays strategy zero (operation ∷ rest) enough = absurd (omega arith)
  replays strategy (suc fuel) (operation ∷ rest) enough =
      elim (Option-cases (polled_token strategy operation rest)) [
        | inl e ↦ Replays-kept strategy operation rest e (replays strategy fuel rest (omega arith))
        | inr (token, e) ↦ Replays-replaced strategy operation rest token e (
            replays strategy fuel (drop (poll_run rest) rest)
              (omega (arith, length-drop (poll_run rest) rest)))
      ]

  -- A replay of a plan does to the camera exactly what some schedule of the plan says: every
  -- operation in order, each behind its delay and up to the first that fails; only the status
  -- reads straight behind a startup scan command are left out, all of them and never any other
  -- operation, where the strategy polls for the acknowledgement of that command instead.
  pub replay_initialization-Replays :
      (strategy : InitStrategy) (plan : List InitOp)
      → Replays strategy plan (replay_initialization lib plan strategy)
  unfolding replay_initialization
  replay_initialization-Replays strategy plan = replays strategy (length plan) plan (omega arith)

literal_never_polls :
    (operation : InitOp) (rest : List InitOp) (token : ℕ)
    → ¬ (polled_token literal_replay operation rest ≡ some token)
unfolding polled_token acknowledgement_token
literal_never_polls operation rest token = ground arith

Schedules-literal :
    (plan : List InitOp) (actions : List Action)
    → Schedules literal_replay plan actions
    → actions ≡ map operate plan
Schedules-literal plan actions done = refl
Schedules-literal (operation ∷ rest) (first ∷ actions) (kept e scheduled) =
    ap (◌∷◌ (operate operation)) (Schedules-literal rest actions scheduled)
Schedules-literal (operation ∷ rest) (first ∷ second ∷ actions)
      (replaced reads some_read e all_reads behind scheduled) =
    absurd (literal_never_polls operation rest _ e)

-- Under the literal strategy every operation of the plan reaches the camera, in order, each
-- behind its delay, up to the first that fails, and nothing else does.
pub replay_initialization-literal :
    (lib : Usb) (plan : List InitOp) (handle : lib.Handle)
    → replay_initialization lib plan literal_replay handle
      ≡ run_actions lib (map operate plan) handle
replay_initialization-literal lib plan handle =
    let (actions, scheduled, same) = replay_initialization-Replays lib literal_replay plan in
    same handle
    ∙ ap (λ (chosen : List Action). run_actions lib chosen handle)
        (Schedules-literal plan actions scheduled)
