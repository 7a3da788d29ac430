-- ===== src/Cli/Reconnect/Waiting.antt =====
-- How long the wait between two attempts of crates/handycam-cli/src/main.rs to open the camera lasts.
use handycam_rs.Cli.Streaming.{Streams, AppError, check_sink}
use handycam_rs.Cli.Reconnect.{
  Driver, Waited, end_of_wait, wait_checked, wait_turn, wait_until, wait_interruptibly,
}
use handycam_rs.Prelude.{
  ℕ, zero, suc, ◌+◌, ◌*◌, ◌/◌, ◌≤◌, ◌≡◌, inl, inr, true, false, Option, none, some, arith, ltb,
  Bool-cases, Result, ok, err,
}

-- A sleep lasts as long as asked for, and nothing turns the clock back.
pub record IsClock (io : Streams) (driver : Driver io) : Type 0 where
  pub sleep_lasts :
      (micros : ℕ) (w : io.World) → driver.now w + micros ≤ driver.now (driver.sleep micros w)
  pub ask_forward : (w : io.World) → driver.now w ≤ driver.now (io.stopping w).0
  pub receive_forward : (w : io.World) → driver.now w ≤ driver.now (io.try_recv w).0

module _ (io : Streams) (driver : Driver io) (clock : IsClock io driver) where
  open io use {World, SinkFailure, stopping, try_recv}
  open driver use {now, sleep}

  -- The wait came to its end, and not before the deadline unless something else ended it.
  abbrev pub IsWait : ℕ → Waited io driver → Type 0
  IsWait deadline (w, some (ok false)) = deadline ≤ now w
  IsWait deadline (w, some (ok true)) = Unit
  IsWait deadline (w, some (err error)) = Unit
  IsWait deadline (w, none) = ⊥

  wait_checked-IsWait :
      (deadline : ℕ) (rest : World → Waited io driver) (w : World)
      (checked : Option (Result (AppError SinkFailure) (Unit {0})))
      → IsWait deadline (rest (sleep 50_000 w))
      → IsWait deadline (wait_checked io driver rest w checked)
  unfolding wait_checked end_of_wait
  wait_checked-IsWait deadline rest w (some (ok done)) goes_on = tt
  wait_checked-IsWait deadline rest w (some (err error)) goes_on = tt
  wait_checked-IsWait deadline rest w none goes_on = goes_on

  wait_until-IsWait :
      (fuel deadline : ℕ) (w : World)
      → deadline ≤ now w + fuel * 50_000
      → IsWait deadline (wait_until io driver (suc fuel) deadline w)
  unfolding wait_until wait_turn
  wait_until-IsWait zero deadline w enough =
      let over : ltb (now w) deadline ≡ false = ground arith in rw over (omega arith)
  wait_until-IsWait (suc fuel) deadline w enough = elim (Bool-cases (ltb (now w) deadline)) [
    | inr over ↦ rw over (ground arith)
    | inl before ↦ elim (Bool-cases (stopping w).1) [
      | inl stop ↦ rw (before, stop) tt
      | inr goes ↦
          let asked = (stopping w).0 in
          let told = (try_recv asked).0 in
          rw (before, goes)
            (wait_checked-IsWait deadline (wait_until io driver (suc fuel) deadline) told
              (check_sink (try_recv asked).1)
              (wait_until-IsWait fuel deadline (sleep 50_000 told) (
                omega (
                  arith,
                  clock.sleep_lasts 50_000 told,
                  clock.ask_forward w,
                  clock.receive_forward asked,
                ))))
    ]
  ]

  -- With sleeps that last as long as asked for and a clock that is not turned back, the wait before the
  -- next attempt to open the camera ends, after at most one look at the flag and the output thread for
  -- each 50 ms and two; and it lets the loop go on only when the whole duration is over.
  pub wait_interruptibly-IsWait :
      (duration : ℕ) (w : World)
      → IsWait (now w + duration) (wait_interruptibly io driver duration w)
  unfolding wait_interruptibly
  wait_interruptibly-IsWait duration w =
      wait_until-IsWait (duration / 50_000 + 1) (now w + duration) w (omega arith)
