-- ===== src/Usb/Opening/Keeping.antt =====
-- The replay of a plan leaves the claim of the interface alone: crates/handycam-libusb/src/transport.rs.
use handycam_rs.Init.{InitOp, control_in, control_out, set_interface, delay_us}
use handycam_rs.Usb.{
  Usb, UsbTransportError, InitStrategy, Run, continue_with, ◌>>=◌, ret, fail, read_exactly,
  write_all, sleep_for, read_status_block, timed_out, poll_until, poll_status_acknowledgement,
  poll_run, status_poll_interval, status_poll_timeout,
}
use handycam_rs.Usb.Replay.{polled_token, perform, replay_from, replay_initialization}
use handycam_rs.Usb.Opening.{Host}
use handycam_rs.Stream.{Endpoint}
use handycam_rs.Prelude.{
  ℕ, zero, suc, ◌+◌, ◌≡◌, refl, ◌∙◌, inl, inr, Bool, true, false, not, Option, none, some, List, [],
  ◌∷◌, leb, ◌==◌, if◌then◌else◌, Bool-cases, Bytes, length, get_or, Result, ok, err,
}

-- Whether the interface is claimed: a claim that succeeds sets it, a release that
-- succeeds clears it, and nothing else changes it.
pub record IsClaim (lib : Usb) (host : Host lib) : Type 0 where
  pub claimed : lib.Handle → Bool
  pub asks : (i : ℕ) (h : lib.Handle) → claimed (host.kernel_driver_active i h).0 ≡ claimed h
  pub claims :
      (i : ℕ) (h : lib.Handle)
      → claimed (host.claim_interface i h).0
        ≡ (elim (host.claim_interface i h).1 [ ok done ↦ true | err error ↦ claimed h ])
  pub releases :
      (i : ℕ) (h : lib.Handle)
      → claimed (host.release_interface i h).0
        ≡ (elim (host.release_interface i h).1 [ ok done ↦ false | err error ↦ claimed h ])
  pub allocates : (h : lib.Handle) → claimed (host.alloc_transfer h).0 ≡ claimed h
  pub submits : (e : Endpoint) (h : lib.Handle) → claimed (host.submit_transfer e h).0 ≡ claimed h
  pub cancels : (h : lib.Handle) → claimed (host.cancel_transfer h) ≡ claimed h
  pub reads :
      (h : lib.Handle) (request_type request value index size : ℕ)
      → claimed (lib.read_control h request_type request value index size).0 ≡ claimed h
  pub writes :
      (h : lib.Handle) (request_type request value index : ℕ) (payload : Bytes)
      → claimed (lib.write_control h request_type request value index payload).0 ≡ claimed h
  pub sets :
      (h : lib.Handle) (i alternate : ℕ)
      → claimed (lib.set_alternate_setting h i alternate).0 ≡ claimed h
  pub sleeps : (h : lib.Handle) (micros : ℕ) → claimed (lib.sleep h micros) ≡ claimed h

module _ (lib : Usb) (host : Host lib) (claim : IsClaim lib host) where
  open claim use {claimed}

  abbrev Keeps : {A : Type 0} → Run lib A → Type 0
  Keeps m = (h : lib.Handle) → claimed (m h).0 ≡ claimed h

  continue_with-Keeps :
      {A B : Type 0} (r : lib.Handle × Result (UsbTransportError lib) A) (f : A → Run lib B)
      → ((a : A) → Keeps (f a))
      → claimed (continue_with r f).0 ≡ claimed r.0
  unfolding continue_with
  continue_with-Keeps (h, ok a) f keeps = keeps a h
  continue_with-Keeps (h, err e) f keeps = refl

  bind-Keeps :
      {A B : Type 0} (m : Run lib A) (f : A → Run lib B)
      → Keeps m
      → ((a : A) → Keeps (f a))
      → Keeps (m >>= f)
  unfolding ◌>>=◌
  bind-Keeps m f first later h = continue_with-Keeps (m h) f later ∙ first h

  if-Keeps :
      {A : Type 0} (test : Bool) (m n : Run lib A)
      → Keeps m
      → Keeps n
      → Keeps (if test then m else n)
  if-Keeps true m n keeps keeps' = keeps
  if-Keeps false m n keeps keeps' = keeps'

  read_exactly-Keeps :
      (request_type request value index size : ℕ)
      → Keeps (read_exactly lib request_type request value index size)
  unfolding read_exactly ret fail
  read_exactly-Keeps request_type request value index size =
      bind-Keeps _ _ (λ h. claim.reads h request_type request value index size)
        (λ bytes. if-Keeps (not (length bytes == size)) _ _ (λ h. refl) (λ h. refl))

  write_all-Keeps :
      (request_type request value index : ℕ) (payload : Bytes)
      → Keeps (write_all lib request_type request value index payload)
  unfolding write_all ret fail
  write_all-Keeps request_type request value index payload =
      bind-Keeps _ _ (λ h. claim.writes h request_type request value index payload)
        (λ actual. if-Keeps (not (actual == length payload)) _ _ (λ h. refl) (λ h. refl))

  timed_out-Keeps :
      (deadline token last_status : ℕ) (again : Run lib ℕ)
      → Keeps again
      → Keeps (timed_out lib deadline token last_status again)
  unfolding timed_out
  timed_out-Keeps deadline token last_status again keeps h =
      elim (Bool-cases (leb deadline (lib.now h))) [ inl e ↦ rw e refl | inr e ↦ rw e (keeps h) ]

  poll_until-Keeps :
      (fuel deadline attempts token : ℕ) → Keeps (poll_until lib fuel deadline attempts token)
  unfolding poll_until read_status_block sleep_for ret fail
  poll_until-Keeps zero deadline attempts token = λ h. refl
  poll_until-Keeps (suc fuel) deadline attempts token =
      bind-Keeps _ _ (λ h. claim.sleeps h status_poll_interval)
        (λ slept. bind-Keeps _ _ (read_exactly-Keeps 0xc0 0x88 0 0x0340 64) (λ status.
          if-Keeps (get_or status 0 0 == token) _ _ (λ h. refl)
            (timed_out-Keeps deadline token (get_or status 0 0) _
              (poll_until-Keeps fuel deadline (attempts + 1) token))))

  poll-Keeps : (token : ℕ) → Keeps (poll_status_acknowledgement lib token)
  unfolding poll_status_acknowledgement
  poll-Keeps token h = poll_until-Keeps 50 (lib.now h + status_poll_timeout) 0 token h

  perform-Keeps : (operation : InitOp) → Keeps (perform lib operation)
  unfolding perform ret
  perform-Keeps (control_in delay request_type request value index size) =
      bind-Keeps _ _ (read_exactly-Keeps request_type request value index size) (λ bytes h. refl)
  perform-Keeps (control_out delay request_type request value index payload) =
      write_all-Keeps request_type request value index payload
  perform-Keeps (set_interface delay interface alternate) = λ h. claim.sets h interface alternate

  polled-Keeps :
      (token : Option ℕ) (literal behind_poll : Run lib (Unit {0}))
      → Keeps literal
      → Keeps behind_poll
      → Keeps (elim token [
        | none ↦ literal
        | some t ↦ poll_status_acknowledgement lib t >>= λ attempts. behind_poll
      ])
  polled-Keeps none literal behind_poll keeps keeps' = keeps
  polled-Keeps (some t) literal behind_poll keeps keeps' =
      bind-Keeps (poll_status_acknowledgement lib t) _ (poll-Keeps t) (λ attempts. keeps')

  replay_from-Keeps :
      (strategy : InitStrategy) (skipped : ℕ) (plan : List InitOp)
      → Keeps (replay_from lib strategy skipped plan)
  unfolding replay_from sleep_for ret
  replay_from-Keeps strategy skipped [] = λ h. refl
  replay_from-Keeps strategy (suc skipped) (operation ∷ rest) =
      replay_from-Keeps strategy skipped rest
  replay_from-Keeps strategy zero (operation ∷ rest) =
      bind-Keeps _ _ (λ h. claim.sleeps h (delay_us operation))
        (λ slept. bind-Keeps _ _ (perform-Keeps operation) (λ performed.
          polled-Keeps (polled_token strategy operation rest) _ _
            (replay_from-Keeps strategy 0 rest) (replay_from-Keeps strategy (poll_run rest) rest)))

  pub replay_initialization-Keeps :
      (plan : List InitOp) (strategy : InitStrategy) (h : lib.Handle)
      → claimed (replay_initialization lib plan strategy h).0 ≡ claimed h
  unfolding replay_initialization
  replay_initialization-Keeps plan strategy h = replay_from-Keeps strategy 0 plan h
