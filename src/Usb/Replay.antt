-- ===== src/Usb/Replay.antt =====
-- `replay_initialization` of crates/handycam-libusb/src/transport.rs.
use handycam_rs.Init.{InitOp, control_in, control_out, set_interface, delay_us}
use handycam_rs.Usb.{
  Usb, InitStrategy, acknowledgement_token, Run, ◌>>=◌, as_usb, startup_scan_token, poll_run, ret,
  read_exactly, write_all, sleep_for, poll_status_acknowledgement,
}
use handycam_rs.Prelude.{ℕ, zero, suc, Option, none, some, List, [], ◌∷◌, ◌==◌, if◌then◌else◌}

-- The acknowledgement that a strategy polls for behind this operation, in front of this rest of
-- the plan: a startup scan command whose reads the plan repeats.
unfoldable pub polled_token : InitStrategy → InitOp → List InitOp → Option ℕ
polled_token strategy operation rest = elim (startup_scan_token operation) [
  | none ↦ none
  | some command_token ↦
      if poll_run rest == 0 then none else acknowledgement_token strategy command_token
]

module _ (lib : Usb) where
  open lib use {set_alternate_setting}

  -- An operation on the device, behind its delay.
  unfoldable pub perform : InitOp → Run lib (Unit {0})
  unfolding read_exactly write_all ret
  perform (control_in delay request_type request value index size) = do
    bytes ← read_exactly lib request_type request value index size
    ret lib tt
  perform (control_out delay request_type request value index payload) =
      write_all lib request_type request value index payload
  perform (set_interface delay interface alternate) = λ handle.
      let (handle', result) = set_alternate_setting handle interface alternate in
      (handle', as_usb result)

  -- The loop, `skipped` operations in front of the position: it steps over the reads that a poll
  -- stands for.
  unfoldable pub replay_from : InitStrategy → ℕ → List InitOp → Run lib (Unit {0})
  unfolding sleep_for perform ret poll_status_acknowledgement
  replay_from strategy skipped [] = ret lib tt
  replay_from strategy (suc skipped) (operation ∷ rest) = replay_from strategy skipped rest
  replay_from strategy zero (operation ∷ rest) = do
    slept ← sleep_for lib (delay_us operation)
    performed ← perform operation
    let literal = replay_from strategy 0 rest
    let behind_poll = replay_from strategy (poll_run rest) rest
    elim (polled_token strategy operation rest) [
      | none ↦ literal
      | some token ↦ do attempts ← poll_status_acknowledgement lib token; behind_poll
    ]

  unfoldable pub replay_initialization : List InitOp → InitStrategy → Run lib (Unit {0})
  unfolding replay_from
  replay_initialization plan strategy = replay_from strategy 0 plan
