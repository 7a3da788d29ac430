-- ===== src/Tests/Controls.antt =====
-- Register writes and mailbox commands of crates/handycam-core/src/control.rs.
use handycam_rs.Control.{command_block, play, stop, rewind, scan_ack_token}
use handycam_rs.Control.Mailbox.{scan_word, scan_ack_token_iff}
use handycam_rs.Control.Transport.{read_command, encode_all, read_command-encode_all}
use handycam_rs.Prelude.{ℕ, ◌+◌, ◌*◌, ◌<◌, ◌≡◌, ◌↔◌, some, [], ◌∷◌, map, arith}

read_command-encode_all_example :
    map
      (λ w. read_command (command_block w))
      (encode_all (record { sequence = 14 }) (play ∷ stop ∷ rewind ∷ []))
    ≡ some (15, play) ∷ some (0, stop) ∷ some (1, rewind) ∷ []
read_command-encode_all_example =
    read_command-encode_all (play ∷ stop ∷ rewind ∷ []) (record { sequence = 14 })

scan_ack_token_iff_example :
    (scan_ack_token (command_block 0x00a910a1) ≡ some 0xa1)
    ↔ ((n : ℕ) × (n < 16) × (0x00a910a1 ≡ scan_word n) × (0xa1 ≡ n * 16 + 1))
scan_ack_token_iff_example = scan_ack_token_iff 0x00a910a1 0xa1 (omega arith)
