-- ===== src/Control/Mailbox.antt =====
-- The command mailbox of crates/handycam-core/src/control.rs and the scan acknowledgement.
use handycam_rs.Prelude.Bits.{table_holds, table_holds_lem, bit_and_low, bit_or_disjoint}
use handycam_rs.Control.{command_block, ack_of_command, scan_ack_token}
use handycam_rs.Prelude.{
  ℕ, ◌+◌, ◌*◌, ◌/◌, ◌%◌, ◌^◌, ◌<◌, bit_and, bit_or, ◌≡◌, refl, ◌↔◌, true, some, arith, ◌==◌, ==_iff,
  length, be_bytes,
}

-- 0xf0 keeps the high nibble of a byte.
high_nibble_table : table_holds (λ b. bit_and b 0xf0 == b / 16 * 16) 256 ≡ true
unfolding table_holds
high_nibble_table = refl

pub bit_and_high_nibble : (b : ℕ) → b < 256 → bit_and b 0xf0 ≡ b / 16 * 16
bit_and_high_nibble b h = (==_iff _ _).0 (table_holds_lem _ 256 b h high_nibble_table)

pub length-command_block : (w : ℕ) → length (command_block w) ≡ 64
unfolding command_block
length-command_block w = refl

-- The mailbox is its zero padding and the word's four bytes.
scan_ack_token-command_block :
    (w : ℕ) → scan_ack_token (command_block w) ≡ ack_of_command (be_bytes 4 w)
unfolding scan_ack_token command_block
scan_ack_token-command_block w = refl

-- A scan command word: 00 n9 10 n1.
abbrev pub scan_word : ℕ → ℕ
scan_word n = n * 2 ^ 20 + 9 * 2 ^ 16 + 0x10 * 2 ^ 8 + n * 2 ^ 4 + 1

-- The second byte's nibbles, and the token made of the high one.
low_nibble : (b : ℕ) → bit_and b 0x0f ≡ b % 16
low_nibble b = bit_and_low 4 b

token_of : (b : ℕ) → b < 256 → bit_or (bit_and b 0xf0) 0x01 ≡ b / 16 * 16 + 1
token_of b h = rw (bit_and_high_nibble b h) (bit_or_disjoint 4 (b / 16) 1 (omega arith))

abbrev c0 : ℕ → ℕ
c0 w = w / 256 / 256 / 256 % 256

abbrev c1 : ℕ → ℕ
c1 w = w / 256 / 256 % 256

abbrev c2 : ℕ → ℕ
c2 w = w / 256 % 256

abbrev c3 : ℕ → ℕ
c3 w = w % 256

-- `ack_of_command` in terms of the four bytes, with the masks as arithmetic.
ack_of_bytes :
    (w token : ℕ)
    → (ack_of_command (be_bytes 4 w) ≡ some token) ↔ (
        (c0 w ≡ 0) × (c1 w % 16 ≡ 9) × (c2 w ≡ 0x10) × (c3 w ≡ c1 w / 16 * 16 + 1) × (token ≡ c3 w))
unfolding ack_of_command
ack_of_bytes w token = ground (arith, low_nibble (c1 w), token_of (c1 w) (omega arith))

-- The mailbox of a 32-bit command word has an acknowledgement token exactly when the word is
-- 00 n9 10 n1 for some nibble n, and then the token is n1.
pub scan_ack_token_iff :
    (w token : ℕ)
    → w < 2 ^ 32
    → (scan_ack_token (command_block w) ≡ some token)
      ↔ ((n : ℕ) × (n < 16) × (w ≡ scan_word n) × (token ≡ n * 16 + 1))
scan_ack_token_iff w token h = rw (scan_ack_token-command_block w) (
  (λ e.
      let (b0, b1, b2, b3, t) = (ack_of_bytes w token).0 e in
      (c1 w / 16, omega arith, omega arith, omega arith)),
  (λ (n, small, word, t).
      (ack_of_bytes w token).1 (omega arith, omega arith, omega arith, omega arith, omega arith)),
)
