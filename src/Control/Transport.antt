-- ===== src/Control/Transport.antt =====
-- The tape transport commands of crates/handycam-core/src/control.rs.
use handycam_rs.Prelude.Bits.{bit_and_low, bit_or_disjoint}
use handycam_rs.Control.Mailbox.{scan_ack_token_iff}
use handycam_rs.Control.{
  command_block, TransportCommand, play, pause, stop, fast_forward, rewind, command_byte,
  TransportCommandEncoder, next_sequence, command_word, encode, scan_ack_token,
}
use handycam_rs.Prelude.{
  ℕ, ◌+◌, ◌*◌, ◌/◌, ◌%◌, ◌^◌, ◌<◌, bit_or, ◌≡◌, refl, ap, ap₂, ◌∙◌, inl, inr, ◌&&◌, Option, none,
  some, List, [], ◌∷◌, map, arith, ◌==◌, if◌then◌else◌, ==_refl, Option-cases, Bytes, get_or,
}

command_byte-lt : (c : TransportCommand) → command_byte c < 256
command_byte-lt play = omega arith
command_byte-lt _ = omega arith

next_sequence_lem : (s : ℕ) → next_sequence s ≡ (s + 1) % 16
unfolding next_sequence
next_sequence_lem s = omega (arith, bit_and_low 4 ((s + 1) % 256))

-- The three `|` are of disjoint fields.
command_word_lem :
    (n byte : ℕ)
    → n < 16
    → byte < 256
    → command_word n byte ≡ n * 2 ^ 20 + 2 ^ 16 + byte * 2 ^ 8 + n * 2 ^ 4
unfolding command_word
command_word_lem n byte h k =
    let high : bit_or (n * 2 ^ 20) (1 * 2 ^ 16) ≡ (n * 16 + 1) * 2 ^ 16 =
      bit_or_disjoint 20 n (1 * 2 ^ 16) (omega arith) ∙ omega arith in
    let middle : bit_or ((n * 16 + 1) * 2 ^ 16) (byte * 2 ^ 8)
        ≡ ((n * 16 + 1) * 256 + byte) * 2 ^ 8 =
      bit_or_disjoint 16 (n * 16 + 1) (byte * 2 ^ 8) (omega arith) ∙ omega arith in
    rw (high, middle)
      (bit_or_disjoint 8 ((n * 16 + 1) * 256 + byte) (n * 2 ^ 4) (omega arith) ∙ omega arith)

-- What the camera's side can read from a mailbox: the command and the sequence nibble of a
-- word 00 n1 cc n0.
unfoldable pub command_of_byte : ℕ → Option TransportCommand
command_of_byte byte =
    if byte == 0x1a
    then some play
    else if byte == 0x19
    then some pause
    else if byte == 0x18
    then some stop
    else if byte == 0x1c
    then some fast_forward
    else if byte == 0x1b
    then some rewind
    else none

unfoldable pub read_command : Bytes → Option (ℕ × TransportCommand)
read_command block =
    let c1 = get_or block 61 0 in
    let c3 = get_or block 63 0 in
    if get_or block 60 0 == 0 && c1 % 16 == 1 && c3 == c1 / 16 * 16
    then elim (command_of_byte (get_or block 62 0)) [ none ↦ none | some c ↦ some (c1 / 16, c) ]
    else none

read_fields :
    (n byte : ℕ) (c : TransportCommand)
    → n < 16
    → byte < 256
    → command_of_byte byte ≡ some c
    → read_command (command_block (command_word n byte)) ≡ some (n, c)
unfolding read_command command_block
read_fields n byte c h k e =
    let w = command_word n byte in
    let sum = command_word_lem n byte h k in
    let b0 : w / 256 / 256 / 256 % 256 ≡ 0 = omega (arith, sum) in
    let b1 : w / 256 / 256 % 256 ≡ n * 16 + 1 = omega (arith, sum) in
    let b2 : w / 256 % 256 ≡ byte = omega (arith, sum) in
    let b3 : w % 256 ≡ n * 16 = omega (arith, sum) in
    let high : (n * 16 + 1) / 16 ≡ n = omega arith in
    let low : (n * 16 + 1) % 16 ≡ 1 = omega arith in
    rw (b0, b1, b2, b3, high, low, e, ==_refl (n * 16)) (ap (λ k. some (k, c)) (omega (arith, b1)))

command_of_byte-command_byte : (c : TransportCommand) → command_of_byte (command_byte c) ≡ some c
unfolding command_of_byte
command_of_byte-command_byte play = refl
command_of_byte-command_byte _ = refl

read_command-encode :
    (e : TransportCommandEncoder) (c : TransportCommand)
    → read_command (command_block (encode e c).1) ≡ some ((encode e c).0.sequence, c)
unfolding encode
read_command-encode e c =
    read_fields (next_sequence e.sequence) (command_byte c) c
      (omega (arith, next_sequence_lem e.sequence)) (command_byte-lt c)
      (command_of_byte-command_byte c)

-- A session: the words of a list of commands.
unfoldable pub encode_all : TransportCommandEncoder → List TransportCommand → List ℕ
encode_all e [] = []
encode_all e (c ∷ cs) = let (e', word) = encode e c in word ∷ encode_all e' cs

abbrev pub numbered : ℕ → List TransportCommand → List (Option (ℕ × TransportCommand))
numbered s [] = []
numbered s (c ∷ cs) = some ((s + 1) % 16, c) ∷ numbered ((s + 1) % 16) cs

sequence-encode :
    (e : TransportCommandEncoder) (c : TransportCommand)
    → (encode e c).0.sequence ≡ (e.sequence + 1) % 16
unfolding encode
sequence-encode e c = next_sequence_lem e.sequence

-- Reading back the mailboxes of a session gives its commands in order, and sequence numbers that
-- count up by one from the encoder's, modulo 16, both copies of the nibble agreeing.
pub read_command-encode_all :
    (cs : List TransportCommand) (e : TransportCommandEncoder)
    → map (λ w. read_command (command_block w)) (encode_all e cs) ≡ numbered e.sequence cs
unfolding encode_all
read_command-encode_all [] e = refl
read_command-encode_all (c ∷ cs) e =
    ap₂ ◌∷◌ (read_command-encode e c ∙ rw (sequence-encode e c))
      (read_command-encode_all cs (encode e c).0 ∙ rw (sequence-encode e c))

-- No transport command is taken for a scan command: its mailbox has no acknowledgement token.
pub scan_ack_token-encode :
    (e : TransportCommandEncoder) (c : TransportCommand)
    → scan_ack_token (command_block (encode e c).1) ≡ none
scan_ack_token-encode e c = elim (Option-cases (scan_ack_token (command_block (encode e c).1))) [
  | inl h ↦ h
  | inr (token, h) ↦
      let word = encode-word e c in
      let small : (encode e c).1 < 2 ^ 32 =
        omega (arith, word, next_sequence_lem e.sequence, command_byte-lt c) in
      let (n, fits, scan, t) = (scan_ack_token_iff (encode e c).1 token small).0 h in
      absurd (omega (arith, word, next_sequence_lem e.sequence, command_byte-lt c))
]
  where
    encode-word :
        (e : TransportCommandEncoder) (c : TransportCommand)
        → (encode e c).1
          ≡ next_sequence e.sequence * 2 ^ 20
            + 2 ^ 16
            + command_byte c * 2 ^ 8
            + next_sequence e.sequence * 2 ^ 4
    encode-word e c =
        unfold encode in
        command_word_lem (next_sequence e.sequence) (command_byte c)
          (omega (arith, next_sequence_lem e.sequence)) (command_byte-lt c)
