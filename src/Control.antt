-- ===== src/Control.antt =====
-- crates/handycam-core/src/control.rs: register writes, the command mailbox, tape transport commands
-- and the JPEG scale factor.
pub mod Registers
pub mod Mailbox
pub mod Transport
use handycam_rs.Prelude.{
  ℕ, zero, suc, ◌+◌, ◌%◌, ◌<◌, bit_and, bit_or, not, ◌&&◌, ◌||◌, Option, none, some, List, [], ◌∷◌,
  ◌++◌, leb, ◌==◌, if◌then◌else◌, Bytes, length, get_or, take, drop, replicate, any, ◌<<<◌,
  be_bytes, Result, ok, err,
}

abbrev pub command_block_index : ℕ
command_block_index = 0x0300

abbrev pub command_block_size : ℕ
command_block_size = 64

abbrev pub command_word_offset : ℕ
command_word_offset = 60

abbrev pub scale_factor_index : ℕ
scale_factor_index = 0x007c

pub record RegisterValue : Type 0 where
  pub index : ℕ
  pub value : ℕ

pub record RegisterWrite : Type 0 where
  pub index : ℕ
  pub bytes : Bytes

-- `impl From<RegisterValue> for RegisterWrite`
abbrev pub from_value : RegisterValue → RegisterWrite
from_value r = record { index = r.index; bytes = r.value ∷ [] }

abbrev register : ℕ → ℕ → RegisterValue
register i v = record { index = i; value = v }

abbrev pub power_off_registers : List RegisterValue
power_off_registers = register 0x35 0x06 ∷ register 0x35 0x00 ∷ []

abbrev pub audio_on_registers : List RegisterValue
audio_on_registers =
    register 0x23 0x00 ∷ register 0x24 0x68 ∷ register 0x22 0x0c ∷ register 0x35 0x0f ∷ []

abbrev pub power_on_registers : List RegisterValue
power_on_registers =
    register 0x35 0x06 ∷ register 0x36 0x01 ∷ register 0x36 0x03 ∷ register 0x35 0x0f ∷ []

abbrev pub power_on_stage_delay_us : ℕ
power_on_stage_delay_us = 10_000

abbrev pub device_init_template : List RegisterValue
device_init_template =
    register 0x00 0x00
    ∷ register 0x50 0xc0
    ∷ register 0x55 0x80
    ∷ register 0x61 0x20
    ∷ register 0x7a 0x0f
    ∷ register 0x06 0x80
    ∷ register 0x07 0x02
    ∷ register 0x0a 0xdf
    ∷ register 0x0f 0x00
    ∷ register 0x20 0x41
    ∷ register 0x21 0x60
    ∷ register 0x53 0x80
    ∷ register 0x54 0x02
    ∷ register 0x5e 0x03
    ∷ register 0x78 0x60
    ∷ register 0x79 0x09
    ∷ register 0x7c 0x10
    ∷ register 0x37 0x00
    ∷ register 0x51 0x00
    ∷ register 0x76 0x00
    ∷ register 0x23 0x00
    ∷ []

-- `registers[i].value = v`
pub set_value : ℕ → ℕ → List RegisterValue → List RegisterValue
set_value i v [] = []
set_value zero v (r ∷ rs) = record r { value = v } ∷ rs
set_value (suc i) v (r ∷ rs) = r ∷ set_value i v rs

unfoldable pub device_init_registers : ℕ → ℕ → List RegisterValue
unfolding set_value
device_init_registers mode_61 init_complete =
    set_value 18 init_complete (set_value 3 mode_61 device_init_template)

-- 60 zero bytes, then the word, big end first.
unfoldable pub command_block : ℕ → Bytes
command_block command = replicate command_word_offset 0 ++ be_bytes 4 command

unfoldable pub command_write : ℕ → RegisterWrite
unfolding command_block
command_write command = record { index = command_block_index; bytes = command_block command }

pub data TransportCommand : Type 0 where
  play pause stop fast_forward rewind : TransportCommand

abbrev pub command_byte : TransportCommand → ℕ
command_byte play = 0x1a
command_byte pause = 0x19
command_byte stop = 0x18
command_byte fast_forward = 0x1c
command_byte rewind = 0x1b

pub record TransportCommandEncoder : Type 0 where
  pub sequence : ℕ

unfoldable pub with_sequence : ℕ → TransportCommandEncoder
with_sequence sequence = record { sequence = bit_and sequence 0x0f }

-- `self.sequence.wrapping_add(1) & 0x0f` on a byte.
pub next_sequence : ℕ → ℕ
next_sequence sequence = bit_and ((sequence + 1) % 256) 0x0f

-- `(sequence << 20) | (1 << 16) | (u32::from(command_byte) << 8) | (sequence << 4)`
pub command_word : ℕ → ℕ → ℕ
command_word sequence byte =
    bit_or (bit_or (bit_or (sequence <<< 20) (1 <<< 16)) (byte <<< 8)) (sequence <<< 4)

unfoldable pub encode : TransportCommandEncoder → TransportCommand → TransportCommandEncoder × ℕ
unfolding next_sequence command_word
encode encoder command =
    let sequence = next_sequence encoder.sequence in
    (record { sequence = sequence }, command_word sequence (command_byte command))

-- The method `TransportCommandEncoder::command_write`.
unfoldable pub encode_write :
    TransportCommandEncoder → TransportCommand → TransportCommandEncoder × RegisterWrite
unfolding encode command_write
encode_write encoder command =
    let (encoder', word) = encode encoder command in (encoder', command_write word)

-- The last four bytes, of the form 00 n9 10 n1.
pub ack_of_command : Bytes → Option ℕ
ack_of_command command =
    let c1 = get_or command 1 0 in
    let c3 = get_or command 3 0 in
    if get_or command 0 0 == 0
      && bit_and c1 0x0f == 0x09
      && get_or command 2 0 == 0x10
      && c3 == bit_or (bit_and c1 0xf0) 0x01
    then some c3
    else none

unfoldable pub scan_ack_token : Bytes → Option ℕ
unfolding ack_of_command
scan_ack_token block =
    if not (length block == command_block_size)
      || any (λ byte. not (byte == 0)) (take command_word_offset block)
    then none
    else ack_of_command (drop command_word_offset block)

-- A scale factor is built by `new` alone; its one field is private.
pub record ScaleFactor : Type 0 where
  pub factor : ℕ

pub record ScaleFactorError : Type 0 where
  pub rejected : ℕ

abbrev pub scale_min : ℕ
scale_min = 4

abbrev pub scale_max : ℕ
scale_max = 128

abbrev pub driver_default : ScaleFactor
driver_default = record { factor = 36 }

unfoldable pub scale_factor_new : ℕ → Result ScaleFactorError ScaleFactor
scale_factor_new value =
    if not (leb scale_min value && leb value scale_max)
    then err (record { rejected = value })
    else ok (record { factor = value })

abbrev pub register_write : ScaleFactor → RegisterWrite
register_write scale = record { index = scale_factor_index; bytes = scale.factor ∷ [] }
