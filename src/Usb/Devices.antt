-- ===== src/Usb/Devices.antt =====
-- Finding the camera on the bus, its status mailbox and single tape commands:
-- crates/handycam-libusb/src/transport.rs. Devices and descriptors are what rusb reports.
use handycam_rs.Control.{
  command_block_index, command_block, TransportCommand, with_sequence, encode,
}
use handycam_rs.Usb.{Usb, Run, ◌>>=◌, ret, write_all, sleep_for, read_status_block}
use handycam_rs.Prelude.{
  ℕ, Bool, true, false, not, ◌&&◌, ◌||◌, Option, none, some, List, [], ◌∷◌, map, leb, ◌==◌,
  if◌then◌else◌, Bytes, get_or, any, bytes_eq, ◌>>>◌, Result, ok, err,
}

-- crates/handycam-core/src/lib.rs
abbrev pub vendor_id : ℕ
vendor_id = 0x054c

abbrev pub product_id : ℕ
product_id = 0x00c0

abbrev pub video_interface : ℕ
video_interface = 0

abbrev pub video_alt : ℕ
video_alt = 5

pub record CameraSelector : Type 0 where
  pub bus : Option ℕ
  pub ports : Bytes

-- A device of the list: its descriptor's IDs where it can be read, and its place.
pub record Device : Type 0 where
  pub ids : Option (ℕ × ℕ)
  pub bus_number : ℕ
  pub address : ℕ
  pub port_numbers : Option Bytes

pub data SelectError : Type 0 where
  no_camera : SelectError
  ambiguous_camera : List (ℕ × Bytes) → SelectError
  usb : SelectError

-- Whether `select_device` keeps a device; its port numbers are read only where the bus agrees,
-- and `?` ends the search where they cannot be read.
unfoldable pub is_match : CameraSelector → Device → Result SelectError Bool
is_match selector device = elim device.ids [
  | none ↦ ok false
  | some ids ↦
      if not (ids.0 == vendor_id) || not (ids.1 == product_id)
      then ok false
      else elim selector.bus [
        | none ↦ ok true
        | some bus ↦ if not (device.bus_number == bus) then ok false else elim device.port_numbers [
          | none ↦ err usb
          | some ports ↦ ok (bytes_eq ports selector.ports)
        ]
      ]
]

-- The body of the loop: `continue`, `push`, or the end at an error.
unfoldable pub keep :
    Result SelectError Bool
    → Device
    → Result SelectError (List Device)
    → Result SelectError (List Device)
keep (err e) device rest = err e
keep (ok false) device rest = rest
keep (ok true) device (ok found) = ok (device ∷ found)
keep (ok true) device (err e) = err e

unfoldable pub matches : CameraSelector → List Device → Result SelectError (List Device)
unfolding keep
matches selector [] = ok []
matches selector (device ∷ devices) =
    keep (is_match selector device) device (matches selector devices)

-- The place that the message about several cameras names.
abbrev pub place_of : Device → ℕ × Bytes
place_of device = (device.bus_number, elim device.port_numbers [ none ↦ [] | some ports ↦ ports ])

unfoldable pub only_one : List Device → Result SelectError Device
only_one [] = err no_camera
only_one (device ∷ []) = ok device
only_one (first ∷ second ∷ more) = err (ambiguous_camera (map place_of (first ∷ second ∷ more)))

unfoldable pub select_found : Result SelectError (List Device) → Result SelectError Device
unfolding only_one
select_found (ok found) = only_one found
select_found (err e) = err e

unfoldable pub select_device : List Device → CameraSelector → Result SelectError Device
unfolding matches select_found
select_device devices selector = select_found (matches selector devices)

-- Descriptors: `is_in` and `is_isochronous` are the tests on direction and transfer type.
pub record EndpointDescriptor : Type 0 where
  pub is_in : Bool
  pub is_isochronous : Bool
  pub address : ℕ
  pub max_packet_size : ℕ

pub record InterfaceDescriptor : Type 0 where
  pub setting_number : ℕ
  pub endpoints : List EndpointDescriptor

pub record Interface : Type 0 where
  pub number : ℕ
  pub descriptors : List InterfaceDescriptor

-- An endpoint that can carry packets of this size.
abbrev pub carries : ℕ → ℕ → EndpointDescriptor → Bool
carries address size endpoint =
    endpoint.is_in
    && endpoint.is_isochronous
    && endpoint.address == address
    && leb size endpoint.max_packet_size

abbrev pub has_endpoints : InterfaceDescriptor → Bool
has_endpoints descriptor =
    descriptor.setting_number == video_alt
    && any (carries 0x81 8) descriptor.endpoints
    && any (carries 0x82 768) descriptor.endpoints

unfoldable pub validate_descriptors : List Interface → Bool
validate_descriptors interfaces =
    any
      (λ interface. interface.number == video_interface && any has_endpoints interface.descriptors)
      interfaces

pub record TransportObservation : Type 0 where
  pub bus : ℕ
  pub address : ℕ
  pub port_path : Bytes
  pub command_word : ℕ
  pub sequence : ℕ
  pub status_before : Bytes
  pub status_after : Bytes

-- `Option::unwrap_or`
abbrev pub sequence_or : Option ℕ → ℕ → ℕ
sequence_or none recovered = recovered
sequence_or (some sequence) recovered = sequence

-- `send_transport_command` once the device is open: the sequence comes from the caller or from
-- the high nibble of the status.
unfoldable pub send_transport_command :
    (lib : Usb) (bus address : ℕ) (port_path : Bytes)
    → TransportCommand
    → Option ℕ
    → ℕ
    → Run lib TransportObservation
unfolding write_all read_status_block sleep_for ret with_sequence encode command_block
send_transport_command lib bus address port_path command current_sequence settle = do
  status_before ← read_status_block lib
  let current = sequence_or current_sequence (get_or status_before 0 0 >>> 4)
  let encoded = encode (with_sequence current) command
  written ← write_all lib 0x40 0x88 0 command_block_index (command_block encoded.1)
  slept ← sleep_for lib settle
  status_after ← read_status_block lib
  ret lib (record {
    bus = bus;
    address = address;
    port_path = port_path;
    command_word = encoded.1;
    sequence = encoded.0.sequence;
    status_before = status_before;
    status_after = status_after;
  })
