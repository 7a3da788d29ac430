-- ===== src/Cli/Replaying.antt =====
-- crates/handycam-cli/src/main.rs: `run_replay_capture` without `--realtime`, behind the opening of its
-- files. A line of the metadata is what `lines()` yields for it; JSON and the sink are parameters. The
-- counters, which the code logs at its end, are the result.
pub mod Rows
use handycam_rs.Jpeg.{JpegDecoder}
use handycam_rs.Stream.{
  Endpoint, boundary, video, EndpointPacket, CompressedFrame, StreamDecoder, reset, PushResult,
  push_packet,
}
use handycam_rs.Stream
use handycam_rs.Sink.{SinkStatus, failed, ready, closed}
use handycam_rs.Cli.Streaming.{increment, Received, AppError, sink}
use handycam_rs.Cli.Reconnect.{wait_for_sink}
use handycam_rs.Prelude.{
  ℕ, zero, suc, ◌+◌, ◌-◌, ◌*◌, ◌/◌, ◌%◌, ◌^◌, ◌≤◌, ◌<◌, min, max, bit_and, bit_or, ◌≡◌, refl, sym,
  ap, ap₂, ◌∙◌, ◌≢◌, ◌↔◌, ◌⊎◌, inl, inr, Bool, true, false, not, ◌&&◌, ◌||◌, Option, none, some,
  List, [], ◌∷◌, ◌++◌, map, reverse, append-nil, append_assoc, arith, ltb, leb, ◌==◌, if◌then◌else◌,
  ltb→lt, lt→ltb, le→ltb_false, leb→le, ==_iff, ==_refl, Bool-cases, Option-cases, Bytes, length,
  get_elem?, get_or, set, take, drop, replicate, any, All, length-append, take-append-drop,
  take-length-append, drop-length-append, length-take, length-drop, length-replicate, All-append,
  IsByte, bytes_eq, bytes_eq_iff, u32_max, u64_max, wrap64, saturating_add, saturating_sub,
  saturating_mul, checked_sub, wrapping_sub16, ◌<<<◌, ◌>>>◌, be_bytes, length-be_bytes, Result, ok,
  err, ◌>>=◌, ok_or, Ensures, bind-Ensures, Fails, bind-Fails, Result-cases,
}

-- The fields of a row that are numbers.
pub data Field : Type 0 where
  field_length field_data_offset : Field

-- serde_json: the text of a row, `row["endpoint"].as_str()` and `row[field].as_u64()`.
pub record Json : Type 1 where
  pub Value : Type 0
  pub Error : Type 0
  pub from_str : Bytes → Result Error Value
  pub endpoint : Value → Option Bytes
  pub as_u64 : Field → Value → Option ℕ

pub data Problem (E : Type 0) : Type 0 where
  not_json : E → Problem E
  no_endpoint range_overflows : Problem E
  no_number : Field → Problem E

-- The errors of `AppError` that the function returns.
pub data ReplayError (IoError JsonError SinkFailure : Type 0) : Type 0 where
  read_replay : IoError → ReplayError IoError JsonError SinkFailure
  replay_metadata : ℕ → Problem JsonError → ReplayError IoError JsonError SinkFailure
  replay_range : Bytes → ℕ → ℕ → ℕ → ReplayError IoError JsonError SinkFailure
  app : AppError SinkFailure → ReplayError IoError JsonError SinkFailure
  sink_panicked : ReplayError IoError JsonError SinkFailure

-- The sink's channels and its thread. `send` tells whether the frame was taken, `join` whether the
-- thread panicked, `drain` what `try_recv` still finds behind it.
pub record SinkThread : Type 1 where
  pub World : Type 0
  pub SinkFailure : Type 0
  pub recv : World → World × Received SinkFailure
  pub send : CompressedFrame → World → World × Bool
  pub join : World → World × Bool
  pub drain : World → World × List (SinkStatus SinkFailure)

-- "0x81" and "0x82"
abbrev pub boundary_name : Bytes
boundary_name = b'0' ∷ b'x' ∷ b'8' ∷ b'1' ∷ []

abbrev pub video_name : Bytes
video_name = b'0' ∷ b'x' ∷ b'8' ∷ b'2' ∷ []

-- `decoder` and the counters, which are `u64`.
pub record Replay : Type 0 where
  pub decoder : StreamDecoder
  pub frames : ℕ
  pub packets : ℕ
  pub errors : ℕ

abbrev pub new_replay : Replay
new_replay = record { decoder = Stream.new; frames = 0; packets = 0; errors = 0 }

module _ (json : Json) (IoError SinkFailure : Type 0) where
  open json use {Value}

  abbrev pub Failure : Type 0
  Failure = ReplayError IoError json.Error SinkFailure

  -- `checked_add` and `get(data_offset..end)`.
  unfoldable pub row_data : ℕ → Bytes → Bytes → ℕ → ℕ → Result Failure Bytes
  row_data line name source data_offset count =
      if ltb u64_max (data_offset + count)
      then err (replay_metadata line range_overflows)
      else if ltb (length source) (data_offset + count)
      then err (replay_range name data_offset (data_offset + count) (length source))
      else ok (take count (drop data_offset source))

  unfoldable pub metadata_usize : Value → Field → ℕ → Result Failure ℕ
  metadata_usize row field line =
      ok_or (json.as_u64 field row) (replay_metadata line (no_number field))

  -- From the length of a row on; `none` continues with the next row.
  unfoldable pub sized_packet :
      ℕ → Value → Bytes → Endpoint → Bytes → ℕ → Result Failure (Option EndpointPacket)
  unfolding row_data metadata_usize
  sized_packet line row name endpoint source count = if count == 0 then ok none else do
    data_offset ← metadata_usize row field_data_offset line
    bytes ← row_data line name source data_offset count
    ok (some (record { endpoint = endpoint; payload = bytes }))

  unfoldable pub endpoint_packet :
      ℕ → Value → Bytes → Endpoint → Bytes → Result Failure (Option EndpointPacket)
  unfolding sized_packet metadata_usize
  endpoint_packet line row name endpoint source = do
    count ← metadata_usize row field_length line
    sized_packet line row name endpoint source count

  unfoldable pub named_packet :
      ℕ → Bytes → Bytes → Value → Bytes → Result Failure (Option EndpointPacket)
  unfolding endpoint_packet
  named_packet line ep81 ep82 row name =
      if bytes_eq name boundary_name
      then endpoint_packet line row name boundary ep81
      else if bytes_eq name video_name
      then endpoint_packet line row name video ep82
      else ok none

  -- The body of the loop, up to the packet.
  unfoldable pub row_packet :
      ℕ → Bytes → Bytes → Result IoError Bytes → Result Failure (Option EndpointPacket)
  unfolding named_packet
  row_packet line ep81 ep82 (err error) = err (read_replay error)
  row_packet line ep81 ep82 (ok text) = elim (json.from_str text) [
    | err error ↦ err (replay_metadata line (not_json error))
    | ok row ↦ do
      name ← ok_or (json.endpoint row) (replay_metadata line no_endpoint)
      named_packet line ep81 ep82 row name
  ]

module _ (lib : JpegDecoder) (json : Json) (IoError : Type 0) (thread : SinkThread) where
  open thread use {World, SinkFailure, recv, send, join, drain}

  abbrev pub Ended : Type 0
  Ended = World × Result (Failure json IoError SinkFailure) Replay

  abbrev pub Going : Type 0
  Going = Replay → World → Ended

  -- A frame that is refused ends the loop.
  unfoldable pub behind_send : Going → Replay → World × Bool → Ended
  behind_send rest r (w, true) = rest (record r { frames = increment r.frames }) w
  behind_send rest r (w, false) = (w, ok r)

  unfoldable pub behind_push : Going → Replay → World → PushResult lib → Ended
  unfolding behind_send
  behind_push rest r w (decoder, ok (some frame)) =
      behind_send rest (record r { decoder = decoder }) (send frame w)
  behind_push rest r w (decoder, ok none) = rest (record r { decoder = decoder }) w
  behind_push rest r w (decoder, err error) =
      rest (record r { decoder = reset decoder; errors = increment r.errors }) w

  unfoldable pub behind_row :
      Going
      → Replay
      → World
      → Result (Failure json IoError SinkFailure) (Option EndpointPacket)
      → Ended
  unfolding behind_push
  behind_row rest r w (err error) = (w, err error)
  behind_row rest r w (ok none) = rest r w
  behind_row rest r w (ok (some packet)) =
      behind_push rest (record r { packets = increment r.packets }) w
        (push_packet lib r.decoder packet)

  -- The loop, from the line of this number on.
  unfoldable pub replay_rows : ℕ → Bytes → Bytes → List (Result IoError Bytes) → Going
  unfolding behind_row row_packet
  replay_rows line ep81 ep82 [] r w = (w, ok r)
  replay_rows line ep81 ep82 (row ∷ rows) r w =
      behind_row (replay_rows (line + 1) ep81 ep82 rows) r w
        (row_packet json IoError SinkFailure line ep81 ep82 row)

  -- The statuses that are left behind the thread.
  unfoldable pub last_failure :
      Replay → List (SinkStatus SinkFailure) → Result (Failure json IoError SinkFailure) Replay
  last_failure r [] = ok r
  last_failure r (failed error ∷ statuses) = err (app (sink error))
  last_failure r (ready ∷ statuses) = last_failure r statuses
  last_failure r (closed ∷ statuses) = last_failure r statuses

  unfoldable pub finish_replay : Ended → Ended
  unfolding last_failure
  finish_replay (w, err error) = (w, err error)
  finish_replay (w, ok r) =
      let (w', panicked) = join w in
      let (w'', statuses) = drain w' in
      if panicked then (w', err sink_panicked) else (w'', last_failure r statuses)

  unfoldable pub behind_sink_ready :
      Bytes
      → Bytes
      → List (Result IoError Bytes)
      → World × Result (AppError SinkFailure) (Unit {0})
      → Ended
  unfolding replay_rows finish_replay
  behind_sink_ready ep81 ep82 rows (w, err error) = (w, err (app error))
  behind_sink_ready ep81 ep82 rows (w, ok done) =
      finish_replay (replay_rows 1 ep81 ep82 rows new_replay w)

  -- From `wait_for_sink` on.
  unfoldable pub run_replay_capture : Bytes → Bytes → List (Result IoError Bytes) → World → Ended
  unfolding behind_sink_ready wait_for_sink
  run_replay_capture ep81 ep82 rows w =
      let (w', status) = recv w in behind_sink_ready ep81 ep82 rows (w', wait_for_sink status)
