-- ===== src/Tests/Replays.antt =====
-- A replay of recorded packets by crates/handycam-cli/src/main.rs.
use handycam_rs.Stream.{
  CompressedFrame, push_packet, is_header, marks_boundary, header_timestamp, header_flags,
  timestamp_delta,
}
use handycam_rs.Jpeg.{reconstruct_jpeg}
use handycam_rs.Sink.{closed, ready}
use handycam_rs.Cli.Streaming.{received}
use handycam_rs.Cli.Reconnect.{wait_for_sink}
use handycam_rs.Cli.Replaying.{
  Field, field_length, field_data_offset, Json, SinkThread, boundary_name, video_name,
  run_replay_capture,
}
use handycam_rs.Cli.Replaying.Rows.{IsSink, IsReplayed, run_replay_capture-IsReplayed}
use handycam_rs.Tests.Decoding.{stub, mark, header}
use handycam_rs.Prelude.{
  ℕ, zero, suc, ◌≡◌, refl, true, false, Option, some, List, [], ◌∷◌, ◌++◌, map, Bytes, length,
  Result, ok, err,
}

-- A row is its endpoint, 0 or 1, its offset and its length.
abbrev number : Field → ℕ × ℕ × ℕ → Option ℕ
number field_length row = some row.2
number field_data_offset row = some row.1

abbrev read_row : Bytes → Result (Unit {0}) (ℕ × ℕ × ℕ)
read_row (endpoint ∷ offset ∷ count ∷ []) = ok (endpoint, offset, count)
read_row text = err tt

abbrev name_of : ℕ → Bytes
name_of zero = boundary_name
name_of (suc n) = video_name

abbrev rows_json : Json
rows_json = record {
  Value = ℕ × ℕ × ℕ;
  Error = Unit {0};
  from_str = read_row;
  endpoint = λ row. some (name_of row.0);
  as_u64 = number;
}

-- A thread that takes every frame and closes.
abbrev thread : SinkThread
thread = record {
  World = List CompressedFrame;
  SinkFailure = Unit {0};
  recv = λ w. (w, received ready);
  send = λ frame w. (w ++ frame ∷ [], true);
  join = λ w. (w, false);
  drain = λ w. (w, closed ∷ []);
}

thread-IsSink : IsSink thread
thread-IsSink = record {
  sent = λ w. w;
  takes = λ frame w. refl;
  recv_keeps = λ w. refl;
  join_keeps = λ w. refl;
  drain_keeps = λ w. refl;
}

abbrev ep82 : Bytes
ep82 = header 100 ++ header 140 ++ header 180

-- Three headers, the last of which completes a record, and a row that is not a packet's.
abbrev rows : List (Result (Unit {0}) Bytes)
rows =
    ok (0 ∷ 0 ∷ 1 ∷ [])
    ∷ ok (1 ∷ 0 ∷ length (header 100) ∷ [])
    ∷ ok (0 ∷ 0 ∷ 1 ∷ [])
    ∷ ok (1 ∷ length (header 100) ∷ length (header 140) ∷ [])
    ∷ ok (0 ∷ 0 ∷ 1 ∷ [])
    ∷ ok (1 ∷ 20 ∷ 10 ∷ [])
    ∷ ok []
    ∷ []

run_replay_capture-sends :
    map
      (λ frame. frame.timestamp_unwrapped_ms)
      (run_replay_capture stub rows_json (Unit {0}) thread mark ep82 rows []).0
    ≡ 0 ∷ []
unfolding run_replay_capture push_packet is_header marks_boundary header_timestamp header_flags
    timestamp_delta reconstruct_jpeg
run_replay_capture-sends = refl

run_replay_capture-IsReplayed_example :
    IsReplayed stub rows_json
      (Unit {0})
      thread
      thread-IsSink
      mark
      ep82
      rows
      []
      (wait_for_sink (received ready))
      (run_replay_capture stub rows_json (Unit {0}) thread mark ep82 rows [])
run_replay_capture-IsReplayed_example =
    run_replay_capture-IsReplayed stub rows_json (Unit {0}) thread thread-IsSink mark ep82 rows []
