-- ===== src/Cli/Replaying/Rows.antt =====
-- The frames that a replay of recorded packets sends, in crates/handycam-cli/src/main.rs.
use mathlib.Core.Path.{subst}
use handycam_rs.Jpeg.{JpegDecoder}
use handycam_rs.Stream.{EndpointPacket, CompressedFrame, StreamDecoder, PushResult, push_packet}
use handycam_rs.Stream
use handycam_rs.Media.{TimedVideoFrame}
use handycam_rs.Usb.Transfers.{SessionEvent, packet}
use handycam_rs.Sink.{SinkStatus, ready, closed, failed}
use handycam_rs.Cli.{accept_pushed, add_frame, handle_event, captured_frames}
use handycam_rs.Cli.Streaming.{AppError, sink}
use handycam_rs.Cli.Reconnect.{wait_for_sink}
use handycam_rs.Cli.Replaying.{
  Json, SinkThread, Replay, new_replay, Failure, row_packet, Ended, Going, behind_send, behind_push,
  behind_row, replay_rows, last_failure, finish_replay, behind_sink_ready, run_replay_capture, app,
  sink_panicked,
}
use handycam_rs.Prelude.{
  ℕ, suc, ◌+◌, ◌≡◌, refl, sym, ap, ◌∙◌, ◌≢◌, ◌⊎◌, inl, inr, Bool, true, false, Option, none, some,
  List, [], ◌∷◌, ◌++◌, map, append-nil, append_assoc, arith, if◌then◌else◌, Bool-cases, Bytes,
  length, wrap64, Result, ok, err,
}

-- A thread with the frames that it was sent.
pub record IsSink (thread : SinkThread) : Type 0 where
  pub sent : thread.World → List CompressedFrame
  pub takes :
      (frame : CompressedFrame) (w : thread.World)
      → sent (thread.send frame w).0
        ≡ (if (thread.send frame w).1 then sent w ++ frame ∷ [] else sent w)
  pub recv_keeps : (w : thread.World) → sent (thread.recv w).0 ≡ sent w
  pub join_keeps : (w : thread.World) → sent (thread.join w).0 ≡ sent w
  pub drain_keeps : (w : thread.World) → sent (thread.drain w).0 ≡ sent w

abbrev pub arrival : EndpointPacket → SessionEvent
arrival p = packet p.endpoint p.payload 0

abbrev pub frame_of : TimedVideoFrame → CompressedFrame
frame_of event = event.frame

-- The frames that a recording captures where these packets arrive.
abbrev pub live_frames :
    JpegDecoder → StreamDecoder → Bool → List EndpointPacket → List CompressedFrame
live_frames lib decoder flagged packets = map frame_of (
    captured_frames lib 0 (record { decoder = decoder; source_discontinuity = flagged })
      (map arrival packets))

-- The packets of the rows, up to the first row that is refused, and its error.
abbrev pub add_row :
    {E : Type 0} → Result E (Option EndpointPacket) → List EndpointPacket → List EndpointPacket
add_row (err error) later = []
add_row (ok none) later = later
add_row (ok (some p)) later = p ∷ later

abbrev pub refused_row : {E : Type 0} → Result E (Option EndpointPacket) → Option E → Option E
refused_row (err error) later = some error
refused_row (ok p) later = later

module _ (lib : JpegDecoder) (json : Json) (IoError : Type 0) (thread : SinkThread)
    (is_sink : IsSink thread) where
  open is_sink use {sent}

  abbrev Error : Type 0
  Error = Failure json IoError thread.SinkFailure

  abbrev Answer : Type 0
  Answer = Ended lib json IoError thread

  abbrev pub packets_of : ℕ → Bytes → Bytes → List (Result IoError Bytes) → List EndpointPacket
  packets_of line ep81 ep82 [] = []
  packets_of line ep81 ep82 (row ∷ rows) =
      add_row (row_packet json IoError thread.SinkFailure line ep81 ep82 row)
        (packets_of (line + 1) ep81 ep82 rows)

  abbrev pub refusal : ℕ → Bytes → Bytes → List (Result IoError Bytes) → Option Error
  refusal line ep81 ep82 [] = none
  refusal line ep81 ep82 (row ∷ rows) =
      refused_row (row_packet json IoError thread.SinkFailure line ep81 ep82 row)
        (refusal (line + 1) ep81 ep82 rows)

  -- How the loop ends where the thread has taken all frames.
  abbrev Ends : Option Error → Result Error Replay → Type 0
  Ends none (ok r) = Unit
  Ends none (err error) = ⊥
  Ends (some error) result = result ≡ err error

  abbrev IsOk : Result Error Replay → Type 0
  IsOk (ok r) = Unit
  IsOk (err error) = ⊥

  -- The counter of frames, which wraps.
  abbrev Counts : ℕ → Result Error Replay → Type 0
  Counts n (ok r) = wrap64 r.frames ≡ wrap64 n
  Counts n (err error) = Unit

  record Sends (expected : List CompressedFrame) (refused : Option Error) (frames : ℕ)
      (w : thread.World) (answer : Answer) : Type 0 where
    taken : List CompressedFrame
    left : List CompressedFrame
    splits : expected ≡ taken ++ left
    adds : sent answer.0 ≡ sent w ++ taken
    counts : Counts (frames + length taken) answer.1
    ends : (left ≡ [] × Ends refused answer.1) ⊎ (left ≢ [] × IsOk answer.1)

  counted_more :
      (n m : ℕ) (result : Result Error Replay)
      → Counts (wrap64 (n + 1) + m) result
      → Counts (n + suc m) result
  counted_more n m (ok r) h = omega (arith, h)
  counted_more n m (err error) h = tt

  behind_send-Sends :
      (expected : List CompressedFrame) (refused : Option Error)
      (rest : Going lib json IoError thread) (r : Replay) (w : thread.World)
      (frame : CompressedFrame) (answer : thread.World × Bool)
      → sent answer.0 ≡ (if answer.1 then sent w ++ frame ∷ [] else sent w)
      → ((r' : Replay) (w' : thread.World)
          → r'.decoder ≡ r.decoder
          → Sends expected refused r'.frames w' (rest r' w'))
      → Sends
          (frame ∷ expected)
          refused
          r.frames
          w
          (behind_send lib json IoError thread rest r answer)
  unfolding behind_send
  behind_send-Sends expected refused rest r w frame (w', true) took rests =
      let a = rests (record r { frames = wrap64 (r.frames + 1) }) w' refl in
      record {
        taken = frame ∷ a.taken;
        left = a.left;
        splits = ap (◌∷◌ frame) a.splits;
        adds = rw (a.adds, took) (append_assoc (sent w) (frame ∷ []) a.taken);
        counts = counted_more r.frames (length a.taken) _ a.counts;
        ends = a.ends;
      }
  behind_send-Sends expected refused rest r w frame (w', false) took rests = record {
    taken = [];
    left = frame ∷ expected;
    splits = refl;
    adds = took ∙ sym (append-nil (sent w));
    counts = omega arith;
    ends = inr ((λ same. ground arith), tt);
  }

  module _ (refused : Option Error) (packets : List EndpointPacket)
      (rest : Going lib json IoError thread)
      (rests : (flagged : Bool) (r : Replay) (w : thread.World)
        → Sends (live_frames lib r.decoder flagged packets) refused r.frames w (rest r w)) where
    behind_push-Sends :
        (flagged : Bool) (r : Replay) (w : thread.World) (pushed : PushResult lib)
        → Sends
            (map frame_of (
              add_frame lib (accept_pushed lib 0 0 flagged pushed).1 (
                captured_frames lib 0
                  (accept_pushed lib 0 0 flagged pushed).0
                  (map arrival packets))))
            refused
            r.frames
            w
            (behind_push lib json IoError thread rest r w pushed)
    unfolding behind_push accept_pushed add_frame
    behind_push-Sends flagged r w (decoder, ok (some frame)) =
        behind_send-Sends (live_frames lib decoder false packets) refused rest
          (record r { decoder = decoder }) w frame _ (is_sink.takes frame w)
          (λ r' w' same.
            subst (λ d. Sends (live_frames lib d false packets) refused r'.frames w' (rest r' w'))
              same (rests false r' w'))
    behind_push-Sends flagged r w (decoder, ok none) =
        rests flagged (record r { decoder = decoder }) w
    behind_push-Sends flagged r w (decoder, err error) = rests true _ w

    behind_row-Sends :
        (flagged : Bool) (r : Replay) (w : thread.World)
        (row : Result Error (Option EndpointPacket))
        → Sends
            (live_frames lib r.decoder flagged (add_row row packets))
            (refused_row row refused)
            r.frames
            w
            (behind_row lib json IoError thread rest r w row)
    unfolding behind_row captured_frames handle_event
    behind_row-Sends flagged r w (ok (some p)) =
        behind_push-Sends flagged (record r { packets = wrap64 (r.packets + 1) }) w
          (push_packet lib r.decoder p)
    behind_row-Sends flagged r w (ok none) = rests flagged r w
    behind_row-Sends flagged r w (err error) = record {
      taken = [];
      left = [];
      splits = refl;
      adds = sym (append-nil (sent w));
      counts = tt;
      ends = inl (refl, refl);
    }

  replay_rows-Sends :
      (line : ℕ) (ep81 ep82 : Bytes) (rows : List (Result IoError Bytes)) (flagged : Bool)
      (r : Replay) (w : thread.World)
      → Sends
          (live_frames lib r.decoder flagged (packets_of line ep81 ep82 rows))
          (refusal line ep81 ep82 rows)
          r.frames
          w
          (replay_rows lib json IoError thread line ep81 ep82 rows r w)
  unfolding replay_rows captured_frames
  replay_rows-Sends line ep81 ep82 [] flagged r w = record {
    taken = [];
    left = [];
    splits = refl;
    adds = sym (append-nil (sent w));
    counts = omega arith;
    ends = inl (refl, tt);
  }
  replay_rows-Sends line ep81 ep82 (row ∷ rows) flagged r w =
      behind_row-Sends (refusal (line + 1) ep81 ep82 rows) (packets_of (line + 1) ep81 ep82 rows) _
        (λ flagged' r' w'. replay_rows-Sends (line + 1) ep81 ep82 rows flagged' r' w') flagged r w
        (row_packet json IoError thread.SinkFailure line ep81 ep82 row)

  -- The failures among the statuses of the thread.
  abbrev pub failures : List (SinkStatus thread.SinkFailure) → List thread.SinkFailure
  failures [] = []
  failures (ready ∷ statuses) = failures statuses
  failures (closed ∷ statuses) = failures statuses
  failures (failed error ∷ statuses) = error ∷ failures statuses

  abbrev pub Told : List thread.SinkFailure → ℕ → Result Error Replay → Type 0
  Told [] n (ok r) = wrap64 r.frames ≡ wrap64 n
  Told [] n (err error) = ⊥
  Told (error ∷ errors) n result = result ≡ err (app (sink error))

  abbrev pub Verdict :
      Bool → List (SinkStatus thread.SinkFailure) → ℕ → Result Error Replay → Type 0
  Verdict true statuses n result = result ≡ err sink_panicked
  Verdict false statuses n result = Told (failures statuses) n result

  -- An end of the loop, and what the thread then tells.
  pub record Closes (n : ℕ) (result : Result Error Replay) : Type 0 where
    pub at : thread.World
    pub verdict : Verdict (thread.join at).1 (thread.drain (thread.join at).0).1 n result

  abbrev pub Stops : Option Error → ℕ → Result Error Replay → Type 0
  Stops none n result = Closes n result
  Stops (some error) n result = result ≡ err error

  last_failure-Told :
      (n : ℕ) (r : Replay) (statuses : List (SinkStatus thread.SinkFailure))
      → wrap64 r.frames ≡ wrap64 n
      → Told (failures statuses) n (last_failure lib json IoError thread r statuses)
  unfolding last_failure
  last_failure-Told n r [] counts = counts
  last_failure-Told n r (ready ∷ statuses) counts = last_failure-Told n r statuses counts
  last_failure-Told n r (closed ∷ statuses) counts = last_failure-Told n r statuses counts
  last_failure-Told n r (failed error ∷ statuses) counts = refl

  finish_replay-Closes :
      (n : ℕ) (w : thread.World) (r : Replay)
      → wrap64 r.frames ≡ wrap64 n
      → Closes n (finish_replay lib json IoError thread (w, ok r)).1
  unfolding finish_replay
  finish_replay-Closes n w r counts = elim (Bool-cases (thread.join w).1) [
    | inl e ↦ record { at = w; verdict = rw e refl }
    | inr e ↦ record {
      at = w;
      verdict = rw e (last_failure-Told n r (thread.drain (thread.join w).0).1 counts);
    }
  ]

  finish_replay-sent :
      (answer : Answer) → sent (finish_replay lib json IoError thread answer).0 ≡ sent answer.0
  unfolding finish_replay
  finish_replay-sent (w, err error) = refl
  finish_replay-sent (w, ok r) = elim (Bool-cases (thread.join w).1) [
    | inl e ↦ rw e (is_sink.join_keeps w)
    | inr e ↦ rw e (is_sink.drain_keeps (thread.join w).0 ∙ is_sink.join_keeps w)
  ]

  pub record Plays (ep81 ep82 : Bytes) (rows : List (Result IoError Bytes)) (w : thread.World)
      (answer : Answer) : Type 0 where
    pub taken : List CompressedFrame
    pub left : List CompressedFrame
    pub splits : live_frames lib Stream.new false (packets_of 1 ep81 ep82 rows) ≡ taken ++ left
    pub adds : sent answer.0 ≡ sent w ++ taken
    pub ends :
        (left ≡ [] × Stops (refusal 1 ep81 ep82 rows) (length taken) answer.1)
        ⊎ (left ≢ [] × Closes (length taken) answer.1)

  finished-Stops :
      (n : ℕ) (refused : Option Error) (answer : Answer)
      → Counts n answer.1
      → Ends refused answer.1
      → Stops refused n (finish_replay lib json IoError thread answer).1
  unfolding finish_replay
  finished-Stops n none (w, ok r) counts ends = finish_replay-Closes n w r counts
  finished-Stops n none (w, err error) counts ends = elim ends [ ]
  finished-Stops n (some error) (w, ok r) counts ends = absurd cc
  finished-Stops n (some error) (w, err error') counts ends = ends

  finished-Closes :
      (n : ℕ) (answer : Answer)
      → Counts n answer.1
      → IsOk answer.1
      → Closes n (finish_replay lib json IoError thread answer).1
  finished-Closes n (w, ok r) counts is_ok = finish_replay-Closes n w r counts
  finished-Closes n (w, err error) counts is_ok = elim is_ok [ ]

  abbrev pub IsReplayed :
      Bytes
      → Bytes
      → List (Result IoError Bytes)
      → thread.World
      → Result (AppError thread.SinkFailure) (Unit {0})
      → Answer
      → Type 0
  IsReplayed ep81 ep82 rows w (ok done) answer = Plays ep81 ep82 rows w answer
  IsReplayed ep81 ep82 rows w (err error) answer =
      sent answer.0 ≡ sent w × (answer.1 ≡ err (app error))

  counted_from_zero :
      (n : ℕ) (result : Result Error Replay) → Counts (0 + n) result → Counts n result
  counted_from_zero n (ok r) h = omega (arith, h)
  counted_from_zero n (err error) h = tt

  finished-Plays :
      (ep81 ep82 : Bytes) (rows : List (Result IoError Bytes)) (w : thread.World) (answer : Answer)
      → Sends
          (live_frames lib Stream.new false (packets_of 1 ep81 ep82 rows))
          (refusal 1 ep81 ep82 rows)
          0
          w
          answer
      → Plays ep81 ep82 rows w (finish_replay lib json IoError thread answer)
  finished-Plays ep81 ep82 rows w answer s = record {
    taken = s.taken;
    left = s.left;
    splits = s.splits;
    adds = finish_replay-sent answer ∙ s.adds;
    ends = elim s.ends [
      | inl (all, ends) ↦
          inl (all, finished-Stops (length s.taken) _ answer (counted_from_zero _ _ s.counts) ends)
      | inr (some_left, is_ok) ↦ inr (
        some_left,
        finished-Closes (length s.taken) answer (counted_from_zero _ _ s.counts) is_ok,
      )
    ];
  }

  behind_sink_ready-IsReplayed :
      (ep81 ep82 : Bytes) (rows : List (Result IoError Bytes)) (w : thread.World)
      (status : Result (AppError thread.SinkFailure) (Unit {0}))
      → IsReplayed ep81 ep82 rows w status
          (behind_sink_ready lib json IoError thread ep81 ep82 rows (w, status))
  unfolding behind_sink_ready
  behind_sink_ready-IsReplayed ep81 ep82 rows w (err error) = (refl, refl)
  behind_sink_ready-IsReplayed ep81 ep82 rows w (ok done) =
      finished-Plays ep81 ep82 rows w _ (replay_rows-Sends 1 ep81 ep82 rows false new_replay w)

  -- A replay of recorded packets waits for the sink, and returns its error without sending anything
  -- where it does not become ready. Otherwise the packets are those of the rows up to the first row
  -- that is refused, and the frames that a live recording captures from these packets are sent in
  -- order: all of them, unless the sink stops taking frames. Where all are sent and a row is refused,
  -- the result is its error, with its line; otherwise it is what the thread tells behind its end, a
  -- panic, its first failure or the number of frames sent, modulo 2^64.
  pub run_replay_capture-IsReplayed :
      (ep81 ep82 : Bytes) (rows : List (Result IoError Bytes)) (w : thread.World)
      → IsReplayed ep81 ep82 rows
          (thread.recv w).0
          (wait_for_sink (thread.recv w).1)
          (run_replay_capture lib json IoError thread ep81 ep82 rows w)
  unfolding run_replay_capture
  run_replay_capture-IsReplayed ep81 ep82 rows w =
      behind_sink_ready-IsReplayed ep81 ep82 rows (thread.recv w).0
        (wait_for_sink (thread.recv w).1)
