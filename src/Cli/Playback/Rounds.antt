-- ===== src/Cli/Playback/Rounds.antt =====
-- The frames that a replay of recorded images offers, in crates/handycam-cli/src/main.rs.
use handycam_rs.Stream.{CompressedFrame}
use handycam_rs.Cli.Streaming.{Offered, taken, full, receiver_gone, Streams, AppError}
use handycam_rs.Cli.Reconnect.{wait_for_sink}
use handycam_rs.Cli.Playback.{
  Player, ReplayEnd, Playing, frame_interval, replay_frame, PlayTurn, deadline_turn, after_offer,
  after_check, offer_turn, play_turn, behind_turn, play_turns, Played, outcome_of, finish_playing,
  start_playing, behind_ready_sink, run_replay, app,
}
use handycam_rs.Prelude.Bits.{bit_and_low}
use handycam_rs.Prelude.{
  ℕ, zero, suc, ◌+◌, ◌*◌, ◌%◌, bit_and, ◌≡◌, refl, sym, ap, ◌∙◌, inl, inr, Bool, true, false, not,
  Option, none, some, List, [], ◌∷◌, ◌++◌, append-nil, append_assoc, arith, ltb, if◌then◌else◌,
  Bool-cases, Bytes, length, length-append, wrap64, Result, ok, err,
}

-- A world with the frames that were offered while the receiver was there.
pub record IsOffered (io : Streams) (player : Player io) : Type 0 where
  pub offered : io.World → List CompressedFrame
  pub offers :
      (frame : CompressedFrame) (w : io.World)
      → offered (io.try_send frame w).0 ≡ (elim (io.try_send frame w).1 [
        | taken ↦ offered w ++ frame ∷ []
        | full ↦ offered w ++ frame ∷ []
        | receiver_gone ↦ offered w
      ])
  pub asks : (w : io.World) → offered (io.stopping w).0 ≡ offered w
  pub receives : (w : io.World) → offered (io.try_recv w).0 ≡ offered w
  pub sleeps : (micros : ℕ) (w : io.World) → offered (player.sleep micros w) ≡ offered w
  pub waits : (w : io.World) → offered (player.recv w).0 ≡ offered w
  pub joins : (w : io.World) → offered (player.join w).0 ≡ offered w
  pub drains : (w : io.World) → offered (player.drain w).0 ≡ offered w

-- The frame of this number: forty milliseconds each, on the camera's eleven bits and unwrapped.
abbrev pub recorded : ℕ → Bytes → CompressedFrame
recorded i jpeg = record {
  sequence = wrap64 i;
  timestamp_11bit_ms = 40 * i % 2048;
  timestamp_unwrapped_ms = wrap64 (40 * i);
  timestamp_delta_to_next_ms = 40;
  flags = 0;
  jpeg = jpeg;
}

abbrev pub numbered : ℕ → List Bytes → List CompressedFrame
numbered i [] = []
numbered i (jpeg ∷ jpegs) = recorded i jpeg ∷ numbered (suc i) jpegs

-- So many rounds of the images.
abbrev pub repeated : ℕ → List Bytes → List Bytes
repeated zero jpegs = []
repeated (suc rounds) jpegs = repeated rounds jpegs ++ jpegs

replay_frame-recorded :
    (i sequence : ℕ) (jpeg : Bytes)
    → sequence ≡ wrap64 i
    → replay_frame sequence jpeg ≡ recorded i jpeg
unfolding replay_frame
replay_frame-recorded i sequence jpeg h =
    let eleven : bit_and (wrap64 (sequence * 40)) 0x07ff ≡ 40 * i % 2048 =
      bit_and_low 11 (wrap64 (sequence * 40)) ∙ omega (arith, h) in
    let unwrapped : wrap64 (sequence * 40) ≡ wrap64 (40 * i) = omega (arith, h) in
    rw (eleven, unwrapped, h) refl

numbered-append :
    (i : ℕ) (shown : List Bytes) (jpeg : Bytes)
    → numbered i (shown ++ jpeg ∷ []) ≡ numbered i shown ++ recorded (i + length shown) jpeg ∷ []
numbered-append i [] jpeg = ap (λ n. recorded n jpeg ∷ []) (omega arith)
numbered-append i (x ∷ shown) jpeg = ap (◌∷◌ (recorded i x)) (
    numbered-append (suc i) shown jpeg
    ∙ ap (λ n. numbered (suc i) shown ++ recorded n jpeg ∷ []) (omega arith))

module _ (io : Streams) (player : Player io) (is_offered : IsOffered io player) (jpegs : List Bytes)
    (repeat : Bool) where
  open is_offered use {offered}

  -- What was offered since this world: whole rounds, and what is no longer left of another.
  record Shows (start : io.World) (w : io.World) (s : Playing) : Type 0 where
    shown : List Bytes
    more_rounds : ℕ
    front : List Bytes
    splits : shown ≡ repeated more_rounds jpegs ++ front
    within : front ++ s.left ≡ jpegs
    once : repeat ≡ false → more_rounds ≡ 0
    adds : offered w ≡ offered start ++ numbered 0 shown
    counts : s.sequence ≡ wrap64 (length shown)

  abbrev Keeps : io.World → PlayTurn io player → Type 0
  Keeps start t = Shows start t.0 t.1

  if-Keeps :
      (start : io.World) (test : Bool) (t t' : PlayTurn io player)
      → (test ≡ true → Keeps start t)
      → (test ≡ false → Keeps start t')
      → Keeps start (if test then t else t')
  if-Keeps start true t t' one other = one refl
  if-Keeps start false t t' one other = other refl

  moved :
      (start w w' : io.World) (s : Playing)
      → offered w' ≡ offered w
      → Shows start w s
      → Shows start w' s
  moved start w w' s same h = record {
    shown = h.shown;
    more_rounds = h.more_rounds;
    front = h.front;
    splits = h.splits;
    within = h.within;
    once = h.once;
    adds = same ∙ h.adds;
    counts = h.counts;
  }

  deadline_turn-Shows :
      (start w : io.World) (s : Playing)
      → Shows start w s
      → Keeps start (deadline_turn io player s w)
  unfolding deadline_turn
  deadline_turn-Shows start w s h = elim (Bool-cases (not (ltb (player.now w) s.deadline))) [
    | inl e ↦ rw e (record {
      shown = h.shown;
      more_rounds = h.more_rounds;
      front = h.front;
      splits = h.splits;
      within = h.within;
      once = h.once;
      adds = h.adds;
      counts = h.counts;
    })
    | inr e ↦ elim (Bool-cases (io.stopping w).1) [
      | inl e' ↦ rw (e, e') (moved start w _ s (is_offered.asks w) h)
      | inr e' ↦ rw (e, e') (moved start w _ s (is_offered.sleeps _ _ ∙ is_offered.asks w) h)
    ]
  ]

  one_more :
      (start w w' : io.World) (s : Playing) (jpeg : Bytes) (rest : List Bytes)
      → s.left ≡ jpeg ∷ rest
      → Shows start w s
      → offered w' ≡ offered w ++ replay_frame s.sequence jpeg ∷ []
      → Shows start w' (record {
        left = rest;
        sequence = wrap64 (s.sequence + 1);
        deadline = s.deadline + frame_interval;
        waiting = true;
      })
  one_more start w w' s jpeg rest left h sent = record {
    shown = h.shown ++ jpeg ∷ [];
    more_rounds = h.more_rounds;
    front = h.front ++ jpeg ∷ [];
    splits =
        ap (λ l. l ++ jpeg ∷ []) h.splits ∙ append_assoc (repeated h.more_rounds jpegs) h.front _;
    within = append_assoc h.front (jpeg ∷ []) rest ∙ ap (λ l. h.front ++ l) (sym left) ∙ h.within;
    once = h.once;
    adds =
        sent
        ∙ ap (λ f. offered w ++ f ∷ [])
            (replay_frame-recorded (length h.shown) s.sequence jpeg h.counts)
        ∙ ap (λ l. l ++ recorded (length h.shown) jpeg ∷ []) h.adds
        ∙ append_assoc (offered start) (numbered 0 h.shown) _
        ∙ ap (λ l. offered start ++ l)
            (ap (λ n. numbered 0 h.shown ++ recorded n jpeg ∷ []) (omega arith)
              ∙ sym (numbered-append 0 h.shown jpeg));
    counts = omega (arith, h.counts, length-append h.shown (jpeg ∷ []));
  }

  after_offer-Shows :
      (start w : io.World) (s : Playing) (jpeg : Bytes) (rest : List Bytes)
      (answer : io.World × Offered)
      → s.left ≡ jpeg ∷ rest
      → Shows start w s
      → offered answer.0 ≡ (elim answer.1 [
        | taken ↦ offered w ++ replay_frame s.sequence jpeg ∷ []
        | full ↦ offered w ++ replay_frame s.sequence jpeg ∷ []
        | receiver_gone ↦ offered w
      ])
      → Keeps start (after_offer io player s rest answer)
  unfolding after_offer
  after_offer-Shows start w s jpeg rest (w', taken) left h sent =
      one_more start w w' s jpeg rest left h sent
  after_offer-Shows start w s jpeg rest (w', full) left h sent =
      one_more start w w' s jpeg rest left h sent
  after_offer-Shows start w s jpeg rest (w', receiver_gone) left h sent = moved start w w' s sent h

  after_check-Shows :
      (start w : io.World) (s : Playing) (jpeg : Bytes) (rest : List Bytes)
      (checked : Option (Result (AppError io.SinkFailure) (Unit {0})))
      → s.left ≡ jpeg ∷ rest
      → Shows start w s
      → Keeps start (after_check io player s jpeg rest w checked)
  unfolding after_check
  after_check-Shows start w s jpeg rest (some (ok done)) left h = h
  after_check-Shows start w s jpeg rest (some (err error)) left h = h
  after_check-Shows start w s jpeg rest none left h =
      after_offer-Shows start w s jpeg rest (io.try_send (replay_frame s.sequence jpeg) w) left h
        (is_offered.offers (replay_frame s.sequence jpeg) w)

  offer_turn-Shows :
      (start w : io.World) (s : Playing) (left : List Bytes)
      → s.left ≡ left
      → Shows start w s
      → Keeps start (offer_turn io player jpegs repeat s left w)
  unfolding offer_turn
  offer_turn-Shows start w s [] same h =
      if-Keeps start repeat _ _
        (λ repeats. record {
          shown = h.shown;
          more_rounds = suc h.more_rounds;
          front = [];
          splits =
              h.splits
              ∙ ap (λ l. repeated h.more_rounds jpegs ++ l)
                  (sym (append-nil h.front) ∙ ap (λ l. h.front ++ l) (sym same) ∙ h.within)
              ∙ sym (append-nil (repeated (suc h.more_rounds) jpegs));
          within = refl;
          once = λ never. absurd cc (never, repeats);
          adds = h.adds;
          counts = h.counts;
        })
        (λ never. h)
  offer_turn-Shows start w s (jpeg ∷ rest) same h = elim (Bool-cases (io.stopping w).1) [
    | inl e ↦ rw e (moved start w _ s (is_offered.asks w) h)
    | inr e ↦ rw e (
        after_check-Shows start _ s jpeg rest _ same
          (moved start w _ s (is_offered.receives _ ∙ is_offered.asks w) h))
  ]

  play_turn-Shows :
      (start w : io.World) (s : Playing)
      → Shows start w s
      → Keeps start (play_turn io player jpegs repeat s w)
  unfolding play_turn
  play_turn-Shows start w s h =
      if-Keeps start s.waiting (deadline_turn io player s w)
        (offer_turn io player jpegs repeat s s.left w) (λ waiting. deadline_turn-Shows start w s h)
        (λ offering. offer_turn-Shows start w s s.left refl h)

  behind_turn-Shows :
      (start : io.World) (rest : Playing → io.World → PlayTurn io player) (t : PlayTurn io player)
      → ((s : Playing) (w : io.World) → Shows start w s → Keeps start (rest s w))
      → Keeps start t
      → Keeps start (behind_turn io player rest t)
  unfolding behind_turn
  behind_turn-Shows start rest (w, s, none) rests h = rests s w h
  behind_turn-Shows start rest (w, s, some ending) rests h = h

  play_turns-Shows :
      (turns : ℕ) (start w : io.World) (s : Playing)
      → Shows start w s
      → Keeps start (play_turns io player jpegs repeat turns s w)
  unfolding play_turns
  play_turns-Shows zero start w s h = h
  play_turns-Shows (suc turns) start w s h =
      behind_turn-Shows start (play_turns io player jpegs repeat turns)
        (play_turn io player jpegs repeat s w) (λ s' w'. play_turns-Shows turns start w' s')
        (play_turn-Shows start w s h)

  -- A counter tells the frames that were offered.
  abbrev pub Counted : ℕ → Option (Result (ReplayEnd io.SinkFailure) ℕ) → Type 0
  Counted n none = Unit
  Counted n (some (ok frames)) = frames ≡ wrap64 n
  Counted n (some (err error)) = Unit

  pub record Plays (start : io.World) (answer : Played io player) : Type 0 where
    pub shown : List Bytes
    pub left : List Bytes
    pub more_rounds : ℕ
    pub front : List Bytes
    pub splits : shown ≡ repeated more_rounds jpegs ++ front
    pub within : front ++ left ≡ jpegs
    pub once : repeat ≡ false → more_rounds ≡ 0
    pub adds : offered answer.0 ≡ offered start ++ numbered 0 shown
    pub counts : Counted (length shown) answer.1

  outcome_of-Counted :
      (n sequence : ℕ) (error : Option (AppError io.SinkFailure))
      → sequence ≡ wrap64 n
      → Counted n (some (outcome_of io player sequence error))
  unfolding outcome_of
  outcome_of-Counted n sequence none h = h
  outcome_of-Counted n sequence (some error) h = tt

  finish_playing-sent :
      (t : PlayTurn io player) → offered (finish_playing io player t).0 ≡ offered t.0
  unfolding finish_playing
  finish_playing-sent (w, s, none) = refl
  finish_playing-sent (w, s, some error) = elim (Bool-cases (player.join w).1) [
    | inl e ↦ rw e (is_offered.joins w)
    | inr e ↦ rw e (is_offered.drains _ ∙ is_offered.joins w)
  ]

  finish_playing-Counted :
      (n : ℕ) (t : PlayTurn io player)
      → t.1.sequence ≡ wrap64 n
      → Counted n (finish_playing io player t).1
  unfolding finish_playing
  finish_playing-Counted n (w, s, none) h = tt
  finish_playing-Counted n (w, s, some error) h = elim (Bool-cases (player.join w).1) [
    | inl e ↦ rw e tt
    | inr e ↦ rw e (outcome_of-Counted n s.sequence _ h)
  ]

  finish_playing-Plays :
      (start : io.World) (t : PlayTurn io player)
      → Keeps start t
      → Plays start (finish_playing io player t)
  finish_playing-Plays start t h = record {
    shown = h.shown;
    left = t.1.left;
    more_rounds = h.more_rounds;
    front = h.front;
    splits = h.splits;
    within = h.within;
    once = h.once;
    adds = finish_playing-sent t ∙ h.adds;
    counts = finish_playing-Counted (length h.shown) t h.counts;
  }

  abbrev pub IsPlayed :
      io.World → Result (AppError io.SinkFailure) (Unit {0}) → Played io player → Type 0
  IsPlayed start (ok done) answer = Plays start answer
  IsPlayed start (err error) answer =
      offered answer.0 ≡ offered start × (answer.1 ≡ some (err (app error)))

  behind_ready_sink-IsPlayed :
      (turns : ℕ) (w : io.World) (status : Result (AppError io.SinkFailure) (Unit {0}))
      → IsPlayed w status (behind_ready_sink io player jpegs repeat turns (w, status))
  unfolding behind_ready_sink start_playing
  behind_ready_sink-IsPlayed turns w (err error) = (refl, refl)
  behind_ready_sink-IsPlayed turns w (ok done) = finish_playing-Plays w _ (
      play_turns-Shows turns w w _ (record {
        shown = [];
        more_rounds = 0;
        front = [];
        splits = refl;
        within = refl;
        once = λ never. refl;
        adds = sym (append-nil (offered w));
        counts = refl;
      }))

  -- A replay of recorded images waits for the sink, and returns its error without offering anything
  -- where it does not become ready. After any number of turns, ended or not, it has offered the
  -- images in order, in whole rounds and the front of another, and in no more than one round unless it
  -- repeats. The frames are numbered from 0, and the i-th is at 40 i milliseconds, on the eleven
  -- bits of the camera's stamps and unwrapped, modulo 2^64. A replay that ends well returns how many
  -- it offered, modulo 2^64.
  pub run_replay-IsPlayed :
      (turns : ℕ) (w : io.World)
      → IsPlayed
          (player.recv w).0
          (wait_for_sink (player.recv w).1)
          (run_replay io player jpegs repeat turns w)
  unfolding run_replay
  run_replay-IsPlayed turns w =
      behind_ready_sink-IsPlayed turns (player.recv w).0 (wait_for_sink (player.recv w).1)
