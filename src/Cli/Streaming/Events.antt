-- ===== src/Cli/Streaming/Events.antt =====
-- The events of a poll in `run_session` of crates/handycam-cli/src/main.rs.
use handycam_rs.Jpeg.{JpegDecoder}
use handycam_rs.Stream.{
  Endpoint, boundary, video, CompressedFrame, StreamDecoder, PushResult, is_header, marks_boundary,
  push_packet,
}
use handycam_rs.Usb.Transfers.{
  SessionEvent, packet, packet_error, transfer_failed, submit_failed, callback_panicked,
}
use handycam_rs.Cli.{accept_pushed, handle_event, add_frame, captured_frames}
use handycam_rs.Cli.Streaming.{
  DriverStats, Offered, taken, full, receiver_gone, Streams, session_lost, is_nominal_camera_delta,
  Streaming, count_packet, count_gap, count_offer, Handled, handle_pushed, stream_event,
  stream_next, stream_events, Session, session_next,
}
use handycam_rs.Cli.Streaming.Accounts.{
  frames_of, taken_of, gaps_of, frame_of, tally_of, accepted, IsQueue, Accounts, captured,
}
use handycam_rs.Prelude.{
  ℕ, ◌+◌, ◌≡◌, refl, sym, ap, ◌∙◌, inl, inr, Bool, true, false, none, some, List, [], ◌∷◌, ◌++◌,
  map, append-nil, append_assoc, arith, Bool-cases, Bytes, take, wrap64, ok, err,
}

count_packet-tally :
    (endpoint : Endpoint) (payload : Bytes) (stats : DriverStats)
    → tally_of (count_packet endpoint payload stats) ≡ tally_of stats
unfolding count_packet
count_packet-tally boundary payload stats = elim (Bool-cases (marks_boundary payload)) [
  | inl e ↦ rw e refl
  | inr e ↦ rw e refl
]
count_packet-tally video payload stats = elim (Bool-cases (is_header payload)) [
  | inl e ↦ rw e refl
  | inr e ↦ rw e refl
]

count_gap-frames :
    (frame : CompressedFrame) (stats : DriverStats) → (count_gap frame stats).frames ≡ stats.frames
unfolding count_gap
count_gap-frames frame stats =
    elim (Bool-cases (is_nominal_camera_delta frame.timestamp_delta_to_next_ms)) [
      | inl e ↦ rw e refl
      | inr e ↦ rw e refl
    ]

count_gap-drops :
    (frame : CompressedFrame) (stats : DriverStats)
    → (count_gap frame stats).queue_drops ≡ stats.queue_drops
unfolding count_gap
count_gap-drops frame stats =
    elim (Bool-cases (is_nominal_camera_delta frame.timestamp_delta_to_next_ms)) [
      | inl e ↦ rw e refl
      | inr e ↦ rw e refl
    ]

count_gap-gaps :
    (frame : CompressedFrame) (stats : DriverStats)
    → wrap64 (count_gap frame stats).timestamp_gaps
      ≡ wrap64 (stats.timestamp_gaps + gaps_of (frame ∷ []))
unfolding count_gap
count_gap-gaps frame stats =
    elim (Bool-cases (is_nominal_camera_delta frame.timestamp_delta_to_next_ms)) [
      | inl e ↦ rw e (omega arith)
      | inr e ↦ rw e (omega arith)
    ]

gaps_of-cons :
    (frame : CompressedFrame) (frames : List CompressedFrame)
    → gaps_of (frame ∷ frames) ≡ gaps_of (frame ∷ []) + gaps_of frames
gaps_of-cons frame frames =
    elim (Bool-cases (is_nominal_camera_delta frame.timestamp_delta_to_next_ms)) [
      | inl e ↦ rw e (omega arith)
      | inr e ↦ rw e (omega arith)
    ]

module _ (lib : JpegDecoder) (io : Streams) (q : IsQueue io) where
  open io use {World, try_send}
  open q use {queue, history}

  abbrev pub Accounted :
      World → DriverStats → (List SessionEvent → List CompressedFrame) → Session lib io → Type 0
  Accounted w stats decoded r = Accounts lib io q (queue w) (history w) (tally_of stats) decoded r

  -- Behind the events of a poll.
  abbrev pub Next : Type 0
  Next = Streaming → World → Session lib io

  abbrev offered_frame :
      StreamDecoder → CompressedFrame → DriverStats → World × Offered → Handled lib io
  offered_frame decoder frame stats (w, offered) =
      let (stats', ending) = count_offer offered (count_gap frame stats) in
      (w, record { decoder = decoder; stats = stats' }, ending)

  offered-Accounted :
      (decoder : StreamDecoder) (frame : CompressedFrame) (stats : DriverStats) (w : World)
      (decoded : List SessionEvent → List CompressedFrame) (next : Next)
      (rest : Streaming → World → Handled lib io)
      → ((stats' : DriverStats) (w' : World)
          → Accounted w' stats' decoded
              (session_next lib io next (rest (record { decoder = decoder; stats = stats' }) w')))
      → (r : World × Offered) → queue r.0 ≡ queue w ++ accepted r.1 frame
      → history r.0 ≡ history w
      → Accounted w stats
          (λ later. frame ∷ decoded later)
          (session_next lib io next (stream_next lib io rest (offered_frame decoder frame stats r)))
  unfolding stream_next session_next count_offer
  offered-Accounted decoder frame stats w decoded next rest rests (w', taken) sent kept =
      let counted = count_gap frame stats in
      let a = rests (record counted { frames = wrap64 (counted.frames + 1) }) w' in
      record {
        events = a.events;
        brought_by = a.brought_by ∙ ap (λ (l : List SessionEvent). l ++ a.events) kept;
        offers = (frame, true) ∷ a.offers;
        left = a.left;
        all = ap (◌∷◌ frame) a.all;
        queued =
            a.queued
            ∙ ap (λ (l : List CompressedFrame). l ++ taken_of a.offers) sent
            ∙ append_assoc (queue w) (frame ∷ []) (taken_of a.offers);
        frames = omega (arith, a.frames, count_gap-frames frame stats);
        drops = omega (arith, a.drops, count_gap-drops frame stats);
        gaps = omega (
          arith,
          a.gaps,
          count_gap-gaps frame stats,
          gaps_of-cons frame (frames_of a.offers ++ take 1 a.left),
        );
        complete = a.complete;
      }
  offered-Accounted decoder frame stats w decoded next rest rests (w', full) sent kept =
      let counted = count_gap frame stats in
      let a = rests (record counted { queue_drops = wrap64 (counted.queue_drops + 1) }) w' in
      record {
        events = a.events;
        brought_by = a.brought_by ∙ ap (λ (l : List SessionEvent). l ++ a.events) kept;
        offers = (frame, false) ∷ a.offers;
        left = a.left;
        all = ap (◌∷◌ frame) a.all;
        queued =
            a.queued
            ∙ ap (λ (l : List CompressedFrame). l ++ taken_of a.offers)
                (sent ∙ append-nil (queue w));
        frames = omega (arith, a.frames, count_gap-frames frame stats);
        drops = omega (arith, a.drops, count_gap-drops frame stats);
        gaps = omega (
          arith,
          a.gaps,
          count_gap-gaps frame stats,
          gaps_of-cons frame (frames_of a.offers ++ take 1 a.left),
        );
        complete = a.complete;
      }
  offered-Accounted decoder frame stats w decoded next rest rests (w', receiver_gone) sent kept =
      record {
        events = [];
        brought_by = kept ∙ sym (append-nil (history w));
        offers = [];
        left = frame ∷ decoded [];
        all = refl;
        queued = sent;
        frames = omega (arith, count_gap-frames frame stats);
        drops = omega (arith, count_gap-drops frame stats);
        gaps = count_gap-gaps frame stats;
        complete = tt;
      }

  -- A session goes on behind these events.
  abbrev pub Continues : Next → List SessionEvent → Type 0
  Continues next events =
      (origin : ℕ) (flag : Bool) (s : Streaming) (w : World)
      → Accounted w s.stats (λ later. captured lib origin flag s.decoder (events ++ later))
          (session_next lib io next (stream_events lib io events s w))

  handle_pushed-Accounted :
      (next : Next) (events : List SessionEvent)
      → Continues next events
      → (origin received_at : ℕ) (flag : Bool) (stats : DriverStats) (w : World)
        (pushed : PushResult lib)
      → Accounted w stats
          (λ later. map frame_of (
            add_frame lib (accept_pushed lib origin received_at flag pushed).1 (
              captured_frames lib origin
                (accept_pushed lib origin received_at flag pushed).0
                (events ++ later))))
          (session_next lib io next (
            stream_next lib io (stream_events lib io events) (handle_pushed lib io pushed stats w)))
  unfolding handle_pushed stream_next accept_pushed add_frame
  handle_pushed-Accounted next events continues origin received_at flag stats w (decoder, ok none) =
      continues origin flag (record { decoder = decoder; stats = stats }) w
  handle_pushed-Accounted next events continues origin received_at flag stats w
        (decoder, ok (some frame)) =
      offered-Accounted decoder frame stats w
        (λ later. captured lib origin false decoder (events ++ later)) next
        (stream_events lib io events)
        (λ stats' w'. continues origin false (record { decoder = decoder; stats = stats' }) w')
        (try_send frame w) (q.sends frame w) (q.keeps frame w)
  handle_pushed-Accounted next events continues origin received_at flag stats w
        (decoder, err error) =
      continues origin true _ w

  -- An end that the events bring.
  lost-Accounted :
      (s : Streaming) (w : World) → Accounted w s.stats (λ later. []) (w, s, some (ok session_lost))
  lost-Accounted s w = record {
    events = [];
    offers = [];
    left = [];
    brought_by = sym (append-nil (history w));
    all = refl;
    queued = sym (append-nil (queue w));
    frames = omega arith;
    drops = omega arith;
    gaps = omega arith;
    complete = refl;
  }

  pub stream_events-Accounted :
      (next : Next) (events : List SessionEvent) → Continues next [] → Continues next events
  unfolding stream_events stream_event stream_next session_next captured_frames handle_event
      add_frame
  stream_events-Accounted next [] continues origin flag s w = continues origin flag s w
  stream_events-Accounted next (packet endpoint payload at ∷ events) continues origin flag s w =
      let counted = count_packet endpoint payload s.stats in
      rw (← count_packet-tally endpoint payload s.stats) (
        handle_pushed-Accounted next events (stream_events-Accounted next events continues) origin
          at flag counted w
          (push_packet lib s.decoder (record { endpoint = endpoint; payload = payload })))
  stream_events-Accounted next (packet_error endpoint status ∷ events) continues origin flag s w =
      stream_events-Accounted next events continues origin true _ w
  stream_events-Accounted next (transfer_failed endpoint status ∷ events) continues origin flag s
        w =
      lost-Accounted s w
  stream_events-Accounted next (submit_failed endpoint error ∷ events) continues origin flag s w =
      lost-Accounted s w
  stream_events-Accounted next (callback_panicked ∷ events) continues origin flag s w =
      lost-Accounted s w
