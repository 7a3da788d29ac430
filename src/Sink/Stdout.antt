-- ===== src/Sink/Stdout.antt =====
-- What standard output gets from crates/handycam-cli/src/sink.rs.
use handycam_rs.Jpeg.{JpegDecoder, FrameConversionError, OutputFormat}
use handycam_rs.Stream.{CompressedFrame}
use handycam_rs.Sink.{
  stdout, Outputs, SinkError, conversion, io, frame_data, SinkStatus, Sink, call, write_stdout,
  last_status, run_frames, spawn, ready,
}
use handycam_rs.Sink.Frames.{
  Encoded, encode_frames, encode_first, concat, IsEnding, IsLast, last_status-IsLast,
}
use handycam_rs.Prelude.Run.{◌>>=◌, lift, continue_with, map_err}
use handycam_rs.Prelude.{
  ◌≡◌, refl, sym, ap, ◌∙◌, none, List, [], ◌∷◌, ◌++◌, append-nil, append_assoc, Bytes, Result, ok,
  err,
}

-- Nothing is missing where a call succeeds.
abbrev pub WholeIfOk : {E : Type 0} → Result E (Unit {0}) → Bytes → Type 0
WholeIfOk (ok done) lost = lost ≡ []
WholeIfOk (err error) lost = Unit

-- `r` has put the first bytes of `bytes`, all where it succeeded, behind what was there.
pub record Appends (out : Outputs) (contents : out.State → Bytes) (s : out.State) (bytes : Bytes)
    (r : out.State × Result out.IoError (Unit {0})) : Type 0 where
  pub kept : Bytes
  pub lost : Bytes
  pub split : kept ++ lost ≡ bytes
  pub behind : contents r.0 ≡ contents s ++ kept
  pub whole : WholeIfOk r.1 lost

-- Nothing is left in the buffer where a call succeeds.
abbrev pub WrittenIfOk : {E : Type 0} → Result E (Unit {0}) → Bytes → Bytes → Type 0
WrittenIfOk (ok done) contents written = contents ≡ written
WrittenIfOk (err error) contents written = Unit

-- A buffered stream: `contents` is what it took, of which `written` went out already and the rest is
-- in the buffer. A write that fails may have put some of its bytes, and a flush puts none, but
-- empties the buffer where it succeeds.
pub record IsStream (out : Outputs) : Type 0 where
  pub contents : out.State → Bytes
  pub written : out.State → Bytes
  pub buffers : (s : out.State) → (held : Bytes) × (contents s ≡ written s ++ held)
  pub empties :
      (s : out.State)
      → WrittenIfOk (out.flush s).1 (contents (out.flush s).0) (written (out.flush s).0)
  pub appends :
      (bytes : Bytes) (s : out.State) → Appends out contents s bytes (out.write_all bytes s)
  pub flushes : (s : out.State) → contents (out.flush s).0 ≡ contents s

-- The same of the loop.
pub record Emits (lib : JpegDecoder) (out : Outputs) (stream : IsStream out) (s : out.State)
    (encoded : Encoded lib) (r : out.State × Result (SinkError lib out.IoError) (Unit {0}))
    : Type 0 where
  pub kept : Bytes
  pub lost : Bytes
  pub split : kept ++ lost ≡ concat encoded.data_of
  pub behind : stream.contents r.0 ≡ stream.contents s ++ kept
  pub ending : IsEnding lib out.IoError encoded.refusal lost r.1
  pub went_out : WrittenIfOk r.1 (stream.contents r.0) (stream.written r.0)

module _ (lib : JpegDecoder) (out : Outputs) (stream : IsStream out) where
  open out use {State, IoError, write_all, flush}

  abbrev Loop : Type 0
  Loop = Sink lib out (Unit {0})

  abbrev flush_then :
      Loop → State × Result IoError (Unit {0}) → State × Result (SinkError lib IoError) (Unit {0})
  flush_then rest (s, r) = continue_with (s, map_err io r) (λ done. rest)

  -- Behind the write of a frame comes the flush, then the rest.
  emit_flushed :
      (rest : Loop) (s : State) (encoded : Encoded lib)
      → ((s' : State) → Emits lib out stream s' encoded (rest s'))
      → (r : State × Result IoError (Unit {0})) → stream.contents r.0 ≡ stream.contents s
      → Emits lib out stream s encoded (flush_then rest r)
  unfolding continue_with
  emit_flushed rest s encoded rests (s', ok done) same =
      let e = rests s' in
      record {
        kept = e.kept;
        lost = e.lost;
        split = e.split;
        behind = e.behind ∙ ap (λ (c : Bytes). c ++ e.kept) same;
        ending = e.ending;
        went_out = e.went_out;
      }
  emit_flushed rest s encoded rests (s', err error) same = record {
    kept = [];
    lost = concat encoded.data_of;
    split = refl;
    behind = rw (same, append-nil (stream.contents s)) refl;
    ending = tt;
    went_out = tt;
  }

  -- The whole of what was written, where the write succeeded.
  kept_whole : (kept lost bytes : Bytes) → kept ++ lost ≡ bytes → lost ≡ [] → kept ≡ bytes
  kept_whole kept lost bytes split none_lost =
      sym (append-nil kept) ∙ ap (λ (l : Bytes). kept ++ l) (sym none_lost) ∙ split

  abbrev behind_first : Bytes → Encoded lib → Encoded lib
  behind_first bytes encoded = encode_first (ok bytes) encoded

  emit_frame :
      (rest : Loop) (bytes : Bytes) (s : State) (encoded : Encoded lib)
      → ((s' : State) → Emits lib out stream s' encoded (rest s'))
      → (r : State × Result IoError (Unit {0})) → Appends out stream.contents s bytes r
      → Emits lib out stream s
          (behind_first bytes encoded)
          (continue_with (r.0, map_err io r.1) (λ done s'. flush_then rest (flush s')))
  unfolding continue_with
  emit_frame rest bytes s encoded rests (s', ok done) a =
      let e = emit_flushed rest s' encoded rests (flush s') (stream.flushes s') in
      let all = kept_whole a.kept a.lost bytes a.split a.whole in
      record {
        kept = bytes ++ e.kept;
        lost = e.lost;
        split = append_assoc bytes e.kept e.lost ∙ ap (λ (t : Bytes). bytes ++ t) e.split;
        behind =
            e.behind
            ∙ ap (λ (c : Bytes). c ++ e.kept)
                (a.behind ∙ ap (λ (k : Bytes). stream.contents s ++ k) all)
            ∙ append_assoc (stream.contents s) bytes e.kept;
        ending = e.ending;
        went_out = e.went_out;
      }
  emit_frame rest bytes s encoded rests (s', err error) a = record {
    kept = a.kept;
    lost = a.lost ++ concat encoded.data_of;
    split =
        sym (append_assoc a.kept a.lost (concat encoded.data_of))
        ∙ ap (λ (b : Bytes). b ++ concat encoded.data_of) a.split;
    behind = a.behind;
    ending = tt;
    went_out = tt;
  }

  emit_converted :
      (rest : Loop) (s : State) (encoded : Encoded lib)
      → ((s' : State) → Emits lib out stream s' encoded (rest s'))
      → (r : Result (FrameConversionError lib) Bytes)
      → Emits lib out stream s (encode_first r encoded) (
          continue_with
            (s, map_err conversion r)
            (λ bytes. call lib out (write_all bytes) >>= λ done s'. flush_then rest (flush s')))
  unfolding continue_with ◌>>=◌ call
  emit_converted rest s encoded rests (ok bytes) =
      emit_frame rest bytes s encoded rests (write_all bytes s) (stream.appends bytes s)
  emit_converted rest s encoded rests (err error) = record {
    kept = [];
    lost = [];
    split = refl;
    behind = sym (append-nil (stream.contents s));
    ending = (refl, refl);
    went_out = tt;
  }

  emit_end :
      (s : State) (r : State × Result IoError (Unit {0}))
      → stream.contents r.0 ≡ stream.contents s
      → WrittenIfOk r.1 (stream.contents r.0) (stream.written r.0)
      → Emits lib out stream s (record { data_of = []; refusal = none }) (r.0, map_err io r.1)
  emit_end s (s', ok done) same flushed = record {
    kept = [];
    lost = [];
    split = refl;
    behind = same ∙ sym (append-nil (stream.contents s));
    ending = (refl, refl);
    went_out = flushed;
  }
  emit_end s (s', err error) same flushed = record {
    kept = [];
    lost = [];
    split = refl;
    behind = same ∙ sym (append-nil (stream.contents s));
    ending = tt;
    went_out = tt;
  }

  write_stdout-Emits :
      (format : OutputFormat) (frames : List CompressedFrame) (s : State)
      → Emits lib out stream s
          (encode_frames lib format frames)
          (write_stdout lib out format frames s)
  unfolding write_stdout call ◌>>=◌ lift
  write_stdout-Emits format [] s = emit_end s (flush s) (stream.flushes s) (stream.empties s)
  write_stdout-Emits format (frame ∷ frames) s =
      emit_converted (write_stdout lib out format frames) s (encode_frames lib format frames)
        (write_stdout-Emits format frames) (frame_data lib frame format)

-- What the thread did: its last status is that of the loop's result.
pub record Streams (lib : JpegDecoder) (out : Outputs) (stream : IsStream out) (s : out.State)
    (encoded : Encoded lib) (r : out.State × List (SinkStatus (SinkError lib out.IoError)))
    : Type 0 where
  pub result : Result (SinkError lib out.IoError) (Unit {0})
  pub last : SinkStatus (SinkError lib out.IoError)
  pub emits : Emits lib out stream s encoded (r.0, result)
  pub told : r.1 ≡ ready ∷ last ∷ []
  pub fits : IsLast lib out result last

-- Whatever the frames, and wherever a write or a flush fails: the buffered output takes the data of the
-- frames in order up to the first that cannot be converted, and nothing else, cut short only where
-- the output failed; where no error ends the thread, all of it went out. The thread tells that it is ready and then one status more: closed where every
-- frame was written or the reader went away, else the failure, which is the conversion error where the
-- output itself did not fail.
pub spawn-Streams :
    (lib : JpegDecoder) (out : Outputs) (stream : IsStream out) (format : OutputFormat)
    (frames : List CompressedFrame) (s : out.State)
    → Streams lib out stream s
        (encode_frames lib format frames)
        (spawn lib out stdout format frames s)
unfolding spawn run_frames
spawn-Streams lib out stream format frames s = record {
  result = (write_stdout lib out format frames s).1;
  last = last_status lib out (write_stdout lib out format frames s).1;
  emits = write_stdout-Emits lib out stream format frames s;
  told = refl;
  fits = last_status-IsLast lib out (write_stdout lib out format frames s).1;
}
