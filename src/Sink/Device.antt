-- ===== src/Sink/Device.antt =====
-- What a V4L2 device gets from crates/handycam-cli/src/sink.rs.
use handycam_rs.Jpeg.{JpegDecoder, FrameConversionError, OutputFormat}
use handycam_rs.Stream.{CompressedFrame}
use handycam_rs.Sink.{
  v4l2, Outputs, SinkError, conversion, io, frame_data, SinkStatus, ready, Sink, call,
  check_written, configure_v4l2, write_v4l2, last_status, run_frames, behind_configuration, spawn,
}
use handycam_rs.Sink.Frames.{
  Encoded, encode_frames, encode_first, IsEnding, IsLast, last_status-IsLast,
}
use handycam_rs.Prelude.Run.{◌>>=◌, lift, continue_with, map_err}
use handycam_rs.Prelude.{
  ℕ, ◌≡◌, refl, sym, ap, ◌∙◌, ◌==◌, if◌then◌else◌, Bool-cases, inl, inr, List, [], ◌∷◌, ◌++◌,
  append-nil, append_assoc, Bytes, length, Result, ok, err,
}

-- The buffers that a write hands over: the whole of the data, or none.
abbrev pub handed_over : {E : Type 0} → Bytes → Result E ℕ → List Bytes
handed_over bytes (ok written) = if written == length bytes then bytes ∷ [] else []
handed_over bytes (err error) = []

-- A device with the frames that it showed.
pub record IsDevice (out : Outputs) : Type 0 where
  pub shown : out.State → List Bytes
  pub shows :
      (bytes : Bytes) (s : out.State)
      → shown (out.write bytes s).0 ≡ shown s ++ handed_over bytes (out.write bytes s).1

pub record Shows (lib : JpegDecoder) (out : Outputs) (device : IsDevice out) (s : out.State)
    (encoded : Encoded lib) (r : out.State × Result (SinkError lib out.IoError) (Unit {0}))
    : Type 0 where
  pub kept : List Bytes
  pub lost : List Bytes
  pub split : kept ++ lost ≡ encoded.data_of
  pub behind : device.shown r.0 ≡ device.shown s ++ kept
  pub ending : IsEnding lib out.IoError encoded.refusal lost r.1

module _ (lib : JpegDecoder) (out : Outputs) (device : IsDevice out) where
  open out use {State, IoError, write}

  abbrev Loop : Type 0
  Loop = Sink lib out (Unit {0})

  show_written :
      (rest : Loop) (bytes : Bytes) (s : State) (encoded : Encoded lib)
      → ((s' : State) → Shows lib out device s' encoded (rest s'))
      → (r : State × Result IoError ℕ) → device.shown r.0 ≡ device.shown s ++ handed_over bytes r.1
      → Shows lib out device s (encode_first (ok bytes) encoded) (
          continue_with
            (r.0, map_err io r.1)
            (λ written s'.
              continue_with (s', check_written lib out written (length bytes)) (λ done. rest)))
  unfolding continue_with check_written
  show_written rest bytes s encoded rests (s', ok written) h =
      elim (Bool-cases (written == length bytes)) [
        | inl whole ↦
            let e = rests s' in
            rw whole (record {
              kept = bytes ∷ e.kept;
              lost = e.lost;
              split = ap (◌∷◌ bytes) e.split;
              behind =
                  e.behind
                  ∙ ap (λ (l : List Bytes). l ++ e.kept) (rw whole at h)
                  ∙ append_assoc (device.shown s) (bytes ∷ []) e.kept;
              ending = e.ending;
            })
        | inr short ↦ rw short (record {
          kept = [];
          lost = bytes ∷ encoded.data_of;
          split = refl;
          behind = rw short at h;
          ending = tt;
        })
      ]
  show_written rest bytes s encoded rests (s', err error) h = record {
    kept = [];
    lost = bytes ∷ encoded.data_of;
    split = refl;
    behind = h;
    ending = tt;
  }

  show_converted :
      (rest : Loop) (s : State) (encoded : Encoded lib)
      → ((s' : State) → Shows lib out device s' encoded (rest s'))
      → (r : Result (FrameConversionError lib) Bytes)
      → Shows lib out device s (encode_first r encoded) (
          continue_with
            (s, map_err conversion r)
            (λ bytes. call lib out (write bytes) >>= λ written s'.
              continue_with (s', check_written lib out written (length bytes)) (λ done. rest)))
  unfolding continue_with ◌>>=◌ call
  show_converted rest s encoded rests (ok bytes) =
      show_written rest bytes s encoded rests (write bytes s) (device.shows bytes s)
  show_converted rest s encoded rests (err error) = record {
    kept = [];
    lost = [];
    split = refl;
    behind = sym (append-nil (device.shown s));
    ending = (refl, refl);
  }

  write_v4l2-Shows :
      (format : OutputFormat) (frames : List CompressedFrame) (s : State)
      → Shows lib out device s
          (encode_frames lib format frames)
          (write_v4l2 lib out format frames s)
  unfolding write_v4l2 call ◌>>=◌ lift
  write_v4l2-Shows format [] s = record {
    kept = [];
    lost = [];
    split = refl;
    behind = sym (append-nil (device.shown s));
    ending = (refl, refl);
  }
  write_v4l2-Shows format (frame ∷ frames) s =
      show_converted (write_v4l2 lib out format frames) s (encode_frames lib format frames)
        (write_v4l2-Shows format frames) (frame_data lib frame format)

-- The thread behind its configuration.
pub record Plays (lib : JpegDecoder) (out : Outputs) (device : IsDevice out) (s : out.State)
    (encoded : Encoded lib) (r : out.State × List (SinkStatus (SinkError lib out.IoError)))
    : Type 0 where
  pub result : Result (SinkError lib out.IoError) (Unit {0})
  pub last : SinkStatus (SinkError lib out.IoError)
  pub shows : Shows lib out device s encoded (r.0, result)
  pub told : r.1 ≡ ready ∷ last ∷ []
  pub fits : IsLast lib out result last

-- A device that cannot be configured gets no frame, and the thread was never ready.
abbrev pub PlaysBehind :
    (lib : JpegDecoder) (out : Outputs) (device : IsDevice out)
    → out.State × Result (SinkError lib out.IoError) (Unit {0})
    → Encoded lib
    → out.State × List (SinkStatus (SinkError lib out.IoError))
    → Type 0
PlaysBehind lib out device (s, ok done) encoded r = Plays lib out device s encoded r
PlaysBehind lib out device (s, err error) encoded r =
    (last : SinkStatus (SinkError lib out.IoError)) × (r ≡ (s, last ∷ []))
    × IsLast lib out (err error) last

behind_configuration-Plays :
    (lib : JpegDecoder) (out : Outputs) (device : IsDevice out) (format : OutputFormat)
    (frames : List CompressedFrame)
    (configured : out.State × Result (SinkError lib out.IoError) (Unit {0}))
    → PlaysBehind lib out device configured
        (encode_frames lib format frames)
        (behind_configuration lib out (write_v4l2 lib out format frames) configured)
unfolding behind_configuration run_frames
behind_configuration-Plays lib out device format frames (s, ok done) = record {
  result = (write_v4l2 lib out format frames s).1;
  last = last_status lib out (write_v4l2 lib out format frames s).1;
  shows = write_v4l2-Shows lib out device format frames s;
  told = refl;
  fits = last_status-IsLast lib out (write_v4l2 lib out format frames s).1;
}
behind_configuration-Plays lib out device format frames (s, err error) =
    (last_status lib out (err error), refl, last_status-IsLast lib out (err error))

-- Whatever the device answers: if its configuration succeeds, it shows the data of the frames in
-- order, each whole, up to the first that cannot be converted, none missing unless a write failed or was
-- short, and the thread tells that it is ready and then how it ended; if not, nothing is written
-- and the thread tells only the failure.
pub spawn-Plays :
    (lib : JpegDecoder) (out : Outputs) (device : IsDevice out) (path : Bytes)
    (format : OutputFormat) (frames : List CompressedFrame) (s : out.State)
    → PlaysBehind lib out device
        (configure_v4l2 lib out path format s)
        (encode_frames lib format frames)
        (spawn lib out (v4l2 path) format frames s)
unfolding spawn
spawn-Plays lib out device path format frames s =
    behind_configuration-Plays lib out device format frames (configure_v4l2 lib out path format s)
