-- ===== src/Sink/Frames.antt =====
-- What the frames of a run become in the output format of crates/handycam-cli/src/sink.rs.
use handycam_rs.Jpeg.{JpegDecoder, FrameConversionError, OutputFormat}
use handycam_rs.Stream.{CompressedFrame}
use handycam_rs.Sink.{
  Outputs, SinkStatus, closed, failed, SinkError, conversion, io, not_output_device,
  format_rejected, short_write, frame_data, last_status,
}
use handycam_rs.Prelude.{
  ◌≡◌, if◌then◌else◌, Option, none, some, List, [], ◌∷◌, ◌++◌, Bytes, Result, ok, err, refl,
}

-- The data of the frames, up to the first that cannot be converted, and its error.
pub record Encoded (lib : JpegDecoder) : Type 0 where
  pub data_of : List Bytes
  pub refusal : Option (FrameConversionError lib)

abbrev pub encode_first :
    {lib : JpegDecoder} → Result (FrameConversionError lib) Bytes → Encoded lib → Encoded lib
encode_first (ok bytes) rest = record rest { data_of = bytes ∷ rest.data_of }
encode_first (err error) rest = record { data_of = []; refusal = some error }

abbrev pub encode_frames : (lib : JpegDecoder) → OutputFormat → List CompressedFrame → Encoded lib
encode_frames lib format [] = record { data_of = []; refusal = none }
encode_frames lib format (frame ∷ frames) =
    encode_first (frame_data lib frame format) (encode_frames lib format frames)

abbrev pub concat : List Bytes → Bytes
concat [] = []
concat (bytes ∷ more) = bytes ++ concat more

-- How a loop over the frames ends, and what of the data is missing then.
abbrev pub IsEnding {ℓ} :
    {A : Type ℓ} (lib : JpegDecoder) (IoError : Type 0)
    → Option (FrameConversionError lib)
    → List A
    → Result (SinkError lib IoError) (Unit {0})
    → Type ℓ
IsEnding lib IoError refusal lost (ok done) = (refusal ≡ none) × (lost ≡ [])
IsEnding lib IoError refusal lost (err (conversion error)) = (refusal ≡ some error) × (lost ≡ [])
IsEnding lib IoError refusal lost (err error) = Unit

-- The status that the thread ends with: a reader that went away is no failure.
abbrev pub IsLast :
    (lib : JpegDecoder) (out : Outputs)
    → Result (SinkError lib out.IoError) (Unit {0})
    → SinkStatus (SinkError lib out.IoError)
    → Type 0
IsLast lib out (ok done) status = status ≡ closed
IsLast lib out (err (io error)) status =
    status ≡ (if out.is_broken_pipe error then closed else failed (io error))
IsLast lib out (err error) status = status ≡ failed error

pub last_status-IsLast :
    (lib : JpegDecoder) (out : Outputs) (r : Result (SinkError lib out.IoError) (Unit {0}))
    → IsLast lib out r (last_status lib out r)
unfolding last_status
last_status-IsLast lib out (ok done) = refl
last_status-IsLast lib out (err (io error)) = refl
last_status-IsLast lib out (err (conversion error)) = refl
last_status-IsLast lib out (err not_output_device) = refl
last_status-IsLast lib out (err (format_rejected width height fourcc)) = refl
last_status-IsLast lib out (err (short_write actual required)) = refl
