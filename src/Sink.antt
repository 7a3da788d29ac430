-- ===== src/Sink.antt =====
-- crates/handycam-cli/src/sink.rs: the output thread, for the frames that it receives until the
-- channel closes. Standard output and the V4L2 device are a parameter.
pub mod Device
pub mod Stdout
pub mod Frames
use handycam_rs.Jpeg.{JpegDecoder, FrameConversionError, OutputFormat, mjpeg, yuyv}
use handycam_rs.Jpeg.Yuyv.{frame_width, frame_height, jpeg_to_yuyv}
use handycam_rs.Stream.{CompressedFrame}
use handycam_rs.Prelude.Run.{Run, ◌>>=◌, lift, map_err}
use handycam_rs.Prelude.{
  ℕ, ◌*◌, Bool, not, ◌&&◌, ◌||◌, List, [], ◌∷◌, ◌==◌, if◌then◌else◌, Bytes, length, bytes_eq,
  Result, ok, err,
}

-- crates/handycam-core/src/lib.rs
abbrev pub fps : ℕ
fps = 25

pub data SinkTarget : Type 0 where
  stdout : SinkTarget
  v4l2 : Bytes → SinkTarget

-- An error's message is the error itself.
pub data SinkStatus (E : Type 0) : Type 0 where
  ready closed : SinkStatus E
  failed : E → SinkStatus E

pub record Format (Colorspace Quantization : Type 0) : Type 0 where
  pub width : ℕ
  pub height : ℕ
  pub fourcc : Bytes
  pub stride : ℕ
  pub size : ℕ
  pub colorspace : Colorspace
  pub quantization : Quantization

-- What the code uses of `io::Write` and of the v4l crate; `query_caps` tells whether the device has
-- the two capabilities asked for.
pub record Outputs : Type 1 where
  pub State : Type 0
  pub IoError : Type 0
  pub is_broken_pipe : IoError → Bool
  pub write_all : Bytes → Run State IoError (Unit {0})
  pub flush : Run State IoError (Unit {0})
  pub Colorspace : Type 0
  pub Quantization : Type 0
  pub jpeg : Colorspace
  pub smpte170m : Colorspace
  pub full_range : Quantization
  pub limited_range : Quantization
  pub new_format : ℕ → ℕ → Bytes → Format Colorspace Quantization
  pub with_path : Bytes → Run State IoError (Unit {0})
  pub query_caps : Run State IoError (Bool × Bool)
  pub set_format :
      Format Colorspace Quantization → Run State IoError (Format Colorspace Quantization)
  pub set_params : ℕ → Run State IoError (Unit {0})
  pub write : Bytes → Run State IoError ℕ

pub data SinkError (lib : JpegDecoder) (IoError : Type 0) : Type 0 where
  conversion : FrameConversionError lib → SinkError lib IoError
  io : IoError → SinkError lib IoError
  not_output_device : SinkError lib IoError
  format_rejected : ℕ → ℕ → Bytes → SinkError lib IoError
  short_write : ℕ → ℕ → SinkError lib IoError

-- `FourCC::new(b"MJPG")` and `FourCC::new(b"YUYV")`
abbrev pub fourcc_of : OutputFormat → Bytes
fourcc_of mjpeg = 77 ∷ 74 ∷ 80 ∷ 71 ∷ []
fourcc_of yuyv = 89 ∷ 85 ∷ 89 ∷ 86 ∷ []

unfoldable pub frame_data :
    (lib : JpegDecoder) → CompressedFrame → OutputFormat → Result (FrameConversionError lib) Bytes
frame_data lib frame mjpeg = ok frame.jpeg
frame_data lib frame yuyv = jpeg_to_yuyv lib frame.jpeg

module _ (lib : JpegDecoder) (out : Outputs) where
  open out use {
    State, IoError, is_broken_pipe, write_all, flush, Colorspace, Quantization, jpeg, smpte170m,
    full_range, limited_range, new_format, with_path, query_caps, set_format, set_params, write,
  }

  abbrev pub Sink : Type 0 → Type 0
  Sink A = Run State (SinkError lib IoError) A

  -- A call of the outside and its `?`.
  unfoldable pub call : {A : Type 0} → Run State IoError A → Sink A
  call m s = let (s', r) = m s in (s', map_err io r)

  abbrev pub converted : CompressedFrame → OutputFormat → Result (SinkError lib IoError) Bytes
  converted frame format = map_err conversion (frame_data lib frame format)

  -- The loop of `run_stdout`, with the flush behind it.
  unfoldable pub write_stdout : OutputFormat → List CompressedFrame → Sink (Unit {0})
  unfolding call
  write_stdout format [] = call flush
  write_stdout format (frame ∷ frames) = do
    bytes ← lift (converted frame format)
    written ← call (write_all bytes)
    flushed ← call flush
    write_stdout format frames

  -- The format that `run_v4l2` asks for.
  unfoldable pub requested_format : OutputFormat → Format Colorspace Quantization
  requested_format mjpeg = record (new_format frame_width frame_height (fourcc_of mjpeg)) {
    size = 256 * 1024;
    colorspace = jpeg;
    quantization = full_range;
  }
  requested_format yuyv = record (new_format frame_width frame_height (fourcc_of yuyv)) {
    stride = frame_width * 2;
    size = frame_width * frame_height * 2;
    colorspace = smpte170m;
    quantization = limited_range;
  }

  unfoldable pub check_capabilities : Bool × Bool → Result (SinkError lib IoError) (Unit {0})
  check_capabilities (video_output, read_write) =
      if not (video_output && read_write) then err not_output_device else ok tt

  unfoldable pub check_format :
      OutputFormat → Format Colorspace Quantization → Result (SinkError lib IoError) (Unit {0})
  check_format format accepted =
      if not (accepted.width == frame_width)
        || not (accepted.height == frame_height)
        || not (bytes_eq accepted.fourcc (fourcc_of format))
      then err (format_rejected accepted.width accepted.height accepted.fourcc)
      else ok tt

  -- `run_v4l2` up to `SinkStatus::Ready`.
  unfoldable pub configure_v4l2 : Bytes → OutputFormat → Sink (Unit {0})
  unfolding call requested_format check_capabilities check_format
  configure_v4l2 path format = do
    device ← call (with_path path)
    capabilities ← call query_caps
    capable ← lift (check_capabilities capabilities)
    accepted ← call (set_format (requested_format format))
    right ← lift (check_format format accepted)
    call (set_params fps)

  unfoldable pub check_written : ℕ → ℕ → Result (SinkError lib IoError) (Unit {0})
  check_written written required =
      if not (written == required) then err (short_write written required) else ok tt

  -- The loop of `run_v4l2`.
  unfoldable pub write_v4l2 : OutputFormat → List CompressedFrame → Sink (Unit {0})
  unfolding call check_written
  write_v4l2 format [] = lift (ok tt)
  write_v4l2 format (frame ∷ frames) = do
    bytes ← lift (converted frame format)
    written ← call (write bytes)
    whole ← lift (check_written written (length bytes))
    write_v4l2 format frames

  -- The status at the end.
  unfoldable pub last_status :
      Result (SinkError lib IoError) (Unit {0}) → SinkStatus (SinkError lib IoError)
  last_status (ok done) = closed
  last_status (err (io error)) = if is_broken_pipe error then closed else failed (io error)
  last_status (err error) = failed error

  abbrev pub Statuses : Type 0
  Statuses = List (SinkStatus (SinkError lib IoError))

  -- What is sent once the output is ready.
  unfoldable pub run_frames : Sink (Unit {0}) → State → State × Statuses
  unfolding last_status
  run_frames loop s = let (s', r) = loop s in (s', ready ∷ last_status r ∷ [])

  unfoldable pub behind_configuration :
      Sink (Unit {0}) → State × Result (SinkError lib IoError) (Unit {0}) → State × Statuses
  unfolding run_frames last_status
  behind_configuration loop (s, ok done) = run_frames loop s
  behind_configuration loop (s, err error) = (s, last_status (err error) ∷ [])

  -- The thread: the state behind it and the statuses it sends.
  unfoldable pub spawn : SinkTarget → OutputFormat → List CompressedFrame → State → State × Statuses
  unfolding run_frames behind_configuration configure_v4l2 write_stdout write_v4l2
  spawn stdout format frames s = run_frames (write_stdout format frames) s
  spawn (v4l2 path) format frames s =
      behind_configuration (write_v4l2 format frames) (configure_v4l2 path format s)
