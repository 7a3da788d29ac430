-- ===== src/Lib.antt =====
-- A model of handycam-rs, a user-space driver for Sony's 054c:00c0 camcorders, and the theorems
-- that make it correct.
--
-- The program. A USB session (crates/handycam-libusb) replays an initialization plan, keeps
-- isochronous transfers in flight and sends what they bring as events. The decoder of the protocol
-- core (crates/handycam-core) turns the packets of two endpoints into JPEG frames with unwrapped
-- times; the synchronizer puts frames and audio chunks on one timeline; the Matroska writer
-- (crates/handycam-matroska) appends them to a file. The command line (crates/handycam-cli) drives
-- these and feeds a video sink.
--
-- Files and code. A method that changes an object is a function from the object to the new one and
-- the method's result; errors are values of Result.
--   Jpeg            crates/handycam-core/src/jpeg.rs: reconstruct_jpeg (JPEG_HEADER in Jpeg/Header),
--                   jpeg_to_yuyv and rgb_to_yuv in Jpeg/Yuyv
--   Stream          crates/handycam-core/src/stream.rs: StreamDecoder; push_packet is split at its
--                   branches into push_header, finish_record and extend_record
--   Control         crates/handycam-core/src/control.rs: registers, mailbox, transport commands
--   Init            crates/handycam-core/src/init.rs: parse_init_plan and the scale-factor override;
--                   Init/Text has what it takes from the standard library's str
--   Audio, Media    crates/handycam-core/src/audio.rs and media.rs
--   Sync            crates/handycam-core/src/sync.rs: AvSynchronizer
--   Matroska        crates/handycam-matroska/src/lib.rs: MatroskaWriter; its element writers in
--                   Matroska/Ebml, f64 values as IEEE 754 bits in Matroska/F64, and a reader of the
--                   format, written after EBML and not after the writer, in Matroska/Reader
--   Usb             crates/handycam-libusb/src/transport.rs: the replay of a plan in Usb/Replay, the
--                   callbacks of transfers in Usb/Transfers, opening and stopping a UsbSession in
--                   Usb/Opening, device lists and single commands in Usb/Devices, the text of a
--                   CameraSelector in Usb/Paths
--   LinuxAudio      crates/handycam-linux-audio/src/lib.rs: configure_pcm in LinuxAudio/Device,
--                   run_alsa_capture as turns of a Worker in LinuxAudio/Worker, run_capture in
--                   LinuxAudio/Arecord
--   Sink            crates/handycam-cli/src/sink.rs: the sink's thread (spawn, run_stdout, run_v4l2)
--   Cli             crates/handycam-cli/src/main.rs: the USB events of a recording, from packets to timed
--                   frames, in Cli; run_capture_session whole in Cli/Recording, run_session and
--                   check_sink in Cli/Streaming, run_stream with its reconnects in Cli/Reconnect,
--                   run_replay_capture in Cli/Replaying, run_replay in Cli/Playback
--   Prelude         numbers, lists, machine words, results and bits that all of these share;
--                   Prelude/Run is the monad of code that acts on a state and can fail
--   Tests           runs on concrete inputs
--
-- Parameters. Code outside the repository is an argument: JpegDecoder (the jpeg_decoder crate),
-- HexCrate (the hex crate), Json (serde_json), Usb and Host (a rusb device handle, with libusb's
-- transfers, the clock and the sleep of the standard library), Alsa (the alsa crate), Write
-- (std::io::Write), and the records of operations over which a loop runs: channels, the stop flag,
-- the clock and what stands behind them. What is asked of them is said by DecodesRgb, IsClock,
-- IsAppending, IsStream, IsDevice, IsQueue, IsSink, IsOffered, IsClaim and IsReaping.
--
-- Numbers. u64 and u32 values are natural numbers; a sum or product that can leave the type wraps
-- (`wrap64`, `% 2 ^ 32`), and saturating and checked operations are written out. A `usize` has 64
-- bits. Bytes are numbers; where a bound matters it is a hypothesis. In place of
-- the standard library's sort_by_key stands an insertion sort.
--
-- Fuel. The loop that polls for an acknowledgement has fuel for 50 rounds, as many as 500 ms hold
-- sleeps of 10 ms; the wait before a reconnect has two looks more than its duration holds sleeps
-- of 50 ms; run_capture has one pass for each byte of its input and one. The loops that run until
-- the outside ends them (run_alsa_capture, run_session, run_stream, run_replay,
-- run_capture_session) take the number of their passes, or what each pass meets, as an argument,
-- and the theorems hold for any. Everything else recurs on its data.
--
-- Not modelled. In the command line: the pauses of a realtime run_replay_capture, run_transport,
-- the parsing of arguments and the opening and listing of files. Spawning, joining and killing of
-- threads and of the arecord process, and the reading of CLOCK_MONOTONIC; read_camera_status and the
-- accessors of a UsbSession; logs, messages and Debug printers. A recording's writes succeed;
-- the only error of the Matroska writer's own is a size.
pub mod Prelude
pub mod Jpeg
pub mod Stream
pub mod Control
pub mod Audio
pub mod Media
pub mod Sync
pub mod Init
pub mod Matroska
pub mod Usb
pub mod Sink
pub mod Cli
pub mod LinuxAudio
mod Tests
