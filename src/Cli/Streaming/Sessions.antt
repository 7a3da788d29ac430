-- ===== src/Cli/Streaming/Sessions.antt =====
-- Whole runs of `run_session` of crates/handycam-cli/src/main.rs.
use handycam_rs.Jpeg.{JpegDecoder}
use handycam_rs.Stream.{CompressedFrame}
use handycam_rs.Usb.Transfers.{SessionEvent}
use handycam_rs.Cli.Streaming.{DriverStats, Streams, Streaming, Session}
use handycam_rs.Cli.Streaming.Accounts.{IsQueue, Accounts, captured}
use handycam_rs.Cli.Streaming.Events.{Accounted, Next}
use handycam_rs.Prelude.{ℕ, Bool, List}

module _ (lib : JpegDecoder) (io : Streams) (q : IsQueue io) where
  open io use {World, SinkFailure, PollError, stopping, try_recv, poll}
  open q use {queue, history}

  abbrev From :
      World → DriverStats → (List SessionEvent → List CompressedFrame) → Session lib io → Type 0
  From w stats decoded r = Accounted lib io q w stats decoded r

  abbrev Whole : Next lib io q → Type 0
  Whole next =
      (origin : ℕ) (flag : Bool) (s : Streaming) (w : World)
      → From w s.stats (λ later. captured lib origin flag s.decoder later) (next s w)
