-- ===== src/Stream/Run.antt =====
-- A run of packets through the decoder of crates/handycam-core/src/stream.rs, as its clients feed
-- it: packet by packet, keeping the frames that come out, up to the first error.
use handycam_rs.Jpeg.{JpegDecoder}
use handycam_rs.Stream.{
  EndpointPacket, CompressedFrame, StreamDecodeError, StreamDecoder, PushResult, push_packet,
}
use handycam_rs.Prelude.{Option, none, some, List, [], ◌∷◌, Result, ok, err, ◌>>=◌}

abbrev pub prepend : Option CompressedFrame → List CompressedFrame → List CompressedFrame
prepend none fs = fs
prepend (some f) fs = f ∷ fs

module _ (lib : JpegDecoder) where
  abbrev pub RunResult : Type 0
  RunResult = Result (StreamDecodeError lib) (StreamDecoder × List CompressedFrame)

  unfoldable pub then_decode : PushResult lib → (StreamDecoder → RunResult) → RunResult
  then_decode (d, err e) k = err e
  then_decode (d, ok emitted) k = k d >>= λ rest. ok (rest.0, prepend emitted rest.1)

  unfoldable pub decode_packets : StreamDecoder → List EndpointPacket → RunResult
  unfolding then_decode
  decode_packets d [] = ok (d, [])
  decode_packets d (p ∷ ps) = then_decode (push_packet lib d p) (λ d'. decode_packets d' ps)
