-- ===== src/Tests.antt =====
-- Tests of the definitions on concrete inputs, and an instance of each theorem with hypotheses.
mod Decoding
mod Images
mod Timing
mod Controls
mod Plans
mod Files
mod Camera
mod Openings
mod Playbacks
mod Replays
mod Sessions
mod Recordings
mod Workers
mod Streaming
