-- ===== src/Ffmpeg.antt =====
-- src/vshift/infrastructure/ffmpeg: which encoder a job is given, and its arguments.
pub mod Encoders
pub mod Arguments
pub mod Command
pub mod Streams
pub mod Probing
pub mod Version
pub mod Transcoding
