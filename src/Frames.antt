-- ===== src/Frames.antt =====
-- picoquic/frames.c: the frames of a packet, their parsers and writers.
pub mod Reader
pub mod FrameType
pub mod Frame
pub mod Parse
pub mod Limits
pub mod Control
pub mod Decode
pub mod Advance
pub mod Fields
pub mod Progress
pub mod Table
pub mod Termination
pub mod Reads
pub mod Lengths
pub mod SendQueue
pub mod Write
pub mod RoundTrip
pub mod LimitsRoundTrip
pub mod Process
pub mod Invariants
pub mod Accounts
