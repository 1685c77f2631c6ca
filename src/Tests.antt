-- ===== src/Tests.antt =====
-- Runs of the model on concrete inputs.
mod Wire
mod Frames
mod Streams
mod Paths
mod Pools
mod Containers
mod Transport
mod Acks
mod Crypto
mod Output
