-- ===== src/Demo.antt =====
-- The helpers of src/demo_util.c that the demonstration servers and clients share: whole writes
-- and reads on a stream socket, frames, keyed digests.
pub mod Stream
pub mod Frame
pub mod Trip
pub mod Digest
