-- ===== src/Client.antt =====
-- src/client.c: the receiving end. `Auth` answers the password dialogue, `Transfer` is the plain
-- transfer, and `Reliable` the receiver that buffers and acknowledges.
pub mod Auth
pub mod AuthSafety
pub mod Transfer
pub mod Reliable
