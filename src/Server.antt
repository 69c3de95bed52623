-- ===== src/Server.antt =====
-- src/server.c: the sending end. `Auth` is the password dialogue, `Transfer` the plain transfer.
pub mod Auth
pub mod AuthLaws
pub mod AuthSafety
pub mod AuthBounds
pub mod Transfer
pub mod Reliable
