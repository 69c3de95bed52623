-- ===== src/Session.antt =====
-- src/server.c and src/client.c together: what the two ends do for one another.
pub mod Plain
pub mod Auth
pub mod Reliable
