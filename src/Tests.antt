-- ===== src/Tests.antt =====
-- Runs on concrete inputs.
pub mod Fixtures
mod Auth
mod Client
mod Codec
mod Confirm
mod Demo
mod Hex
mod Log
mod Mqtt
mod Plain
mod Quic
mod Reliable
mod Tcp
