-- ===== src/Quic.antt =====
-- The stream part of src/quic_demo_client.c and the packets that it shares with
-- src/quic_demo_server.c.
pub mod Packet
pub mod Client
pub mod Sorted
pub mod Reassembly
pub mod Server
pub mod Served
pub mod Session
