-- ===== src/Tcp.antt =====
-- The stream demonstrations of src/tcp_demo_server.c and src/tcp_demo_client.c: tcp-basic, and
-- tls-like with its records.
pub mod Record
pub mod Sealed
pub mod Server
pub mod Entered
pub mod Flow
pub mod Transfer
pub mod Client
pub mod Records
pub mod AtServer
pub mod AtClient
pub mod Session
pub mod Basic
