-- ===== src/Lib.antt =====
-- A verification library for udp-secure-transfer: a client asks a server for a file over UDP,
-- proves that it knows a password, receives the file in DATA datagrams and checks its SHA-1
-- digest. The program's parts, and the files that model them:
--
-- Prelude: Boolean tests, lists over the native numbers, bytes and machine words.
-- Protocol: src/protocol.c and include/protocol.h. A datagram is a list of bytes, a `Packet` is
--   what parse_packet fills in, `none` and the constructors of ParseResult are its errors. Bytes has
--   put_u16 to get_u32, Build the five build functions, Parse the parser, Recv send_all_packet
--   and recv_packet_timeout, Config parse_port and the env functions with strtol. RoundTrip,
--   Delivery, Accepted, Canonical, Config/Numbers, Config/Numeral and Config/Ranges are
--   their lemmas. Hex has
--   packet_type_name, bytes_to_hex as writes to an array, with Hex/Array on these, and sha1_to_hex
--   of src/sha1_util.c. Logged has
--   the wrappers send_logged, recv_logged_timeout, recv_expected, recv_logged, send_control and
--   send_feedback of src/server.c and src/client.c.
-- Sha1: src/sha1_util.c. Stream and Padding relate the buffered updates to the digest of FIPS 180
--   over the padded message, File to files read in blocks.
-- Server: src/server.c. Auth is the part of main from JOIN_REQ to the end of the attempt loop,
--   with AuthLaws, AuthSafety and AuthBounds. Transfer is transfer_file; Reliable and
--   Reliable/Window are load_reliable_chunks to transfer_file_reliable, with lemmas on
--   acknowledgements in Reliable/Flags and Reliable/Acks, when the window loop ends in
--   Reliable/Confirmed, Reliable/Delivered and Reliable/Completes, what is reported in
--   Reliable/Outcome, and the order of the first transmissions in Reliable/Order.
-- Client: src/client.c. Auth is trim_line, get_password and the authentication loop of main,
--   with AuthSafety;
--   Transfer the plain receive loop of main; Reliable ensure_buffer_capacity and
--   transfer_file_reliable, with the receiver's invariant in Reliable/Drain.
-- Session: both ends together, for the password dialogue (Auth), for the plain transfer (Plain) and
--   for the reliable receiver on a network that reorders and repeats (Reliable).
-- Demo: the helpers of src/demo_util.c that the demonstration programs share: whole writes and
--   reads, frames, HMAC, session key, xor.
-- Tcp: src/tcp_demo_server.c and src/tcp_demo_client.c. Record has tls_app_mac,
--   tls_payload_app_data and verify_tls_app_data, with Sealed; Server the password loop of main, with
--   Entered and Flow; Transfer run_tcp_basic and run_tls_like; Client what main of the client does
--   behind its password loop. Records, AtServer, AtClient and Session put the two ends of tls-like
--   together, Basic those of tcp-basic.
-- Quic: src/quic_demo_client.c and src/quic_demo_server.c. Packet has encode_packet and
--   decode_packet, Sorted chunk_cmp, Client the client's loop with Reassembly, Server the server's
--   main from RECV_INITIAL on with Served, Session both ends. `qsort` is a parameter.
-- Mqtt: src/mqtt_demo_server.c and src/mqtt_demo_client.c. Codec has the remaining length and the
--   texts of a packet.
-- Log: src/logger.c and include/logger.h. json_escape and the field writers; Entry is logger_write,
--   as the list of its calls of the field writers, Uid compute_packet_uid.
-- Tests: runs on concrete inputs.
--
-- State and calls. The C variables of a loop are a record (Receiver, ReliableReceiver, Transfer,
-- Sender, Net), a function returns the record that it leaves, and -1 is `none`, `false` or a
-- constructor with the reason. A stream connection is the bytes that went out and the bytes that
-- have come and were not read, with the number of calls on either side. What the system calls
-- return is an argument: a Link for sendto, a list of Events for the waits of a loop (each with
-- the value of stop_requested), an Inbox for recvfrom, a Disk or Files for fwrite, fopen and
-- rename, a Heap or Memory for realloc and malloc, a Clock, a Socket for send and recv. Integers are natural
-- numbers; uint32_t, uint64_t and uint8_t results are reduced modulo 2 ^ 32, 2 ^ 64 and 2 ^ 8
-- where the C operation can wrap.
--
-- Fuel. A loop whose end depends on data runs on fuel: encode_from on five turns for a length of
-- 32 bits, decode_from on four as in the source, sha1_update on the number of bytes, sha1_final's
-- padding on 64 turns, fread on the number of bytes, grow on the size that is needed, stream_loop
-- on the size of the file, drain on the number of slots, advance and fill on the number of chunks,
-- write_all and read_all on the number of bytes. Each turn makes progress by one at least, and the
-- theorems on these functions are about the functions with this fuel. Loops that wait for the
-- network are recursion on the list of events; a run that the events do not bring to an end has a
-- result of its own.
--
-- Not modelled: the checks of arguments, sockets and signals in the two main functions and
-- resolve_server (system calls), the demonstration servers and clients for other protocols, what
-- the MQTT programs do with their packets, the client's password loop of the stream demonstration,
-- the scenarios stream-reorder and zero-rtt-replay-risk of the quic-like server, the control
-- server, the web interface, and the tests. Of src/server.c parse_packet_id_list, of
-- src/protocol.c peer_to_string, of src/demo_util.c sockets, prompts,
-- nonces and base64 are left out too. sha1_transform stands for the block function of SHA-1, and
-- is run on a known digest.
pub mod Prelude
pub mod Protocol
pub mod Sha1
pub mod Server
pub mod Client
pub mod Session
pub mod Tcp
pub mod Quic
pub mod Mqtt
pub mod Demo
pub mod Log
pub mod Tests
