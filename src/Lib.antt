-- ===== src/Lib.antt =====
-- SCG, a secure communication gateway: local clients hand frames to the gateway over Unix sockets or
-- shared-memory rings, and the gateway classifies each flow, checks it against its policy and relays it
-- over TLS, DTLS, kTLS or WireGuard. This library models the parts that decide what happens to a frame
-- or a flow.
--
-- Base: the library names that the modules share, lists measured by native numbers, bytes and
-- little-endian numbers (Bytes), `&`, `|` and `^` (Bits), regions of memory as functions of the offset
-- (Memory), wrapping `u64` arithmetic (Words), hash maps as association lists (AssocMap), and what Rust's `str`
-- answers about texts (Texts).
--
-- Ipc: crates/scg-ipc, the protocol between a client and the gateway.
-- - Ipc/Frame: src/frame.rs, the frame header, `encode_into` and `FrameDecoder` with `feed`,
--   `next_frame` and `next_frame_borrowed`. A frame is the pair of the traffic id and the payload. The
--   reader loop in Ipc/Frame/Stream has as fuel one more than the bytes in the buffer: each frame takes
--   8 bytes or more, so that is enough.
-- - Ipc/Token: src/token.rs, `CapabilityToken` and `ct_eq`. The system's random source is an argument.
-- - Ipc/Handshake: src/handshake.rs, `Hello` and `ShmOffer` with their encoders and decoders.
-- - Ipc/Ring: src/shm.rs, the byte ring. The record holds what both sides map; the capacity of a handle
--   is an argument.
-- - Ipc/SlotRing: src/shm_slot.rs, the fixed-slot ring with its sequence words, the in-place calls
--   `reserve`, `payload_mut`, `commit`, `peek_frame` and `advance` included.
-- One call of a ring runs as one step: the orderings of the atomic loads and stores inside a call are not
-- modelled. The futex wake-ups, the mapping of pages and their attachment are not modelled.
--
-- Gateway: gateway/src.
-- - Gateway/AddressPattern: management/config.rs, `AddressPattern::matches` and `cidr_contains`. Reading
--   a pattern from text is the standard library's address parser and stays a parameter.
-- - Gateway/Config: management/config.rs. The rules and their data (Config), the marks of outgoing packets
--   (Qos), the relay knobs of a performance profile (Perf), what a rule says in effect and the test
--   whether a reload has to restart it (Rule), the diff of two configurations (Diff), and
--   `GatewayConfig::validate` (Validate: one check after the other in the order of the code). JSON values
--   are a parameter, and so are, in Validate, the readers of addresses, address patterns and TLS and
--   WireGuard parameters; the zone of an IPv6 address is left out.
-- - Gateway/Supervisor: processing/mod.rs and lib.rs, the rules' threads and shutdown flags: `start_rules`
--   and the watcher's callback, which applies a diff. What a thread does is not modelled.
-- - Gateway/Firewall: networking/firewall.rs, `FirewallManager::setup` and `teardown` with every command
--   they run. What a command answers is the host's, any function of the commands before it.
-- - Gateway/Endpoints: interfaces/manager.rs, the registry of live endpoints of `InterfaceManager`:
--   `register_or_replace`, `detach_endpoint` and `close`, and `alloc_id`, whose loop has the number of
--   endpoints as fuel (Identifiers). A replaced endpoint is detached after the lock is given up; what other
--   threads do in between is an argument.
-- - Gateway/LocalPeer: interfaces/endpoint.rs, `EndpointPolicy`, `authenticate_peer` and
--   `upstream_tls_mode`, over the HELLO, the token and the policy; what the kernel says of a peer, and what
--   is read from it, is an argument.
-- - Gateway/Policy: processing/policy.rs, `PolicyManager`.
-- - Gateway/TrafficCache: processing/cache.rs, `TrafficCache`; the clock's reading is an argument.
-- - Gateway/TrafficAnalyzer: processing/traffic_analyzer.rs, `TrafficAnalyzer`, over the cache and the
--   patterns.
-- - Gateway/Lifecycle: processing/lifecycle.rs, `LifecycleOrchestrator::run`, which clears the cache and
--   reloads the policy; what the flag and the channel answer, and what other threads do to the cache, is a
--   script.
-- - Gateway/RuleContext: processing/mod.rs, the gate `classify_and_check_policy` in front of the relays,
--   over the analyzer and the policy.
-- - Gateway/TlsParams: security/tls_engine/params.rs, `TlsSecurityParams`: its data, what it offers (the file
--   itself), `decode_hex` (Hex), the key-exchange groups (Groups), `from_params` and `validate` (Parse). What
--   a JSON value holds is serde_json's answer.
-- - Gateway/UdpRelay: security/udp_session.rs and the loop of `run_udp_routing_listener` in
--   security/routing_engine.rs, which `run_dtls_encrypt_relay` in security/dtls_engine.rs runs as well but for
--   the opening of a session and the meaning of an empty reply; what stands before the loop is in Listeners.
--   A turn of the loop is a script of what poll and the sockets answer.
-- - Gateway/Wireguard: security/wireguard_engine.rs: the record of the parameters (the file itself), the
--   base64 reader (Base64), `WgProviderConfig::from_params` (Params), `run_plain_udp_relay` (Relay) and
--   `run_wireguard_relay` (Engine); and security/wireguard_engine/admin.rs, `provision` and `teardown`
--   (Provision). What each command and each call on a file answers, the text of its error included, is the
--   host's, any function of the call and the calls before it; what the sockets answer is a script.
-- - Gateway/ConnPool: security/conn_pool.rs, `execute` of `ConnectionPool` as interleaved atomic steps.
--   What the idle counter, the channel, the thread builder and a weak exchange answer is an argument.
-- - Gateway/SessionStore: security/tls_engine/session_cache.rs, `SessionStore`.
-- - Gateway/UdpFraming: security/udp_framing.rs, `UdpFraming`; the reader and the writer of the crate
--   ale_pipe are parameters. The raw loop has as fuel one more than the bytes: each turn takes 4 or more.
-- Calls under a lock run as one step. The sockets, the TLS and DTLS engines, the gRPC interface
-- and the reading of configuration files are not modelled: they are for the most part system calls and
-- calls of other libraries.
--
-- Numbers are native; a cast or a wrap-around of the source is written out. `Holds` (in Ipc/Ring/Refine
-- and Ipc/SlotRing/Refine) relates a ring to the queue of frames that it stands for.
pub mod Base
pub mod Ipc
pub mod Gateway
