-- ===== src/Lib.antt =====
-- The protocol stack of ohmcp: the binary frames that agents and the daemon exchange over a Unix
-- socket, what carries them, and what happens to their payloads on the way.
--
-- The parts, and the modules that model them:
--   Core       crates/ohmcp-core/src/frame.rs and lib.rs: `MsgType`, `FrameFlags`, `Frame::encode`
--              and `Frame::decode`, where a buffer is the list of its bytes; rpc.rs, the bridge to
--              JSON-RPC (Rpc); and message.rs, the objects of the protocol (Message), with what
--              their attributes have serde write and read (Message.Write, Message.Read) over trees of
--              JSON (Json).
--   Transport  crates/ohmcp-transport/src: `FrameReader` and `FrameWriter` (Stream), and the
--              shared-memory ring `ShmRing` with its references (Shm), and the streams
--              over sessions of the soft bus (Softbus).
--   Cache      crates/ohmcp-cache/src: `ResultCache` and the LZ4 compression of payloads.
--   Security   crates/ohmcp-security/src: `ToolAcl` (Acl), challenge and response (Auth) and
--              `SessionCipher` (Crypto); and the hexadecimal texts of crates/ohmcpd/src/server.rs
--              and crates/ohmcp-client/src/lib.rs (Hex).
--   Pipeline   crates/ohmcp-client/src/pipeline.rs: `PayloadPipeline`, which both ends use.
--   Server     crates/ohmcpd/src: the tool registry (Tools), what it offers (Builtin), and
--              server.rs: the state of a session (Session), the login (Login), the other requests
--              (Handlers, Calls), and the turns of the loop of `handle_conn` (Dispatch); the
--              accept loop of `run_with` (Accept). Keeping, Requests, Turns and Access carry an
--              invariant through every turn; Reach says which sessions the daemon comes to;
--              Promises, Entry and Answered hold the theorems.
--   Client     crates/ohmcp-client/src/lib.rs: the state of a client (State), `recv_response` with the
--              dispatch of what comes (Receive), `request_with_id` (Request), the handshake of
--              `connect_inner` (Connect), and the methods that the host calls (Methods). A method is
--              an action on the client. Mail, Notices, Routing, Kept, Multiplex and Sorted are about
--              the way of a response to its request.
--   Exchange   the two ends together: a request (Uplink), a result (Downlink), the login (Login), a
--              call that is made again (Again and Repeated), a whole exchange (Listing), a whole
--              call (Calling, Serving and WholeCall), and a connection beyond the limit (Busy).
--              Codec joins the two ends by the objects' trees.
--   Bench      crates/ohmcp-bench/src/baseline.rs: the JSON-RPC server and client that the benchmarks
--              compare with (Baseline), and a call over either protocol (Answers, Same).
--   Base       what the modules share: tests, lists, results, bytes, maps and words.
--   Fixtures   concrete stand-ins for the parameters; Tests: runs and examples.
--
-- Conventions. Operations take the state last or first as it reads best and return the new state
-- beside their result. A Rust `String` is the list of its UTF-8 bytes. Integers are natural
-- numbers; where the source's u32 or u64 can wrap, the wrap is written out, as in a release build.
-- Loops are recursions on the list of what is left, so no fuel is needed: `next_frame` recurs on
-- the reads that the stream has left, and ends with them. The loops of kb.dump and kb.blob have the
-- size that they fill up to as fuel, which is enough since each round adds a byte.
--
-- Parameters, for code that is not in the repository: lz4_flex, ChaCha20-Poly1305, HMAC-SHA256,
-- X25519, SHA-256, the random generator, floating-point sums, the clock, the order of a `HashMap`,
-- and the outcomes of system calls and of reads and writes of a stream. What is asked of them is
-- written in a record beside the code that uses them, and Fixtures meets it.
--
-- `serde_json` is such a parameter too: how each object is read, and the text written for it. In
-- Exchange.Codec only the text of a tree is left of it.
--
-- Not modelled: the exchange of descriptors by sendmsg and recvmsg in shm.rs, which is system calls
-- only; logging; the command line; the measurements of crates/ohmcp-bench; the byte counter
-- `wire_bytes`; and the text of JSON trees. Of the client's concurrency only what one holder of the
-- reader's lock does is modelled, not the yield between a queued frame and its flush.
pub mod Base
pub mod Core
pub mod Transport
pub mod Cache
pub mod Security
pub mod Server
pub mod Client
pub mod Exchange
pub mod Bench
pub mod Pipeline
pub mod Fixtures
pub mod Tests
