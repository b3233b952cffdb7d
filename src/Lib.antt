-- ===== src/Lib.antt =====
-- redoxide, a proxy in front of a Minecraft server: it answers status pings for a server that
-- sleeps, starts its container at a login, keeps the client until the server answers, forwards the
-- connection, and stops the container when nobody has been connected for a while.
--
-- The parts, and where they are modelled:
-- - src/protocol/varint.rs (read_varint, read_varint_sync, encode_varint): Protocol/Varint. Decode
--   says what the readers answer, Encode what the writer writes, RoundTrip relates them.
-- - src/protocol/packet.rs (RawPacket, read_packet, encode_packet, encode_string,
--   read_string_sync): Protocol/Packet, with Framing and Strings.
-- - src/protocol/handshake.rs (Handshake, parse_handshake, parse_login_start): Protocol/Handshake,
--   with Parse.
-- - src/config.rs (the records, load, apply_server_properties): Config. Text has what it uses of
--   Rust's strings, on UTF-8 bytes; Properties says what a file changes; Table has the readers
--   that serde derives, for a key that is missing.
-- - src/status.rs: Status, with Packets.
-- - src/docker.rs: Docker/Client (DockerClient, new, negotiate_version), Docker/Rcon (rcon_send,
--   rcon_recv, rcon_stop), with Wire, and Docker/Stop (is_running, start, stop), with Outcomes.
-- - src/version_cache.rs (load, save): VersionCache.
-- - src/state.rs (SharedState, SessionGuard and the task of the idle timer): State. Each method is
--   a function on the whole state, and a spawned timer is a state of its task. Timers follows the
--   timers, Cuts their aborts, Work what they have left to do, Memory the version over a restart.
-- - src/proxy.rs: Proxy. Connection has the dispatch of handle_connection_inner, handle_ping and
--   the reads of handle_login, with Ping and Relay. Forward has forward, with Copies, Delivery and
--   Completion. Wait has wait_for_server_with: Rule is what its steps keep, Drain its end,
--   Deadline a wait that is too long, Keepalive its queries, Leftover the bytes it leaves, Fair,
--   with Ends, a wait that goes well, Torn a read that another branch ends, Timing wait_for_server
--   with its intervals, with Bounds. Login has handle_login, handle_connection_inner and
--   handle_connection as a whole, with Safety, Wakes, Complete, Failure, Decides (what a login
--   does by what it sees) and Probed (a probe of the proxy by another). Probe has
--   probe_server_version, with Exchange.
-- - src/main.rs: Main has the adoption at startup and one tick of the synchronisation, with Sync;
--   Boot has the start as a whole, with what the idle timer does during its probe, and the accept
--   loop, with Outcomes. Proxy/Probe/Target has the text of the target that a probe is given.
-- - handle_login of src/proxy.rs from cancel_idle_shutdown on, the idle timers, docker.start and
--   the synchronisation, as tasks over the shared state: System is the step relation, Invariant,
--   Frees, Progress, Service and Stuck what follows for its reachable states, Attended and Idle
--   what becomes of a container that nobody uses, Quiet how its tasks come to rest, with Goes,
--   Rest and Comes, Undisturbed the runs in which no timer is aborted behind its look at the
--   player count, Starts how often it is started, Sessions what its logins see of the server
--   state, as courses of Proxy/Login, Atomic relates steps to the methods of State.
-- Common has the names that all modules share, Outcome the results of fallible code, Tests the
-- examples, with the unit tests of the sources in Tests/Source.
--
-- How the code is translated. A byte is a number, a text its UTF-8 bytes, an i32 its bit pattern
-- below 2 ^ 32, and a usize has 64 bits. An `anyhow` error is a constructor of Error; a panic is a
-- result of its own. An asynchronous stream is the bytes that it yields until it ends, so that a
-- timeout of a read is the end of these bytes; a write is a flag that says whether it succeeds,
-- and the bytes that were handed to the writer: the disconnect packet, whose failure the code
-- ignores, counts as a whole, and a keepalive whose write fails as nothing; only forward has
-- writes that end in the middle. What `select!` takes is a schedule: each round of a wait names
-- its branch, whether the deadline has passed, and how many bytes the read took before another
-- branch ended it. The two copies of forward run under a schedule too: each event names a
-- direction, and whether it reads, writes, closes or fails. The course of a whole connection
-- (Course in Proxy/Login) holds these schedules, and the server state at each place where
-- handle_login looks at it.
--
-- Bounds and fuel. encode_varint runs on fuel of five rounds, which the 32 bits of a value need at
-- most. drain_answers runs on one more than the length of the stream, and each of its rounds takes
-- a byte at least. The loops of the readers, of `lines` and of the properties are structural.
--
-- The steps of System are accesses to shared memory that other tasks may come between; the
-- accesses under the lock of the idle timer are one step. adopt_running is the steps adopt, look
-- and schedule there, and a function in State for the tick of Main, which stands for a tick that
-- no other task interrupts but during its probe.
--
-- Parameters, as code that the repository does not contain: the JSON library (printing a value,
-- reading one, and the format of the version cache), the TOML reader, the lower case of a text,
-- the file system, bollard and the Docker daemon's answers, and the network.
--
-- Not modelled: the logging and the interval of main, the limit of each probe and of each answer
-- within a wait (a probe that takes too long is one without a reply, an answer that comes too late
-- is the end of the stream); a client that goes on sending without end, since a stream is finite:
-- drain_answers then reads on, each read with its own limit. The intervals of WaitTiming pace the
-- branches of select!: wait_for_server takes the times of its rounds as they come, and Bounds
-- supposes that a ticker keeps its interval.
pub mod Common
pub mod Outcome
pub mod Protocol
pub mod Config
pub mod Status
pub mod Docker
pub mod VersionCache
pub mod State
pub mod System
pub mod Proxy
pub mod Main
pub mod Tests
