-- ===== src/Lib.antt =====
-- WebBou: the Go server of server/webbou, its protocol and the managers around it.
--
-- Parts of the program, and the files that model them (paths from the repository's root):
--
-- - server/webbou/protocol.go: frames on the wire. `Protocol` has the Frame, NewFrame, SetFlag,
--   HasFlag, Validate, Marshal and UnmarshalFrame (marshal, unmarshal_frame, ...); CRC-32 and
--   big-endian words are in `Encoding`, executable. `Protocol/Reader` has FrameReader and the loop
--   that its users write around ReadFrame (drain, read_stream). `Protocol/RoundTrip`,
--   `Protocol/Soundness`, `Protocol/Flags`, `Protocol/Reading`, `Protocol/Stream` and
--   `Protocol/Delivery` have the proofs.
-- - server/webbou/server.go: `Server` has the session and the handler of each frame type,
--   `Server/Loop` the loops that read frames, for any body, `Server/Tcp` the TCP connection
--   handler: admission, session, rate limit, and release, and `Server/Quic` the handlers of QUIC
--   streams and datagrams. They use the frame reader, the connection limiter, and through the
--   record `Limiter` any rate limiter; `Server/Limited` fills it with the token buckets.
--   `Server/Network` is a step relation on the server with any number of connections,
--   `Server/Lifecycle` one on the accept loops, the wait group and Shutdown, `Server/Create` has
--   NewServer and `Server/Ids` the identifiers of sessions. `Server/Delivery`, `Server/Replies`,
--   `Server/Streams`, `Server/Accounting`, `Server/Quic/Answers`, `Server/Network/Moves`,
--   `Server/Network/Invariant`, `Server/Lifecycle/Stopping` and `Server/Lifecycle/Late` have the
--   proofs.
-- - server/main_webbou.go: `Server/Program` goes from the flags to the exit code, over NewServer,
--   Start and the steps of `Server/Lifecycle`.
-- - server/webbou/auth.go: `Auth/Sessions` (SessionManager), `Auth/ZeroRtt` (ZeroRTTManager),
--   `Auth/FlowControl` (FlowControlManager), `Auth/MultiPath` (MultiPathManager), each with its
--   proofs in child modules; `Auth/ZeroRtt/Concurrent` has many goroutines inside CreatePSK; and
--   `Auth/Tokens` (TokenValidator).
-- - server/webbou/state.go: `State/Machine` (StateMachine), `State/Server` (ServerStateMachine, a
--   client of StateMachine), `State/Health` (HealthServer), `State/Circuit` (CircuitBreaker;
--   `State/Circuit/Concurrent` for many goroutines).
-- - server/webbou/ratelimit.go: `Limits/RateLimiter` and `Limits/Connections`.
-- - server/webbou/pool.go: `Limits/BackPressure` and `Limits/Ddos`, which uses the rate limiter;
--   `Pool` has the pools of buffers and frames, `Pool/SpinLock` the spin lock and `Pool/Reputation`
--   the IPReputationManager.
-- - server/webbou/batch.go: `Batch` has the FrameBatcher as a step relation of its callers and its
--   loop.
-- - server/webbou/config.go: `Config` has ServerConfig and its loading, `Config/Manager` the
--   ConfigManager, and `Config/Manager/Log` what it stands for.
-- - server/webbou/logging.go and server/webbou/metrics.go: `Logging`, with `Logging/Default` for
--   the default logger, and `Metrics`, with `Metrics/Races` for a gauge under many goroutines and
--   `Metrics/Page` for the text that Handler writes.
-- - server/security.go: `Security` has the SecurityManager and its RateLimiter.
-- - experimental/main.go: `Hybrid` has the handlers of the HybridServer as a step relation, and
--   `Hybrid/Page` its creation, paths and page of metrics; the proofs are in `Hybrid/Loops` and
--   `Hybrid/Echoes`.
-- - server/webbou/loadbalancer.go: `Balancer`, with `Balancer/RoundRobin`,
--   `Balancer/LeastConnections` and `Balancer/Discovery`; `Balancer/Interface` is the interface
--   LoadBalancer with its laws, which both strategies fill.
-- - server/webbou/crypto.go and server/webbou/compression.go: `Crypto`, with `Crypto/Engine` and
--   `Crypto/Pinning`, and `Compression`, with `Compression/Estimate`.
--
-- How the model stands to the code. A Go struct is a record; a method that changes it is a function
-- from the record to the new record and the results. A Go name keeps its words in lower case
-- (ReadFrame is read_frame). Fixed-width integers are natural numbers with their wrap-around
-- written out (`Prelude/Words`); signed ones are `Prelude/Int`. A map is a list of entries, and
-- where Go ranges over a map the list's order is the order of the visit, so that theorems hold for
-- every order. An error is a value; a slice out of range is the outcome `panic`. The clock, random
-- bytes, hashes, the AEAD, the compressors and float64 are arguments; what a theorem relies on of
-- them is a law of a record (`Aead`, `Libraries`, `Float64`), and the tests instantiate each of
-- these records.
--
-- Loops. The reader's loop has as fuel one more than the length of the buffer; since every round
-- takes at least 16 bytes, that is enough, and `Protocol/Stream` shows it. All other loops are
-- structural.
--
-- Locks. A method that locks at its start and unlocks at its end is one step. Where a method calls
-- another one, or a callback, under its lock (`State/Circuit`, `Limits/Ddos`, `Config/Manager`) the
-- RWMutex is modelled (`Prelude/Lock`): to lock what the goroutine itself holds waits forever, and
-- is the value `none`.
--
-- Goroutines. Where several goroutines share a state between their locks (`Server/Network`,
-- `Server/Lifecycle`, `State/Circuit/Concurrent`, `Auth/ZeroRtt/Concurrent`, `Metrics/Races`,
-- `Batch`, `Pool/SpinLock`, `Hybrid`), a data type `Step` has one constructor for each thing that
-- one of them does between two points where another may get in, and `Reach` is any sequence of
-- steps.
--
-- Connections. A TCP connection is what arrives on it and when; `handle_tcp_connection` reads until
-- the deadline that the source sets. The source's `remoteIP` is the remote address with its port, so
-- the limiter and the rates are kept for each such address.
--
-- Not modelled: listeners, TLS and QUIC itself, and the HTTP servers (I/O and calls of libraries);
-- dialling; the parsing of flags and the waiting for a signal; the ticker of Watch, and the sections
-- of the configuration file that nothing reads; two goroutines inside one method, but for the step
-- relations above; a batcher without an `onFlush`; the Rust client.
pub mod Prelude
pub mod Encoding
pub mod Protocol
pub mod Auth
pub mod State
pub mod Balancer
pub mod Limits
pub mod Crypto
pub mod Compression
pub mod Server
pub mod Batch
pub mod Pool
pub mod Metrics
pub mod Logging
pub mod Config
pub mod Hybrid
pub mod Security
pub mod Examples
