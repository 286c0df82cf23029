-- ===== src/Lib.antt =====
-- The DCP control plane: providers of compute register with it, send heartbeats and poll for jobs;
-- users deploy jobs and get SSH certificates. It keeps its state in PostgreSQL and Redis. The agent
-- of a provider talks to it over HTTP.
--
-- The parts, each with the file that models it and the code that it models:
-- - Store/Models, Store/Postgres: dcp-control-plane/pkg/store/models.go and postgres.go. Each
--   method of PG is an action on `Tables`, which has a list of rows for each table of the schema.
--   The PostgreSQL server is the parameter `Postgres`: it says how each statement ends (carried out,
--   refused, or carried out with its answer lost), what NOW() is, in which order a query meets the
--   rows and which rows are locked. It stands in Store/Postgres/Server, and the conditions and
--   orders of the statements in Store/Postgres/Clauses. Store/Sql has the SQL they are made of, and
--   Store/Pending, Store/Jobs, Store/Frames and Store/Best have lemmas on them.
-- - Store/Redis: dcp-control-plane/pkg/store/redis.go. The Redis server is the parameter `Redis`;
--   Store/Redis/Laws states what the code relies on, as the record `IsRedis`, and
--   Store/Redis/Memory is a Redis that satisfies it, for the examples. Store/Redis/Alloc and
--   Store/Redis/Ports are about the addresses and the ports that are handed out.
-- - Scheduler: dcp-control-plane/internal/scheduler/scheduler.go. `submit` and `poll_for_provider`
--   act on `World`, the tables and the Redis data that the scheduler and the registry share.
-- - Registry: dcp-control-plane/internal/registry/registry.go. `register`, `heartbeat` and
--   `sweep_offline`, which is one tick of the loop SweepOffline.
-- - Relay: dcp-control-plane/internal/wgrelay/relay.go, over the parameter `Host`.
-- - SshCa: dcp-control-plane/internal/sshca/sshca.go, over the parameter `Ssh`.
-- - Api: dcp-control-plane/internal/api/server.go and jwt.go. Api/Server has the handlers and the
--   JWT middleware, Api/Routes the mux, Api/Runs a run of the server as a list of requests and
--   ticks. HMAC and JSON are the parameters `Crypto` and `Codec`; Api/Base64 is the URL alphabet
--   without padding of encoding/base64 as RFC 4648 describes it.
-- - Machine, HostSetup: dcp-control-plane/internal/setup/setup.go. `Machine` is what a setup changes:
--   the texts of files, a clock and the list of what was done. Commands and the file system are the
--   parameter `Os`, which says what each command prints and leaves, and which reads and writes fail.
--   HostSetup/Texts has the paths and the texts of the files, HostSetup the steps; Machine/Keeps and
--   Machine/Provides have a rule for each way to build a step.
-- - Api/Start: how Serve starts, with NewPG, Migrate and NewRedis of dcp-control-plane/pkg/store and
--   Load and PublicKey of dcp-control-plane/internal/sshca, over the parameter `Drivers`.
--   ServeCommand is dcp-control-plane/cmd/serve.go and setup.go; Flags is envOr of root.go and what
--   the commands use of Cobra, over the parameter `Cli`.
-- - TokenCommand: dcp-control-plane/cmd/tokens.go, `token generate`, on a Redis and a `Machine`.
-- - Provider: the agent on a provider. Provider/Client is dcp-provider/pkg/api/client.go, over the
--   parameter `Network`, with the list of requests that were sent as its state; Provider/Keys is
--   dcp-provider/internal/vm/ssh.go, on the content of authorized_keys, over the parameter `Device`;
--   Provider/Meminfo is dcp-provider/internal/agent/sysinfo.go; Provider/Agent and Provider/Run are
--   dcp-provider/internal/agent/agent.go: the mode and the handling of a job, which starts a VM or a
--   container of Provider/Vm or adds a key by Provider/Keys, and Run up to its loop with one pass of
--   it. Provider/Command is dcp-provider/cmd, with the flags of Flags.
-- - Provider/Setup, Provider/Wireguard and Provider/Attestation: dcp-provider/internal/setup/setup.go,
--   dcp-provider/internal/wireguard/wg.go and dcp-provider/internal/attestation/attest.go, on
--   `Machine`.
-- - Provider/Vm: dcp-provider/internal/vm/firecracker.go and container.go, on `Machine`. Starting the
--   jailer and the API of the VMM are the parameter `Vmm`; the state `Vms` adds the counter of tap
--   addresses and the requests that were sent. A step that returns none is a panic.
-- - Link: the agent and the server together. The parameter `Wire` is what carries a request of
--   Provider/Client to the handlers of Api and a response back; `turn` is a turn of the agent's loop
--   with the server's part in it. Link/Joining has the start of the agent, with its registration at
--   the server in Link/Admission; Link/Once has two turns with a run of the server between them, and
--   Link/Beating a tick of the agent's heartbeat.
-- Errors and Exec hold Go's error values and the methods that return them; Base has the shared
-- notation, numbers and lists; Tests applies the theorems at concrete inputs.
--
-- Integers: Go's int and int64 are the unbounded `ℤ` where the code only stores, compares or adds
-- small constants; the conversions to time.Duration and to uint64 in SshCa wrap around. Fuel
-- is used in `decimal`, which divides by ten at most n times for n, and in the loop of waitForSocket,
-- with 61 turns: each sleeps at least 50 ms, so 60 reach the deadline of three seconds. All else is
-- by structural recursion. The tap counter is a ℕ.
--
-- A handler runs as one step: requests of several clients are interleaved as whole requests, and
-- what a concurrent transaction would do to a query is in `Postgres`. Contexts that are cancelled
-- are errors of the statement or command that meets them.
--
-- In Link every request reaches the server, and `Wire.lost` says which answers do not come back, by
-- a connection that breaks or by the client's Timeout. Texts are such that encoding/json keeps them
-- (valid UTF-8): the theorems assume for the bodies at hand that the other side decodes them.
--
-- Kill is recorded as called, whether or not it worked, and so is `docker rm`; their errors are
-- ignored in the code. The mux gets paths that are clean: its redirects of others are not modelled.
--
-- Not modelled: how Cobra parses a command line, the listener, the timers and the signals, the
-- tunnel's copying of bytes, the printed summaries, file modes, the log, the exit codes and the
-- scripts, which are I/O or calls of libraries.
pub mod Base
pub mod Errors
pub mod Exec
pub mod Store
pub mod World
pub mod Scheduler
pub mod Registry
pub mod HostSetup
pub mod TokenCommand
pub mod ServeCommand
pub mod Machine
pub mod Relay
pub mod Strings
pub mod Flags
pub mod SshCa
pub mod Api
pub mod Provider
pub mod Link
pub mod Tests
