-- ===== src/Lib.antt =====
-- The replicated block store. Clients read and write 4096 bytes at a time through a load balancer,
-- which knows a primary and a backup block server from their heartbeats. A write is staged in
-- temporary files on both servers, renamed on both, and remembered as pending where the backup is
-- down; a server that comes back reads its log and asks its peer for what is pending.
--
-- The parts, their files and what they are in the source:
-- - Address (src/util/address_translation.h, .cc): `get_all_file_names` and its helpers, from an
--   address to the one or two files of its blocks. Address/Blocks has the description by block
--   numbers, Address/Paths the names of the files. Decimal has `to_string` and `stoi`.
-- - Disk: the calls of the C library on files, as POSIX documents them. Every call may be refused by
--   a parameter, `Faults`. Disk/Content, Disk/Laws and Disk/Frame have the laws of the calls; Io has
--   the results of calls, of which `undefined` is an access to memory that is not the program's.
-- - Wal (src/util/wal.cc, src/util/state.h): the lines of the log. KvStore (src/util/kv_store.cc):
--   the transactions in flight. Cache (src/util/cache.cc), Txn (src/util/txn.cc).
-- - Server (src/blockstorage_server.cc): the state of a block server, its disk, KV_STORE and cache.
--   Server/Helper is class Helper, Server/Comm is class ServiceCommImpl (`prepare`, `commit_files`,
--   ...), Server/Block and Server/Write are class BlockStorageServiceImpl (`read`, `write`). `write`
--   is cut at its answers: `write_job` stages, `replicate_staged` logs and calls Prepare,
--   `on_prepare` and `on_commit` are the branches on the answers, `pend` is the branch of a backup
--   that is down. The peer is a parameter, `Stub`; Server/Link gives it as the peer's own handlers.
-- - Device: the specification of the servers, numbered blocks with a write and a read of 4096 bytes
--   at any address. Server/View sees a disk as a device; Server/Staging, Server/Steps and
--   Server/Parts are the steps of a write on it, Server/Replication, Server/Pending, Server/Renames,
--   Server/Commit, Server/Failures and Server/Reading what a write and a read come to. Server/Clean,
--   Server/Sound, Server/Runs and Server/Serving are about the disks between writes, writes in a row
--   and reads behind them;
--   Server/Forcing is about a pending write that the peer asks for, Server/Caching about the cache,
--   Server/Overlap about two writes at the same time, of which one is lost (Server/Overlap/Loss).
-- - Storage: `PrepareStorage` of src/blockstorage_server.cc.
-- - Recovery (src/util/crash_recovery.cc): Recovery/Parse is `LoadData`, Recovery/Actions is
--   `Recover` and the recovery of each state. Recovery/Cut, Recovery/RoundTrip and
--   Recovery/History are about parsing,
--   Recovery/Keeping, Recovery/Blocks and Recovery/OwnLog about the files that recovery leaves alone,
--   Recovery/Completion about how it ends. Recovery/Sending, Recovery/Applying and Recovery/CatchUp are
--   about the writes that the peer has pending, with the peer's handlers in the place of the stub.
-- - Locks (src/util/locks.cc): the mutex of each file. Locks/Exclusion has the threads that take and
--   release locks, Locks/Handover the loop of `Write` that does.
-- - LoadBalancer (src/load_balancer.cc): routing, registration and heartbeats; LoadBalancer/Routing
--   is about where requests go, LoadBalancer/States about the states that are reached,
--   LoadBalancer/Primary about the primary between its registration and its end, and
--   LoadBalancer/Failover about the takeover. `next_identity` is the server's
--   side of a heartbeat. Client (src/client.cc): the retries.
-- - System: the processes together, a client, the load balancer and two block servers, as `client_read`,
--   `client_write`, `lb_read` and `lb_write`. System/Serving is about a call that reaches a server,
--   System/Routes about where the load balancer sends it, System/Pinging about `Ping`, System/Session about requests in a row, and
--   System/Failover about the loss of the primary between them.
-- - Sync: the handler `Sync` and class ServiceCommClient of src/blockstorage_server.cc, step by step,
--   with the stream between them. Sync/Exploring has every order of the steps, Sync/Balance what
--   becomes of the semaphore.
-- - Performance: the programs of performance/. Performance/Concurrent is `testReadWrite` of concurrent_rw.cc,
--   Performance/ReadWrite is rw_perf.cc, Performance/Latency is latency_perf.cc and recovery_perf.cc, and
--   Performance/Rounds has the orders of the requests of their workers.
-- - Startup (src/blockstorage_server.cc, src/util/wal.cc): `main` as `start_up`, with the constructor of the
--   log and `RunBlockStorageServer`. Startup/Restart is about the disk that a server starts on,
--   Startup/Beats has the loop of `SendHeartBeat` against the load balancer, and Startup/Serving is about
--   both servers from their start on.
-- - Checksum is src/crc.cc, with Boost's checksum as a parameter.
-- - Map is `std::map`; Prelude has what all modules share; Tests has concrete runs.
--
-- Fuel and bounds. The retry loop of the client runs on 3 units of fuel, which are enough: it makes at
-- most three attempts. `to_string` has one unit for each digit, and a number n has at most n + 1.
-- An `int` is one of `pos` and `negsuc`; addresses arrive as 32-bit numbers, which `int_of_uint32`
-- wraps. Behind the check of an address no sum or product leaves an `int`.
--
-- Not modelled: the interleaving of handlers in general (each one is a step; within it the locks are
-- followed, the steps of `Sync`, and one order of the steps of two writes, in Server/Overlap), and so the
-- two calls of `testReadWrite` that concurrent_rw.cc runs at the same time; directories, so that a file is made wherever its path points; the
-- threads of the processes and their gRPC servers, the main function of src/blockstorage_client.cc,
-- the time that the performance programs measure, and gRPC,
-- whose stubs are parameters. Writes to files are whole. The log of the block server and the log that recovery
-- reads have different paths in the source, and have them here.
pub mod Prelude
pub mod Decimal
pub mod Address
pub mod Map
pub mod Io
pub mod Disk
pub mod Wal
pub mod KvStore
pub mod Cache
pub mod Locks
pub mod Txn
pub mod Server
pub mod Device
pub mod LoadBalancer
pub mod Client
pub mod Storage
pub mod Recovery
pub mod System
pub mod Sync
pub mod Performance
pub mod Startup
pub mod Checksum
pub mod Tests
