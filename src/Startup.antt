-- ===== src/Startup.antt =====
-- The start of a block server: `main`, `RunBlockStorageServer` and `StartHB` of
-- src/blockstorage_server.cc, and the constructor of `WAL` (src/util/wal.cc). The threads that main
-- starts share nothing until the first request, and are taken one by one.
pub mod Restart
pub mod Beats
pub mod Serving
use replicated_block_store.Prelude.{
  ℕ, Option, none, some, Bool, List, [], ◌∷◌, ◌++◌, Bytes, codes, drop, bytes_eq, ℤ, pos, negsuc,
  ◌==◌, if◌then◌else◌, false,
}
use replicated_block_store.Io.{Result, done, failed, undefined}
use replicated_block_store.Disk.{Disk, Faults, open_create}
use replicated_block_store.Server.{Server, wal_path, Outcome, returns, throws, crashes}
use replicated_block_store.LoadBalancer.{primary_str, backup_str}
use replicated_block_store.Recovery.Parse.{past_colon}
use replicated_block_store.Recovery.Actions.{RecoveryStub, recover}
use replicated_block_store.Storage.{prepare_storage}

-- Where the server listens: the port of the address that the load balancer knows, and all of the
-- address where it has no colon, for the position `npos` is -1 as an `int`.
unfoldable pub convert_to_local_addr : Bytes → Bytes
unfolding past_colon
convert_to_local_addr addr = codes "0.0.0.0:" ++ drop (past_colon addr) addr

-- The identity of the first heartbeat: every other word than "BACKUP" is the primary.
unfoldable pub start_identity : Bytes → Bytes
start_identity identity_str = if bytes_eq identity_str backup_str then backup_str else primary_str

-- `WAL::WAL`; `none` is the exception where the log cannot be opened.
unfoldable pub open_log : Faults → Bytes → Disk → Option Disk
unfolding open_create
open_log os path d =
    let (r, d') = open_create os path d in
    elim r [ done t ↦ some d' | failed e ↦ none | undefined ↦ none ]

-- `recover_rc == 0`
abbrev is_zero : ℤ → Bool
is_zero (pos n) = n == 0
is_zero (negsuc n) = false

-- Whether the server waits for requests behind its recovery, or the thread ends.
abbrev waits : Outcome ℤ → Outcome Bool
waits (returns recover_rc) = returns (is_zero recover_rc)
waits throws = throws
waits crashes = crashes

module _ {P : Type 0} (os : Faults) (stub : RecoveryStub P) where
  unfoldable pub run_block_storage_server : Disk → P → Outcome Bool × Disk × P
  run_block_storage_server d p = let (o, d', p') = recover os stub d p in (waits o, d', p')

  -- Nothing catches the exception of the log.
  unfoldable pub start_up : Disk → P → Outcome Bool × Disk × P
  unfolding open_log run_block_storage_server
  start_up d p =
      let d' = prepare_storage os d in
      elim (open_log os wal_path d') [
        | none ↦ (throws, d', p)
        | some d'' ↦ run_block_storage_server d'' p
      ]

-- The server behind the start: nothing is in flight or cached.
abbrev pub server_on : Disk → Server
server_on d = record { disk = d; kv_store = []; cache = [] }
