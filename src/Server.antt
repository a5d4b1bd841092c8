-- ===== src/Server.antt =====
-- The state of a block server (src/blockstorage_server.cc) and the messages between servers
-- (src/protos/servercomm.proto, src/protos/blockstorage.proto).
pub mod Helper
pub mod Comm
pub mod Block
pub mod Write
pub mod Caching
pub mod Overlap
pub mod Staging
pub mod View
pub mod Steps
pub mod Parts
pub mod Link
pub mod Replication
pub mod Pending
pub mod Renames
pub mod Commit
pub mod Clean
pub mod Sound
pub mod Alone
pub mod Runs
pub mod Serving
pub mod Forcing
pub mod Failures
pub mod Reading
use replicated_block_store.Prelude.{ℕ, List, Bytes, codes, ◌++◌}
use replicated_block_store.Disk.{Disk}
use replicated_block_store.Map.{Map}
use replicated_block_store.KvStore.{TxnData}
use replicated_block_store.Address.{server_storage_path}

-- The globals that the handlers change: the files, KV_STORE and addrToContentCache.
pub record Server : Type 0 where
  pub disk : Disk
  pub kv_store : Map TxnData
  pub cache : Map Bytes

-- Where `main` opens the log.
abbrev pub wal_path : Bytes
wal_path = server_storage_path ++ codes "self.log"

-- `grpc::StatusCode`, as far as the program tells codes apart.
pub data StatusCode : Type 0 where
  ok unavailable not_found unknown : StatusCode

pub record FileData : Type 0 where
  pub file_name : Bytes
  pub offset : ℕ
  pub size : ℕ

pub record PrepareRequest : Type 0 where
  pub txn_id : Bytes
  pub buffer : Bytes
  pub file_data : List FileData

pub record CommitRequest : Type 0 where
  pub txn_id : Bytes
  pub file_data : List FileData

-- How a handler ends: with a value, by an exception that it does not catch, or by an undefined
-- access of memory.
pub data Outcome {ℓ} (A : Type ℓ) : Type ℓ where
  returns : A → Outcome A
  throws crashes : Outcome A
