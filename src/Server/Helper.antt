-- ===== src/Server/Helper.antt =====
-- `class Helper` of src/blockstorage_server.cc: staging a write in a temporary file, and the log.
use replicated_block_store.Prelude.{
  ℕ, Option, none, some, List, [], ◌++◌, Bytes, codes, replicate, length, ◌-◌,
}
use replicated_block_store.Io.{Result, done, failed, undefined, Io, ◌>>=◌, ◌>>◌}
use replicated_block_store.Disk.{
  Disk, Faults, opens_read, writes, pwrites, open_file, open_create, read_file, write_file,
  bytes_at, c_string_of_array,
}
use replicated_block_store.Wal.{
  State, start, abort, rpc_init, commit, pending_replication, log_prepare, log_abort, log_commit,
  log_replication_init, log_pending_replication,
}
use replicated_block_store.Server.{wal_path}

unfoldable pub generate_temp_path : Bytes → Bytes
generate_temp_path path = path ++ codes ".tmp"

-- The memory that `pwrite` is given.
abbrev pub source_bytes : Option Bytes → Io Disk Bytes
source_bytes none d = (undefined, d)
source_bytes (some buf) d = (done buf, d)

module _ (os : Faults) where
  -- `WriteToTempFile(temp, original, buffer + start, size, offset)`: a `failed e` is `return errno`,
  -- and the end is `return 0`.
  unfoldable pub write_to_temp_file : Bytes → Bytes → Bytes → ℕ → ℕ → ℕ → Io Disk (Unit {0})
  write_to_temp_file temp_path original_path buffer from size offset = do
    open_file os opens_read original_path
    open_create os temp_path
    original_content ← read_file os original_path 4096 0
    write_file os writes temp_path original_content 0
    buf ← source_bytes (bytes_at buffer from size)
    write_file os pwrites temp_path buf offset

  -- `GetData`: the empty text where the file cannot be read; `undefined` where the array of `size`
  -- bytes holds no zero, so that `string(content)` reads on behind it.
  unfoldable pub get_data : Bytes → ℕ → ℕ → Disk → Result Bytes
  get_data file_path size offset d =
      elim ((do open_file os opens_read file_path; read_file os file_path size offset) d).0 [
        | failed e ↦ done []
        | undefined ↦ undefined
        | done content ↦ elim (c_string_of_array (content ++ replicate (size - length content) 0)) [
          | none ↦ undefined
          | some text ↦ done text
        ]
      ]

  -- `writeToLog`: `none` is the exception of `log_prepare`.
  unfoldable pub write_to_log : Bytes → State → List (Bytes × Bytes) → Disk → Option Disk
  write_to_log txn_id start rename_movs d = log_prepare os wal_path txn_id rename_movs d
  write_to_log txn_id commit rename_movs d = some (log_commit os wal_path txn_id d)
  write_to_log txn_id abort rename_movs d = some (log_abort os wal_path txn_id d)
  write_to_log txn_id pending_replication rename_movs d =
      some (log_pending_replication os wal_path txn_id d)
  write_to_log txn_id rpc_init rename_movs d = some (log_replication_init os wal_path txn_id d)

  -- The call with a state that is not START, which throws nothing.
  unfoldable pub log_state : Bytes → State → Disk → Disk
  unfolding write_to_log
  log_state txn_id s d = elim (write_to_log txn_id s [] d) [ none ↦ d | some d' ↦ d' ]
