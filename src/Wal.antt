-- ===== src/Wal.antt =====
-- src/util/wal.h, wal.cc and src/util/state.h: the log, one line for each record.
use replicated_block_store.Prelude.{Option, none, some, List, [], ◌∷◌, ◌++◌, Bytes, codes}
use replicated_block_store.Disk.{Disk, Faults, append_file}

-- `enum State`
pub data State : Type 0 where
  start abort rpc_init commit pending_replication : State

-- The word that the log has for a state.
unfoldable pub state_name : State → Bytes
state_name start = codes "TXN_START"
state_name abort = codes "ABORT"
state_name rpc_init = codes "REPL_INIT"
state_name commit = codes "COMMIT"
state_name pending_replication = codes "PENDING_REPLICATION"

abbrev pub newline : Bytes
newline = 10 ∷ []

abbrev pub delim : Bytes
delim = codes ":"

abbrev pub mv : Bytes
mv = codes "MV"

-- A line "txn_id:STATE".
unfoldable pub state_line : Bytes → State → Bytes
unfolding state_name
state_line txn_id s = txn_id ++ (delim ++ (state_name s ++ newline))

-- A line "txn_id:MV:tmp:original".
unfoldable pub move_line : Bytes → Bytes × Bytes → Bytes
move_line txn_id (tmp, original) =
    txn_id ++ (delim ++ (mv ++ (delim ++ (tmp ++ (delim ++ (original ++ newline))))))

unfoldable pub move_lines : Bytes → List (Bytes × Bytes) → Bytes
unfolding move_line
move_lines txn_id [] = []
move_lines txn_id (m ∷ moves) = move_line txn_id m ++ move_lines txn_id moves

module _ (os : Faults) (log_path : Bytes) where
  -- The `write` to the log and its `fsync`; the result -1 is only printed.
  unfoldable pub append_log : Bytes → Disk → Disk
  unfolding append_file
  append_log line d = (append_file os log_path line d).1

  -- `none` where the constructed exception is thrown: a transaction with no file.
  unfoldable pub log_prepare : Bytes → List (Bytes × Bytes) → Disk → Option Disk
  unfolding append_log state_line move_lines
  log_prepare txn_id [] d = none
  log_prepare txn_id (m ∷ moves) d =
      some (append_log (state_line txn_id start ++ move_lines txn_id (m ∷ moves)) d)

  unfoldable pub log_abort : Bytes → Disk → Disk
  log_abort txn_id = append_log (state_line txn_id abort)

  unfoldable pub log_commit : Bytes → Disk → Disk
  log_commit txn_id = append_log (state_line txn_id commit)

  unfoldable pub log_replication_init : Bytes → Disk → Disk
  log_replication_init txn_id = append_log (state_line txn_id rpc_init)

  unfoldable pub log_pending_replication : Bytes → Disk → Disk
  log_pending_replication txn_id = append_log (state_line txn_id pending_replication)
