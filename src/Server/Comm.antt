-- ===== src/Server/Comm.antt =====
-- `class ServiceCommImpl` of src/blockstorage_server.cc: what a server does for the other one.
-- `Sync`, whose replies are constants, is not modelled. Each handler is one step.
use replicated_block_store.Prelude.{
  ℕ, ◌+◌, none, some, Bool, true, false, List, [], ◌∷◌, Bytes, ℤ, map, if◌then◌else◌,
}
use replicated_block_store.Io.{Result, done, failed, undefined, Io, ◌>>◌}
use replicated_block_store.Disk.{Disk, Faults, rename}
use replicated_block_store.Map.{Map}
use replicated_block_store.Wal.{start, commit, pending_replication}
use replicated_block_store.KvStore.{
  TxnData, add_to_kv_store, delete_from_kv_store, get_state_from_kv_store,
  get_transaction_data_from_kv_store,
}
use replicated_block_store.Server.{
  Server, StatusCode, ok, not_found, FileData, PrepareRequest, CommitRequest, Outcome, returns,
  throws, crashes,
}
use replicated_block_store.Server.Helper.{
  generate_temp_path, write_to_temp_file, get_data, write_to_log, log_state,
}

-- (tmp, original) for each file
unfoldable pub rename_movs : List Bytes → List (Bytes × Bytes)
unfolding generate_temp_path
rename_movs = map (λ p. (generate_temp_path p, p))

abbrev pub file_names : List FileData → List Bytes
file_names = map (λ (f : FileData). f.file_name)

module _ (os : Faults) where
  -- The loop of `Prepare`: every file of the request is staged, one part of the buffer after the
  -- other; the first failure ends it.
  unfoldable pub stage_files : Bytes → ℕ → List FileData → Io Disk (Unit {0})
  stage_files buffer from [] d = (done tt, d)
  stage_files buffer from (f ∷ fs) d =
      ((write_to_temp_file os (generate_temp_path f.file_name) f.file_name buffer from f.size
            f.offset)
          >> stage_files buffer (from + f.size) fs)
        d

  -- The loop of renames: each temporary file takes the name of the original.
  unfoldable pub rename_files : List (Bytes × Bytes) → Disk → Disk
  rename_files [] d = d
  rename_files ((tmp, original) ∷ moves) d = rename_files moves (rename os tmp original d)

  -- `Prepare` behind the loop: log, then KV_STORE.
  unfoldable pub log_and_add :
      PrepareRequest → Result (Unit {0}) → Server → Outcome StatusCode × Server
  log_and_add r (failed e) s = (returns not_found, s)
  log_and_add r undefined s = (crashes, s)
  log_and_add r (done t) s =
      elim (write_to_log os r.txn_id start (rename_movs (file_names r.file_data)) s.disk) [
        | none ↦ (throws, s)
        | some d ↦ (
          returns ok,
          record s {
            disk = d;
            kv_store =
                add_to_kv_store r.txn_id (file_names r.file_data)
                  (map (λ (f : FileData). f.size) r.file_data)
                  (map (λ (f : FileData). f.offset) r.file_data) s.kv_store;
          },
        )
      ]

  unfoldable pub prepare : PrepareRequest → Server → Outcome StatusCode × Server
  unfolding log_and_add
  prepare r s =
      let (staged, d) = stage_files r.buffer 0 r.file_data s.disk in
      log_and_add r staged (record s { disk = d })

  unfoldable pub commit_files : CommitRequest → Server → Outcome StatusCode × Server
  commit_files r s = (
    returns ok,
    record s {
      disk =
          log_state os r.txn_id commit (rename_files (rename_movs (file_names r.file_data)) s.disk);
      kv_store = delete_from_kv_store r.txn_id s.kv_store;
    },
  )

-- `GetPendingReplicationTransactions`: the ids, in the order of the map.
unfoldable pub is_pending : TxnData → Bool
is_pending t = elim t.state [ pending_replication ↦ true | _ ↦ false ]

unfoldable pub pending_of : Map TxnData → List Bytes
unfolding is_pending
pending_of [] = []
pending_of ((id, t) ∷ kv) = let rest = pending_of kv in if is_pending t then id ∷ rest else rest

unfoldable pub get_pending_replication_transactions : Server → List Bytes
unfolding pending_of
get_pending_replication_transactions s = pending_of s.kv_store

pub record PendingWrite : Type 0 where
  pub transaction_id : Bytes
  pub file_name : Bytes
  pub content : Bytes
  pub size : ℕ
  pub offset : ℕ

-- The three vectors of a transaction, walked through together: they have one length.
unfoldable pub read_pending :
    Faults → Bytes → List Bytes → List ℕ → List ℕ → Disk → Result (List PendingWrite)
read_pending os id (p ∷ ps) (n ∷ ns) (o ∷ os') d =
    let rest = read_pending os id ps ns os' d in
    elim (get_data os p n o d) [
      | failed e ↦ failed e
      | undefined ↦ undefined
      | done text ↦ elim rest [
        | failed e ↦ failed e
        | undefined ↦ undefined
        | done ws ↦ done (
            record { transaction_id = id; file_name = p; content = text; size = n; offset = o }
            ∷ ws)
      ]
    ]
read_pending os id _ _ _ d = done []

-- `ForcePendingWrites`: the `return` stands inside the loop over the transactions, so that only the
-- first one is sent.
unfoldable pub force_pending_writes :
    Faults → List Bytes → Server → Result (List PendingWrite) × Server
force_pending_writes os [] s = (done [], s)
force_pending_writes os (id ∷ ids) s =
    let (t, kv) = get_transaction_data_from_kv_store id s.kv_store in
    (read_pending os id t.original_files t.sizes t.offsets s.disk, record s { kv_store = kv })

unfoldable pub get_transaction_state : Bytes → Server → ℤ
get_transaction_state id s = get_state_from_kv_store id s.kv_store
