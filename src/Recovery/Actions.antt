-- ===== src/Recovery/Actions.antt =====
-- `Recover` of src/util/crash_recovery.cc and what it calls behind `LoadData`. The peer is reached
-- through `RecoveryStub`, which gRPC generates; the timers are not modelled.
use replicated_block_store.Prelude.{
  ℕ, ◌+◌, ◌%◌, Bool, true, false, not, Option, none, some, List, [], ◌∷◌, ◌++◌, map, Bytes, codes,
  ℤ, pos, negsuc, ◌==◌, if◌then◌else◌,
}
use replicated_block_store.Io.{Result, done, failed, undefined, Io, ◌>>=◌, ◌>>◌}
use replicated_block_store.Disk.{
  Disk, Faults, opens_write, opens_read, pwrites, open_file, write_file, rename, remove, truncate,
  bytes_at,
}
use replicated_block_store.Map.{Map, find, assign}
use replicated_block_store.Wal.{start, abort, rpc_init, commit, pending_replication}
use replicated_block_store.Server.{StatusCode, CommitRequest, FileData, Outcome, returns, crashes}
use replicated_block_store.Server.Comm.{PendingWrite}
use replicated_block_store.Server.Helper.{source_bytes}
use replicated_block_store.Recovery.Parse.{LogData, load_data}

abbrev pub log_file_path : Bytes
log_file_path = codes "/home/benitakbritto/CS-739-P3/storage/self.log"

pub record RecoveryStub (P : Type 0) : Type 0 where
  pub get_transaction_state : Bytes → P → ℤ
  pub commit_files : CommitRequest → P → StatusCode × P
  pub get_pending : P → List Bytes
  pub force_pending_writes : List Bytes → P → List PendingWrite × P

unfoldable pub get_undo_file_name : Bytes → Bytes
get_undo_file_name file_name = file_name ++ codes ".undo"

-- Names at even places are temporary files, those at odd places originals, whose undo files go.
unfoldable pub tmp_and_undo_files : ℕ → List Bytes → List Bytes
tmp_and_undo_files i [] = []
tmp_and_undo_files i (f ∷ fs) =
    (if i % 2 == 0 then f else get_undo_file_name f) ∷ tmp_and_undo_files (i + 1) fs

unfoldable pub undo_files : ℕ → List Bytes → List Bytes
undo_files i [] = []
undo_files i (f ∷ fs) =
    let rest = undo_files (i + 1) fs in
    if not (i % 2 == 0) then get_undo_file_name f ∷ rest else rest

-- `state == COMMIT`
abbrev pub is_commit : ℤ → Bool
is_commit (pos n) = n == 3
is_commit (negsuc n) = false

-- A file of the request: only its name is set.
abbrev pub named : Bytes → FileData
named f = record { file_name = f; offset = 0; size = 0 }

module _ (os : Faults) where
  -- `Cleanup`
  abbrev cleanup : Disk → Disk
  cleanup = truncate os log_file_path

  unfoldable pub delete_files : List Bytes → Disk → Disk
  delete_files [] d = d
  delete_files (f ∷ fs) d = delete_files fs (remove os f d)

  unfoldable pub execute_transaction_start_recovery : LogData → Disk → Disk
  unfolding delete_files tmp_and_undo_files
  execute_transaction_start_recovery l d = delete_files (tmp_and_undo_files 0 l.file_names) d

  -- The loop of renames: each undo file takes the name of its file.
  unfoldable pub rename_undos : List Bytes → Disk → Disk
  rename_undos [] d = d
  rename_undos (f ∷ fs) d = rename_undos fs (rename os (get_undo_file_name f) f d)

  unfoldable pub execute_transaction_abort_recovery : LogData → Disk → Disk
  unfolding delete_files tmp_and_undo_files rename_undos
  execute_transaction_abort_recovery l d =
      delete_files (tmp_and_undo_files 0 l.file_names) (rename_undos l.file_names d)

  unfoldable pub execute_transaction_commit_recovery : LogData → Disk → Disk
  unfolding delete_files undo_files
  execute_transaction_commit_recovery l d = delete_files (undo_files 0 l.file_names) d

  -- `WriteData`
  unfoldable pub write_data : Bytes → Bytes → ℕ → ℕ → Io Disk (Unit {0})
  write_data file_path content size offset = do
    open_file os opens_write file_path
    buf ← source_bytes (bytes_at content 0 size)
    write_file os pwrites file_path buf offset

  -- The loop that applies what the peer sends; a write that fails is passed over.
  unfoldable pub apply_writes : List PendingWrite → Disk → Result (Unit {0}) × Disk
  apply_writes [] d = (done tt, d)
  apply_writes (w ∷ ws) d =
      let (r, d') = write_data w.file_name w.content w.size w.offset d in
      let rest = apply_writes ws d' in
      elim r [ undefined ↦ (undefined, d') | done t ↦ rest | failed e ↦ rest ]

  module _ {P : Type 0} (stub : RecoveryStub P) where
    unfoldable pub execute_transaction_rpc_init_recovery : Bytes → LogData → Disk → P → Disk × P
    unfolding delete_files undo_files
    execute_transaction_rpc_init_recovery id l d p =
        elim (is_commit (stub.get_transaction_state id p)) [
          | false ↦ (
            d,
            (stub.commit_files (record { txn_id = id; file_data = map named l.file_names }) p).1,
          )
          | true ↦ (delete_files (undo_files 0 l.file_names) d, p)
        ]

    -- One round of the loop over the transactions; `none` is the `return -1`. The case of
    -- PENDING_REPLICATION has no `break` and falls into that of an invalid state.
    unfoldable pub recover_transaction : Bytes → LogData → Disk → P → Option (Disk × P)
    unfolding execute_transaction_rpc_init_recovery
    recover_transaction id l d p = elim l.state [
      | start ↦ some (execute_transaction_start_recovery l d, p)
      | abort ↦ some (execute_transaction_abort_recovery l d, p)
      | rpc_init ↦ some (execute_transaction_rpc_init_recovery id l d p)
      | commit ↦ some (execute_transaction_commit_recovery l d, p)
      | pending_replication ↦ none
    ]

    -- The loop, and the end of `Recover`: 0 behind the cleanup; a -1 leaves what was done before.
    unfoldable pub recover_transactions : Map LogData → Disk → P → Outcome ℤ × Disk × P
    recover_transactions [] d p = (returns (pos 0), cleanup d, p)
    recover_transactions ((id, l) ∷ m) d p = elim (recover_transaction id l d p) [
      | none ↦ (returns (negsuc 0), d, p)
      | some (d', p') ↦ recover_transactions m d' p'
    ]

-- The prune of `ApplyPendingWrites`: what the peer holds for us and is not committed here is asked
-- for, and counts as committed from now on.
unfoldable pub is_committed : LogData → Bool
is_committed l = elim l.state [ commit ↦ true | _ ↦ false ]

unfoldable pub prune : List Bytes → Map LogData → List Bytes × Map LogData
unfolding is_committed
prune [] m = ([], m)
prune (id ∷ ids) m = elim (find id m) [
  | none ↦ let (asked, m') = prune ids m in (id ∷ asked, m')
  | some l ↦
      let (asked, m') =
        prune ids (if is_committed l then m else assign id (record l { state = commit }) m) in
      ((if is_committed l then asked else id ∷ asked), m')
]

-- What `LoadData` reads: nothing where the file cannot be opened.
unfoldable pub log_text : Faults → Disk → Bytes
log_text os d = elim (open_file os opens_read log_file_path d).0 [
  | done t ↦ elim (d log_file_path) [ none ↦ [] | some text ↦ text ]
  | failed e ↦ []
  | undefined ↦ []
]

-- Behind `ApplyPendingWrites`.
unfoldable pub after_writes :
    {P : Type 0}
    → Faults
    → RecoveryStub P
    → Map LogData
    → Result (Unit {0})
    → Disk
    → P
    → Outcome ℤ × Disk × P
after_writes os stub m undefined d p = (crashes, d, p)
after_writes os stub m _ d p = recover_transactions os stub m d p

unfoldable pub recover : {P : Type 0} → Faults → RecoveryStub P → Disk → P → Outcome ℤ × Disk × P
unfolding prune after_writes
recover os stub d p =
    let (asked, m) = prune (stub.get_pending p) (load_data (log_text os d) []) in
    let (writes, p') = stub.force_pending_writes asked p in
    let (applied, d') = apply_writes os writes d in after_writes os stub m applied d' p'
