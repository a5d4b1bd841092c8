-- ===== src/Server/Link.antt =====
-- The peer behind a link: one that delivers every call to the peer's handlers, and one that is
-- down. gRPC turns an exception of a handler into UNKNOWN, and a peer that dies into UNAVAILABLE.
use replicated_block_store.Prelude.{
  ℕ, ◌≡◌, ◌≤◌, ◌+◌, refl, ap, ◌∙◌, ◌≢◌, ◌++◌, some, none, List, [], ◌∷◌, map, Bytes, length,
  bytes_eq_refl,
}
use replicated_block_store.Disk.{Disk, Faults}
use replicated_block_store.Map.{find}
use replicated_block_store.Wal.{
  State, start, abort, rpc_init, commit, pending_replication, state_line, move_lines, append_log,
  log_prepare, log_commit, log_abort, log_replication_init, log_pending_replication,
}
use replicated_block_store.KvStore.Laws.{find-delete}
use replicated_block_store.Address.{PathData, block_size, block_storage_max_size}
use replicated_block_store.Address.Blocks.{file_parts}
use replicated_block_store.Address.Paths.{max_blocks}
use replicated_block_store.Device.{Device, write_device}
use replicated_block_store.Server.{
  Server, StatusCode, ok, unavailable, unknown, Outcome, returns, throws, crashes, wal_path,
}
use replicated_block_store.Server.Helper.{write_to_log, log_state}
use replicated_block_store.Server.Comm.{prepare, commit_files, log_and_add, rename_movs, file_names}
use replicated_block_store.Server.Block.{Stub, file_data_of, call_prepare, call_commit}
use replicated_block_store.Server.Write.{paths}
use replicated_block_store.Server.Staging.{Calm}
use replicated_block_store.Server.View.{view}
use replicated_block_store.Server.Steps.{view-append_log}
use replicated_block_store.Server.Parts.{
  IsReady, IsStaged, IsStaged-append_log, stage_parts, rename_parts,
}

abbrev pub status_of : Outcome StatusCode → StatusCode
status_of (returns s) = s
status_of throws = unknown
status_of crashes = unavailable

abbrev pub delivered : Outcome StatusCode × Server → StatusCode × Server
delivered (o, p) = (status_of o, p)

unfoldable pub linked : Faults → Stub Server
linked os = record {
  prepare = λ r p. delivered (prepare os r p);
  commit_files = λ r p. delivered (commit_files os r p);
}

unfoldable pub down : {P : Type 0} → Stub P
down = record { prepare = λ r p. (unavailable, p); commit_files = λ r p. (unavailable, p) }

-- Both requests name the files of the write.
pub names-prepare : (ps : List PathData) → file_names (map file_data_of ps) ≡ paths ps
unfolding file_data_of
names-prepare [] = refl
names-prepare (p ∷ ps) = ap (◌∷◌ p.path) (names-prepare ps)

pub names-commit :
    (ps : List PathData)
    → file_names (map (λ (pd : PathData). record { file_name = pd.path; offset = 0; size = 0 }) ps)
      ≡ paths ps
names-commit [] = refl
names-commit (p ∷ ps) = ap (◌∷◌ p.path) (names-commit ps)

-- A write has a file, so that its first record is logged and no exception is thrown.
pub write_to_log-start :
    (os : Faults) (a : ℕ) (txn_id : Bytes) (d : Disk)
    → write_to_log os txn_id start (rename_movs (paths (file_parts a))) d
      ≡ some (
          append_log os wal_path
            (state_line txn_id start ++ move_lines txn_id (rename_movs (paths (file_parts a))))
            d)
unfolding write_to_log log_prepare file_parts rename_movs
write_to_log-start os a txn_id d = refl

-- The other states are one line each.
pub log_state_lem :
    (os : Faults) (txn_id : Bytes) (st : State) (d : Disk)
    → st ≢ start
    → log_state os txn_id st d ≡ append_log os wal_path (state_line txn_id st) d
unfolding log_state log_abort log_commit log_replication_init log_pending_replication
log_state_lem os txn_id start d h = absurd (h refl)
log_state_lem os txn_id abort d h = refl
log_state_lem os txn_id rpc_init d h = refl
log_state_lem os txn_id commit d h = refl
log_state_lem os txn_id pending_replication d h = refl

module _ (os : Faults) (calm : Calm os) (a : ℕ) (buffer txn_id : Bytes)
    (bound : a + block_size ≤ block_storage_max_size) where
  -- A peer that can stage the write answers OK, and has staged it.
  pub call_prepare-linked :
      (p : Server)
      → length buffer ≡ block_size
      → IsReady p.disk a
      → ((call_prepare (linked os) txn_id buffer (file_parts a) p).0 ≡ ok)
        × IsStaged a buffer
            (view p.disk)
            (call_prepare (linked os) txn_id buffer (file_parts a) p).1.disk
  unfolding call_prepare linked prepare
  call_prepare-linked p n ready =
      let (ends, staged) = stage_parts os calm a buffer bound p.disk n ready in
      rw (ends, log_and_add, names-prepare, write_to_log-start os a txn_id)
        (refl, IsStaged-append_log os _ a buffer (view p.disk) _ bound staged)

  -- A peer that has staged a write makes it on Commit, and forgets the transaction.
  pub call_commit-linked :
      (v : Device) (p : Server)
      → IsStaged a buffer v p.disk
      → ((call_commit (linked os) txn_id (file_parts a) p).0 ≡ ok)
        × ((j : ℕ)
            → j ≤ max_blocks
            → view (call_commit (linked os) txn_id (file_parts a) p).1.disk j
              ≡ write_device a buffer v j)
        × (find txn_id (call_commit (linked os) txn_id (file_parts a) p).1.kv_store ≡ none)
  unfolding call_commit linked commit_files
  call_commit-linked v p s =
      rw (names-commit, log_state_lem os txn_id commit _ (cc))
        (
          refl,
          (λ j hj.
              view-append_log os _ _ j hj ∙ rename_parts os calm a buffer bound v p.disk s j hj),
          find-delete txn_id txn_id p.kv_store ∙ rw bytes_eq_refl,
        )
