-- ===== src/Server/Commit.antt =====
-- `Write` of src/blockstorage_server.cc where the peer prepares the write and does not commit it.
use replicated_block_store.Prelude.{
  int_of_uint32, ℕ, ◌≡◌, ◌≢◌, ◌≤◌, ◌+◌, ◌++◌, refl, ap, ◌∙◌, some, none, Bool, Bytes, length,
  bytes_eq_refl, map,
}
use replicated_block_store.Disk.{Disk, Faults}
use replicated_block_store.Map.{find}
use replicated_block_store.Wal.{
  start, state_line, move_lines, rpc_init, pending_replication, append_log,
}
use replicated_block_store.KvStore.Laws.{find-delete, find-update, find-update-add}
use replicated_block_store.Address.{block_size, block_storage_max_size, PathData}
use replicated_block_store.Address.Blocks.{file_parts}
use replicated_block_store.Address.Paths.{max_blocks}
use replicated_block_store.Device.{write_device}
use replicated_block_store.Server.{
  Server, StatusCode, ok, unavailable, not_found, unknown, returns, wal_path,
}
use replicated_block_store.Server.Comm.{rename_movs, rename_files, stage_files}
use replicated_block_store.Server.Block.{
  Stub, file_data_of, address_string, call_prepare, call_commit,
}
use replicated_block_store.Server.Write.{
  Job, paths, reply, enter_cache, add_transaction, enter_state, on_prepare, on_commit, pend,
  replicate_staged, write_job, write,
}
use replicated_block_store.Server.Staging.{Calm}
use replicated_block_store.Server.View.{view}
use replicated_block_store.Server.Steps.{view-append_log}
use replicated_block_store.Server.Parts.{IsReady, IsStaged-append_log, stage_parts}
use replicated_block_store.Server.Link.{write_to_log-start, log_state_lem}
use replicated_block_store.Server.Replication.{
  view-enter_state, disk-update_entry, kv_store-update_entry, write_lem, disk-enter_cache,
  kv_store-enter_cache,
}
use replicated_block_store.Server.Pending.{pending_data}
use replicated_block_store.Server.Renames.{rename_files-again}

-- The calls of a write at `a` that a stub answers.
module _ {P : Type 0} (stub : Stub P) (now buffer : Bytes) (a : ℕ) (p : P) where
  abbrev pub prepared : StatusCode × P
  prepared = call_prepare stub now buffer (file_parts a) p

  abbrev pub committed : StatusCode × P
  committed = call_commit stub now (file_parts a) prepared.1

module _ (os : Faults) (calm : Calm os) (cache_on : Bool) {P : Type 0} (stub : Stub P)
    (now buffer : Bytes) (a : ℕ) (s : Server) (p : P)
    (bound : a + block_size ≤ block_storage_max_size) (n : length buffer ≡ block_size)
    (ready : IsReady s.disk a) (prep : (prepared stub now buffer a p).0 ≡ ok) where
  module _ (key : Bytes) where
    abbrev job : Job
    job = record { key = key; buffer = buffer; parts = file_parts a; txn_id = now }

    -- The server when the first record is in the log, and when the files are renamed.
    abbrev begun : Server
    begun =
        add_transaction job
          (append_log os wal_path
            (state_line now start ++ move_lines now (rename_movs (paths (file_parts a))))
            (stage_files os buffer 0 (map file_data_of (file_parts a)) s.disk).1)
          (record s { disk = (stage_files os buffer 0 (map file_data_of (file_parts a)) s.disk).1 })

    abbrev renamed : Server
    renamed = enter_state os job rpc_init begun

    -- A write is the branch of the answer to Commit.
    write_job-committed :
        write_job os cache_on stub job s p
        ≡ on_commit os cache_on stub job
            (committed stub now buffer a p).0
            renamed
            (committed stub now buffer a p).1
    unfolding write_job
    write_job-committed =
        let (ends, staged) = stage_parts os calm a buffer bound s.disk n ready in
        rw (ends, replicate_staged, write_to_log-start os a now, prep, on_prepare)

    view-renamed :
        (b : ℕ) → b ≤ max_blocks → view renamed.disk b ≡ write_device a buffer (view s.disk) b
    unfolding add_transaction
    view-renamed b hb =
        let (ends, staged) = stage_parts os calm a buffer bound s.disk n ready in
        view-enter_state os calm a job rpc_init (view s.disk) begun bound refl (cc)
          (IsStaged-append_log os _ a buffer (view s.disk) _ bound staged) b hb

    -- The pending state in KV_STORE behind RPC_INIT.
    find-pended :
        find now s.kv_store ≡ none
        → find now (enter_state os job pending_replication renamed).kv_store ≡ some (pending_data a)
    unfolding enter_state add_transaction
    find-pended free =
        let added =
          find-update-add now (paths (file_parts a))
            (map (λ (pd : PathData). pd.size) (file_parts a))
            (map (λ (pd : PathData). pd.offset) (file_parts a)) rpc_init s.kv_store free in
        find-update now now pending_replication _ ∙ rw (bytes_eq_refl now, added)

    -- Pending behind RPC_INIT, the blocks are as they were.
    view-pended :
        (b : ℕ)
        → b ≤ max_blocks
        → view (enter_state os job pending_replication renamed).disk b ≡ view renamed.disk b
    unfolding enter_state
    view-pended b hb =
        rw
          (
            log_state_lem os now rpc_init
                (rename_files os (rename_movs (paths (file_parts a))) begun.disk) (cc),
            log_state_lem os now pending_replication
                (rename_files os (rename_movs (paths (file_parts a))) (
                  append_log os wal_path (state_line now rpc_init)
                    (rename_files os (rename_movs (paths (file_parts a))) begun.disk)))
                (cc),
            rename_files-again os calm a (state_line now rpc_init) begun.disk bound,
          )
          (view-append_log os _ _ b hb)

    write_job-refused :
        (committed stub now buffer a p).0 ≢ ok
        → (committed stub now buffer a p).0 ≢ unavailable
        → let w = write_job os cache_on stub job s p in
          (w.0 ≡ returns (reply unknown))
          × ((b : ℕ) → b ≤ max_blocks → view w.1.disk b ≡ write_device a buffer (view s.disk) b)
          × (find now w.1.kv_store ≡ none)
    unfolding on_commit
    write_job-refused h k = rw write_job-committed (answered (committed stub now buffer a p).0 h k)
      where
        answered :
            (r : StatusCode)
            → r ≢ ok
            → r ≢ unavailable
            → let w = on_commit os cache_on stub job r renamed (committed stub now buffer a p).1 in
              (w.0 ≡ returns (reply unknown))
              × ((b : ℕ) → b ≤ max_blocks → view w.1.disk b ≡ write_device a buffer (view s.disk) b)
              × (find now w.1.kv_store ≡ none)
        answered ok h k = absurd (h refl)
        answered unavailable h k = absurd (k refl)
        answered not_found h k =
            (refl, view-renamed, find-delete now now _ ∙ rw (bytes_eq_refl now))
        answered unknown h k = (refl, view-renamed, find-delete now now _ ∙ rw (bytes_eq_refl now))

    write_job-lost :
        (committed stub now buffer a p).0 ≡ unavailable
        → find now s.kv_store ≡ none
        → let w = write_job os cache_on stub job s p in
          (w.0 ≡ returns (reply ok))
          × ((b : ℕ) → b ≤ max_blocks → view w.1.disk b ≡ write_device a buffer (view s.disk) b)
          × (find now w.1.kv_store ≡ some (pending_data a))
    unfolding on_commit pend
    write_job-lost lost free =
        rw (write_job-committed, lost, on_commit)
          (
            refl,
            (λ b hb. rw disk-update_entry (view-pended b hb ∙ view-renamed b hb)),
            rw kv_store-update_entry (find-pended free),
          )

module _ (os : Faults) (cache_on : Bool) {P : Type 0} (stub : Stub P) (now buffer : Bytes) (a : ℕ)
    (s : Server) (p : P) (calm : Calm os) (bound : a + block_size ≤ block_storage_max_size)
    (n : length buffer ≡ block_size) (ready : IsReady s.disk a)
    (prep : (prepared stub now buffer a p).0 ≡ ok) where
  abbrev key : Bytes
  key = address_string (int_of_uint32 a)

  abbrev entered : Server
  entered = enter_cache cache_on key s

  same_device :
      (b : ℕ) → write_device a buffer (view entered.disk) b ≡ write_device a buffer (view s.disk) b
  same_device b =
      ap (λ (d : Disk). write_device a buffer (view d) b) (disk-enter_cache cache_on key s)

  -- Where the peer prepares a write of 4096 bytes within the bounds and answers Commit with a code
  -- that is neither OK nor UNAVAILABLE, to blocks that the primary can write and with nothing refused
  -- there, the write answers UNKNOWN; it is the write of the device on the primary all the same, and
  -- the transaction is not in flight any more.
  pub write_commit_refused :
      (committed stub now buffer a p).0 ≢ ok
      → (committed stub now buffer a p).0 ≢ unavailable
      → let w = write os cache_on stub now a buffer s p in
        (w.0 ≡ returns (reply unknown))
        × ((b : ℕ) → b ≤ max_blocks → view w.1.disk b ≡ write_device a buffer (view s.disk) b)
        × (find now w.1.kv_store ≡ none)
  write_commit_refused h k = rw (write_lem os cache_on stub now buffer a s p bound) (
      let (o, w, g) =
        write_job-refused os calm cache_on stub now buffer a entered p bound n
          (rw (disk-enter_cache cache_on key s) ready) prep key h k in
      (o, (λ b hb. w b hb ∙ same_device b), g))

  -- Where the peer prepares a write of 4096 bytes within the bounds and cannot be reached for
  -- Commit, to blocks that the primary can write and with nothing refused there, the write answers
  -- OK; it is the write of the device on the primary, and the transaction, whose id was free, is in
  -- flight as pending with its files, sizes and offsets.
  pub write_commit_lost :
      (committed stub now buffer a p).0 ≡ unavailable
      → find now s.kv_store ≡ none
      → let w = write os cache_on stub now a buffer s p in
        (w.0 ≡ returns (reply ok))
        × ((b : ℕ) → b ≤ max_blocks → view w.1.disk b ≡ write_device a buffer (view s.disk) b)
        × (find now w.1.kv_store ≡ some (pending_data a))
  write_commit_lost lost free = rw (write_lem os cache_on stub now buffer a s p bound) (
      let (o, w, g) =
        write_job-lost os calm cache_on stub now buffer a entered p bound n
          (rw (disk-enter_cache cache_on key s) ready) prep key lost
          (rw kv_store-enter_cache free) in
      (o, (λ b hb. w b hb ∙ same_device b), g))
