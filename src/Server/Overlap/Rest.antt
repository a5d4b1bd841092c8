-- ===== src/Server/Overlap/Rest.antt =====
-- The end of a write of src/blockstorage_server.cc whose first temporary file another write has
-- renamed.
use replicated_block_store.Prelude.{
  ℕ, ◌≡◌, ◌≢◌, ◌≤◌, ◌+◌, ◌/◌, ◌%◌, refl, ap, ◌∙◌, none, some, false, Bytes, arith, length, ◌==◌,
  if◌then◌else◌,
}
use replicated_block_store.Io.{done}
use replicated_block_store.Disk.{Faults}
use replicated_block_store.Wal.{rpc_init, commit, append_log}
use replicated_block_store.Address.{block_size, block_storage_max_size}
use replicated_block_store.Address.Blocks.{block_path, file_parts}
use replicated_block_store.Address.Paths.{max_blocks}
use replicated_block_store.Device.{write_device}
use replicated_block_store.Server.{Server, ok, returns, wal_path}
use replicated_block_store.Server.Comm.{rename_files, rename_movs}
use replicated_block_store.Server.Block.{call_prepare}
use replicated_block_store.Server.Write.{
  paths, reply, replicate_staged, add_transaction, enter_state, on_prepare, on_commit,
}
use replicated_block_store.Server.Staging.{Calm}
use replicated_block_store.Server.View.{view, temp_view, temp_path}
use replicated_block_store.Server.Steps.{view-rename, view-append_log, temp_view-append_log}
use replicated_block_store.Server.Link.{
  linked, write_to_log-start, log_state_lem, call_prepare-linked, call_commit-linked,
}
use replicated_block_store.Server.Renames.{moves_of_parts, rename-absent}
use replicated_block_store.Server.Clean.{two_blocks}
use replicated_block_store.Server.Sound.{IsSound, IsReady-sound}
use replicated_block_store.Server.Replication.{disk-update_entry}
use replicated_block_store.Server.Overlap.{job_of}

module _ (os osb : Faults) (calm : Calm os) (calmb : Calm osb) (c : ℕ) (buffer now : Bytes)
    (bound : c + block_size ≤ block_storage_max_size) (n : length buffer ≡ block_size)
    (u : c % block_size ≢ 0) (s p : Server) (sound : IsSound p.disk) (content : Bytes)
    (gone : temp_view s.disk (c / block_size) ≡ none)
    (left : temp_view s.disk (c / block_size + 1) ≡ some content) where
  -- The renames, with a record of the log in front: only the last block changes.
  rest_renames :
      (line : Bytes) (j : ℕ)
      → j ≤ max_blocks
      → view
          (rename_files os
            (rename_movs (paths (file_parts c)))
            (append_log os wal_path line s.disk))
          j
        ≡ (if c / block_size + 1 == j then some content else view s.disk j)
  unfolding rename_files temp_view
  rest_renames line j hj =
      let e = append_log os wal_path line s.disk in
      let gone' : e (temp_path (c / block_size)) ≡ none =
        temp_view-append_log os line s.disk (c / block_size) (omega arith) ∙ gone in
      let left' : e (temp_path (c / block_size + 1)) ≡ some content =
        temp_view-append_log os line s.disk (c / block_size + 1) (omega arith) ∙ left in
      rw
        (
          moves_of_parts c,
          two_blocks c (ground arith),
          rename-absent os (temp_path (c / block_size)) (block_path (c / block_size)) e gone',
        )
        (view-rename os calm (c / block_size + 1) (omega arith) e content left' j hj
          ∙ ap (λ o. if c / block_size + 1 == j then some content else o)
              (view-append_log os line s.disk j hj))

  -- The write is made in full on the backup, and in its last block only on the primary.
  pub rest_lem :
      let w = replicate_staged os false (linked osb) (job_of now c buffer) (done tt) s p in
      (w.0 ≡ returns (reply ok))
      × ((j : ℕ)
          → j ≤ max_blocks
          → view w.1.disk j ≡ (if c / block_size + 1 == j then some content else view s.disk j))
      × ((j : ℕ) → j ≤ max_blocks → view w.2.disk j ≡ write_device c buffer (view p.disk) j)
  unfolding replicate_staged add_transaction enter_state
  rest_lem =
      let (prepared, stagedb) =
        call_prepare-linked osb calmb c buffer now bound p n (IsReady-sound p.disk c bound sound) in
      let (committed, viewb, _) =
        call_commit-linked osb calmb c buffer now bound (view p.disk)
          (call_prepare (linked osb) now buffer (file_parts c) p).1 stagedb in
      rw (write_to_log-start os c now, replicate_staged, prepared, on_prepare, committed, on_commit)
        (
          refl,
          (λ j hj.
              rw
                (
                  disk-update_entry,
                  log_state_lem os now commit _ (cc),
                  log_state_lem os now rpc_init _ (cc),
                )
                (view-append_log os _ _ j hj ∙ view-append_log os _ _ j hj ∙ rest_renames _ j hj)),
          viewb,
        )
