-- ===== src/Server/Pending.antt =====
-- `Write` of src/blockstorage_server.cc where the peer cannot be reached.
use replicated_block_store.Prelude.{
  ℕ, ◌≡◌, ◌≤◌, ◌+◌, ◌++◌, refl, ap, ◌∙◌, some, none, Bool, Bytes, length, int_of_uint32, map,
}
use replicated_block_store.Disk.{Disk, Faults}
use replicated_block_store.Map.{find}
use replicated_block_store.Wal.{start, state_line, move_lines, pending_replication}
use replicated_block_store.KvStore.{TxnData}
use replicated_block_store.KvStore.Laws.{find-update-add}
use replicated_block_store.Address.{block_size, block_storage_max_size, PathData}
use replicated_block_store.Address.Blocks.{file_parts}
use replicated_block_store.Address.Paths.{max_blocks}
use replicated_block_store.Device.{write_device}
use replicated_block_store.Server.{Server, ok, unavailable, returns}
use replicated_block_store.Server.Comm.{rename_movs}
use replicated_block_store.Server.Block.{Stub, address_string, call_prepare}
use replicated_block_store.Server.Write.{
  Job, paths, reply, enter_cache, add_transaction, enter_cache, enter_state, on_prepare, pend,
  replicate_staged, write_job, write,
}
use replicated_block_store.Server.Staging.{Calm}
use replicated_block_store.Server.View.{view}
use replicated_block_store.Server.Parts.{IsReady, IsStaged-append_log, stage_parts}
use replicated_block_store.Server.Link.{write_to_log-start}
use replicated_block_store.Server.Replication.{
  view-enter_state, disk-update_entry, kv_store-update_entry, write_lem, disk-enter_cache,
  kv_store-enter_cache,
}

-- The transaction that waits for the peer.
abbrev pub pending_data : ℕ → TxnData
pending_data a = record {
  original_files = paths (file_parts a);
  sizes = map (λ (pd : PathData). pd.size) (file_parts a);
  offsets = map (λ (pd : PathData). pd.offset) (file_parts a);
  state = pending_replication;
}

write_job_pending :
    (os : Faults) (cache_on : Bool) {P : Type 0} (stub : Stub P) (now key buffer : Bytes) (a : ℕ)
    (s : Server) (p : P)
    → Calm os
    → a + block_size ≤ block_storage_max_size
    → length buffer ≡ block_size
    → IsReady s.disk a
    → (call_prepare stub now buffer (file_parts a) p).0 ≡ unavailable
    → find now s.kv_store ≡ none
    → let w =
        write_job os cache_on stub
          (record { key = key; buffer = buffer; parts = file_parts a; txn_id = now })
          s
          p in
      (w.0 ≡ returns (reply ok))
      × ((b : ℕ) → b ≤ max_blocks → view w.1.disk b ≡ write_device a buffer (view s.disk) b)
      × (find now w.1.kv_store ≡ some (pending_data a))
unfolding write_job add_transaction
write_job_pending os cache_on stub now key buffer a s p calm bound n ready lost free =
    let j : Job = record { key = key; buffer = buffer; parts = file_parts a; txn_id = now } in
    let (ends, staged) = stage_parts os calm a buffer bound s.disk n ready in
    let logged =
      IsStaged-append_log os
        (state_line now start ++ move_lines now (rename_movs (paths (file_parts a)))) a buffer
        (view s.disk) _ bound staged in
    rw (ends, replicate_staged, write_to_log-start os a now, lost, on_prepare, pend)
      (
        refl,
        (λ b hb. rw disk-update_entry (
            view-enter_state os calm a j pending_replication (view s.disk) (add_transaction j _ s)
              bound refl (cc) logged b hb)),
        rw kv_store-update_entry (
            unfold enter_state in
            find-update-add now (paths (file_parts a))
              (map (λ (pd : PathData). pd.size) (file_parts a))
              (map (λ (pd : PathData). pd.offset) (file_parts a)) pending_replication s.kv_store
              free),
      )

module _ (os : Faults) (cache_on : Bool) {P : Type 0} (stub : Stub P) (now buffer : Bytes) (a : ℕ)
    (s : Server) (p : P) (calm : Calm os) (bound : a + block_size ≤ block_storage_max_size)
    (n : length buffer ≡ block_size) (ready : IsReady s.disk a) where
  -- Where the peer cannot be reached for Prepare, a write of 4096 bytes within the bounds, to
  -- blocks that the primary can write and with nothing refused there, answers OK too: it is the
  -- write of the device on the primary, and the transaction, whose id was free, is in flight as
  -- pending with its files, sizes and offsets.
  pub write_pending :
      (call_prepare stub now buffer (file_parts a) p).0 ≡ unavailable
      → find now s.kv_store ≡ none
      → let w = write os cache_on stub now a buffer s p in
        (w.0 ≡ returns (reply ok))
        × ((b : ℕ) → b ≤ max_blocks → view w.1.disk b ≡ write_device a buffer (view s.disk) b)
        × (find now w.1.kv_store ≡ some (pending_data a))
  write_pending lost free =
      let key = address_string (int_of_uint32 a) in
      let same = disk-enter_cache cache_on key s in
      rw (write_lem os cache_on stub now buffer a s p bound) (
        let (o, w, k) =
          write_job_pending os cache_on stub now key buffer a (enter_cache cache_on key s) p calm
            bound n (rw same ready) lost (rw kv_store-enter_cache free) in
        (o, (λ b hb. w b hb ∙ ap (λ (d : Disk). write_device a buffer (view d) b) same), k))
