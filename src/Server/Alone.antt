-- ===== src/Server/Alone.antt =====
-- Writes of src/blockstorage_server.cc on a server whose peer is lost, whatever ids are in use.
use replicated_block_store.Prelude.{
  ℕ, ◌≡◌, ◌≤◌, ◌+◌, ◌++◌, refl, ap, ◌∙◌, Bool, Bytes, length, int_of_uint32,
}
use replicated_block_store.Disk.{Disk, Faults}
use replicated_block_store.Wal.{start, state_line, move_lines, pending_replication}
use replicated_block_store.Address.{block_size, block_storage_max_size}
use replicated_block_store.Address.Blocks.{file_parts}
use replicated_block_store.Address.Paths.{max_blocks}
use replicated_block_store.Device.{write_device}
use replicated_block_store.Server.{Server, ok, unavailable, returns}
use replicated_block_store.Server.Comm.{rename_movs}
use replicated_block_store.Server.Block.{Stub, address_string, call_prepare}
use replicated_block_store.Server.Write.{
  Job, paths, reply, enter_cache, add_transaction, enter_state, on_prepare, pend, replicate_staged,
  write_job, write,
}
use replicated_block_store.Server.Staging.{Calm}
use replicated_block_store.Server.View.{view}
use replicated_block_store.Server.Parts.{IsStaged-append_log, stage_parts}
use replicated_block_store.Server.Link.{write_to_log-start}
use replicated_block_store.Server.Replication.{
  view-enter_state, disk-update_entry, kv_store-update_entry, write_lem, disk-enter_cache,
  kv_store-enter_cache,
}
use replicated_block_store.Map.{Map}
use replicated_block_store.KvStore.{TxnData, add_to_kv_store, update_state_on_kv_store}
use replicated_block_store.Server.Pending.{pending_data}
use replicated_block_store.Server.Clean.{IsClean, IsClean-renamed}
use replicated_block_store.Server.Sound.{
  IsSound, IsReady-sound, IsFull-congr, write_device-IsFull, temp_view-enter_state,
}

module _ (os : Faults) (calm : Calm os) (cache_on : Bool) {P : Type 0} (stub : Stub P)
    (now buffer : Bytes) (a : ℕ) (p : P) (bound : a + block_size ≤ block_storage_max_size)
    (n : length buffer ≡ block_size)
    (lost : (call_prepare stub now buffer (file_parts a) p).0 ≡ unavailable) where
  -- The transactions behind it.
  abbrev pub pended : Map TxnData → Map TxnData
  pended kv = update_state_on_kv_store now pending_replication (
      add_to_kv_store now (pending_data a).original_files (pending_data a).sizes
        (pending_data a).offsets kv)

  write_job_alone :
      (key : Bytes) (s : Server)
      → IsSound s.disk
      → let w =
          write_job os cache_on stub
            (record { key = key; buffer = buffer; parts = file_parts a; txn_id = now })
            s
            p in
        (w.0 ≡ returns (reply ok))
        × ((b : ℕ) → b ≤ max_blocks → view w.1.disk b ≡ write_device a buffer (view s.disk) b)
        × IsClean w.1.disk
        × (w.1.kv_store ≡ pended s.kv_store)
  unfolding write_job add_transaction
  write_job_alone key s sound =
      let j : Job = record { key = key; buffer = buffer; parts = file_parts a; txn_id = now } in
      let record_line : Bytes =
        state_line now start ++ move_lines now (rename_movs (paths (file_parts a))) in
      let (ends, staged) =
        stage_parts os calm a buffer bound s.disk n (IsReady-sound s.disk a bound sound) in
      let logged = IsStaged-append_log os record_line a buffer (view s.disk) _ bound staged in
      rw (ends, replicate_staged, write_to_log-start os a now, lost, on_prepare, pend)
        (
          refl,
          (λ b hb. rw disk-update_entry (
              view-enter_state os calm a j pending_replication (view s.disk) (add_transaction j _ s)
                bound refl (cc) logged b hb)),
          (λ b hb. rw disk-update_entry (
              temp_view-enter_state os j pending_replication (add_transaction j _ s) b (cc) hb
              ∙ IsClean-renamed os calm a buffer record_line s.disk bound sound.clean b hb)),
          rw kv_store-update_entry (unfold enter_state in refl),
        )

  -- The write is the device's, and leaves a sound disk.
  pub write_alone :
      (s : Server)
      → IsSound s.disk
      → let w = write os cache_on stub now a buffer s p in
        (w.0 ≡ returns (reply ok))
        × ((b : ℕ) → b ≤ max_blocks → view w.1.disk b ≡ write_device a buffer (view s.disk) b)
        × IsSound w.1.disk
        × (w.1.kv_store ≡ pended s.kv_store)
  write_alone s sound =
      let key = address_string (int_of_uint32 a) in
      let same = disk-enter_cache cache_on key s in
      rw (write_lem os cache_on stub now buffer a s p bound) (
        let (o, vs, clean, kv) = write_job_alone key (enter_cache cache_on key s) (rw same sound) in
        let views : (b : ℕ) → b ≤ max_blocks → _ ≡ write_device a buffer (view s.disk) b =
          λ b hb. vs b hb ∙ ap (λ (d : Disk). write_device a buffer (view d) b) same in
        (
          o,
          views,
          record {
            full = IsFull-congr _ _ views (write_device-IsFull a buffer (view s.disk) n sound.full);
            clean = clean;
          },
          kv ∙ ap pended (kv_store-enter_cache cache_on key s),
        ))
