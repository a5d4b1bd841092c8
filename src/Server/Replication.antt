-- ===== src/Server/Replication.antt =====
-- `Write` of src/blockstorage_server.cc where the peer answers.
use replicated_block_store.Prelude.{
  ℕ, ◌≡◌, ◌≢◌, ◌≤◌, ◌+◌, ◌++◌, refl, ap, ◌∙◌, some, none, Bool, Bytes, length, arith, bytes_eq_refl,
  int_of_uint32, lt→ltb,
}
use replicated_block_store.Disk.{Disk, Faults}
use replicated_block_store.Map.{find}
use replicated_block_store.Wal.{State, start, state_line, move_lines, rpc_init, commit}
use replicated_block_store.KvStore.Laws.{find-delete}
use replicated_block_store.Address.{block_size, block_storage_max_size, get_all_file_names}
use replicated_block_store.Address.Blocks.{file_parts, get_all_file_names_lem}
use replicated_block_store.Address.Paths.{max_blocks}
use replicated_block_store.Device.{Device, write_device}
use replicated_block_store.Server.{Server, ok, returns}
use replicated_block_store.Server.Comm.{rename_movs}
use replicated_block_store.Server.Block.{Stub, address_string, call_prepare}
use replicated_block_store.Server.Write.{
  Job, paths, reply, update_entry, enter_cache, add_transaction, enter_cache, enter_state,
  on_prepare, on_commit, replicate_staged, write_job, write,
}
use replicated_block_store.Server.Staging.{Calm}
use replicated_block_store.Server.View.{view}
use replicated_block_store.Server.Steps.{view-append_log}
use replicated_block_store.Server.Parts.{
  IsReady, IsStaged, IsStaged-append_log, stage_parts, rename_parts,
}
use replicated_block_store.Server.Link.{
  linked, write_to_log-start, log_state_lem, call_prepare-linked, call_commit-linked,
}

-- The files of a write within the bounds.
pub get_all_file_names_in_bounds :
    (a : ℕ)
    → a + block_size ≤ block_storage_max_size
    → get_all_file_names (int_of_uint32 a) ≡ some (file_parts a)
get_all_file_names_in_bounds a h = rw (
  lt→ltb a 2147483648 (omega arith),
  get_all_file_names_lem,
  lt→ltb a block_storage_max_size (omega arith),
)

-- The block view behind the renames and the record of a state.
pub view-enter_state :
    (os : Faults) (calm : Calm os) (a : ℕ) (j : Job) (st : State) (v : Device) (s : Server)
    → a + block_size ≤ block_storage_max_size
    → j.parts ≡ file_parts a
    → st ≢ start
    → IsStaged a j.buffer v s.disk
    → (b : ℕ) → b ≤ max_blocks
    → view (enter_state os j st s).disk b ≡ write_device a j.buffer v b
unfolding enter_state
view-enter_state os calm a j st v s bound parts other staged b hb =
    rw (log_state_lem os j.txn_id st _ other, parts)
      (view-append_log os _ _ b hb ∙ rename_parts os calm a j.buffer bound v s.disk staged b hb)

-- The cache is no part of what is on disk or in flight.
pub disk-update_entry :
    (cache_on : Bool) (j : Job) (s : Server) → (update_entry cache_on j s).disk ≡ s.disk
unfolding update_entry
disk-update_entry cache_on j s = ground arith

pub kv_store-update_entry :
    (cache_on : Bool) (j : Job) (s : Server) → (update_entry cache_on j s).kv_store ≡ s.kv_store
unfolding update_entry
kv_store-update_entry cache_on j s = ground arith

module _ (os osb : Faults) (calm : Calm os) (calmb : Calm osb) (cache_on : Bool)
    (now key buffer : Bytes) (a : ℕ) (s p : Server)
    (bound : a + block_size ≤ block_storage_max_size) (n : length buffer ≡ block_size)
    (ready : IsReady s.disk a) (readyb : IsReady p.disk a) where
  abbrev job : Job
  job = record { key = key; buffer = buffer; parts = file_parts a; txn_id = now }

  pub write_job_replicates :
      let w = write_job os cache_on (linked osb) job s p in
      (w.0 ≡ returns (reply ok))
      × ((b : ℕ) → b ≤ max_blocks → view w.1.disk b ≡ write_device a buffer (view s.disk) b)
      × ((b : ℕ) → b ≤ max_blocks → view w.2.disk b ≡ write_device a buffer (view p.disk) b)
      × (find now w.1.kv_store ≡ none)
      × (find now w.2.kv_store ≡ none)
  unfolding write_job add_transaction
  write_job_replicates =
      let (ends, staged) = stage_parts os calm a buffer bound s.disk n ready in
      let (prepared, stagedb) = call_prepare-linked osb calmb a buffer now bound p n readyb in
      let (committed, viewb, gone) =
        call_commit-linked osb calmb a buffer now bound (view p.disk)
          (call_prepare (linked osb) now buffer (file_parts a) p).1 stagedb in
      let logged =
        IsStaged-append_log os
          (state_line now start ++ move_lines now (rename_movs (paths (file_parts a)))) a buffer
          (view s.disk) _ bound staged in
      rw
        (
          ends,
          replicate_staged,
          write_to_log-start os a now,
          prepared,
          on_prepare,
          committed,
          on_commit,
        )
        (
          refl,
          (λ b hb.
              rw (disk-update_entry, log_state_lem os now commit _ (cc))
                (view-append_log os _ _ b hb
                  ∙ view-enter_state os calm a job rpc_init (view s.disk) (add_transaction job _ s)
                      bound refl (cc) logged b hb)),
          viewb,
          rw kv_store-update_entry (find-delete now now _ ∙ rw bytes_eq_refl),
          gone,
        )

pub disk-enter_cache :
    (cache_on : Bool) (key : Bytes) (s : Server) → (enter_cache cache_on key s).disk ≡ s.disk
unfolding enter_cache
disk-enter_cache cache_on key s = ground arith

pub kv_store-enter_cache :
    (cache_on : Bool) (key : Bytes) (s : Server)
    → (enter_cache cache_on key s).kv_store ≡ s.kv_store
unfolding enter_cache
kv_store-enter_cache cache_on key s = ground arith

-- Within the bounds a write is the job on the files of its address.
pub write_lem :
    (os : Faults) (cache_on : Bool) {P : Type 0} (stub : Stub P) (now buffer : Bytes) (a : ℕ)
    (s : Server) (p : P)
    → a + block_size ≤ block_storage_max_size
    → write os cache_on stub now a buffer s p
      ≡ write_job os cache_on stub
          (record {
            key = address_string (int_of_uint32 a);
            buffer = buffer;
            parts = file_parts a;
            txn_id = now;
          })
          (enter_cache cache_on (address_string (int_of_uint32 a)) s)
          p
unfolding write
write_lem os cache_on stub now buffer a s p bound = rw (get_all_file_names_in_bounds a bound, write)

-- A write of 4096 bytes within the bounds, to blocks that both servers can write and with nothing
-- refused on the way, answers OK; it is the write of the device on both servers, and neither has
-- the transaction in flight any more.
pub write_replicates :
    (os osb : Faults) (cache_on : Bool) (now buffer : Bytes) (a : ℕ) (s p : Server)
    → Calm os
    → Calm osb
    → a + block_size ≤ block_storage_max_size
    → length buffer ≡ block_size
    → IsReady s.disk a
    → IsReady p.disk a
    → let w = write os cache_on (linked osb) now a buffer s p in
      (w.0 ≡ returns (reply ok))
      × ((b : ℕ) → b ≤ max_blocks → view w.1.disk b ≡ write_device a buffer (view s.disk) b)
      × ((b : ℕ) → b ≤ max_blocks → view w.2.disk b ≡ write_device a buffer (view p.disk) b)
      × (find now w.1.kv_store ≡ none)
      × (find now w.2.kv_store ≡ none)
write_replicates os osb cache_on now buffer a s p calm calmb bound n ready readyb =
    let key = address_string (int_of_uint32 a) in
    let same = disk-enter_cache cache_on key s in
    let r =
      write_job_replicates os osb calm calmb cache_on now key buffer a (enter_cache cache_on key s)
        p bound n (rw same ready) readyb in
    rw (write_lem os cache_on (linked osb) now buffer a s p bound) (
      r.0,
      (λ b hb. r.1 b hb ∙ ap (λ (d : Disk). write_device a buffer (view d) b) same),
      r.2,
      r.3,
      r.4,
    )
