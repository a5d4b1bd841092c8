-- ===== src/Server/Overlap.antt =====
-- Two calls of `Write` of src/blockstorage_server.cc that run at the same time.
pub mod Rest
pub mod Loss
use replicated_block_store.Prelude.{
  ℕ, ◌≡◌, ◌≢◌, ◌≤◌, ◌+◌, ◌-◌, ◌/◌, ◌%◌, refl, ap, sym, ◌∙◌, none, some, false, Bytes, arith, length,
  length-take, map, inl, inr, ◌==◌, Bool-cases, if◌then◌else◌, [], ◌∷◌, List,
}
use replicated_block_store.Io.{done}
use replicated_block_store.Disk.{Disk, Faults, overwrite}
use replicated_block_store.Disk.Content.{length-overwrite_le}
use replicated_block_store.Wal.{rpc_init, commit, append_log}
use replicated_block_store.Address.{block_size, block_storage_max_size}
use replicated_block_store.Address.Blocks.{block_path, file_parts}
use replicated_block_store.Address.Paths.{max_blocks, block_path_injective}
use replicated_block_store.Device.{Device, write_device, first_part, second_part}
use replicated_block_store.Map.{Map}
use replicated_block_store.Locks.{SharedMutex, free, mutex_at, lock_files}
use replicated_block_store.Locks.Handover.{lock_files-overtakes}
use replicated_block_store.Server.{Server, ok, Outcome, returns, wal_path}
use replicated_block_store.Server.Comm.{stage_files, rename_files, rename_movs}
use replicated_block_store.Server.Block.{WriteReply, file_data_of, call_prepare}
use replicated_block_store.Server.Write.{
  Job, paths, reply, write_job, replicate_staged, add_transaction, enter_state, on_prepare,
  on_commit,
}
use replicated_block_store.Server.Staging.{Calm, content_or_empty}
use replicated_block_store.Server.View.{view, temp_view, temp_path}
use replicated_block_store.Server.Steps.{view-rename, view-append_log, temp_view-append_log}
use replicated_block_store.Server.Parts.{IsReady, IsStaged, stage_parts}
use replicated_block_store.Server.Link.{
  linked, write_to_log-start, log_state_lem, call_prepare-linked, call_commit-linked,
}
use replicated_block_store.Server.Renames.{moves_of_parts, rename-absent}
use replicated_block_store.Server.Runs.{write_device-congr}
use replicated_block_store.Server.Clean.{
  two_blocks, IsClean-renamed, moved-second, others-kept, staged-others,
}
use replicated_block_store.Server.Sound.{
  IsFull-congr, write_device-IsFull, IsSound, IsReady-sound, write_job-temps,
}
use replicated_block_store.Server.Replication.{write_job_replicates, disk-update_entry}

-- A write on a server with no cache.
abbrev pub job_of : Bytes → ℕ → Bytes → Job
job_of txn_id a buffer = record { key = []; buffer = buffer; parts = file_parts a; txn_id = txn_id }

-- How both writes end, and the two servers.
pub record Ends : Type 0 where
  pub early : Outcome WriteReply
  pub late : Outcome WriteReply
  pub primary : Server
  pub backup : Server

-- One order of the steps of two calls of `Write`: the late one stages its files, then the early one
-- runs from its first step to its last, and then the late one goes on.
unfoldable pub overtake : Faults → Faults → Job → Job → Server → Server → Ends
unfolding write_job replicate_staged
overtake os osb early late s p =
    let (staged, d) = stage_files os late.buffer 0 (map file_data_of late.parts) s.disk in
    let (one, s', p') = write_job os false (linked osb) early (record s { disk = d }) p in
    let (two, s'', p'') = replicate_staged os false (linked osb) late staged s' p' in
    record { early = one; late = two; primary = s''; backup = p'' }

-- The last block of a write.
pub last_block :
    (c : ℕ) (buffer : Bytes) (v : Device) (z : Bytes)
    → c % block_size ≢ 0
    → v (c / block_size + 1) ≡ some z
    → write_device c buffer v (c / block_size + 1) ≡ some (overwrite z (second_part c buffer) 0)
unfolding write_device
last_block c buffer v z u g = ground arith

-- Its files.
pub two_paths :
    (b : ℕ)
    → b % block_size ≢ 0
    → paths (file_parts b) ≡ block_path (b / block_size) ∷ block_path (b / block_size + 1) ∷ []
unfolding file_parts
two_paths b h = ground arith
