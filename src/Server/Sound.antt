-- ===== src/Server/Sound.antt =====
-- The disks between the writes of src/blockstorage_server.cc.
use replicated_block_store.Prelude.{
  ℕ, ◌≡◌, ◌≢◌, ◌≤◌, ◌<◌, ◌+◌, ◌-◌, ◌/◌, ◌%◌, ◌++◌, refl, ◌∙◌, some, Bytes, length, arith, map, drop,
  length-take, Bool, Bool-cases, inl, inr, if_holds, ◌==◌, int_of_uint32,
}
use replicated_block_store.Disk.{Disk, Faults, overwrite}
use replicated_block_store.Disk.Content.{length-overwrite_le}
use replicated_block_store.Wal.{State, start, state_line, move_lines, rpc_init, commit, append_log}
use replicated_block_store.Address.{block_size, block_storage_max_size}
use replicated_block_store.Address.Blocks.{file_parts}
use replicated_block_store.Address.Paths.{max_blocks}
use replicated_block_store.Device.{Device, write_device, write_block, first_part, second_part}
use replicated_block_store.Server.{Server, wal_path}
use replicated_block_store.Server.Comm.{
  prepare, commit_files, log_and_add, rename_movs, rename_files, stage_files,
}
use replicated_block_store.Server.Block.{file_data_of, call_prepare, call_commit, address_string}
use replicated_block_store.Server.Write.{
  Job, paths, enter_cache, add_transaction, enter_state, on_prepare, on_commit, replicate_staged,
  write_job, write,
}
use replicated_block_store.Server.Staging.{Calm}
use replicated_block_store.Server.View.{view, temp_view}
use replicated_block_store.Server.Steps.{HasRoom, temp_view-append_log}
use replicated_block_store.Server.Parts.{IsReady, stage_parts}
use replicated_block_store.Server.Link.{
  linked, names-prepare, names-commit, write_to_log-start, log_state_lem, call_prepare-linked,
  call_commit-linked,
}
use replicated_block_store.Server.Replication.{
  write_replicates, disk-update_entry, write_lem, disk-enter_cache,
}
use replicated_block_store.Server.Clean.{IsClean, IsClean-renamed, renamed}

-- Every block has a file of at most 4096 bytes.
abbrev pub IsFull : Device → Type 0
IsFull v = (b : ℕ) → b < max_blocks → (c : Bytes) × (v b ≡ some c) × (length c ≤ block_size)

-- A disk between writes: every block is there, and no temporary file.
pub record IsSound (d : Disk) : Type 0 where
  pub full : IsFull (view d)
  pub clean : IsClean d

room : (d : Disk) (b : ℕ) → b < max_blocks → IsSound d → HasRoom d b
room d b hb s =
    let (c, e, n) = s.full b hb in
    record {
      content = c;
      present = e;
      fits = n;
      stale = rw (s.clean b (omega arith)) (omega arith);
    }

pub IsReady-sound :
    (d : Disk) (a : ℕ) → a + block_size ≤ block_storage_max_size → IsSound d → IsReady d a
IsReady-sound d a bound s = record {
  first = room d (a / block_size) (omega arith) s;
  second = λ u. room d (a / block_size + 1) (ground arith) s;
}

-- A write into a full device.
write_block-IsFull :
    (b offset : ℕ) (buf : Bytes) (v : Device)
    → offset + length buf ≤ block_size
    → IsFull v
    → IsFull (write_block b offset buf v)
write_block-IsFull b offset buf v fits full j hj =
    let (c, e, n) = full j hj in
    elim (Bool-cases (b == j)) [
      | inl t ↦
          rw (t, e)
            (overwrite c buf offset, refl, length-overwrite_le c buf offset block_size n fits)
      | inr t ↦ rw (t) (c, e, n)
    ]

pub write_device-IsFull :
    (a : ℕ) (buffer : Bytes) (v : Device)
    → length buffer ≡ block_size
    → IsFull v
    → IsFull (write_device a buffer v)
unfolding write_device
write_device-IsFull a buffer v n full =
    let one : IsFull (write_block (a / block_size) (a % block_size) (first_part a buffer) v) =
      write_block-IsFull (a / block_size) (a % block_size) (first_part a buffer) v
        (omega (arith, length-take (block_size - a % block_size) buffer)) full in
    let two =
      write_block-IsFull (a / block_size + 1) 0 (second_part a buffer) _
        (omega (arith, length-take (a % block_size) (drop (block_size - a % block_size) buffer)))
        one in
    if_holds IsFull (a % block_size == 0) _ _ one two

-- A state in the log changes no temporary file.
pub temp_view-enter_state :
    (os : Faults) (j : Job) (st : State) (s : Server) (b : ℕ)
    → st ≢ start
    → b ≤ max_blocks
    → temp_view (enter_state os j st s).disk b
      ≡ temp_view (rename_files os (rename_movs (paths j.parts)) s.disk) b
unfolding enter_state
temp_view-enter_state os j st s b other hb =
    rw (log_state_lem os j.txn_id st (rename_files os (rename_movs (paths j.parts)) s.disk) other)
      (temp_view-append_log os (state_line j.txn_id st) _ b hb)

module _ (os osb : Faults) (calm : Calm os) (calmb : Calm osb) (cache_on : Bool)
    (now key buffer : Bytes) (a : ℕ) (s p : Server)
    (bound : a + block_size ≤ block_storage_max_size) (n : length buffer ≡ block_size)
    (ready : IsReady s.disk a) (readyb : IsReady p.disk a) where
  abbrev job : Job
  job = record { key = key; buffer = buffer; parts = file_parts a; txn_id = now }

  -- The peer's disk behind Prepare.
  abbrev pub first_record : Bytes
  first_record = state_line now start ++ move_lines now (rename_movs (paths (file_parts a)))

  disk-call_prepare :
      (call_prepare (linked osb) now buffer (file_parts a) p).1.disk
      ≡ append_log osb wal_path first_record
          (stage_files osb buffer 0 (map file_data_of (file_parts a)) p.disk).1
  unfolding call_prepare linked prepare
  disk-call_prepare =
      let (ends, staged) = stage_parts osb calmb a buffer bound p.disk n readyb in
      rw (ends, log_and_add, names-prepare, write_to_log-start osb a now)

  disk-call_commit :
      (q : Server)
      → (call_commit (linked osb) now (file_parts a) q).1.disk
        ≡ append_log osb wal_path
            (state_line now commit)
            (rename_files osb (rename_movs (paths (file_parts a))) q.disk)
  unfolding call_commit linked commit_files
  disk-call_commit q = rw (names-commit, log_state_lem osb now commit _ (cc))

  -- The temporary files behind a write are those behind its renames.
  pub write_job-temps :
      let w = write_job os cache_on (linked osb) job s p in
      ((b : ℕ)
        → b ≤ max_blocks
        → temp_view w.1.disk b ≡ temp_view (renamed os calm a buffer first_record s.disk bound) b)
      × ((b : ℕ)
          → b ≤ max_blocks
          → temp_view w.2.disk b
            ≡ temp_view (renamed osb calmb a buffer first_record p.disk bound) b)
  unfolding write_job add_transaction
  write_job-temps =
      let (ends, staged) = stage_parts os calm a buffer bound s.disk n ready in
      let (prepared, stagedb) = call_prepare-linked osb calmb a buffer now bound p n readyb in
      let (committed, viewb, gone) =
        call_commit-linked osb calmb a buffer now bound (view p.disk)
          (call_prepare (linked osb) now buffer (file_parts a) p).1 stagedb in
      rw
        (
          ends,
          replicate_staged,
          write_to_log-start os a now,
          prepared,
          on_prepare,
          committed,
          on_commit,
        )
        (
          (λ b hb.
              rw (disk-update_entry, log_state_lem os now commit _ (cc))
                (temp_view-append_log os _ _ b hb
                  ∙ temp_view-enter_state os job rpc_init _ b (cc) hb)),
          λ b hb. rw (disk-call_commit, disk-call_prepare) (temp_view-append_log osb _ _ b hb),
        )

  write_job-IsClean :
      IsClean s.disk
      → IsClean p.disk
      → let w = write_job os cache_on (linked osb) job s p in IsClean w.1.disk × IsClean w.2.disk
  write_job-IsClean clean cleanb =
      let (temps, tempsb) = write_job-temps in
      (
        (λ b hb.
            temps b hb ∙ IsClean-renamed os calm a buffer first_record s.disk bound clean b hb),
        λ b hb.
            tempsb b hb ∙ IsClean-renamed osb calmb a buffer first_record p.disk bound cleanb b hb,
      )

pub IsFull-congr : (v w : Device) → ((b : ℕ) → b ≤ max_blocks → w b ≡ v b) → IsFull v → IsFull w
IsFull-congr v w same full b hb = let (c, e, n) = full b hb in (c, same b (omega arith) ∙ e, n)

-- A write between sound disks leaves sound disks.
pub write-IsSound :
    (os osb : Faults) (cache_on : Bool) (now buffer : Bytes) (a : ℕ) (s p : Server)
    → Calm os
    → Calm osb
    → a + block_size ≤ block_storage_max_size
    → length buffer ≡ block_size
    → IsSound s.disk
    → IsSound p.disk
    → let w = write os cache_on (linked osb) now a buffer s p in IsSound w.1.disk × IsSound w.2.disk
write-IsSound os osb cache_on now buffer a s p calm calmb bound n sound soundb =
    let key = address_string (int_of_uint32 a) in
    let same = disk-enter_cache cache_on key s in
    let ready = IsReady-sound s.disk a bound sound in
    let readyb = IsReady-sound p.disk a bound soundb in
    let (o, vs, vp, _, _) =
      write_replicates os osb cache_on now buffer a s p calm calmb bound n ready readyb in
    let (cs, cp) =
      write_job-IsClean os osb calm calmb cache_on now key buffer a (enter_cache cache_on key s) p
        bound n (rw same ready) readyb (rw same sound.clean) soundb.clean in
    let lem = write_lem os cache_on (linked osb) now buffer a s p bound in
    (
      record {
        full = IsFull-congr _ _ vs (write_device-IsFull a buffer (view s.disk) n sound.full);
        clean = rw lem cs;
      },
      record {
        full = IsFull-congr _ _ vp (write_device-IsFull a buffer (view p.disk) n soundb.full);
        clean = rw lem cp;
      },
    )
