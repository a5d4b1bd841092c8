-- ===== src/Server/Parts.antt =====
-- The loops of `Write` of src/blockstorage_server.cc, over both parts of a write.
use replicated_block_store.Prelude.{
  ℕ, ◌+◌, ◌-◌, ◌/◌, ◌%◌, ◌≤◌, ◌≡◌, ◌≢◌, refl, ap, ◌∙◌, some, map, inl, inr, arith, Bytes, length,
  take, drop, ◌==◌, if◌then◌else◌, Bool-cases,
}
use replicated_block_store.Io.{done}
use replicated_block_store.Disk.{Disk, Faults, overwrite, rename}
use replicated_block_store.Disk.Content.{bytes_at_lem}
use replicated_block_store.Wal.{append_log}
use replicated_block_store.Address.{block_size, block_storage_max_size}
use replicated_block_store.Address.Blocks.{block_path, file_parts}
use replicated_block_store.Address.Paths.{max_blocks}
use replicated_block_store.Device.{Device, write_device, write_block, first_part, second_part}
use replicated_block_store.Server.{wal_path}
use replicated_block_store.Server.Helper.{write_to_temp_file}
use replicated_block_store.Server.Comm.{stage_files, rename_files, rename_movs}
use replicated_block_store.Server.Block.{file_data_of}
use replicated_block_store.Server.Write.{paths}
use replicated_block_store.Server.Staging.{Calm}
use replicated_block_store.Server.View.{view, temp_view, temp_path}
use replicated_block_store.Server.Steps.{
  HasRoom, stage_block, view-rename, temp_view-rename, view-append_log, temp_view-append_log,
}

-- The blocks that a write at `a` touches can be written.
pub record IsReady (d : Disk) (a : ℕ) : Type 0 where
  pub first : HasRoom d (a / block_size)
  pub second : a % block_size ≢ 0 → HasRoom d (a / block_size + 1)

-- The blocks are those of `v`, and the temporary files hold what the write makes of them.
pub record IsStaged (a : ℕ) (buffer : Bytes) (v : Device) (d : Disk) : Type 0 where
  pub same : (j : ℕ) → j ≤ max_blocks → view d j ≡ v j
  pub first :
      (c : Bytes) × (v (a / block_size) ≡ some c)
      × (temp_view d (a / block_size) ≡ some (overwrite c (first_part a buffer) (a % block_size)))
  pub second :
      a % block_size ≢ 0
      → (c : Bytes) × (v (a / block_size + 1) ≡ some c)
        × (temp_view d (a / block_size + 1) ≡ some (overwrite c (second_part a buffer) 0))

pub IsStaged-append_log :
    (os : Faults) (line : Bytes) (a : ℕ) (buffer : Bytes) (v : Device) (d : Disk)
    → a + block_size ≤ block_storage_max_size
    → IsStaged a buffer v d
    → IsStaged a buffer v (append_log os wal_path line d)
IsStaged-append_log os line a buffer v d bound s = record {
  same = λ j hj. view-append_log os line d j hj ∙ s.same j hj;
  first =
      let (c, e, t) = s.first in
      (c, e, temp_view-append_log os line d (a / block_size) (omega arith) ∙ t);
  second = λ u.
      let (c, e, t) = s.second u in
      (c, e, temp_view-append_log os line d (a / block_size + 1) (omega arith) ∙ t);
}

module _ (os : Faults) (calm : Calm os) (a : ℕ) (buffer : Bytes)
    (bound : a + block_size ≤ block_storage_max_size) where
  -- The loop of renames makes the write.
  pub rename_parts :
      (v : Device) (d : Disk)
      → IsStaged a buffer v d
      → (j : ℕ) → j ≤ max_blocks
      → view (rename_files os (rename_movs (paths (file_parts a))) d) j ≡ write_device a buffer v j
  unfolding file_parts rename_files rename_movs write_device
  rename_parts v d s j hj = elim (Bool-cases (a % block_size == 0)) [
    | inl z ↦ rw z (one j hj ∙ ground (arith, s.same j hj))
    | inr z ↦ rw z (both (s.second (ground arith)))
  ]
    where
      b : ℕ
      b = a / block_size

      renamed : Disk
      renamed = rename os (temp_path b) (block_path b) d

      one :
          (k : ℕ)
          → k ≤ max_blocks
          → view renamed k ≡ (
              if b == k
              then some (overwrite s.first.0 (first_part a buffer) (a % block_size))
              else view d k)
      one = view-rename os calm b (omega arith) d _ s.first.2

      both :
          (c : Bytes) × (v (b + 1) ≡ some c)
            × (temp_view d (b + 1) ≡ some (overwrite c (second_part a buffer) 0))
          → view (rename os (temp_path (b + 1)) (block_path (b + 1)) renamed) j
            ≡ write_block
                (b + 1)
                0
                (second_part a buffer)
                (write_block b (a % block_size) (first_part a buffer) v)
                j
      both (c, e, t) =
          let staged =
            temp_view-rename os calm b (omega arith) d _ s.first.2 (b + 1) (omega arith) in
          view-rename os calm (b + 1) (omega arith) renamed (overwrite c (second_part a buffer) 0)
            (staged ∙ ground arith) j hj
          ∙ ground (arith, one j hj, s.same j hj)

  module _ (d : Disk) (n : length buffer ≡ block_size) (ready : IsReady d a) where
    abbrev b : ℕ
    b = a / block_size

    abbrev rest : ℕ
    rest = block_size - a % block_size

    -- The disk with the first part staged.
    staged_one : Disk
    staged_one =
        (write_to_temp_file os (temp_path b) (block_path b) buffer 0 rest (a % block_size) d).1

    stage_first :
        ((write_to_temp_file os (temp_path b) (block_path b) buffer 0 rest (a % block_size) d).0
          ≡ done tt)
        × ((j : ℕ) → j ≤ max_blocks → view staged_one j ≡ view d j)
        × ((j : ℕ)
            → j ≤ max_blocks
            → temp_view staged_one j ≡ (
                if b == j
                then some (overwrite ready.first.content (first_part a buffer) (a % block_size))
                else temp_view d j))
    unfolding staged_one
    stage_first =
        stage_block os calm b (omega arith) d ready.first buffer (first_part a buffer) 0 rest
          (a % block_size) (bytes_at_lem buffer 0 rest (omega arith))

    -- Behind it the second block can be written as before.
    room_for_second : a % block_size ≢ 0 → HasRoom staged_one (b + 1)
    room_for_second u =
        let room = ready.second u in
        let kept : temp_view staged_one (b + 1) ≡ temp_view d (b + 1) =
          stage_first.2 (b + 1) (omega arith) ∙ ground arith in
        record {
          content = room.content;
          present = stage_first.1 (b + 1) (omega arith) ∙ room.present;
          fits = room.fits;
          stale = rw kept room.stale;
        }

    stage_second :
        (u : a % block_size ≢ 0)
        → let m =
            write_to_temp_file os
              (temp_path (b + 1))
              (block_path (b + 1))
              buffer
              (0 + rest)
              (a % block_size)
              0
              staged_one in
          (m.0 ≡ done tt)
          × ((j : ℕ) → j ≤ max_blocks → view m.1 j ≡ view staged_one j)
          × ((j : ℕ)
              → j ≤ max_blocks
              → temp_view m.1 j ≡ (
                  if b + 1 == j
                  then some (overwrite (ready.second u).content (second_part a buffer) 0)
                  else temp_view staged_one j))
    unfolding room_for_second
    stage_second u =
        stage_block os calm (b + 1) (omega arith) staged_one (room_for_second u) buffer
          (second_part a buffer) (0 + rest) (a % block_size) 0
          (bytes_at_lem buffer (0 + rest) (a % block_size) (omega arith)
            ∙ ap (λ k. some (take (a % block_size) (drop k buffer))) (omega arith))

    -- The loop that stages the parts.
    pub stage_parts :
        ((stage_files os buffer 0 (map file_data_of (file_parts a)) d).0 ≡ done tt)
        × IsStaged a buffer (view d) (stage_files os buffer 0 (map file_data_of (file_parts a)) d).1
    unfolding file_parts stage_files file_data_of staged_one
    stage_parts = elim (Bool-cases (a % block_size == 0)) [
      | inl z ↦
          rw (z, stage_first.0)
            (
              refl,
              record {
                same = stage_first.1;
                first = (
                  ready.first.content,
                  ready.first.present,
                  stage_first.2 b (omega arith) ∙ ground arith,
                );
                second = λ u. absurd (u (ground arith));
              },
            )
      | inr z ↦
          let u : a % block_size ≢ 0 = ground arith in
          let (ends, same, temps) = stage_second u in
          rw (z, stage_first.0, ends)
            (
              refl,
              record {
                same = λ j hj. same j hj ∙ stage_first.1 j hj;
                first = (
                  ready.first.content,
                  ready.first.present,
                  temps b (omega arith) ∙ ground (arith, stage_first.2 b (omega arith)),
                );
                second = λ _. (
                  (ready.second u).content,
                  (ready.second u).present,
                  temps (b + 1) (omega arith) ∙ ground arith,
                );
              },
            )
    ]
