-- ===== src/Server/Steps.antt =====
-- The steps of a write, on the blocks of a device: staging a block, renaming its file, logging.
use replicated_block_store.Prelude.{
  ℕ, ◌≤◌, ◌≡◌, ap, ◌∙◌, none, some, inl, inr, arith, Bytes, length, take, take_all, ◌==◌,
  if◌then◌else◌, Bool-cases, bytes_eq_iff,
}
use replicated_block_store.Io.{Result, done}
use replicated_block_store.Disk.{Disk, Faults, renames, overwrite, bytes_at, rename}
use replicated_block_store.Disk.Content.{overwrite_all}
use replicated_block_store.Disk.Laws.{rename_lem}
use replicated_block_store.Disk.Frame.{append_file-LeavesAlone}
use replicated_block_store.Wal.{append_log}
use replicated_block_store.Address.Blocks.{block_path}
use replicated_block_store.Address.Paths.{max_blocks}
use replicated_block_store.Server.{wal_path}
use replicated_block_store.Server.Helper.{write_to_temp_file}
use replicated_block_store.Server.Staging.{
  Calm, content_or_empty, write_to_temp_file-LeavesAlone, write_to_temp_file_lem,
}
use replicated_block_store.Server.View.{
  view, temp_view, temp_path, temp-ne-block, block_path_test, temp_path_test, block_temp_test,
  temp_block_test, log-ne-block, log-ne-temp,
}

-- A block that can be written: its file is there and no longer than a block, and what an earlier
-- write may have left in the temporary file is no longer.
pub record HasRoom (d : Disk) (b : ℕ) : Type 0 where
  pub content : Bytes
  pub present : view d b ≡ some content
  pub fits : length content ≤ 4096
  pub stale : length (content_or_empty (temp_view d b)) ≤ length content

module _ (os : Faults) (calm : Calm os) (b : ℕ) (hb : b ≤ max_blocks) (d : Disk) where
  module _ (room : HasRoom d b) (buffer buf : Bytes) (from size offset : ℕ)
      (h : bytes_at buffer from size ≡ some buf) where
    abbrev staging : Result (Unit {0}) × Disk
    staging = write_to_temp_file os (temp_path b) (block_path b) buffer from size offset d

    staged_file :
        (staging.0 ≡ done tt) × (staging.1 (temp_path b) ≡ some (overwrite room.content buf offset))
    unfolding view temp_view
    staged_file =
        let (ends, e) =
          write_to_temp_file_lem os (temp_path b) (block_path b) buffer buf room.content from size
            offset d calm (temp-ne-block b b hb hb) room.present h in
        let whole : take 4096 room.content ≡ room.content = take_all 4096 room.content room.fits in
        let over = overwrite_all (content_or_empty (d (temp_path b))) room.content room.stale in
        (ends, e ∙ ap (λ c. some (overwrite c buf offset)) (rw whole over))

    -- Staging changes no block, and one temporary file.
    pub stage_block :
        (staging.0 ≡ done tt)
        × ((j : ℕ) → j ≤ max_blocks → view staging.1 j ≡ view d j)
        × ((j : ℕ)
            → j ≤ max_blocks
            → temp_view staging.1 j
              ≡ (if b == j then some (overwrite room.content buf offset) else temp_view d j))
    unfolding view temp_view
    stage_block = (
      staged_file.0,
      (λ j hj.
          (write_to_temp_file-LeavesAlone os (block_path j) (temp_path b) (block_path b) buffer from
              size offset (temp-ne-block b j hb hj)).at
            d),
      λ j hj. elim (Bool-cases (b == j)) [
        | inl e ↦ rw e (ap staging.1 (ap temp_path (ground arith)) ∙ staged_file.1)
        | inr e ↦ rw e (
            (write_to_temp_file-LeavesAlone os (temp_path j) (temp_path b) (block_path b) buffer
                from size offset
                (ground
                  (arith, temp_path_test b j hb hj, bytes_eq_iff (temp_path b) (temp_path j)))).at
              d)
      ],
    )

  -- Renaming a block's temporary file makes it the block.
  module _ (content : Bytes) (staged : temp_view d b ≡ some content) where
    pub view-rename :
        (j : ℕ)
        → j ≤ max_blocks
        → view (rename os (temp_path b) (block_path b) d) j
          ≡ (if b == j then some content else view d j)
    unfolding view temp_view
    view-rename j hj =
        rename_lem os (temp_path b) (block_path b) (block_path j) content d
          (calm renames (temp_path b)) staged
        ∙ rw (block_path_test b j hb hj, temp_block_test b j hb hj)

    pub temp_view-rename :
        (j : ℕ)
        → j ≤ max_blocks
        → temp_view (rename os (temp_path b) (block_path b) d) j
          ≡ (if b == j then none else temp_view d j)
    unfolding view temp_view
    temp_view-rename j hj =
        rename_lem os (temp_path b) (block_path b) (temp_path j) content d
          (calm renames (temp_path b)) staged
        ∙ rw (block_temp_test b j hb hj, temp_path_test b j hb hj)

-- Logging changes no block and no temporary file.
module _ (os : Faults) (line : Bytes) (d : Disk) (j : ℕ) (hj : j ≤ max_blocks) where
  pub view-append_log : view (append_log os wal_path line d) j ≡ view d j
  unfolding view append_log
  view-append_log =
      (append_file-LeavesAlone os (block_path j) wal_path line (log-ne-block j hj)).at d

  pub temp_view-append_log : temp_view (append_log os wal_path line d) j ≡ temp_view d j
  unfolding temp_view append_log
  temp_view-append_log =
      (append_file-LeavesAlone os (temp_path j) wal_path line (log-ne-temp j hj)).at d
