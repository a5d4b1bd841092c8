-- ===== src/Server/Clean.antt =====
-- The temporary files behind a write of src/blockstorage_server.cc.
use replicated_block_store.Prelude.{
  ℕ, ◌≡◌, ◌≢◌, ◌≤◌, ◌+◌, ◌/◌, ◌%◌, ap, sym, ◌∙◌, none, [], ◌∷◌, Bytes, arith, map, Bool-cases, inl,
  inr, All, ◌==◌, bytes_eq_iff, false,
}
use replicated_block_store.Disk.{Disk, Faults}
use replicated_block_store.Wal.{append_log}
use replicated_block_store.Address.{block_size, block_storage_max_size}
use replicated_block_store.Address.Blocks.{file_parts}
use replicated_block_store.Address.Paths.{max_blocks}
use replicated_block_store.Server.{wal_path}
use replicated_block_store.Server.Comm.{rename_movs, rename_files, stage_files}
use replicated_block_store.Server.Block.{file_data_of}
use replicated_block_store.Server.Write.{paths}
use replicated_block_store.Server.Staging.{Calm, TempsApart, stage_files-LeavesAlone}
use replicated_block_store.Server.View.{temp_view, temp_path, temp_path_test}
use replicated_block_store.Server.Steps.{temp_view-append_log}
use replicated_block_store.Server.Renames.{
  block_moves, AreAbsent, blocks_of, moves_of_parts, AreBlocks-blocks_of, rename_files-keeps_none,
  rename_files-keeps_temp, rename_files-AreAbsent,
}

pub two_blocks :
    (a : ℕ)
    → (a % block_size == 0) ≡ false
    → blocks_of a ≡ a / block_size ∷ (a / block_size + 1) ∷ []
unfolding blocks_of
two_blocks a z = rw z

abbrev pub IsClean : Disk → Type 0
IsClean d = (b : ℕ) → b ≤ max_blocks → temp_view d b ≡ none

module _ (os : Faults) (a : ℕ) (buffer : Bytes) (d : Disk)
    (bound : a + block_size ≤ block_storage_max_size) where
  abbrev staged : Disk
  staged = (stage_files os buffer 0 (map file_data_of (file_parts a)) d).1

  temp-ne-temp :
      (b j : ℕ) → b ≤ max_blocks → j ≤ max_blocks → (b == j) ≡ false → temp_path b ≢ temp_path j
  temp-ne-temp b j hb hj e =
      ground (arith, temp_path_test b j hb hj, bytes_eq_iff (temp_path b) (temp_path j))

  others-TempsApart :
      (j : ℕ)
      → j ≤ max_blocks
      → (a / block_size == j) ≡ false
      → (a % block_size ≢ 0 → (a / block_size + 1 == j) ≡ false)
      → TempsApart (temp_path j) (map file_data_of (file_parts a))
  unfolding file_parts file_data_of
  others-TempsApart j hj e f = elim (Bool-cases (a % block_size == 0)) [
    | inl z ↦ rw z (temp-ne-temp (a / block_size) j (omega arith) hj e, tt)
    | inr z ↦ rw z (
      temp-ne-temp (a / block_size) j (omega arith) hj e,
      (temp-ne-temp (a / block_size + 1) j (omega arith) hj (f (ground arith)), tt),
    )
  ]

  -- The temporary files of other blocks.
  pub staged-others :
      (j : ℕ)
      → j ≤ max_blocks
      → (a / block_size == j) ≡ false
      → (a % block_size ≢ 0 → (a / block_size + 1 == j) ≡ false)
      → temp_view staged j ≡ temp_view d j
  unfolding temp_view
  staged-others j hj e f =
      (stage_files-LeavesAlone os (temp_path j) buffer 0 (map file_data_of (file_parts a))
          (others-TempsApart j hj e f)).at
        d

module _ (os : Faults) (calm : Calm os) (a : ℕ) (buffer line : Bytes) (d : Disk)
    (bound : a + block_size ≤ block_storage_max_size) where
  abbrev pub renamed : Disk
  renamed =
      rename_files os (rename_movs (paths (file_parts a))) (
        append_log os wal_path line (stage_files os buffer 0 (map file_data_of (file_parts a)) d).1)

  abbrev logged : Disk
  logged =
      append_log os wal_path line (stage_files os buffer 0 (map file_data_of (file_parts a)) d).1

  moved-none : (j : ℕ) → j ≤ max_blocks → temp_view logged j ≡ none → temp_view renamed j ≡ none
  unfolding temp_view
  moved-none j hj h =
      rw (moves_of_parts a)
        (rename_files-keeps_none os calm (blocks_of a) j logged (AreBlocks-blocks_of a bound) hj h)

  moved-first : temp_view renamed (a / block_size) ≡ none
  unfolding temp_view blocks_of
  moved-first =
      rw (moves_of_parts a)
        (rename_files-AreAbsent os calm (blocks_of a) logged (AreBlocks-blocks_of a bound)).0

  pub moved-second : (a % block_size == 0) ≡ false → temp_view renamed (a / block_size + 1) ≡ none
  unfolding temp_view
  moved-second z =
      let gone =
        rename_files-AreAbsent os calm (blocks_of a) logged (AreBlocks-blocks_of a bound) in
      rw (moves_of_parts a) (second_of (rename_files os (block_moves (blocks_of a)) logged) gone)
    where
      second_of : (e : Disk) → AreAbsent (blocks_of a) e → e (temp_path (a / block_size + 1)) ≡ none
      second_of e h =
          let both : AreAbsent (a / block_size ∷ (a / block_size + 1) ∷ []) e =
            rw (two_blocks a z) at h in
          both.1.0

  others-blocks :
      (j : ℕ)
      → (a / block_size == j) ≡ false
      → (a % block_size ≢ 0 → (a / block_size + 1 == j) ≡ false)
      → All (λ b. (b == j) ≡ false) (blocks_of a)
  unfolding blocks_of
  others-blocks j e f = elim (Bool-cases (a % block_size == 0)) [
    | inl z ↦ rw z (e, tt)
    | inr z ↦ rw z (e, (f (ground arith), tt))
  ]

  -- A temporary file of another block stays as it was.
  pub others-kept :
      (j : ℕ)
      → j ≤ max_blocks
      → (a / block_size == j) ≡ false
      → (a % block_size ≢ 0 → (a / block_size + 1 == j) ≡ false)
      → temp_view renamed j ≡ temp_view d j
  others-kept j hj e f =
      unfold temp_view in
      rw (moves_of_parts a) (
        rename_files-keeps_temp os calm (blocks_of a) j logged (AreBlocks-blocks_of a bound) hj
          (others-blocks j e f))
      ∙ temp_view-append_log os line (staged os a buffer d bound) j hj
      ∙ staged-others os a buffer d bound j hj e f

  others-none :
      (j : ℕ)
      → j ≤ max_blocks
      → IsClean d
      → (a / block_size == j) ≡ false
      → (a % block_size ≢ 0 → (a / block_size + 1 == j) ≡ false)
      → temp_view renamed j ≡ none
  others-none j hj clean e f = moved-none j hj (
      temp_view-append_log os line _ j hj ∙ staged-others os a buffer d bound j hj e f ∙ clean j hj)

  -- Behind the renames no temporary file is left, where there was none before.
  pub IsClean-renamed : IsClean d → IsClean renamed
  IsClean-renamed clean j hj = elim (Bool-cases (a / block_size == j)) [
    | inl e ↦
        let same : a / block_size ≡ j = ground arith in
        ap (temp_view renamed) (sym same) ∙ moved-first
    | inr e ↦ elim (Bool-cases (a % block_size == 0)) [
      | inl z ↦ others-none j hj clean e (λ u. absurd (u (ground arith)))
      | inr z ↦ elim (Bool-cases (a / block_size + 1 == j)) [
        | inl g ↦
            let same : a / block_size + 1 ≡ j = ground arith in
            ap (temp_view renamed) (sym same) ∙ moved-second z
        | inr g ↦ others-none j hj clean e (λ u. g)
      ]
    ]
  ]
