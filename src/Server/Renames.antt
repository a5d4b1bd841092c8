-- ===== src/Server/Renames.antt =====
-- The loops of renames of `Write` of src/blockstorage_server.cc, made twice.
use replicated_block_store.Prelude.{
  ℕ, ◌≡◌, ◌≢◌, ◌≤◌, ◌+◌, ◌/◌, ◌%◌, refl, ap, sym, ◌∙◌, none, List, [], ◌∷◌, Bytes, arith,
  bytes_eq_refl, map, All, Bool-cases, inl, inr, ◌==◌, bytes_eq_iff, if◌then◌else◌, false,
}
use replicated_block_store.Disk.{Disk, Faults, rename, renames, update}
use replicated_block_store.Disk.Laws.{rename_ne}
use replicated_block_store.Wal.{append_log}
use replicated_block_store.Address.{block_size, block_storage_max_size}
use replicated_block_store.Address.Blocks.{block_path, file_parts}
use replicated_block_store.Address.Paths.{max_blocks}
use replicated_block_store.Server.{wal_path}
use replicated_block_store.Server.Comm.{rename_movs, rename_files}
use replicated_block_store.Server.Write.{paths}
use replicated_block_store.Server.Staging.{Calm}
use replicated_block_store.Server.View.{temp_view, temp_path, temp-ne-block, temp_path_test}
use replicated_block_store.Server.Steps.{temp_view-append_log}

module _ (os : Faults) where
  -- A name that has no file has none behind a rename to another name.
  rename-keeps_none :
      (from to q : Bytes) (d : Disk) → to ≢ q → d q ≡ none → rename os from to d q ≡ none
  unfolding rename update
  rename-keeps_none from to q d h e = ground (arith, bytes_eq_iff to q)

  -- The old name is gone, whether there was a file or not.
  rename-none :
      (from to : Bytes) (d : Disk)
      → os renames from ≡ none
      → to ≢ from
      → rename os from to d from ≡ none
  unfolding rename update
  rename-none from to d h k = ground (arith, bytes_eq_iff to from, bytes_eq_refl from)

  pub rename-absent : (from to : Bytes) (d : Disk) → d from ≡ none → rename os from to d ≡ d
  unfolding rename
  rename-absent from to d h = ground arith

-- The renames of a list of blocks.
abbrev pub block_moves : List ℕ → List (Bytes × Bytes)
block_moves = map (λ b. (temp_path b, block_path b))

abbrev pub AreBlocks : List ℕ → Type 0
AreBlocks = All (λ b. b ≤ max_blocks)

abbrev pub AreAbsent : List ℕ → Disk → Type 0
AreAbsent bs d = All (λ b. d (temp_path b) ≡ none) bs

unfoldable pub blocks_of : ℕ → List ℕ
blocks_of a = let b = a / block_size in b ∷ (if a % block_size == 0 then [] else (b + 1) ∷ [])

pub moves_of_parts : (a : ℕ) → rename_movs (paths (file_parts a)) ≡ block_moves (blocks_of a)
unfolding rename_movs file_parts blocks_of
moves_of_parts a = elim (Bool-cases (a % block_size == 0)) [ inl z ↦ rw z | inr z ↦ rw z ]

pub AreBlocks-blocks_of :
    (a : ℕ) → a + block_size ≤ block_storage_max_size → AreBlocks (blocks_of a)
unfolding blocks_of
AreBlocks-blocks_of a h = elim (Bool-cases (a % block_size == 0)) [
  | inl z ↦ rw z (omega arith, tt)
  | inr z ↦ rw z (omega arith, (omega arith, tt))
]

block-ne-temp : (b c : ℕ) → b ≤ max_blocks → c ≤ max_blocks → block_path b ≢ temp_path c
block-ne-temp b c hb hc e = temp-ne-block c b hc hb (sym e)

module _ (os : Faults) (calm : Calm os) where
  pub rename_files-keeps_none :
      (bs : List ℕ) (c : ℕ) (d : Disk)
      → AreBlocks bs
      → c ≤ max_blocks
      → d (temp_path c) ≡ none
      → rename_files os (block_moves bs) d (temp_path c) ≡ none
  unfolding rename_files
  rename_files-keeps_none [] c d h hc e = e
  rename_files-keeps_none (b ∷ bs) c d (hb, h) hc e = rename_files-keeps_none bs c _ h hc (
      rename-keeps_none os (temp_path b) (block_path b) (temp_path c) d (block-ne-temp b c hb hc) e)

  -- The temporary file of another block stays.
  pub rename_files-keeps_temp :
      (bs : List ℕ) (c : ℕ) (d : Disk)
      → AreBlocks bs
      → c ≤ max_blocks
      → All (λ b. (b == c) ≡ false) bs
      → rename_files os (block_moves bs) d (temp_path c) ≡ d (temp_path c)
  unfolding rename_files
  rename_files-keeps_temp [] c d h hc out = refl
  rename_files-keeps_temp (b ∷ bs) c d (hb, h) hc (other, out) =
      rename_files-keeps_temp bs c _ h hc out
      ∙ rename_ne os (temp_path b) (block_path b) (temp_path c) d
          (ground (arith, temp_path_test b c hb hc, bytes_eq_iff (temp_path b) (temp_path c)))
          (block-ne-temp b c hb hc)

  -- Behind the renames no temporary file is left.
  pub rename_files-AreAbsent :
      (bs : List ℕ) (d : Disk) → AreBlocks bs → AreAbsent bs (rename_files os (block_moves bs) d)
  unfolding rename_files
  rename_files-AreAbsent [] d h = tt
  rename_files-AreAbsent (b ∷ bs) d (hb, h) = (
    rename_files-keeps_none bs b _ h hb (
        rename-none os (temp_path b) (block_path b) d (calm renames (temp_path b))
          (block-ne-temp b b hb hb)),
    rename_files-AreAbsent bs _ h,
  )

  -- Where there is none, the renames do nothing.
  rename_files-absent :
      (bs : List ℕ) (d : Disk) → AreAbsent bs d → rename_files os (block_moves bs) d ≡ d
  unfolding rename_files
  rename_files-absent [] d h = refl
  rename_files-absent (b ∷ bs) d (h, hs) =
      ap (rename_files os (block_moves bs)) (rename-absent os (temp_path b) (block_path b) d h)
      ∙ rename_files-absent bs d hs

  append_log-absent :
      (line : Bytes) (b : ℕ) (d : Disk)
      → b ≤ max_blocks
      → d (temp_path b) ≡ none
      → append_log os wal_path line d (temp_path b) ≡ none
  unfolding temp_view
  append_log-absent line b d hb h = temp_view-append_log os line d b hb ∙ h

  append_log-AreAbsent :
      (line : Bytes) (bs : List ℕ) (d : Disk)
      → AreBlocks bs
      → AreAbsent bs d
      → AreAbsent bs (append_log os wal_path line d)
  append_log-AreAbsent line [] d h k = tt
  append_log-AreAbsent line (b ∷ bs) d (hb, h) (k, ks) =
      (append_log-absent line b d hb k, append_log-AreAbsent line bs d h ks)

  -- The renames a second time, with a record of the log in between.
  pub rename_files-again :
      (a : ℕ) (line : Bytes) (d : Disk)
      → a + block_size ≤ block_storage_max_size
      → let moves = rename_movs (paths (file_parts a)) in
        rename_files os moves (append_log os wal_path line (rename_files os moves d))
        ≡ append_log os wal_path line (rename_files os moves d)
  rename_files-again a line d bound =
      let h = AreBlocks-blocks_of a bound in
      rw (moves_of_parts a) (
        rename_files-absent (blocks_of a) _
          (append_log-AreAbsent line (blocks_of a) _ h (rename_files-AreAbsent (blocks_of a) d h)))
