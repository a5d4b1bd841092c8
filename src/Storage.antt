-- ===== src/Storage.antt =====
-- `PrepareStorage` of src/blockstorage_server.cc. Directories are not modelled, so that its calls of
-- `mkdir` do nothing here.
pub mod Ready
use replicated_block_store.Prelude.{
  ℕ, zero, suc, ◌+◌, Bool, true, false, ◌&&◌, none, some, [], ◌∷◌, ◌++◌, Bytes, ◌==◌, if◌then◌else◌,
}
use replicated_block_store.Decimal.{to_string}
use replicated_block_store.Disk.{Disk, Faults, creates, update}
use replicated_block_store.Address.{server_storage_path}

abbrev pub level_o_count : ℕ
level_o_count = 1024

abbrev pub level_1_count : ℕ
level_1_count = 256

abbrev pub slash : ℕ
slash = b'/'

abbrev pub is_rooted : Bytes → Bool
is_rooted [] = false
is_rooted (c ∷ s) = c == slash

-- The path that the kernel sees: slashes in a row are one.
unfoldable pub normal : Bytes → Bytes
normal [] = []
normal (c ∷ s) = let rest = normal s in if c == slash && is_rooted rest then rest else c ∷ rest

module _ (os : Faults) where
  -- `open(p, O_CREAT | O_EXCL)`, whose error nobody looks at.
  unfoldable pub create_exclusive : Bytes → Disk → Disk
  create_exclusive p d = elim (os creates p) [
    | some e ↦ d
    | none ↦ elim (d p) [ none ↦ update p (some []) d | some content ↦ d ]
  ]

  -- The inner loop: `count` files from `file_id` on.
  unfoldable pub prepare_files : Bytes → ℕ → ℕ → Disk → Disk
  unfolding create_exclusive
  prepare_files dir zero file_id d = d
  prepare_files dir (suc count) file_id d =
      prepare_files dir count (file_id + 1)
        (create_exclusive (normal (dir ++ slash ∷ to_string file_id)) d)

  -- The outer loop: `count` directories from `dir_id` on.
  unfoldable pub prepare_directories : ℕ → ℕ → Disk → Disk
  unfolding prepare_files
  prepare_directories zero dir_id d = d
  prepare_directories (suc count) dir_id d =
      prepare_directories count (dir_id + 1)
        (prepare_files (server_storage_path ++ slash ∷ to_string dir_id) level_1_count 0 d)

  unfoldable pub prepare_storage : Disk → Disk
  unfolding prepare_directories
  prepare_storage d = prepare_directories level_o_count 0 d
