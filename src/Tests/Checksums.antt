-- ===== src/Tests/Checksums.antt =====
-- The checksum program on two files, of which one cannot be opened, with a checksum that keeps all
-- bytes.
use replicated_block_store.Prelude.{
  ◌≡◌, none, some, [], ◌∷◌, ◌++◌, Bytes, codes, bytes_eq, append-nil, append_assoc, replicate,
  if◌then◌else◌,
}
use replicated_block_store.Disk.{Disk, no_faults}
use replicated_block_store.Checksum.{process_files, contents, process_files_lem}

-- A file of two full buffers.
abbrev disk : Disk
disk p = if bytes_eq p (codes "a") then some (replicate 2048 b'x') else none

abbrev keep : Bytes → Bytes → Bytes
keep bs r = r ++ bs

process_files_lem_example :
    process_files keep no_faults (codes "a" ∷ codes "b" ∷ []) disk []
    ≡ some (keep (contents no_faults (codes "a" ∷ codes "b" ∷ []) disk) [])
process_files_lem_example =
    process_files_lem keep append-nil (λ xs ys r. append_assoc r xs ys) no_faults
      (codes "a" ∷ codes "b" ∷ []) disk []
