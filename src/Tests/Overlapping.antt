-- ===== src/Tests/Overlapping.antt =====
-- The two writes of the unaligned round of performance/concurrent_rw.cc, at 1 and at 4097.
use replicated_block_store.Prelude.{
  ℕ, ◌≡◌, ◌≤◌, ◌+◌, ◌/◌, ◌==◌, refl, arith, none, some, [], Bytes, codes, replicate, length,
  length-replicate, leb, if◌then◌else◌, ap, ◌∙◌,
}
use replicated_block_store.Map.{Map, find}
use replicated_block_store.Disk.{Disk, no_faults}
use replicated_block_store.Locks.{SharedMutex, mutex_at, lock_files}
use replicated_block_store.Address.{block_size}
use replicated_block_store.Address.Blocks.{block_path, file_parts}
use replicated_block_store.Address.Paths.{max_blocks}
use replicated_block_store.Device.{write_device}
use replicated_block_store.Server.{Server, ok, returns}
use replicated_block_store.Server.Helper.{generate_temp_path}
use replicated_block_store.Server.Write.{paths, reply}
use replicated_block_store.Server.Staging.{content_or_empty}
use replicated_block_store.Server.View.{view, temp_view, temp_path}
use replicated_block_store.Server.Sound.{IsSound}
use replicated_block_store.Server.Overlap.{job_of, overtake}
use replicated_block_store.Server.Overlap.Loss.{overtake_lem}
use replicated_block_store.Recovery.OwnLog.{last, last-append, last-block_path}

abbrev page : ℕ → Bytes
page char = replicate 4096 char

length-page : (char : ℕ) → length (page char) ≡ 4096
length-page char = length-replicate {A = ℕ} 4096 char

-- Every path that ends in a digit is a block of zero bytes.
unfoldable zeros : Disk
unfolding last
zeros p = if leb (last p) b'9' then some (page 0) else none

view-zeros : (b : ℕ) → view zeros b ≡ some (page 0)
unfolding zeros view
view-zeros b = let h = last-block_path b in ground arith

last-temp : (b : ℕ) → last (temp_path b) ≡ b'p'
unfolding generate_temp_path last
last-temp b = last-append (block_path b) b'.' (codes "tmp")

IsSound-zeros : IsSound zeros
unfolding zeros temp_view
IsSound-zeros = record {
  full = λ b hb. let n = length-page 0 in (page 0, view-zeros b, omega arith);
  clean = λ b hb. let h = last-temp b in ground arith;
}

abbrev server : Server
server = record { disk = zeros; kv_store = []; cache = [] }

overtake_lem_example :
    let w =
      overtake no_faults no_faults
        (job_of (codes "2") 1 (page b'a'))
        (job_of (codes "1") 4097 (page b'b'))
        server
        server in
    (w.early ≡ returns (reply ok))
    × (w.late ≡ returns (reply ok))
    × ((j : ℕ)
        → j ≤ max_blocks
        → view w.backup.disk j
          ≡ write_device 4097 (page b'b') (write_device 1 (page b'a') (view zeros)) j)
    × ((j : ℕ)
        → j ≤ max_blocks
        → view w.primary.disk j ≡ (
            if 4097 / block_size + 1 == j
            then write_device 4097 (page b'b') (view zeros) j
            else write_device 1 (page b'a') (view zeros) j))
    × ((m' : Map SharedMutex) × (m'' : Map SharedMutex) × (lock_files none
            (paths (file_parts 4097))
            []
          ≡ some m')
        × (lock_files none (paths (file_parts 1)) m' ≡ some m''))
unfolding mutex_at find
overtake_lem_example =
    overtake_lem no_faults no_faults (λ c p. refl) (λ c p. refl) 1 4097 (page b'a') (page b'b')
      (codes "2") (codes "1") server server (omega arith) (omega arith) (length-page b'a')
      (length-page b'b') (omega arith) (omega arith) refl IsSound-zeros IsSound-zeros
      (ap (λ o. length (content_or_empty o)) (view-zeros 1) ∙ length-page 0) [] (λ b. refl)
