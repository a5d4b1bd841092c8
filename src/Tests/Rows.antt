-- ===== src/Tests/Rows.antt =====
-- Two servers that start on empty disks, and writes in a row.
use replicated_block_store.Prelude.{
  zero, suc, ℕ, false, ◌≡◌, ◌≤◌, ◌<◌, refl, arith, none, List, [], ◌∷◌, Bytes, codes, All,
  replicate, length, length-replicate,
}
use replicated_block_store.Disk.{Disk, no_faults}
use replicated_block_store.Address.{block_size}
use replicated_block_store.Address.Paths.{max_blocks}
use replicated_block_store.Server.{Server, ok, Outcome, returns}
use replicated_block_store.Server.Write.{reply}
use replicated_block_store.Server.Staging.{Calm}
use replicated_block_store.Server.View.{view, temp_view}
use replicated_block_store.Server.Clean.{IsClean}
use replicated_block_store.Server.Sound.{IsSound}
use replicated_block_store.Server.Runs.{Request, run, write_all, run_replicates}
use replicated_block_store.Device.{read_device}
use replicated_block_store.Device.Laws.{read-write}
use replicated_block_store.Server.Block.{ReadReply, read}
use replicated_block_store.Server.Reading.{HasNoZero}
use replicated_block_store.Server.Serving.{HasBlocks-sound, run-read}
use replicated_block_store.Storage.{prepare_storage}
use replicated_block_store.Storage.Ready.{filled, prepare_storage-IsSound}

abbrev empty : Disk
empty p = none

abbrev calm : Calm no_faults
calm c p = refl

IsClean-empty : IsClean empty
unfolding temp_view
IsClean-empty b hb = refl

prepare_storage-IsSound_example :
    IsSound (prepare_storage no_faults empty)
    × ((b : ℕ) → b < max_blocks → view (prepare_storage no_faults empty) b ≡ filled (view empty b))
unfolding view
prepare_storage-IsSound_example =
    prepare_storage-IsSound no_faults calm empty (λ b hb. omega arith) IsClean-empty

started : Server
started = record { disk = prepare_storage no_faults empty; kv_store = []; cache = [] }

IsSound-started : IsSound started.disk
unfolding started view
IsSound-started =
    (prepare_storage-IsSound no_faults calm empty (λ b hb. omega arith) IsClean-empty).0

abbrev page : ℕ → Bytes
page c = replicate 4096 c

length-page : (c : ℕ) → length (page c) ≡ block_size
length-page c = length-replicate 4096 c

-- A write across two blocks, and one over its second half.
abbrev requests : List Request
requests =
    record { address = 2048; buffer = page b'x'; txn_id = codes "1" }
    ∷ record { address = 4096; buffer = page b'y'; txn_id = codes "2" }
    ∷ []

run_replicates_example :
    let w = run no_faults no_faults false requests started started in
    All (λ o. o ≡ returns (reply ok)) w.0
    × ((b : ℕ) → b ≤ max_blocks → view w.1.disk b ≡ write_all requests (view started.disk) b)
    × ((b : ℕ) → b ≤ max_blocks → view w.2.disk b ≡ write_all requests (view started.disk) b)
    × IsSound w.1.disk
    × IsSound w.2.disk
run_replicates_example =
    run_replicates no_faults no_faults false requests started started calm calm
      ((omega arith, length-page b'x'), ((omega arith, length-page b'y'), tt)) IsSound-started
      IsSound-started

abbrev request : Request
request = record { address = 2048; buffer = page b'x'; txn_id = codes "1" }

HasNoZero-page : (n : ℕ) → HasNoZero (replicate n b'x')
HasNoZero-page zero = tt
HasNoZero-page (suc n) = (omega arith, HasNoZero-page n)

HasNoZero-read : HasNoZero (read_device 2048 (write_all (request ∷ []) (view started.disk)))
HasNoZero-read =
    rw
      (read-write 2048 (page b'x') (view started.disk) (length-page b'x')
        (HasBlocks-sound started.disk 2048 (omega arith) IsSound-started))
      (HasNoZero-page 4096)

run-read_example :
    let w = run no_faults no_faults false (request ∷ []) started started in
    let answer : Outcome ReadReply = returns (record {
      status = ok;
      buffer = read_device 2048 (write_all (request ∷ []) (view started.disk));
      error = 0;
    }) in
    ((read no_faults false 2048 w.1).0 ≡ answer) × ((read no_faults false 2048 w.2).0 ≡ answer)
run-read_example =
    run-read no_faults no_faults (request ∷ []) 2048 started started calm calm
      ((omega arith, length-page b'x'), tt) IsSound-started IsSound-started (λ b. refl)
      (omega arith) HasNoZero-read
