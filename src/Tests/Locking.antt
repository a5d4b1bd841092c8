-- ===== src/Tests/Locking.antt =====
-- A thread that locks the two files of a write, and one that waits.
use replicated_block_store.Prelude.{true, ◌≡◌, ◌≢◌, ◌≤◌, refl, none, some, List, [], ◌∷◌, codes}
use replicated_block_store.Map.{Map, find, assign}
use replicated_block_store.Locks.{SharedMutex, mutex_at, get_write_lock, lock_files}
use replicated_block_store.Locks.Exclusion.{
  Handle, writing, gets_write, Reach, here, next, readers_of, writers_of, Reach-exclusive,
}
use replicated_block_store.Locks.Handover.{lock_files-hands_over}

abbrev one_lock : Map SharedMutex
one_lock = assign (codes "a") (record { readers = 0; writer = true }) []

abbrev holds_a : List Handle
holds_a = writing (codes "a") ∷ []

Reach-one_lock : Reach one_lock holds_a
unfolding get_write_lock mutex_at find
Reach-one_lock = next here (gets_write (codes "a") refl)

Reach-exclusive_example :
    (1 ≤ writers_of (codes "a") holds_a
      → (writers_of (codes "a") holds_a ≡ 1) × (readers_of (codes "a") holds_a ≡ 0))
    × (writers_of (codes "a") holds_a ≡ 0
        → readers_of (codes "a") holds_a ≡ 0
        → get_write_lock (codes "a") one_lock ≢ none)
Reach-exclusive_example = Reach-exclusive (codes "a") Reach-one_lock

a-ne-ab : codes "a" ≢ codes "ab"
a-ne-ab e = cc

lock_files-hands_over_example :
    (m' : Map SharedMutex) × (lock_files none (codes "a" ∷ codes "ab" ∷ []) [] ≡ some m')
    × (get_write_lock (codes "ab") m' ≡ none)
    × (get_write_lock (codes "a") m' ≢ none)
unfolding mutex_at find
lock_files-hands_over_example = lock_files-hands_over (codes "a") (codes "ab") [] a-ne-ab refl refl
