-- ===== src/Locks/Exclusion.antt =====
-- Who holds the file locks of src/util/locks.cc.
use replicated_block_store.Prelude.{
  ℕ, ◌+◌, ◌-◌, ◌≡◌, ◌≢◌, ◌≤◌, refl, true, false, none, some, List, [], ◌∷◌, ◌++◌, Bytes, bytes_eq,
  bytes_eq_iff, if◌then◌else◌, arith,
}
use replicated_block_store.Map.{Map, find, assign, find-assign}
use replicated_block_store.Locks.{
  SharedMutex, mutex_at, get_read_lock, get_write_lock, release_read_lock, release_write_lock,
}

-- The lock objects that the threads have, in any order.
pub data Handle : Type 0 where
  reading writing : Bytes → Handle

abbrev pub readers_of : Bytes → List Handle → ℕ
readers_of k [] = 0
readers_of k (reading j ∷ hs) =
    let rest = readers_of k hs in if bytes_eq j k then rest + 1 else rest
readers_of k (writing j ∷ hs) = readers_of k hs

abbrev pub writers_of : Bytes → List Handle → ℕ
writers_of k [] = 0
writers_of k (writing j ∷ hs) =
    let rest = writers_of k hs in if bytes_eq j k then rest + 1 else rest
writers_of k (reading j ∷ hs) = writers_of k hs

pub data Step : Map SharedMutex → List Handle → Map SharedMutex → List Handle → Type 0 where
  gets_read :
      {m m' : Map SharedMutex} {hs : List Handle} (k : Bytes)
      → get_read_lock k m ≡ some m'
      → Step m hs m' (reading k ∷ hs)
  gets_write :
      {m m' : Map SharedMutex} {hs : List Handle} (k : Bytes)
      → get_write_lock k m ≡ some m'
      → Step m hs m' (writing k ∷ hs)
  ends_read :
      {m : Map SharedMutex} (xs ys : List Handle) (k : Bytes)
      → Step m (xs ++ reading k ∷ ys) (release_read_lock k m) (xs ++ ys)
  ends_write :
      {m : Map SharedMutex} (xs ys : List Handle) (k : Bytes)
      → Step m (xs ++ writing k ∷ ys) (release_write_lock k m) (xs ++ ys)

pub data Reach : Map SharedMutex → List Handle → Type 0 where
  here : Reach [] []
  next :
      {m m' : Map SharedMutex} {hs hs' : List Handle} → Reach m hs → Step m hs m' hs' → Reach m' hs'

-- The mutex of each key counts its handles; a writer is alone.
pub record Counts (m : Map SharedMutex) (hs : List Handle) : Type 0 where
  pub readers : (k : Bytes) → (mutex_at k m).readers ≡ readers_of k hs
  pub writers : (k : Bytes) → writers_of k hs ≡ (if (mutex_at k m).writer then 1 else 0)
  pub alone : (k : Bytes) → (mutex_at k m).writer ≡ true → (mutex_at k m).readers ≡ 0

pub mutex_at-assign :
    (k j : Bytes) (x : SharedMutex) (m : Map SharedMutex)
    → mutex_at j (assign k x m) ≡ (if bytes_eq k j then x else mutex_at j m)
unfolding mutex_at
mutex_at-assign k j x m = ground (arith, find-assign k j x m)

readers_of-append :
    (k : Bytes) (xs ys : List Handle) → readers_of k (xs ++ ys) ≡ readers_of k xs + readers_of k ys
readers_of-append k [] ys = omega arith
readers_of-append k (reading j ∷ xs) ys = ground (arith, readers_of-append k xs ys)
readers_of-append k (writing j ∷ xs) ys = readers_of-append k xs ys

writers_of-append :
    (k : Bytes) (xs ys : List Handle) → writers_of k (xs ++ ys) ≡ writers_of k xs + writers_of k ys
writers_of-append k [] ys = omega arith
writers_of-append k (writing j ∷ xs) ys = ground (arith, writers_of-append k xs ys)
writers_of-append k (reading j ∷ xs) ys = writers_of-append k xs ys

get_read_lock_lem :
    (k : Bytes) (m m' : Map SharedMutex)
    → get_read_lock k m ≡ some m'
    → ((mutex_at k m).writer ≡ false)
      × (m' ≡ assign k (record (mutex_at k m) { readers = (mutex_at k m).readers + 1 }) m)
unfolding get_read_lock
get_read_lock_lem k m m' e = ground arith

get_write_lock_lem :
    (k : Bytes) (m m' : Map SharedMutex)
    → get_write_lock k m ≡ some m'
    → ((mutex_at k m).writer ≡ false)
      × ((mutex_at k m).readers ≡ 0)
      × (m' ≡ assign k (record (mutex_at k m) { writer = true }) m)
unfolding get_write_lock
get_write_lock_lem k m m' e = ground arith

module _ (k : Bytes) (m : Map SharedMutex) where
  get_read_lock-Counts :
      (m' : Map SharedMutex) (hs : List Handle)
      → get_read_lock k m ≡ some m'
      → Counts m hs
      → Counts m' (reading k ∷ hs)
  get_read_lock-Counts m' hs e c =
      let (unwritten, after) = get_read_lock_lem k m m' e in
      let look = λ (j : Bytes).
        mutex_at-assign k j (record (mutex_at k m) { readers = (mutex_at k m).readers + 1 }) m in
      rw after (record {
        readers = λ j. ground (arith, look j, c.readers j, bytes_eq_iff k j);
        writers = λ j. ground (arith, look j, c.writers j, bytes_eq_iff k j);
        alone = λ j h. ground (arith, look j, c.alone j, bytes_eq_iff k j);
      })

  get_write_lock-Counts :
      (m' : Map SharedMutex) (hs : List Handle)
      → get_write_lock k m ≡ some m'
      → Counts m hs
      → Counts m' (writing k ∷ hs)
  get_write_lock-Counts m' hs e c =
      let (unwritten, unread, after) = get_write_lock_lem k m m' e in
      let look = λ (j : Bytes). mutex_at-assign k j (record (mutex_at k m) { writer = true }) m in
      rw after (record {
        readers = λ j. ground (arith, look j, c.readers j, bytes_eq_iff k j);
        writers = λ j. ground (arith, look j, c.writers j, bytes_eq_iff k j);
        alone = λ j h. ground (arith, look j, c.alone j, bytes_eq_iff k j);
      })

  module _ (xs ys : List Handle) where
    release_read_lock-Counts :
        Counts m (xs ++ reading k ∷ ys) → Counts (release_read_lock k m) (xs ++ ys)
    unfolding release_read_lock
    release_read_lock-Counts c =
        let look = λ (j : Bytes).
          mutex_at-assign k j (record (mutex_at k m) { readers = (mutex_at k m).readers - 1 }) m in
        record {
          readers = λ j. ground (
            arith,
            look j,
            c.readers j,
            bytes_eq_iff k j,
            readers_of-append j xs ys,
            readers_of-append j xs (reading k ∷ ys),
          );
          writers = λ j. ground (
            arith,
            look j,
            c.writers j,
            bytes_eq_iff k j,
            writers_of-append j xs ys,
            writers_of-append j xs (reading k ∷ ys),
          );
          alone = λ j h. ground (arith, look j, c.alone j, bytes_eq_iff k j);
        }

    release_write_lock-Counts :
        Counts m (xs ++ writing k ∷ ys) → Counts (release_write_lock k m) (xs ++ ys)
    unfolding release_write_lock
    release_write_lock-Counts c =
        let look =
          λ (j : Bytes). mutex_at-assign k j (record (mutex_at k m) { writer = false }) m in
        record {
          readers = λ j. ground (
            arith,
            look j,
            c.readers j,
            bytes_eq_iff k j,
            readers_of-append j xs ys,
            readers_of-append j xs (writing k ∷ ys),
          );
          writers = λ j. ground (
            arith,
            look j,
            c.writers j,
            bytes_eq_iff k j,
            writers_of-append j xs ys,
            writers_of-append j xs (writing k ∷ ys),
          );
          alone = λ j h. ground (arith, look j, c.alone j, bytes_eq_iff k j);
        }

Counts-Step :
    {m m' : Map SharedMutex} {hs hs' : List Handle} → Step m hs m' hs' → Counts m hs → Counts m' hs'
Counts-Step {m} {m'} {hs} (gets_read k e) c = get_read_lock-Counts k m m' hs e c
Counts-Step {m} {m'} {hs} (gets_write k e) c = get_write_lock-Counts k m m' hs e c
Counts-Step {m} (ends_read xs ys k) c = release_read_lock-Counts k m xs ys c
Counts-Step {m} (ends_write xs ys k) c = release_write_lock-Counts k m xs ys c

Reach-Counts : {m : Map SharedMutex} {hs : List Handle} → Reach m hs → Counts m hs
Reach-Counts here =
    unfold mutex_at find in record { readers = λ k. refl; writers = λ k. refl; alone = λ k h. refl }
Reach-Counts (next r s) = Counts-Step s (Reach-Counts r)

-- However threads take and release the locks of files, where one of them holds the write lock of a
-- file no other lock of that file is held, and where it has none of either kind the write lock can be
-- had at once.
pub Reach-exclusive :
    {m : Map SharedMutex} {hs : List Handle} (k : Bytes)
    → Reach m hs
    → (1 ≤ writers_of k hs → (writers_of k hs ≡ 1) × (readers_of k hs ≡ 0))
      × (writers_of k hs ≡ 0 → readers_of k hs ≡ 0 → get_write_lock k m ≢ none)
unfolding get_write_lock
Reach-exclusive {m} {hs} k r =
    let c = Reach-Counts r in
    (
      (λ h. (ground (arith, c.writers k), ground (arith, c.writers k, c.readers k, c.alone k))),
      λ h g. ground (arith, c.writers k, c.readers k),
    )
