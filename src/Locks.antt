-- ===== src/Locks.antt =====
-- src/util/locks.h and locks.cc: a `shared_mutex` for each file. The outer mutex is held only for
-- the lookup, so that each call is one step; `none` is a call that waits. A mutex that a waiting call
-- makes is free, like one that is missing.
pub mod Exclusion
pub mod Handover
use replicated_block_store.Prelude.{
  ℕ, ◌+◌, ◌-◌, Bool, true, false, not, ◌||◌, Option, none, some, List, [], ◌∷◌, Bytes, ◌==◌,
  if◌then◌else◌,
}
use replicated_block_store.Map.{Map, find, assign}

pub record SharedMutex : Type 0 where
  pub readers : ℕ
  pub writer : Bool

abbrev pub free : SharedMutex
free = record { readers = 0; writer = false }

-- `mutices[key]`
unfoldable pub mutex_at : Bytes → Map SharedMutex → SharedMutex
mutex_at key mutices = elim (find key mutices) [ none ↦ free | some file_mutex ↦ file_mutex ]

unfoldable pub get_read_lock : Bytes → Map SharedMutex → Option (Map SharedMutex)
get_read_lock key mutices =
    let file_mutex = mutex_at key mutices in
    if file_mutex.writer
    then none
    else some (assign key (record file_mutex { readers = file_mutex.readers + 1 }) mutices)

unfoldable pub get_write_lock : Bytes → Map SharedMutex → Option (Map SharedMutex)
get_write_lock key mutices =
    let file_mutex = mutex_at key mutices in
    if file_mutex.writer || not (file_mutex.readers == 0)
    then none
    else some (assign key (record file_mutex { writer = true }) mutices)

-- The locks that a call is given belong to the mutex of one key.
unfoldable pub release_read_lock : Bytes → Map SharedMutex → Map SharedMutex
release_read_lock key mutices =
    let file_mutex = mutex_at key mutices in
    assign key (record file_mutex { readers = file_mutex.readers - 1 }) mutices

unfoldable pub release_write_lock : Bytes → Map SharedMutex → Map SharedMutex
release_write_lock key mutices =
    assign key (record (mutex_at key mutices) { writer = false }) mutices

-- `writeLockForFile = mutexMap.GetWriteLock(path)` in the loop of `Write`: the assignment releases
-- what the variable held, once the new lock is there.
unfoldable pub take_over : Option Bytes → Bytes → Map SharedMutex → Option (Map SharedMutex)
unfolding get_write_lock release_write_lock
take_over held path mutices = elim (get_write_lock path mutices) [
  | none ↦ none
  | some mutices' ↦
      some (elim held [ none ↦ mutices' | some old ↦ release_write_lock old mutices' ])
]

-- The locks of the whole loop, over the files of a write.
unfoldable pub lock_files : Option Bytes → List Bytes → Map SharedMutex → Option (Map SharedMutex)
unfolding take_over
lock_files held [] mutices = some mutices
lock_files held (path ∷ paths) mutices = elim (take_over held path mutices) [
  | none ↦ none
  | some mutices' ↦ lock_files (some path) paths mutices'
]
