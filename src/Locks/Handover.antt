-- ===== src/Locks/Handover.antt =====
-- The variable `writeLockForFile` in the loop of `Write` of src/blockstorage_server.cc.
use replicated_block_store.Prelude.{
  ◌≡◌, ◌≢◌, ap, sym, ◌∙◌, true, none, some, [], ◌∷◌, Bytes, bytes_eq_refl, bytes_ne,
}
use replicated_block_store.Map.{Map, assign}
use replicated_block_store.Locks.{
  SharedMutex, free, mutex_at, get_write_lock, release_write_lock, take_over, lock_files,
}
use replicated_block_store.Locks.Exclusion.{mutex_at-assign}

-- A write lock on a mutex that is free.
get_write_lock-free :
    (k : Bytes) (m : Map SharedMutex)
    → mutex_at k m ≡ free
    → get_write_lock k m ≡ some (assign k (record { readers = 0; writer = true }) m)
unfolding get_write_lock
get_write_lock-free k m h = rw h

get_write_lock-held :
    (k : Bytes) (m : Map SharedMutex) → (mutex_at k m).writer ≡ true → get_write_lock k m ≡ none
unfolding get_write_lock
get_write_lock-held k m h = rw h

module _ (f g : Bytes) (m : Map SharedMutex) (apart : f ≢ g) (free_f : mutex_at f m ≡ free)
    (free_g : mutex_at g m ≡ free) where
  abbrev held : SharedMutex
  held = record { readers = 0; writer = true }

  -- The mutexes when the loop has the first lock, and both.
  abbrev one : Map SharedMutex
  one = assign f held m

  abbrev both : Map SharedMutex
  both = assign g held one

  one_g : mutex_at g one ≡ free
  one_g = mutex_at-assign f g held m ∙ rw (bytes_ne f g apart) free_g

  both_f : mutex_at f both ≡ held
  both_f =
      mutex_at-assign g f held one
      ∙ rw (bytes_ne g f (λ e. apart (sym e))) (mutex_at-assign f f held m ∙ rw (bytes_eq_refl f))

  locked : lock_files none (f ∷ g ∷ []) m ≡ some (release_write_lock f both)
  unfolding lock_files take_over
  locked =
      rw (get_write_lock-free f m free_f, lock_files, take_over, get_write_lock-free g one one_g)

  -- The two files of a write are not locked together: with both free at first, behind the loop the
  -- second one is locked, and any other thread can have the lock of the first one, which is still to
  -- be renamed.
  pub lock_files-hands_over :
      (m' : Map SharedMutex) × (lock_files none (f ∷ g ∷ []) m ≡ some m')
      × (get_write_lock g m' ≡ none)
      × (get_write_lock f m' ≢ none)
  unfolding release_write_lock
  lock_files-hands_over =
      let after = release_write_lock f both in
      let f_after : mutex_at f after ≡ free =
        mutex_at-assign f f _ both ∙ rw (bytes_eq_refl f, both_f) in
      let g_after : mutex_at g after ≡ held =
        mutex_at-assign f g _ both
        ∙ rw (bytes_ne f g apart) (mutex_at-assign g g held one ∙ rw (bytes_eq_refl g)) in
      (
        after,
        locked,
        get_write_lock-held g after (ap (λ (x : SharedMutex). x.writer) g_after),
        λ e. cc (get_write_lock-free f after f_after),
      )

-- Behind the loop over `f` and `g`, any other call can lock `f` as its second file, behind `e`.
pub lock_files-overtakes :
    (e f g : Bytes) (m : Map SharedMutex)
    → e ≢ f
    → e ≢ g
    → f ≢ g
    → mutex_at e m ≡ free
    → mutex_at f m ≡ free
    → mutex_at g m ≡ free
    → (m' : Map SharedMutex) × (m'' : Map SharedMutex) × (lock_files none (f ∷ g ∷ []) m ≡ some m')
      × (lock_files none (e ∷ f ∷ []) m' ≡ some m'')
unfolding release_write_lock
lock_files-overtakes e f g m ef eg fg free_e free_f free_g =
    let inner = both f g m fg free_f free_g in
    let m' = release_write_lock f inner in
    let f_free : mutex_at f m' ≡ free =
      mutex_at-assign f f _ inner ∙ rw (bytes_eq_refl f, both_f f g m fg free_f free_g) in
    let e_free : mutex_at e m' ≡ free =
      mutex_at-assign f e _ inner
      ∙ rw (bytes_ne f e (λ h. ef (sym h))) (
          mutex_at-assign g e _ _
          ∙ rw (bytes_ne g e (λ h. eg (sym h)))
              (mutex_at-assign f e _ m ∙ rw (bytes_ne f e (λ h. ef (sym h))) free_e)) in
    (m', _, locked f g m fg free_f free_g, locked e f m' ef e_free f_free)
