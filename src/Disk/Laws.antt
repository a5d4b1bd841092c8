-- ===== src/Disk/Laws.antt =====
-- Renames, removals and updates of the files that src/ works on.
use replicated_block_store.Prelude.{
  ◌≡◌, ◌≢◌, Option, none, some, arith, Bytes, bytes_eq, bytes_eq_iff, bytes_eq_refl, bytes_ne,
  if◌then◌else◌,
}
use replicated_block_store.Disk.{Disk, Faults, update, rename, renames, remove}

pub update_self : (p : Bytes) (c : Option Bytes) (d : Disk) → update p c d p ≡ c
unfolding update
update_self p c d = rw (bytes_eq_refl p)

pub update_ne : (p q : Bytes) (c : Option Bytes) (d : Disk) → p ≢ q → update p c d q ≡ d q
unfolding update
update_ne p q c d h = rw (bytes_ne p q h)

-- A rename that is permitted moves the content, and the old name is gone.
pub rename_lem :
    (os : Faults) (from to q content : Bytes) (d : Disk)
    → os renames from ≡ none
    → d from ≡ some content
    → rename os from to d q
      ≡ (if bytes_eq to q then some content else if bytes_eq from q then none else d q)
unfolding rename update
rename_lem os from to q content d h e = ground arith

-- Whatever the environment does, a rename changes no file but the two that it names.
pub rename_ne :
    (os : Faults) (from to q : Bytes) (d : Disk) → from ≢ q → to ≢ q → rename os from to d q ≡ d q
unfolding rename update
rename_ne os from to q d h k = ground (arith, bytes_eq_iff to q, bytes_eq_iff from q)

pub remove_ne : (os : Faults) (p q : Bytes) (d : Disk) → p ≢ q → remove os p d q ≡ d q
unfolding remove update
remove_ne os p q d h = ground (arith, bytes_eq_iff p q)
