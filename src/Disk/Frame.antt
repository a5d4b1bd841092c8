-- ===== src/Disk/Frame.antt =====
-- Files that a call on src/'s disk does not name.
use replicated_block_store.Prelude.{ℕ, ◌≡◌, ◌≢◌, refl, ◌∙◌, arith, Bytes, bytes_ne}
use replicated_block_store.Io.{Result, done, failed, undefined, Io, continue, ◌>>=◌}
use replicated_block_store.Disk.{
  Disk, Faults, Call, update, open_file, open_create, read_file, write_file, append_file,
}

-- The content of `q` is after `m` what it was before.
pub record LeavesAlone {A : Type 0} (q : Bytes) (m : Io Disk A) : Type 0 where
  pub at : (d : Disk) → (m d).1 q ≡ d q

module _ {A B : Type 0} (q : Bytes) where
  continue-LeavesAlone :
      (r : Result A) (f : A → Io Disk B) (d : Disk)
      → ((a : A) → LeavesAlone q (f a))
      → (continue r f d).1 q ≡ d q
  continue-LeavesAlone (done a) f d k = (k a).at d
  continue-LeavesAlone (failed e) f d k = refl
  continue-LeavesAlone undefined f d k = refl

  pub LeavesAlone-bind :
      (m : Io Disk A) (f : A → Io Disk B)
      → LeavesAlone q m
      → ((a : A) → LeavesAlone q (f a))
      → LeavesAlone q (m >>= f)
  LeavesAlone-bind m f h k = record { at = λ d. continue-LeavesAlone (m d).0 f (m d).1 k ∙ h.at d }

module _ (os : Faults) (q p : Bytes) where
  pub open_file-LeavesAlone : (c : Call) → LeavesAlone q (open_file os c p)
  unfolding open_file
  open_file-LeavesAlone c = record { at = λ d. ground arith }

  pub read_file-LeavesAlone : (size offset : ℕ) → LeavesAlone q (read_file os p size offset)
  unfolding read_file
  read_file-LeavesAlone size offset = record { at = λ d. ground arith }

  pub open_create-LeavesAlone : p ≢ q → LeavesAlone q (open_create os p)
  unfolding open_create update
  open_create-LeavesAlone h = record { at = λ d. ground (arith, bytes_ne p q h) }

  pub write_file-LeavesAlone :
      (c : Call) (buf : Bytes) (offset : ℕ) → p ≢ q → LeavesAlone q (write_file os c p buf offset)
  unfolding write_file update
  write_file-LeavesAlone c buf offset h = record { at = λ d. ground (arith, bytes_ne p q h) }

  pub append_file-LeavesAlone : (buf : Bytes) → p ≢ q → LeavesAlone q (append_file os p buf)
  unfolding append_file update
  append_file-LeavesAlone buf h = record { at = λ d. ground (arith, bytes_ne p q h) }

pub ruleset frame_rules = (
  LeavesAlone-bind, open_file-LeavesAlone, read_file-LeavesAlone, open_create-LeavesAlone,
  write_file-LeavesAlone,
)
