-- ===== src/Io.antt =====
-- Calls that change a state and may end early. What was done before the end stays done.
use replicated_block_store.Prelude.{ℕ}

-- `failed e`: a system call returned -1, with `errno` e. `undefined`: the C++ program reads memory
-- that is not its own.
pub data Result {ℓ} (A : Type ℓ) : Type ℓ where
  done : A → Result A
  failed : ℕ → Result A
  undefined : Result A

abbrev pub Io {ℓ} : Type ℓ → Type ℓ → Type ℓ
Io S A = S → Result A × S

module _ {ℓ} {S A B : Type ℓ} where
  abbrev pub continue : Result A → (A → Io S B) → Io S B
  continue (done a) f s = f a s
  continue (failed e) f s = (failed e, s)
  continue undefined f s = (undefined, s)

  infixl 5 ◌>>=◌ ◌>>◌
  abbrev pub ◌>>=◌ : Io S A → (A → Io S B) → Io S B
  ◌>>=◌ m f s = let (r, s') = m s in continue r f s'

  abbrev pub ◌>>◌ : Io S A → Io S B → Io S B
  m >> n = m >>= λ _. n
