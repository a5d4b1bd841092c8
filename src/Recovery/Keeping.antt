-- ===== src/Recovery/Keeping.antt =====
-- The files that `Recover` of src/util/crash_recovery.cc leaves as they are.
use replicated_block_store.Prelude.{
  ℕ, ◌≡◌, ◌≢◌, ◌+◌, ◌%◌, refl, ap, ◌∙◌, Option, none, some, Option-cases, inl, inr, List, [], ◌∷◌,
  Bytes, ◌==◌, All, arith, bytes_eq_iff, false, Bool-cases,
}
use replicated_block_store.Disk.{Disk, Faults, truncate, update, remove, rename}
use replicated_block_store.Disk.Laws.{remove_ne}
use replicated_block_store.Map.{AllValues, Map}
use replicated_block_store.Wal.{State, start, abort, rpc_init, commit, pending_replication}
use replicated_block_store.Recovery.Parse.{LogData, Operation}
use replicated_block_store.Recovery.Actions.{
  RecoveryStub, log_file_path, get_undo_file_name, tmp_and_undo_files, undo_files, delete_files,
  rename_undos, execute_transaction_start_recovery, execute_transaction_abort_recovery,
  execute_transaction_commit_recovery, execute_transaction_rpc_init_recovery, recover_transaction,
  recover_transactions, is_commit,
}

-- No undo file is there; the program never makes one.
abbrev pub HasNoUndo : Disk → Type 0
HasNoUndo d = (f : Bytes) → d (get_undo_file_name f) ≡ none

-- The names of a transaction come in pairs, and no first one is `q`.
abbrev pub Spares : Bytes → List Bytes → Type 0
Spares q [] = Unit {0}
Spares q (f ∷ []) = ⊥
Spares q (f ∷ g ∷ fs) = (f ≢ q) × Spares q fs

-- What each step of recovery keeps: the file `q`, and that there is no undo file.
record Keeps (q : Bytes) (d d' : Disk) : Type 0 where
  same : d' q ≡ d q
  no_undo : HasNoUndo d → HasNoUndo d'

Keeps-refl : (q : Bytes) (d : Disk) → Keeps q d d
Keeps-refl q d = record { same = refl; no_undo = λ h. h }

Keeps-trans : {q : Bytes} {d e f : Disk} → Keeps q d e → Keeps q e f → Keeps q d f
Keeps-trans h k = record { same = k.same ∙ h.same; no_undo = λ u. k.no_undo (h.no_undo u) }

module _ (os : Faults) where
  pub remove-none : (p r : Bytes) (d : Disk) → d r ≡ none → remove os p d r ≡ none
  unfolding remove update
  remove-none p r d h = ground arith

  -- With no undo file there is nothing to rename.
  rename-absent : (from to : Bytes) (d : Disk) → d from ≡ none → rename os from to d ≡ d
  unfolding rename
  rename-absent from to d h = ground arith

  pub rename_undos-none : (fs : List Bytes) (d : Disk) → HasNoUndo d → rename_undos os fs d ≡ d
  unfolding rename_undos
  rename_undos-none [] d h = refl
  rename_undos-none (f ∷ fs) d h =
      ap (rename_undos os fs) (rename-absent (get_undo_file_name f) f d (h f))
      ∙ rename_undos-none fs d h

module _ (os : Faults) (q : Bytes) (apart : (f : Bytes) → get_undo_file_name f ≢ q) where
  remove-Keeps : (p : Bytes) (d : Disk) → p ≢ q → Keeps q d (remove os p d)
  remove-Keeps p d h = record {
    same = remove_ne os p q d h;
    no_undo = λ u f. remove-none os p (get_undo_file_name f) d (u f);
  }

  delete_files-Keeps :
      (fs : List Bytes) (d : Disk) → All (λ f. f ≢ q) fs → Keeps q d (delete_files os fs d)
  unfolding delete_files
  delete_files-Keeps [] d h = Keeps-refl q d
  delete_files-Keeps (f ∷ fs) d (hf, hs) =
      Keeps-trans (remove-Keeps f d hf) (delete_files-Keeps fs _ hs)

  -- Two steps of the parity.
  even_step : (i : ℕ) → i % 2 ≡ 0 → (i + 1 + 1) % 2 ≡ 0
  even_step i h = omega arith

  odd_step : (i : ℕ) → i % 2 ≡ 0 → ((i + 1) % 2 == 0) ≡ false
  odd_step i h = ground arith

  tmp_and_undo_files-apart :
      (i : ℕ) (fs : List Bytes)
      → i % 2 ≡ 0
      → Spares q fs
      → All (λ f. f ≢ q) (tmp_and_undo_files i fs)
  unfolding tmp_and_undo_files
  tmp_and_undo_files-apart i [] e h = tt
  tmp_and_undo_files-apart i (f ∷ []) e h = elim h [ ]
  tmp_and_undo_files-apart i (f ∷ g ∷ fs) e (hf, hs) =
      rw (e, odd_step i e)
        (hf, (apart g, tmp_and_undo_files-apart (i + 1 + 1) fs (even_step i e) hs))

  undo_files-apart :
      (i : ℕ) (fs : List Bytes) → i % 2 ≡ 0 → Spares q fs → All (λ f. f ≢ q) (undo_files i fs)
  unfolding undo_files
  undo_files-apart i [] e h = tt
  undo_files-apart i (f ∷ []) e h = elim h [ ]
  undo_files-apart i (f ∷ g ∷ fs) e (hf, hs) =
      rw (e, odd_step i e) (apart g, undo_files-apart (i + 1 + 1) fs (even_step i e) hs)

  module _ {P : Type 0} (stub : RecoveryStub P) where
    rpc_init-Keeps :
        (id : Bytes) (l : LogData) (d : Disk) (p : P)
        → Spares q l.file_names
        → Keeps q d (execute_transaction_rpc_init_recovery os stub id l d p).0
    unfolding execute_transaction_rpc_init_recovery
    rpc_init-Keeps id l d p h = elim (Bool-cases (is_commit (stub.get_transaction_state id p))) [
      | inl e ↦
          rw (e, execute_transaction_rpc_init_recovery)
            (delete_files-Keeps _ d (undo_files-apart 0 l.file_names refl h))
      | inr e ↦ rw (e, execute_transaction_rpc_init_recovery) (Keeps-refl q d)
    ]

    abort-Keeps :
        (l : LogData) (d : Disk)
        → Spares q l.file_names
        → HasNoUndo d
        → Keeps q d (execute_transaction_abort_recovery os l d)
    unfolding execute_transaction_abort_recovery
    abort-Keeps l d h u =
        rw (rename_undos-none os l.file_names d u)
          (delete_files-Keeps _ d (tmp_and_undo_files-apart 0 l.file_names refl h))

    -- What one round of the loop leaves, where it does not end it.
    abbrev After : Disk → Option (Disk × P) → Type 0
    After d none = Unit {0}
    After d (some (d', p')) = Keeps q d d'

    recover_transaction-After :
        (id : Bytes) (op : Operation) (fs : List Bytes) (st : State) (d : Disk) (p : P)
        → Spares q fs
        → HasNoUndo d
        → After d
            (recover_transaction os stub id (record { op = op; file_names = fs; state = st }) d p)
    unfolding recover_transaction execute_transaction_start_recovery
        execute_transaction_commit_recovery
    recover_transaction-After id op fs start d p h u =
        delete_files-Keeps _ d (tmp_and_undo_files-apart 0 fs refl h)
    recover_transaction-After id op fs abort d p h u =
        abort-Keeps (record { op = op; file_names = fs; state = abort }) d h u
    recover_transaction-After id op fs rpc_init d p h u =
        rpc_init-Keeps id (record { op = op; file_names = fs; state = rpc_init }) d p h
    recover_transaction-After id op fs commit d p h u =
        delete_files-Keeps _ d (undo_files-apart 0 fs refl h)
    recover_transaction-After id op fs pending_replication d p h u = tt

    truncate_ne : (d : Disk) → log_file_path ≢ q → truncate os log_file_path d q ≡ d q
    unfolding truncate update
    truncate_ne d h = ground (arith, bytes_eq_iff log_file_path q)

    pub recover_transactions-same :
        (m : Map LogData) (d : Disk) (p : P)
        → log_file_path ≢ q
        → AllValues (λ l. Spares q l.file_names) m
        → HasNoUndo d
        → (recover_transactions os stub m d p).1 q ≡ d q
    unfolding recover_transactions
    recover_transactions-same [] d p k h u = truncate_ne d k
    recover_transactions-same ((id, l) ∷ m) d p k (hl, h) u =
        elim (Option-cases (recover_transaction os stub id l d p)) [
          | inl e ↦ rw (e, recover_transactions) refl
          | inr ((d', p'), e) ↦
              let kept : Keeps q d d' =
                rw e at (recover_transaction-After id l.op l.file_names l.state d p hl u) in
              rw (e, recover_transactions)
                (recover_transactions-same m d' p' k h (kept.no_undo u) ∙ kept.same)
        ]
