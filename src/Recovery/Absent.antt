-- ===== src/Recovery/Absent.antt =====
-- The files that `Recover` of src/util/crash_recovery.cc does not make.
use replicated_block_store.Prelude.{
  ◌≡◌, refl, ap, Option, none, some, Option-cases, inl, inr, List, [], ◌∷◌, Bytes, arith,
  Bool-cases, bytes_eq_iff,
}
use replicated_block_store.Io.{Result, done, failed, undefined}
use replicated_block_store.Disk.{Disk, Faults, truncate, update}
use replicated_block_store.Map.{Map}
use replicated_block_store.Wal.{State, start, abort, rpc_init, commit, pending_replication}
use replicated_block_store.Recovery.Parse.{LogData, Operation, load_data}
use replicated_block_store.Recovery.Actions.{
  RecoveryStub, log_file_path, get_undo_file_name, tmp_and_undo_files, undo_files, delete_files,
  execute_transaction_start_recovery, execute_transaction_abort_recovery,
  execute_transaction_commit_recovery, execute_transaction_rpc_init_recovery, recover_transaction,
  recover_transactions, is_commit, after_writes, apply_writes, prune, log_text, recover,
}
use replicated_block_store.Recovery.Keeping.{HasNoUndo, remove-none, rename_undos-none}
use replicated_block_store.Recovery.Blocks.{apply_writes-none}

module _ (os : Faults) where
  delete_files-none :
      (fs : List Bytes) (r : Bytes) (d : Disk) → d r ≡ none → delete_files os fs d r ≡ none
  unfolding delete_files
  delete_files-none [] r d h = h
  delete_files-none (f ∷ fs) r d h = delete_files-none fs r _ (remove-none os f r d h)

  truncate-none : (p r : Bytes) (d : Disk) → d r ≡ none → truncate os p d r ≡ none
  unfolding truncate update
  truncate-none p r d h = ground (arith, bytes_eq_iff p r)

  module _ {P : Type 0} (stub : RecoveryStub P) where
    -- Where no undo file is there, a round of the loop only deletes files.
    abbrev Deletes : Disk → Option (Disk × P) → Type 0
    Deletes d none = Unit {0}
    Deletes d (some (d', p')) = (fs : List Bytes) × (d' ≡ delete_files os fs d)

    rpc_init-Deletes :
        (id : Bytes) (l : LogData) (d : Disk) (p : P)
        → Deletes d (some (execute_transaction_rpc_init_recovery os stub id l d p))
    unfolding execute_transaction_rpc_init_recovery delete_files
    rpc_init-Deletes id l d p = elim (Bool-cases (is_commit (stub.get_transaction_state id p))) [
      | inl e ↦ (undo_files 0 l.file_names, rw (e, execute_transaction_rpc_init_recovery) refl)
      | inr e ↦ ([], rw (e, execute_transaction_rpc_init_recovery) refl)
    ]

    recover_transaction-Deletes :
        (id : Bytes) (op : Operation) (fs : List Bytes) (st : State) (d : Disk) (p : P)
        → HasNoUndo d
        → Deletes d
            (recover_transaction os stub id (record { op = op; file_names = fs; state = st }) d p)
    unfolding recover_transaction execute_transaction_start_recovery
        execute_transaction_abort_recovery execute_transaction_commit_recovery
    recover_transaction-Deletes id op fs start d p u = (tmp_and_undo_files 0 fs, refl)
    recover_transaction-Deletes id op fs abort d p u = (
      tmp_and_undo_files 0 fs,
      ap (delete_files os (tmp_and_undo_files 0 fs)) (rename_undos-none os fs d u),
    )
    recover_transaction-Deletes id op fs rpc_init d p u =
        rpc_init-Deletes id (record { op = op; file_names = fs; state = rpc_init }) d p
    recover_transaction-Deletes id op fs commit d p u = (undo_files 0 fs, refl)
    recover_transaction-Deletes id op fs pending_replication d p u = tt

    recover_transactions-none :
        (m : Map LogData) (r : Bytes) (d : Disk) (p : P)
        → HasNoUndo d
        → d r ≡ none
        → (recover_transactions os stub m d p).1 r ≡ none
    unfolding recover_transactions
    recover_transactions-none [] r d p u h = truncate-none log_file_path r d h
    recover_transactions-none ((id, l) ∷ m) r d p u h =
        elim (Option-cases (recover_transaction os stub id l d p)) [
          | inl e ↦ rw (e, recover_transactions) h
          | inr ((d', p'), e) ↦
              let (fs, made) : Deletes d (some (d', p')) =
                rw e at (recover_transaction-Deletes id l.op l.file_names l.state d p u) in
              let gone : (q : Bytes) → d q ≡ none → d' q ≡ none =
                λ q k. rw made (delete_files-none fs q d k) in
              rw (e, recover_transactions)
                (recover_transactions-none m r d' p' (λ f. gone (get_undo_file_name f) (u f))
                  (gone r h))
        ]

    after_writes-none :
        (m : Map LogData) (w : Result (Unit {0})) (r : Bytes) (d : Disk) (p : P)
        → HasNoUndo d
        → d r ≡ none
        → (after_writes os stub m w d p).1 r ≡ none
    unfolding after_writes
    after_writes-none m undefined r d p u h = h
    after_writes-none m (done t) r d p u h = recover_transactions-none m r d p u h
    after_writes-none m (failed e) r d p u h = recover_transactions-none m r d p u h

    -- Recovery makes no file that is not there, where no undo file is there, whatever the log holds,
    -- whatever fails on the way and whatever the peer answers.
    pub recover-none :
        (r : Bytes) (d : Disk) (p : P) → HasNoUndo d → d r ≡ none → (recover os stub d p).1 r ≡ none
    unfolding recover
    recover-none r d p u h =
        let asked = (prune (stub.get_pending p) (load_data (log_text os d) [])).0 in
        let ws = (stub.force_pending_writes asked p).0 in
        after_writes-none _ _ r (apply_writes os ws d).1 _
          (λ f. apply_writes-none os (get_undo_file_name f) ws d (u f))
          (apply_writes-none os r ws d h)
