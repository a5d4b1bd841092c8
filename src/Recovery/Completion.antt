-- ===== src/Recovery/Completion.antt =====
-- How `Recover` of src/util/crash_recovery.cc ends.
use replicated_block_store.Prelude.{
  if_holds, ◌≡◌, ◌≢◌, ◌≤◌, refl, Option, none, some, Option-cases, inl, inr, List, [], ◌∷◌, ◌++◌,
  Bytes, ◌==◌, length, All, pos, arith, bytes_eq_refl,
}
use replicated_block_store.Io.{Result, done, failed, undefined}
use replicated_block_store.Disk.{Disk, Faults, open_file, write_file, truncate, truncates, update}
use replicated_block_store.Disk.Content.{bytes_at_lem}
use replicated_block_store.Map.{AllValues, AllValues-assign, AllValues-find, Map, find}
use replicated_block_store.Wal.{State, pending_replication}
use replicated_block_store.Server.{returns}
use replicated_block_store.Server.Comm.{PendingWrite}
use replicated_block_store.Recovery.Parse.{
  LogData, Fields, unset, log_or_default, state_of, load_state, load_operation, load_fields,
  load_line, load_last, load_lines, load_data,
}
use replicated_block_store.Recovery.Actions.{
  RecoveryStub, log_file_path, write_data, apply_writes, recover_transaction, recover_transactions,
  is_committed, prune, log_text, after_writes, recover,
}

-- The state is one that the loop of `Recover` knows.
abbrev IsKnown : LogData → Type 0
IsKnown l = l.state ≢ pending_replication

abbrev AreKnown : Map LogData → Type 0
AreKnown = AllValues IsKnown

-- The default of a missing key is known too.
IsKnown-find : (k : Bytes) (m : Map LogData) → AreKnown m → IsKnown (log_or_default (find k m))
IsKnown-find k m h = elim (Option-cases (find k m)) [
  | inl e ↦ rw e (λ u. cc)
  | inr (l, e) ↦ rw e (AllValues-find IsKnown k m l h e)
]

-- The state that a word names is never PENDING_REPLICATION.
state_of-IsKnown : (val : Bytes) (st : State) → state_of val ≡ some st → st ≢ pending_replication
unfolding state_of
state_of-IsKnown val st e = ground arith

load_fields-AreKnown : (f : Fields) (m : Map LogData) → AreKnown m → AreKnown (load_fields f m)
unfolding load_fields load_operation load_state
load_fields-AreKnown f m h = elim (Option-cases (state_of f.val)) [
  | inl e ↦ rw (e, load_fields) (AllValues-assign IsKnown f.id _ m (IsKnown-find f.id m h) h)
  | inr (st, e) ↦ rw (e, load_fields) (load_state-AreKnown st (state_of-IsKnown f.val st e))
]
  where
    load_state-AreKnown : (st : State) → st ≢ pending_replication → AreKnown (load_state f.id st m)
    load_state-AreKnown st k = AllValues-assign IsKnown f.id _ m (kept (find f.id m)) h
      where
        kept :
            (o : Option LogData)
            → IsKnown (elim o [
              | none ↦ record { op = unset; file_names = []; state = st }
              | some l ↦ record l { state = st }
            ])
        kept none = k
        kept (some l) = k

pub load_lines-AreKnown :
    (text line : Bytes) (m : Map LogData) → AreKnown m → AreKnown (load_lines line text m)
unfolding load_lines load_last load_line
load_lines-AreKnown [] [] m h = h
load_lines-AreKnown [] (c ∷ s) m h = load_fields-AreKnown _ m h
load_lines-AreKnown (c ∷ text) line m h =
    if_holds AreKnown (c == 10) _ _ (load_lines-AreKnown text [] _ (load_fields-AreKnown _ m h))
      (load_lines-AreKnown text (line ++ c ∷ []) m h)

pub prune-AreKnown : (ids : List Bytes) (m : Map LogData) → AreKnown m → AreKnown (prune ids m).1
unfolding prune
prune-AreKnown [] m h = h
prune-AreKnown (id ∷ ids) m h = elim (Option-cases (find id m)) [
  | inl e ↦ rw (e, prune) (prune-AreKnown ids m h)
  | inr (l, e) ↦
      rw (e, prune)
        (prune-AreKnown ids _
          (if_holds AreKnown (is_committed l) m _ h (AllValues-assign IsKnown id _ m (cc) h)))
]

module _ (os : Faults) where
  -- What the peer sends holds the bytes that it says it does.
  abbrev pub Fits : PendingWrite → Type 0
  Fits w = w.size ≤ length w.content

  write_data-defined :
      (w : PendingWrite) (d : Disk)
      → Fits w
      → (write_data os w.file_name w.content w.size w.offset d).0 ≢ undefined
  unfolding write_data open_file write_file
  write_data-defined w d h = ground (arith, bytes_at_lem w.content 0 w.size (omega arith))

  apply_writes-defined :
      (ws : List PendingWrite) (d : Disk) → All Fits ws → (apply_writes os ws d).0 ≢ undefined
  unfolding apply_writes
  apply_writes-defined [] d h = cc
  apply_writes-defined (w ∷ ws) d (hw, hs) = ground (
    arith,
    write_data-defined w d hw,
    apply_writes-defined ws (write_data os w.file_name w.content w.size w.offset d).1 hs,
  )

  log_text-truncate :
      (d : Disk)
      → os truncates log_file_path ≡ none
      → log_text os (truncate os log_file_path d) ≡ []
  unfolding log_text truncate open_file update
  log_text-truncate d h = ground (arith, bytes_eq_refl log_file_path)

  module _ {P : Type 0} (stub : RecoveryStub P) where
    recover_transaction-goes :
        (id : Bytes) (l : LogData) (d : Disk) (p : P)
        → IsKnown l
        → recover_transaction os stub id l d p ≢ none
    unfolding recover_transaction
    recover_transaction-goes id l d p h = ground arith

    recover_transactions-ends :
        (m : Map LogData) (d : Disk) (p : P)
        → AreKnown m
        → os truncates log_file_path ≡ none
        → let w = recover_transactions os stub m d p in
          (w.0 ≡ returns (pos 0)) × (log_text os w.1 ≡ [])
    unfolding recover_transactions
    recover_transactions-ends [] d p h k = (refl, log_text-truncate d k)
    recover_transactions-ends ((id, l) ∷ m) d p (hl, h) k =
        elim (Option-cases (recover_transaction os stub id l d p)) [
          | inl e ↦ absurd (recover_transaction-goes id l d p hl e)
          | inr ((d', p'), e) ↦ rw (e, recover_transactions) (recover_transactions-ends m d' p' h k)
        ]

    pub after_writes-ends :
        (m : Map LogData) (r : Result (Unit {0})) (d : Disk) (p : P)
        → r ≢ undefined
        → AreKnown m
        → os truncates log_file_path ≡ none
        → let w = after_writes os stub m r d p in (w.0 ≡ returns (pos 0)) × (log_text os w.1 ≡ [])
    unfolding after_writes
    after_writes-ends m undefined d p hr h k = absurd (hr refl)
    after_writes-ends m (done t) d p hr h k = recover_transactions-ends m d p h k
    after_writes-ends m (failed e) d p hr h k = recover_transactions-ends m d p h k

    -- Whatever the log holds, whatever else fails and whatever the peer answers, as long as each
    -- write that the peer sends holds the bytes that it says it does and the log can be truncated,
    -- `Recover` ends with 0, and the log that it leaves reads as empty.
    pub recover_ends :
        (d : Disk) (p : P)
        → ((ids : List Bytes) → All Fits (stub.force_pending_writes ids p).0)
        → os truncates log_file_path ≡ none
        → let w = recover os stub d p in (w.0 ≡ returns (pos 0)) × (log_text os w.1 ≡ [])
    unfolding recover load_data
    recover_ends d p fits k =
        after_writes-ends _ _ _ _ (apply_writes-defined _ d (fits _))
          (prune-AreKnown (stub.get_pending p) _ (load_lines-AreKnown (log_text os d) [] [] tt)) k
