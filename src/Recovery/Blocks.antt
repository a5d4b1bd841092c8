-- ===== src/Recovery/Blocks.antt =====
-- `Recover` of src/util/crash_recovery.cc on the log of this program's writes.
use replicated_block_store.Prelude.{
  ℕ, ◌≡◌, ◌≢◌, refl, ap, ◌∙◌, Option, none, some, Option-cases, inl, inr, List, [], ◌∷◌, ◌++◌,
  Bytes, All, arith, bytes_eq_iff, if_holds,
}
use replicated_block_store.Io.{Result, done, failed, undefined}
use replicated_block_store.Disk.{Disk, Faults, open_file, write_file, update}
use replicated_block_store.Disk.Frame.{LeavesAlone, frame_rules}
use replicated_block_store.Map.{Map, find, AllValues, AllValues-assign, AllValues-find}
use replicated_block_store.Wal.{
  State, start, abort, rpc_init, commit, pending_replication, state_name,
}
use replicated_block_store.Server.Comm.{PendingWrite}
use replicated_block_store.Server.Helper.{source_bytes}
use replicated_block_store.Recovery.Parse.{
  LogData, Operation, move, invalid, log_or_default, load_state, load_operation, load_data,
}
use replicated_block_store.Recovery.RoundTrip.{
  Record, enters, moves, log_of, replay, IsClean, load_data-log_of,
}
use replicated_block_store.Recovery.Actions.{
  RecoveryStub, log_file_path, get_undo_file_name, write_data, apply_writes, is_committed, prune,
  log_text, after_writes, recover,
}
use replicated_block_store.Recovery.Keeping.{HasNoUndo, Spares, recover_transactions-same}

module _ (q : Bytes) where
  abbrev pub IsSparing : LogData → Type 0
  IsSparing l = Spares q l.file_names

  Spares-append :
      (fs : List Bytes) (a b : Bytes) → Spares q fs → a ≢ q → Spares q (fs ++ a ∷ b ∷ [])
  Spares-append [] a b h k = (k, tt)
  Spares-append (f ∷ []) a b h k = elim h [ ]
  Spares-append (f ∷ g ∷ fs) a b (hf, hs) k = (hf, Spares-append fs a b hs k)

  IsSparing-find :
      (k : Bytes) (m : Map LogData) → AllValues IsSparing m → IsSparing (log_or_default (find k m))
  IsSparing-find k m h = elim (Option-cases (find k m)) [
    | inl e ↦ rw e tt
    | inr (l, e) ↦ rw e (AllValues-find IsSparing k m l h e)
  ]

  load_state-IsSparing :
      (id : Bytes) (st : State) (m : Map LogData)
      → AllValues IsSparing m
      → AllValues IsSparing (load_state id st m)
  unfolding load_state
  load_state-IsSparing id st m h =
      AllValues-assign IsSparing id _ m
        (elim (Option-cases (find id m)) [
          | inl e ↦ rw e tt
          | inr (l, e) ↦ rw e (AllValues-find IsSparing id m l h e)
        ])
        h

  load_operation-IsSparing :
      (id : Bytes) (op : Operation) (a b : Bytes) (m : Map LogData)
      → a ≢ q
      → AllValues IsSparing m
      → AllValues IsSparing (load_operation id op a b m)
  unfolding load_operation
  load_operation-IsSparing id op a b m k h =
      AllValues-assign IsSparing id _ m (Spares-append _ a b (IsSparing-find id m h) k) h

  -- A record whose temporary file is not `q`; that of PENDING_REPLICATION counts with its id.
  abbrev pub Avoids : Bytes × Record → Type 0
  Avoids (id, moves tmp original) = tmp ≢ q
  Avoids (id, enters st) = id ≢ q

  pub replay-IsSparing :
      (rs : List (Bytes × Record)) (m : Map LogData)
      → All Avoids rs
      → AllValues IsSparing m
      → AllValues IsSparing (replay rs m)
  replay-IsSparing [] m h k = k
  replay-IsSparing ((id, enters pending_replication) ∷ rs) m (hr, h) k =
      replay-IsSparing rs _ h
        (load_operation-IsSparing id invalid id (state_name pending_replication) m hr k)
  replay-IsSparing ((id, enters start) ∷ rs) m (hr, h) k =
      replay-IsSparing rs _ h (load_state-IsSparing id start m k)
  replay-IsSparing ((id, enters abort) ∷ rs) m (hr, h) k =
      replay-IsSparing rs _ h (load_state-IsSparing id abort m k)
  replay-IsSparing ((id, enters rpc_init) ∷ rs) m (hr, h) k =
      replay-IsSparing rs _ h (load_state-IsSparing id rpc_init m k)
  replay-IsSparing ((id, enters commit) ∷ rs) m (hr, h) k =
      replay-IsSparing rs _ h (load_state-IsSparing id commit m k)
  replay-IsSparing ((id, moves tmp original) ∷ rs) m (hr, h) k =
      replay-IsSparing rs _ h (load_operation-IsSparing id move tmp original m hr k)

  pub prune-IsSparing :
      (ids : List Bytes) (m : Map LogData)
      → AllValues IsSparing m
      → AllValues IsSparing (prune ids m).1
  unfolding prune
  prune-IsSparing [] m h = h
  prune-IsSparing (id ∷ ids) m h = elim (Option-cases (find id m)) [
    | inl e ↦ rw (e, prune) (prune-IsSparing ids m h)
    | inr (l, e) ↦
        rw (e, prune)
          (prune-IsSparing ids _ (
            if_holds (AllValues IsSparing) (is_committed l) m _ h
              (AllValues-assign IsSparing id _ m (AllValues-find IsSparing id m l h e) h)))
  ]

module _ (os : Faults) where
  source_bytes-LeavesAlone : (q : Bytes) (o : Option Bytes) → LeavesAlone q (source_bytes o)
  source_bytes-LeavesAlone q none = record { at = λ d. refl }
  source_bytes-LeavesAlone q (some buf) = record { at = λ d. refl }

  write_data-LeavesAlone :
      (q file_path content : Bytes) (size offset : ℕ)
      → file_path ≢ q
      → LeavesAlone q (write_data os file_path content size offset)
  unfolding write_data
  write_data-LeavesAlone q file_path content size offset h =
      search (frame_rules, source_bytes-LeavesAlone) depth 14

  -- A write to a file that is not there makes none.
  write_data-none :
      (q file_path content : Bytes) (size offset : ℕ) (d : Disk)
      → d q ≡ none
      → (write_data os file_path content size offset d).1 q ≡ none
  unfolding write_data open_file write_file update
  write_data-none q file_path content size offset d h = ground (arith, bytes_eq_iff file_path q)

  apply_writes-same :
      (q : Bytes) (ws : List PendingWrite) (d : Disk)
      → All (λ (w : PendingWrite). w.file_name ≢ q) ws
      → (apply_writes os ws d).1 q ≡ d q
  unfolding apply_writes
  apply_writes-same q [] d h = refl
  apply_writes-same q (w ∷ ws) d (hw, hs) =
      let one = write_data os w.file_name w.content w.size w.offset d in
      ground (
        arith,
        apply_writes-same q ws one.1 hs,
        (write_data-LeavesAlone q w.file_name w.content w.size w.offset hw).at d,
      )

  pub apply_writes-none :
      (q : Bytes) (ws : List PendingWrite) (d : Disk)
      → d q ≡ none
      → (apply_writes os ws d).1 q ≡ none
  unfolding apply_writes
  apply_writes-none q [] d h = h
  apply_writes-none q (w ∷ ws) d h =
      let one = write_data os w.file_name w.content w.size w.offset d in
      ground (
        arith,
        apply_writes-none q ws one.1,
        write_data-none q w.file_name w.content w.size w.offset d h,
      )

  module _ {P : Type 0} (stub : RecoveryStub P) (q : Bytes)
      (apart : (f : Bytes) → get_undo_file_name f ≢ q) where
    pub after_writes-same :
        (m : Map LogData) (r : Result (Unit {0})) (d : Disk) (p : P)
        → log_file_path ≢ q
        → AllValues (IsSparing q) m
        → HasNoUndo d
        → (after_writes os stub m r d p).1 q ≡ d q
    unfolding after_writes
    after_writes-same m undefined d p k h u = refl
    after_writes-same m (done t) d p k h u = recover_transactions-same os q apart stub m d p k h u
    after_writes-same m (failed e) d p k h u = recover_transactions-same os q apart stub m d p k h u

    -- Recovery changes no file `q` that is none of these: the log, an undo file, a temporary file
    -- that the log names, a file that the peer sends a write to, or the id of a transaction in the
    -- log. The log is one that was written record by record over ids and paths with neither colon nor
    -- newline, and no undo file is there; the states in the log, what fails on the way, what the peer
    -- answers and how recovery ends do not matter.
    pub recover_keeps_file :
        (rs : List (Bytes × Record)) (d : Disk) (p : P)
        → log_file_path ≢ q
        → HasNoUndo d
        → log_text os d ≡ log_of rs
        → All IsClean rs
        → All (Avoids q) rs
        → ((ids : List Bytes)
            → All (λ (w : PendingWrite). w.file_name ≢ q) (stub.force_pending_writes ids p).0)
        → (recover os stub d p).1 q ≡ d q
    unfolding recover
    recover_keeps_file rs d p k u text clean avoids sent =
        let parsed : load_data (log_text os d) [] ≡ replay rs [] =
          ap (λ t. load_data t []) text ∙ load_data-log_of rs [] clean in
        let spared : AllValues (IsSparing q) (load_data (log_text os d) []) =
          rw parsed (replay-IsSparing q rs [] avoids tt) in
        let asked = (prune (stub.get_pending p) (load_data (log_text os d) [])).0 in
        let ws = (stub.force_pending_writes asked p).0 in
        after_writes-same _ _ (apply_writes os ws d).1 _ k
          (prune-IsSparing q (stub.get_pending p) _ spared)
          (λ f. apply_writes-none (get_undo_file_name f) ws d (u f))
        ∙ apply_writes-same q ws d (sent asked)
