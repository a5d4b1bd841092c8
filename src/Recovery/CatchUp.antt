-- ===== src/Recovery/CatchUp.antt =====
-- A server that comes back (src/util/crash_recovery.cc) and its peer (src/blockstorage_server.cc),
-- which made a write without it.
use replicated_block_store.Prelude.{
  ℕ, ◌≡◌, ◌≢◌, ◌≤◌, ◌+◌, ◌/◌, ◌%◌, refl, ap, sym, ◌∙◌, none, List, [], ◌∷◌, Bytes, bytes_eq_refl,
  length, All, arith, pos, Bool,
}
use replicated_block_store.Io.{Result, done, failed, undefined}
use replicated_block_store.Disk.{Disk, Faults, truncates}
use replicated_block_store.Wal.{pending_replication}
use replicated_block_store.Map.{find, Map, AllValues, assign, contains}
use replicated_block_store.KvStore.{
  TxnData, get_transaction_data_from_kv_store, add_to_kv_store, update_state_on_kv_store,
}
use replicated_block_store.Address.{block_size, block_storage_max_size}
use replicated_block_store.Address.Blocks.{block_path, file_parts}
use replicated_block_store.Address.Paths.{max_blocks}
use replicated_block_store.Device.{Device, write_device, first_part, second_part}
use replicated_block_store.Device.Laws.{HasBlocks}
use replicated_block_store.Server.{Server, returns, unavailable, ok}
use replicated_block_store.Server.Comm.{
  PendingWrite, pending_of, get_pending_replication_transactions, force_pending_writes,
  get_transaction_state, commit_files, read_pending,
}
use replicated_block_store.Server.Block.{Stub, call_prepare}
use replicated_block_store.Server.Write.{reply, write}
use replicated_block_store.Server.Link.{delivered}
use replicated_block_store.Server.Staging.{Calm}
use replicated_block_store.Server.View.{view}
use replicated_block_store.Server.Pending.{pending_data}
use replicated_block_store.Server.Sound.{IsSound}
use replicated_block_store.Server.Alone.{write_alone}
use replicated_block_store.Server.Serving.{HasBlocks-sound}
use replicated_block_store.Recovery.Parse.{LogData, load_data}
use replicated_block_store.Recovery.RoundTrip.{Record, log_of, replay, load_data-log_of}
use replicated_block_store.Recovery.Actions.{
  RecoveryStub, log_file_path, get_undo_file_name, log_text, prune, apply_writes, recover,
}
use replicated_block_store.Recovery.Keeping.{HasNoUndo}
use replicated_block_store.Recovery.Blocks.{
  IsSparing, replay-IsSparing, prune-IsSparing, apply_writes-none, after_writes-same,
}
use replicated_block_store.Recovery.Completion.{
  after_writes-ends, prune-AreKnown, load_lines-AreKnown,
}
use replicated_block_store.Recovery.OwnLog.{
  IsOwn, IsOwn-IsClean, IsOwn-Avoids, undo-ne-block, log-ne-block,
}
use replicated_block_store.Recovery.Sending.{EndsInZero, read_pending_lem}
use replicated_block_store.Recovery.Applying.{apply_writes-Shows}

-- A stream that ends early has sent nothing.
abbrev received : Result (List PendingWrite) → List PendingWrite
received (done ws) = ws
received (failed e) = []
received undefined = []

-- The stub whose calls are the peer's handlers.
unfoldable pub peer_stub : Faults → RecoveryStub Server
peer_stub os = record {
  get_transaction_state = get_transaction_state;
  commit_files = λ r p. delivered (commit_files os r p);
  get_pending = get_pending_replication_transactions;
  force_pending_writes = λ ids p. let (r, p') = force_pending_writes os ids p in (received r, p');
}

-- A transaction that the log does not know is asked for, in front of the others.
prune-unknown :
    (id : Bytes) (ids : List Bytes) (m : Map LogData)
    → find id m ≡ none
    → prune (id ∷ ids) m ≡ (id ∷ (prune ids m).0, (prune ids m).1)
unfolding prune
prune-unknown id ids m e = rw (e, prune) refl

get-first :
    (id : Bytes) (t : TxnData) (more : Map TxnData)
    → (get_transaction_data_from_kv_store id ((id, t) ∷ more)).0 ≡ t
unfolding get_transaction_data_from_kv_store find
get-first id t more = rw (bytes_eq_refl id, get_transaction_data_from_kv_store) refl

-- The peer's answers where a pending transaction is the first one in flight: only it is sent.
module _ (os : Faults) (id : Bytes) (s : Server) (more : Map TxnData) where
  force-first :
      (t : TxnData) (ids : List Bytes) (ws : List PendingWrite)
      → s.kv_store ≡ (id, t) ∷ more
      → read_pending os id t.original_files t.sizes t.offsets s.disk ≡ done ws
      → ((peer_stub os).force_pending_writes (id ∷ ids) s).0 ≡ ws
  unfolding peer_stub force_pending_writes
  force-first t ids ws first e = rw (first, get-first id t more, e) refl

  get_pending-first :
      (a : ℕ)
      → s.kv_store ≡ (id, pending_data a) ∷ more
      → (peer_stub os).get_pending s ≡ id ∷ pending_of more
  unfolding peer_stub get_pending_replication_transactions pending_of
  get_pending-first a first = rw first refl

module _ (os osb : Faults) (calm : Calm os) (calmb : Calm osb) (a : ℕ) (buffer id : Bytes)
    (v : Device) (bound : a + block_size ≤ block_storage_max_size) (n : length buffer ≡ block_size)
    (one : EndsInZero (first_part a buffer))
    (two : a % block_size ≢ 0 → EndsInZero (second_part a buffer)) where
  -- Of all the transactions that the peer has pending, recovery makes only the first one, and ends
  -- with 0: where nothing is refused, the first one in flight is a write of 4096 bytes within the
  -- bounds whose bytes the peer shows, the server that recovers holds the blocks of a device with
  -- the blocks of that address, and its log is one of this program's writes that does not know the
  -- transaction, it holds the blocks of the device behind that write and no other one. Each of the
  -- one or two parts of the buffer ends in a zero byte and has no other one, and no undo file is
  -- there.
  pub recover-first_pending :
      (rs : List (Bytes × Record)) (more : Map TxnData) (d : Disk) (s : Server)
      → HasBlocks v a
      → s.kv_store ≡ (id, pending_data a) ∷ more
      → view s.disk (a / block_size) ≡ write_device a buffer v (a / block_size)
      → (a % block_size ≢ 0
          → view s.disk (a / block_size + 1) ≡ write_device a buffer v (a / block_size + 1))
      → ((b : ℕ) → b ≤ max_blocks → view d b ≡ v b)
      → HasNoUndo d
      → log_text osb d ≡ log_of rs
      → All IsOwn rs
      → find id (load_data (log_of rs) []) ≡ none
      → let w = recover osb (peer_stub os) d s in
        (w.0 ≡ returns (pos 0))
        × ((b : ℕ) → b ≤ max_blocks → view w.1 b ≡ write_device a buffer v b)
  unfolding recover view load_data
  recover-first_pending rs more d s blocks first shows shows' holds u text own free =
      let stub = peer_stub os in
      let m = load_data (log_text osb d) [] in
      let unknown : find id m ≡ none = rw text free in
      let (ws, sent, which) =
        read_pending_lem os calm a buffer id v bound n blocks one two s.disk (shows, shows') in
      let (r, made) =
        apply_writes-Shows osb calmb a buffer id v bound n blocks one two ws d which holds in
      let d' = (apply_writes osb ws d).1 in
      let (asked, m') = prune (pending_of more) m in
      let p' = (stub.force_pending_writes (id ∷ asked) s).1 in
      rw
        (
          get_pending-first os id s more a first,
          prune-unknown id (pending_of more) m unknown,
          force-first os id s more (pending_data a) asked ws first sent,
          r,
        )
        (
          (after_writes-ends osb stub m' (done tt) d' p' (λ e. cc)
              (prune-AreKnown (pending_of more) m (load_lines-AreKnown (log_text osb d) [] [] tt))
              (calmb truncates log_file_path)).0,
          λ b hb.
              after_writes-same osb stub (block_path b) (λ f. undo-ne-block f b) m' (done tt) d' p'
                (log-ne-block b) (prune-IsSparing (block_path b) (pending_of more) m (spared b hb))
                (λ f. apply_writes-none osb (get_undo_file_name f) ws d (u f))
              ∙ made b hb,
        )
    where
      spared :
          (b : ℕ)
          → b ≤ max_blocks
          → AllValues (IsSparing (block_path b)) (load_data (log_text osb d) [])
      spared b hb =
          let parsed : load_data (log_text osb d) [] ≡ replay rs [] =
            ap (λ t. load_data t []) text ∙ load_data-log_of rs [] (IsOwn-IsClean rs own) in
          rw parsed (replay-IsSparing (block_path b) rs [] (IsOwn-Avoids b hb rs own) tt)

pended-nil :
    (id : Bytes) (files : List Bytes) (sizes offsets : List ℕ)
    → update_state_on_kv_store id pending_replication (add_to_kv_store id files sizes offsets [])
      ≡ (
        id,
        record {
          original_files = files;
          sizes = sizes;
          offsets = offsets;
          state = pending_replication;
        },
      )
        ∷ []
unfolding update_state_on_kv_store add_to_kv_store assign contains find
pended-nil id files sizes offsets = rw (bytes_eq_refl id, assign, find) refl

-- A backup that was down during a write catches up: where the primary, with no other transaction in
-- flight and nothing refused, made a write of 4096 bytes within the bounds without its peer, and the
-- peer, whose blocks are those of the primary before, then recovers beside it, the write answered OK,
-- `Recover` returns 0, and every block of the peer is the primary's. Each of the one or two parts of
-- the buffer ends in a zero byte and has no other one, which `GetData` relies on. The peer's log is
-- one of this program's writes that does not know the transaction, and no undo file is there.
pub recover-write_pending :
    (os osb : Faults) (cache_on : Bool) {P : Type 0} (stub : Stub P) (now buffer : Bytes) (a : ℕ)
    (s : Server) (p : P) (d : Disk) (rs : List (Bytes × Record))
    → Calm os
    → Calm osb
    → a + block_size ≤ block_storage_max_size
    → length buffer ≡ block_size
    → EndsInZero (first_part a buffer)
    → (a % block_size ≢ 0 → EndsInZero (second_part a buffer))
    → IsSound s.disk
    → s.kv_store ≡ []
    → (call_prepare stub now buffer (file_parts a) p).0 ≡ unavailable
    → ((b : ℕ) → b ≤ max_blocks → view d b ≡ view s.disk b)
    → HasNoUndo d
    → log_text osb d ≡ log_of rs
    → All IsOwn rs
    → find now (load_data (log_of rs) []) ≡ none
    → let (o, s', _) = write os cache_on stub now a buffer s p in
      let w = recover osb (peer_stub os) d s' in
      (o ≡ returns (reply ok))
      × (w.0 ≡ returns (pos 0))
      × ((b : ℕ) → b ≤ max_blocks → view w.1 b ≡ view s'.disk b)
recover-write_pending os osb cache_on stub now buffer a s p d rs calm calmb bound n one two sound
      idle lost same u text own free =
    let (o, vs, _, kv) = write_alone os calm cache_on stub now buffer a p bound n lost s sound in
    let only : (write os cache_on stub now a buffer s p).1.kv_store ≡ (now, pending_data a) ∷ [] =
      kv ∙ rw idle (pended-nil now _ _ _) in
    let (fin, caught) =
      recover-first_pending os osb calm calmb a buffer now (view s.disk) bound n one two rs [] d _
        (HasBlocks-sound s.disk a bound sound) only (vs (a / block_size) (omega arith))
        (λ u. vs (a / block_size + 1) (omega arith)) same u text own free in
    (o, fin, λ b hb. caught b hb ∙ sym (vs b hb))
