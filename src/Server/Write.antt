-- ===== src/Server/Write.antt =====
-- `BlockStorageServiceImpl::Write` of src/blockstorage_server.cc, one function for each phase. One
-- write runs at a time, and two at the same time are in Overlap; what it does with the file locks is
-- `lock_files` of Locks.
use replicated_block_store.Prelude.{
  ℕ, none, some, Bool, List, [], Bytes, map, if◌then◌else◌, int_of_uint32,
}
use replicated_block_store.Io.{Result, done, failed, undefined}
use replicated_block_store.Disk.{Disk, Faults}
use replicated_block_store.Wal.{State, start, abort, rpc_init, commit, pending_replication}
use replicated_block_store.KvStore.{add_to_kv_store, delete_from_kv_store, update_state_on_kv_store}
use replicated_block_store.Address.{PathData, get_all_file_names}
use replicated_block_store.Cache.{get_value_from_cache, add_to_cache, update_cache}
use replicated_block_store.Server.{
  Server, StatusCode, ok, unavailable, not_found, unknown, Outcome, returns, throws, crashes,
}
use replicated_block_store.Server.Helper.{write_to_log, log_state}
use replicated_block_store.Server.Comm.{rename_movs, stage_files, rename_files}
use replicated_block_store.Server.Block.{
  Stub, WriteReply, address_string, is_empty, file_data_of, call_prepare, call_commit,
}

abbrev pub reply : StatusCode → WriteReply
reply s = record { status = s; error = 0 }

-- What a write works on: the address as the cache's key, the buffer, the files and the id.
pub record Job : Type 0 where
  pub key : Bytes
  pub buffer : Bytes
  pub parts : List PathData
  pub txn_id : Bytes

abbrev pub paths : List PathData → List Bytes
paths = map (λ (pd : PathData). pd.path)

module _ (os : Faults) where
  -- The renames, then the state in the log and in KV_STORE.
  unfoldable pub enter_state : Job → State → Server → Server
  enter_state j st s = record s {
    disk = log_state os j.txn_id st (rename_files os (rename_movs (paths j.parts)) s.disk);
    kv_store = update_state_on_kv_store j.txn_id st s.kv_store;
  }

module _ (cache_on : Bool) where
  -- With the cache on, the key has an entry before the write, which the write fills.
  unfoldable pub enter_cache : Bytes → Server → Server
  unfolding is_empty
  enter_cache key s =
      if cache_on
      then (if is_empty (get_value_from_cache key s.cache)
          then record s { cache = add_to_cache key [] s.cache }
          else s)
      else s

  unfoldable pub update_entry : Job → Server → Server
  update_entry j s =
      if cache_on then record s { cache = update_cache j.key j.buffer s.cache } else s

-- The transaction is in KV_STORE once its first record is in the log.
unfoldable pub add_transaction : Job → Disk → Server → Server
add_transaction j d s = record s {
  disk = d;
  kv_store =
      add_to_kv_store j.txn_id (paths j.parts) (map (λ (pd : PathData). pd.size) j.parts)
        (map (λ (pd : PathData). pd.offset) j.parts) s.kv_store;
}

module _ (os : Faults) (cache_on : Bool) {P : Type 0} (stub : Stub P) where
  -- The backup cannot be reached: the write is made here, and is replicated later.
  unfoldable pub pend : Job → Server → P → Outcome WriteReply × Server × P
  pend j s p =
      (returns (reply ok), update_entry cache_on j (enter_state os j pending_replication s), p)

  -- The answers to `Commit`.
  unfoldable pub on_commit : Job → StatusCode → Server → P → Outcome WriteReply × Server × P
  unfolding pend
  on_commit j ok s p = (
    returns (reply ok),
    update_entry cache_on j (record s {
      disk = log_state os j.txn_id commit s.disk;
      kv_store = delete_from_kv_store j.txn_id s.kv_store;
    }),
    p,
  )
  on_commit j unavailable s p = pend j s p
  on_commit j _ s p =
      (returns (reply unknown), record s { kv_store = delete_from_kv_store j.txn_id s.kv_store }, p)

  -- The answers to `Prepare`.
  unfoldable pub on_prepare : Job → StatusCode → Server → P → Outcome WriteReply × Server × P
  unfolding on_commit
  on_prepare j ok s p =
      let (commit_resp, p') = call_commit stub j.txn_id j.parts p in
      on_commit j commit_resp (enter_state os j rpc_init s) p'
  on_prepare j unavailable s p = pend j s p
  on_prepare j _ s p = (
    returns (reply unknown),
    record s {
      disk = log_state os j.txn_id abort s.disk;
      kv_store = delete_from_kv_store j.txn_id s.kv_store;
    },
    p,
  )

  -- Behind the loop that stages the files.
  unfoldable pub replicate_staged :
      Job → Result (Unit {0}) → Server → P → Outcome WriteReply × Server × P
  unfolding on_prepare
  replicate_staged j (failed e) s p = (returns (record { status = not_found; error = e }), s, p)
  replicate_staged j undefined s p = (crashes, s, p)
  replicate_staged j (done t) s p =
      elim (write_to_log os j.txn_id start (rename_movs (paths j.parts)) s.disk) [
        | none ↦ (throws, s, p)
        | some d ↦
            let (prepare_resp, p') = call_prepare stub j.txn_id j.buffer j.parts p in
            on_prepare j prepare_resp (add_transaction j d s) p'
      ]

  unfoldable pub write_job : Job → Server → P → Outcome WriteReply × Server × P
  unfolding replicate_staged
  write_job j s p =
      let (staged, d) = stage_files os j.buffer 0 (map file_data_of j.parts) s.disk in
      replicate_staged j staged (record s { disk = d }) p

  -- `now` is the id that `CreateTransactionId` makes of the clock.
  unfoldable pub write : Bytes → ℕ → Bytes → Server → P → Outcome WriteReply × Server × P
  unfolding write_job enter_cache
  write now addr buffer s p =
      let address = int_of_uint32 addr in
      let key = address_string address in
      let s' = enter_cache cache_on key s in
      elim (get_all_file_names address) [
        | none ↦ (throws, s', p)
        | some parts ↦
            write_job (record { key = key; buffer = buffer; parts = parts; txn_id = now }) s' p
      ]
