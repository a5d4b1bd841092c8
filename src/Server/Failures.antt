-- ===== src/Server/Failures.antt =====
-- `Write` of src/blockstorage_server.cc where the peer refuses Prepare.
use replicated_block_store.Prelude.{
  ℕ, ◌≡◌, ◌≢◌, ◌≤◌, ◌+◌, ◌/◌, ◌%◌, bytes_eq_refl, negsuc, refl, ap, sym, ◌∙◌, none, some, Bool, [],
  List, Bytes, arith, map, pos, ltb, ltb→lt, ◌==◌, inl, inr, int_of_uint32, Bool-cases, ℤ,
  Option-cases, ◌∷◌,
}
use mathlib.Core.Option.{some-injective}
use replicated_block_store.Io.{Result, done, failed, undefined}
use replicated_block_store.Disk.{Disk, Faults}
use replicated_block_store.Map.{find}
use replicated_block_store.Wal.{start, abort, log_prepare}
use replicated_block_store.KvStore.Laws.{find-delete}
use replicated_block_store.Address.{block_storage_max_size, block_size}
use replicated_block_store.Address.Blocks.{block_path, file_parts, files_at, get_all_file_names_lem}
use replicated_block_store.Address.Paths.{max_blocks}
use replicated_block_store.Device.{Device}
use replicated_block_store.Server.Replication.{disk-enter_cache, kv_store-enter_cache}
use replicated_block_store.Server.Link.{log_state_lem}
use replicated_block_store.Server.{
  Server, ok, unavailable, not_found, unknown, StatusCode, Outcome, returns,
}
use replicated_block_store.Server.Helper.{write_to_log}
use replicated_block_store.Server.Comm.{rename_movs}
use replicated_block_store.Server.Block.{
  Stub, address_string, WriteReply, file_data_of, call_prepare,
}
use replicated_block_store.Server.Write.{
  Job, paths, reply, enter_cache, add_transaction, on_prepare, replicate_staged, write_job, write,
}
use replicated_block_store.Server.Staging.{TempsApart, stage_files-LeavesAlone}
use replicated_block_store.Server.View.{view, temp-ne-block}
use replicated_block_store.Server.Steps.{view-append_log}

-- No temporary file of a write is a block.
temps_apart :
    (address : ℤ) (b : ℕ)
    → b ≤ max_blocks
    → TempsApart (block_path b) (map file_data_of (files_at address))
unfolding file_data_of file_parts
temps_apart (negsuc n) b hb = tt
temps_apart (pos a) b hb = elim (Bool-cases (ltb a block_storage_max_size)) [
  | inl e ↦
      let bound = ltb→lt a block_storage_max_size e in
      let one = temp-ne-block (a / block_size) b (omega arith) hb in
      let two = temp-ne-block (a / block_size + 1) b (omega arith) hb in
      rw e (elim (Bool-cases (a % block_size == 0)) [
        | inl z ↦ rw z (one, tt)
        | inr z ↦ rw z (one, (two, tt))
      ])
  | inr e ↦ rw e tt
]

-- The first record of a transaction changes no block.
view-write_to_log :
    (os : Faults) (txn_id : Bytes) (moves : List (Bytes × Bytes)) (d d' : Disk)
    → write_to_log os txn_id start moves d ≡ some d'
    → (b : ℕ) → b ≤ max_blocks
    → view d' b ≡ view d b
unfolding write_to_log log_prepare
view-write_to_log os txn_id [] d d' e b hb = cc
view-write_to_log os txn_id (m ∷ moves) d d' e b hb =
    ap (λ (o : Disk). view o b) (sym (some-injective _ d' e)) ∙ view-append_log os _ d b hb

module _ (os : Faults) (cache_on : Bool) {P : Type 0} (stub : Stub P) (p : P) where
  -- What a write that fails leaves: the blocks of `v`, and no transaction.
  record HasFailed (v : Device) (now : Bytes) (w : Outcome WriteReply × Server × P) : Type 0 where
    told : w.0 ≢ returns (reply ok)
    blocks : (b : ℕ) → b ≤ max_blocks → view w.1.disk b ≡ v b
    gone : find now w.1.kv_store ≡ none

  on_prepare-HasFailed :
      (j : Job) (r : StatusCode) (s : Server) (p' : P) (v : Device)
      → r ≢ ok
      → r ≢ unavailable
      → ((b : ℕ) → b ≤ max_blocks → view s.disk b ≡ v b)
      → HasFailed v j.txn_id (on_prepare os cache_on stub j r s p')
  unfolding on_prepare
  on_prepare-HasFailed j ok s p' v h k same = absurd (h refl)
  on_prepare-HasFailed j unavailable s p' v h k same = absurd (k refl)
  on_prepare-HasFailed j not_found s p' v h k same = record {
    told = cc;
    blocks = λ b hb.
        rw (log_state_lem os j.txn_id abort s.disk (cc))
          (view-append_log os _ s.disk b hb ∙ same b hb);
    gone = find-delete j.txn_id j.txn_id s.kv_store ∙ rw bytes_eq_refl;
  }
  on_prepare-HasFailed j unknown s p' v h k same = record {
    told = cc;
    blocks = λ b hb.
        rw (log_state_lem os j.txn_id abort s.disk (cc))
          (view-append_log os _ s.disk b hb ∙ same b hb);
    gone = find-delete j.txn_id j.txn_id s.kv_store ∙ rw bytes_eq_refl;
  }

  replicate_staged-HasFailed :
      (j : Job) (r : Result (Unit {0})) (s : Server) (v : Device)
      → (call_prepare stub j.txn_id j.buffer j.parts p).0 ≢ ok
      → (call_prepare stub j.txn_id j.buffer j.parts p).0 ≢ unavailable
      → ((b : ℕ) → b ≤ max_blocks → view s.disk b ≡ v b)
      → find j.txn_id s.kv_store ≡ none
      → HasFailed v j.txn_id (replicate_staged os cache_on stub j r s p)
  unfolding replicate_staged
  replicate_staged-HasFailed j (failed e) s v h k same free = record {
    told = cc;
    blocks = same;
    gone = free;
  }
  replicate_staged-HasFailed j undefined s v h k same free = record {
    told = cc;
    blocks = same;
    gone = free;
  }
  replicate_staged-HasFailed j (done t) s v h k same free =
      elim (Option-cases (write_to_log os j.txn_id start (rename_movs (paths j.parts)) s.disk)) [
        | inl e ↦ rw (e, replicate_staged) (record { told = cc; blocks = same; gone = free })
        | inr (d, e) ↦
            rw (e, replicate_staged)
              (on_prepare-HasFailed j _ (add_transaction j d s) _ v h k (λ b hb.
                unfold add_transaction in
                view-write_to_log os j.txn_id _ s.disk d e b hb ∙ same b hb))
      ]

  write_job-HasFailed :
      (key now buffer : Bytes) (address : ℤ) (s : Server)
      → (call_prepare stub now buffer (files_at address) p).0 ≢ ok
      → (call_prepare stub now buffer (files_at address) p).0 ≢ unavailable
      → find now s.kv_store ≡ none
      → HasFailed (view s.disk) now (
          write_job os cache_on stub
            (record { key = key; buffer = buffer; parts = files_at address; txn_id = now })
            s
            p)
  unfolding write_job view
  write_job-HasFailed key now buffer address s h k free =
      replicate_staged-HasFailed _ _ _ (view s.disk) h k
        (λ b hb.
          (stage_files-LeavesAlone os (block_path b) buffer 0 (map file_data_of (files_at address))
              (temps_apart address b hb)).at
            s.disk)
        free

-- A write that the peer's Prepare would refuse, with any other code than UNAVAILABLE, never answers
-- OK: whatever the environment refuses, whatever the address and the buffer, it answers with an
-- error, throws or reads out of bounds. Every block then has the content that it had, and a
-- transaction whose id was free is not in flight.
pub write_rejected :
    (os : Faults) (cache_on : Bool) {P : Type 0} (stub : Stub P) (now buffer : Bytes) (addr : ℕ)
    (s : Server) (p : P)
    → (call_prepare stub now buffer (files_at (int_of_uint32 addr)) p).0 ≢ ok
    → (call_prepare stub now buffer (files_at (int_of_uint32 addr)) p).0 ≢ unavailable
    → find now s.kv_store ≡ none
    → let w = write os cache_on stub now addr buffer s p in
      (w.0 ≢ returns (reply ok))
      × ((b : ℕ) → b ≤ max_blocks → view w.1.disk b ≡ view s.disk b)
      × (find now w.1.kv_store ≡ none)
unfolding write
write_rejected os cache_on stub now buffer addr s p h k free =
    let key = address_string (int_of_uint32 addr) in
    let s' = enter_cache cache_on key s in
    let f =
      write_job-HasFailed os cache_on stub p key now buffer (int_of_uint32 addr) s' h k
        (ap (find now) (kv_store-enter_cache cache_on key s) ∙ free) in
    rw (get_all_file_names_lem (int_of_uint32 addr), write)
      (
        f.told,
        (λ b hb. f.blocks b hb ∙ ap (λ (d : Disk). view d b) (disk-enter_cache cache_on key s)),
        f.gone,
      )
