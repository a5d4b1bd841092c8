-- ===== src/Server/Caching.antt =====
-- `Write` and `Read` of src/blockstorage_server.cc with the cache on (CACHE_ON of
-- src/util/common.h, which is 0 there).
use replicated_block_store.Prelude.{
  ℕ, ◌≡◌, ◌≢◌, ◌≤◌, refl, ap, sym, ◌∙◌, some, Option-cases, inl, inr, true, false, [], ◌∷◌, Bytes,
  bytes_eq, bytes_eq_refl, bytes_ne, arith, int_of_uint32, if◌then◌else◌,
}
use replicated_block_store.Io.{Result, done, failed, undefined}
use replicated_block_store.Disk.{Faults}
use replicated_block_store.Map.{Map, find}
use replicated_block_store.Wal.{start, rpc_init}
use replicated_block_store.Decimal.{to_string, int_max}
use replicated_block_store.Decimal.RoundTrip.{to_string_injective}
use replicated_block_store.Address.{get_all_file_names}
use replicated_block_store.Cache.{
  get_value_from_cache, add_to_cache, update_cache, find-add, find-update,
}
use replicated_block_store.Server.{
  Server, StatusCode, ok, unavailable, not_found, unknown, Outcome, returns,
}
use replicated_block_store.Server.Helper.{write_to_log}
use replicated_block_store.Server.Comm.{rename_movs}
use replicated_block_store.Server.Block.{
  Stub, WriteReply, address_string, is_empty, call_prepare, call_commit, read,
}
use replicated_block_store.Server.Write.{
  Job, paths, reply, update_entry, enter_cache, add_transaction, enter_state, pend, on_commit,
  on_prepare, replicate_staged, write_job, write,
}

module _ (os : Faults) {P : Type 0} (stub : Stub P) where
  -- An outcome of OK has the job's buffer where the cache had an entry for its key.
  abbrev Fills : Job → Server → Outcome WriteReply × Server × P → Type 0
  Fills j s (o, s', p) = o ≡ returns (reply ok) → s'.cache ≡ update_cache j.key j.buffer s.cache

  on_commit-Fills :
      (j : Job) (answer : StatusCode) (s : Server) (p : P)
      → Fills j s (on_commit os true stub j answer s p)
  unfolding on_commit pend update_entry enter_state
  on_commit-Fills j ok s p e = refl
  on_commit-Fills j unavailable s p e = refl
  on_commit-Fills j not_found s p e = cc
  on_commit-Fills j unknown s p e = cc

  on_prepare-Fills :
      (j : Job) (answer : StatusCode) (s : Server) (p : P)
      → Fills j s (on_prepare os true stub j answer s p)
  unfolding on_prepare pend update_entry enter_state
  on_prepare-Fills j ok s p e =
      on_commit-Fills j (call_commit stub j.txn_id j.parts p).0 (enter_state os j rpc_init s)
        (call_commit stub j.txn_id j.parts p).1 e
  on_prepare-Fills j unavailable s p e = refl
  on_prepare-Fills j not_found s p e = cc
  on_prepare-Fills j unknown s p e = cc

  replicate_staged-Fills :
      (j : Job) (r : Result (Unit {0})) (s : Server) (p : P)
      → Fills j s (replicate_staged os true stub j r s p)
  unfolding replicate_staged add_transaction
  replicate_staged-Fills j (failed e) s p = λ h. cc
  replicate_staged-Fills j undefined s p = λ h. cc
  replicate_staged-Fills j (done t) s p =
      elim (Option-cases (write_to_log os j.txn_id start (rename_movs (paths j.parts)) s.disk)) [
        | inl e ↦ rw (e, replicate_staged) (λ h. cc)
        | inr (d, e) ↦
            rw (e, replicate_staged)
              (on_prepare-Fills j (call_prepare stub j.txn_id j.buffer j.parts p).0 _
                (call_prepare stub j.txn_id j.buffer j.parts p).1)
      ]

  write_job-Fills : (j : Job) (s : Server) (p : P) → Fills j s (write_job os true stub j s p)
  unfolding write_job
  write_job-Fills j s p = replicate_staged-Fills j _ _ p

  write-fills :
      (now buffer : Bytes) (addr : ℕ) (s : Server) (p : P)
      → (write os true stub now addr buffer s p).0 ≡ returns (reply ok)
      → let key = address_string (int_of_uint32 addr) in
        (write os true stub now addr buffer s p).1.cache
        ≡ update_cache key buffer (enter_cache true key s).cache
  unfolding write
  write-fills now buffer addr s p = elim (Option-cases (get_all_file_names (int_of_uint32 addr))) [
    | inl e ↦ rw (e, write) (λ h. cc)
    | inr (parts, e) ↦ rw (e, write) (write_job-Fills _ _ p)
  ]

-- The entries behind both steps of the cache.
entered :
    (key k buffer : Bytes) (s : Server)
    → find k (update_cache key buffer (enter_cache true key s).cache)
      ≡ (if bytes_eq key k then some buffer else find k s.cache)
unfolding enter_cache is_empty get_value_from_cache
entered key k buffer s =
    let there = add_to_cache key [] s.cache in
    ground (
      arith,
      find-update key k buffer there,
      find-update key k buffer s.cache,
      find-add key k [] s.cache,
      find-add key key [] s.cache,
      bytes_eq_refl key,
    )

value_lem :
    (key value : Bytes) (m : Map Bytes)
    → find key m ≡ some value
    → get_value_from_cache key m ≡ value
unfolding get_value_from_cache
value_lem key value m h = rw (h, get_value_from_cache) refl

not_empty : (value : Bytes) → value ≢ [] → is_empty value ≡ false
unfolding is_empty
not_empty [] h = absurd (h refl)
not_empty (c ∷ cs) h = refl

-- An entry that is not empty is what is read.
read-entry :
    (os : Faults) (addr : ℕ) (value : Bytes) (s : Server)
    → value ≢ []
    → find (address_string (int_of_uint32 addr)) s.cache ≡ some value
    → read os true addr s ≡ (returns (record { status = ok; buffer = value; error = 0 }), s)
unfolding read
read-entry os addr value s ne h =
    rw (value_lem (address_string (int_of_uint32 addr)) value s.cache h, not_empty value ne) refl

-- The key of an address that an `int` holds.
key_of : (a : ℕ) → a ≤ int_max → address_string (int_of_uint32 a) ≡ to_string a
unfolding address_string
key_of a h = ground arith

-- The cache follows a write at its own address only. With the cache on, behind any write that
-- answers OK, whatever failed on the way and whatever the peer did, a read at the same address
-- answers OK with the whole buffer, zero bytes included, and a read at another address with an entry
-- that is not empty answers OK with that entry, as in front of the write, even where the two ranges
-- of 4096 bytes overlap; neither looks at the disk. The buffer is not empty, and both addresses fit
-- an `int`.
pub read-write_cached :
    (os os' : Faults) {P : Type 0} (stub : Stub P) (now buffer old : Bytes) (a a' : ℕ) (s : Server)
    (p : P)
    → a ≤ int_max
    → a' ≤ int_max
    → a' ≢ a
    → buffer ≢ []
    → old ≢ []
    → find (to_string a') s.cache ≡ some old
    → (write os true stub now a buffer s p).0 ≡ returns (reply ok)
    → let s' = (write os true stub now a buffer s p).1 in
      (read os' true a s' ≡ (returns (record { status = ok; buffer = buffer; error = 0 }), s'))
      × (read os' true a' s' ≡ (returns (record { status = ok; buffer = old; error = 0 }), s'))
read-write_cached os os' stub now buffer old a a' s p ha ha' other ne ne' cached wrote =
    let key = address_string (int_of_uint32 a) in
    let key' = address_string (int_of_uint32 a') in
    let apart : key ≢ key' =
      λ e. other (sym (to_string_injective a a' ha ha' (sym (key_of a ha) ∙ e ∙ key_of a' ha'))) in
    let filled = write-fills os stub now buffer a s p wrote in
    let s' = (write os true stub now a buffer s p).1 in
    (
      read-entry os' a buffer s' ne
          (ap (find key) filled ∙ entered key key buffer s ∙ rw bytes_eq_refl refl),
      read-entry os' a' old s' ne' (
          ap (find key') filled
          ∙ entered key key' buffer s
          ∙ rw (bytes_ne key key' apart) (ap (λ k. find k s.cache) (key_of a' ha') ∙ cached)),
    )
