-- ===== src/Server/Forcing.antt =====
-- `ForcePendingWrites` of src/blockstorage_server.cc behind a write that is pending.
use replicated_block_store.Prelude.{
  ℕ, ◌≡◌, ◌≤◌, ◌+◌, ◌-◌, ◌/◌, ◌%◌, refl, ap, sym, ◌∙◌, some, none, List, [], ◌∷◌, Bytes, Bool,
  length, length-take, take, drop, append-nil, arith,
}
use replicated_block_store.Io.{done, undefined, ◌>>◌}
use replicated_block_store.Disk.{
  Disk, Faults, opens_read, reads, open_file, read_file, c_string_of_array, overwrite,
}
use replicated_block_store.Disk.Content.{read-overwrite}
use replicated_block_store.Map.{find}
use replicated_block_store.KvStore.{get_transaction_data_from_kv_store}
use replicated_block_store.Address.{block_size, block_storage_max_size}
use replicated_block_store.Address.Blocks.{block_path, file_parts}
use replicated_block_store.Device.{first_part}
use replicated_block_store.Device.Laws.{first_written}
use replicated_block_store.Server.{Server, unavailable}
use replicated_block_store.Server.Helper.{get_data}
use replicated_block_store.Server.Comm.{read_pending, force_pending_writes}
use replicated_block_store.Server.Block.{Stub, call_prepare}
use replicated_block_store.Server.Write.{write}
use replicated_block_store.Server.Staging.{Calm}
use replicated_block_store.Server.View.{view}
use replicated_block_store.Server.Parts.{IsReady}
use replicated_block_store.Server.Pending.{write_pending, pending_data}
use replicated_block_store.Server.Reading.{HasNoZero, take-HasNoZero}

c_string_of_array-none : (s : Bytes) → HasNoZero s → c_string_of_array s ≡ none
unfolding c_string_of_array
c_string_of_array-none [] h = refl
c_string_of_array-none (c ∷ s) (hc, h) = ground (arith, c_string_of_array-none s h)

module _ (os : Faults) (calm : Calm os) where
  pub read_open :
      (p content : Bytes) (size offset : ℕ) (d : Disk)
      → d p ≡ some content
      → (((open_file os opens_read p) >> (read_file os p size offset)) d).0
        ≡ done (take size (drop offset content))
  unfolding open_file read_file
  read_open p content size offset d e = ground (arith, calm opens_read p, calm reads p)

  -- Data without a zero byte has no end that `string(content)` would find.
  get_data-undefined :
      (p content buf : Bytes) (size offset : ℕ) (d : Disk)
      → d p ≡ some content
      → take size (drop offset content) ≡ buf
      → length buf ≡ size
      → HasNoZero buf
      → get_data os p size offset d ≡ undefined
  unfolding get_data
  get_data-undefined p content buf size offset d e t n h =
      let whole : size - length buf ≡ 0 = omega arith in
      rw (
        get_data,
        read_open p content size offset d e,
        t,
        whole,
        append-nil buf,
        c_string_of_array-none buf h,
      )

  -- The first file of a pending write is enough to end the call.
  read_pending-undefined :
      (id : Bytes) (a : ℕ) (d : Disk)
      → get_data os (block_path (a / block_size)) (block_size - a % block_size) (a % block_size) d
        ≡ undefined
      → read_pending os id
          (pending_data a).original_files
          (pending_data a).sizes
          (pending_data a).offsets
          d
        ≡ undefined
  unfolding read_pending file_parts
  read_pending-undefined id a d h = rw (h, read_pending)

  force-undefined :
      (id : Bytes) (ids : List Bytes) (a : ℕ) (s : Server)
      → find id s.kv_store ≡ some (pending_data a)
      → get_data os
          (block_path (a / block_size))
          (block_size - a % block_size)
          (a % block_size)
          s.disk
        ≡ undefined
      → (force_pending_writes os (id ∷ ids) s).0 ≡ undefined
  unfolding force_pending_writes get_transaction_data_from_kv_store
  force-undefined id ids a s e h =
      rw (e, get_transaction_data_from_kv_store, read_pending-undefined id a s.disk h)

module _ (os : Faults) (cache_on : Bool) {P : Type 0} (stub : Stub P) (now buffer : Bytes) (a : ℕ)
    (s : Server) (p : P) (calm : Calm os) (bound : a + block_size ≤ block_storage_max_size)
    (n : length buffer ≡ block_size) (ready : IsReady s.disk a) where
  -- A write of 4096 bytes with no zero byte among them, within the bounds, to blocks that the
  -- primary can write and with nothing refused there, that had a free id and no peer to be reached,
  -- cannot be sent later: when the peer asks for its transaction first, `GetData` reads beyond its
  -- array.
  pub force_pending-overruns :
      (ids : List Bytes)
      → (call_prepare stub now buffer (file_parts a) p).0 ≡ unavailable
      → find now s.kv_store ≡ none
      → HasNoZero buffer
      → (force_pending_writes os (now ∷ ids) (write os cache_on stub now a buffer s p).1).0
        ≡ undefined
  unfolding view
  force_pending-overruns ids lost free nz =
      let b = a / block_size in
      let off = a % block_size in
      let (o, vs, kv) =
        write_pending os cache_on stub now buffer a s p calm bound n ready lost free in
      let size : length (first_part a buffer) ≡ block_size - off =
        omega (arith, length-take (block_size - off) buffer) in
      let there : (write os cache_on stub now a buffer s p).1.disk (block_path b)
          ≡ some (overwrite ready.first.content (first_part a buffer) off) =
        vs b (omega arith)
        ∙ first_written a buffer (view s.disk) ready.first.content ready.first.present in
      force-undefined os calm now ids a _ kv (
        get_data-undefined os calm (block_path b)
          (overwrite ready.first.content (first_part a buffer) off) (first_part a buffer)
          (block_size - off) off _ there
          (ap
              (λ (k : ℕ).
                take k (drop off (overwrite ready.first.content (first_part a buffer) off)))
              (sym size)
            ∙ read-overwrite ready.first.content (first_part a buffer) off)
          size (take-HasNoZero (block_size - off) buffer nz))
