-- ===== src/Server/Block.antt =====
-- `class BlockStorageServiceImpl` of src/blockstorage_server.cc: Read, Write and Ping. A handler is
-- one step. The peer is reached through `Stub`, which gRPC generates.
use replicated_block_store.Prelude.{
  ℕ, suc, none, some, Bool, true, false, List, [], ◌∷◌, ◌++◌, Bytes, ℤ, pos, negsuc, map,
  if◌then◌else◌, int_of_uint32,
}
use replicated_block_store.Decimal.{to_string}
use replicated_block_store.Io.{Result, done, failed, undefined, Io, ◌>>=◌, ◌>>◌}
use replicated_block_store.Disk.{Disk, Faults, opens_read, open_file, read_file, c_string}
use replicated_block_store.Address.{PathData, get_all_file_names}
use replicated_block_store.Cache.{get_value_from_cache, add_to_cache}
use replicated_block_store.Server.{
  Server, StatusCode, ok, not_found, FileData, PrepareRequest, CommitRequest, Outcome, returns,
  throws, crashes,
}

-- The calls to the other server, whose state is in `P`.
pub record Stub (P : Type 0) : Type 0 where
  pub prepare : PrepareRequest → P → StatusCode × P
  pub commit_files : CommitRequest → P → StatusCode × P

pub record ReadReply : Type 0 where
  pub status : StatusCode
  pub buffer : Bytes
  pub error : ℕ

pub record WriteReply : Type 0 where
  pub status : StatusCode
  pub error : ℕ

-- `to_string` of an `int`
unfoldable pub address_string : ℤ → Bytes
address_string (pos n) = to_string n
address_string (negsuc n) = b'-' ∷ to_string (suc n)

unfoldable pub is_empty : Bytes → Bool
is_empty [] = true
is_empty (c ∷ s) = false

unfoldable pub file_data_of : PathData → FileData
file_data_of pd = record { file_name = pd.path; offset = pd.offset; size = pd.size }

module _ (os : Faults) where
  -- The loop of `Read`: what is behind a zero byte in a part is lost.
  unfoldable pub read_parts : Bytes → List PathData → Io Disk Bytes
  read_parts content [] d = (done content, d)
  read_parts content (pd ∷ pds) d =
      (do
        open_file os opens_read pd.path
        buf ← read_file os pd.path pd.size pd.offset
        read_parts (content ++ c_string buf) pds)
        d

-- CACHE_ON of src/util/common.h, which is 0 there.
module _ (os : Faults) (cache_on : Bool) where
  -- `Read` behind the cache.
  unfoldable pub finish_read : Bytes → Result Bytes → Server → Outcome ReadReply × Server
  finish_read key (failed e) s =
      (returns (record { status = not_found; buffer = []; error = e }), s)
  finish_read key undefined s = (crashes, s)
  finish_read key (done content) s = (
    returns (record { status = ok; buffer = content; error = 0 }),
    (if cache_on then record s { cache = add_to_cache key content s.cache } else s),
  )

  unfoldable pub read_files : Bytes → ℤ → Server → Outcome ReadReply × Server
  unfolding finish_read
  read_files key address s = elim (get_all_file_names address) [
    | none ↦ (throws, s)
    | some parts ↦ finish_read key (read_parts os [] parts s.disk).0 s
  ]

  unfoldable pub read : ℕ → Server → Outcome ReadReply × Server
  unfolding read_files is_empty
  read addr s =
      let address = int_of_uint32 addr in
      let key = address_string address in
      let cached : Bytes = if cache_on then get_value_from_cache key s.cache else [] in
      if is_empty cached
      then read_files key address s
      else (returns (record { status = ok; buffer = cached; error = 0 }), s)

module _ {P : Type 0} (stub : Stub P) where
  unfoldable pub call_prepare : Bytes → Bytes → List PathData → P → StatusCode × P
  unfolding file_data_of
  call_prepare txn_id buf parts =
      stub.prepare (record { txn_id = txn_id; buffer = buf; file_data = map file_data_of parts })

  unfoldable pub call_commit : Bytes → List PathData → P → StatusCode × P
  call_commit txn_id parts = stub.commit_files (record {
    txn_id = txn_id;
    file_data = map (λ (pd : PathData). record { file_name = pd.path; offset = 0; size = 0 }) parts;
  })
