-- ===== src/Tests/Writes.antt =====
-- Writes and reads on two servers with two blocks.
use replicated_block_store.Prelude.{
  ◌∷◌, ℕ, ◌≡◌, ◌≢◌, ◌≤◌, refl, arith, true, false, none, some, [], Bytes, codes, bytes_eq,
  if◌then◌else◌, replicate, length, length-replicate, zero, suc, int_of_uint32,
}
use replicated_block_store.Disk.{Disk, no_faults, open_file}
use replicated_block_store.Map.{find}
use replicated_block_store.Address.{block_size, get_path}
use replicated_block_store.Address.Blocks.{block_path, files_at, file_parts}
use replicated_block_store.Address.Paths.{max_blocks}
use replicated_block_store.Decimal.{to_string}
use replicated_block_store.Device.{write_device, read_shown}
use replicated_block_store.Device.Laws.{HasBlocks}
use replicated_block_store.Server.{
  Server, StatusCode, ok, unavailable, not_found, unknown, Outcome, returns,
}
use replicated_block_store.Server.Helper.{generate_temp_path, write_to_temp_file}
use replicated_block_store.Server.Comm.{force_pending_writes, prepare, stage_files, log_and_add}
use replicated_block_store.Server.Block.{Stub, ReadReply, call_prepare, call_commit, read}
use replicated_block_store.Server.Write.{reply, write}
use replicated_block_store.Server.Staging.{Calm}
use replicated_block_store.Server.View.{view, temp_view}
use replicated_block_store.Server.Steps.{HasRoom}
use replicated_block_store.Server.Parts.{IsReady}
use replicated_block_store.Server.Link.{linked, down}
use replicated_block_store.Server.Replication.{write_replicates}
use replicated_block_store.Server.Pending.{write_pending, pending_data}
use replicated_block_store.Server.Commit.{write_commit_refused, write_commit_lost}
use replicated_block_store.Io.{undefined}
use replicated_block_store.Server.Forcing.{force_pending-overruns}
use replicated_block_store.Server.Failures.{write_rejected}
use replicated_block_store.Server.Reading.{HasNoZero, read-shown, read-write_replicates}

-- Blocks 0 and 1 have a file.
abbrev two_blocks : Disk
two_blocks p =
    if bytes_eq p (block_path 0)
    then some (codes "the first block")
    else if bytes_eq p (block_path 1)
    then some (codes "the second block")
    else none

abbrev server : Server
server = record { disk = two_blocks; kv_store = []; cache = [] }

abbrev calm : Calm no_faults
calm c p = refl

abbrev page : Bytes
page = replicate 4096 b'x'

length-page : length page ≡ block_size
length-page = length-replicate {A = ℕ} 4096 b'x'

HasRoom-first : HasRoom two_blocks 0
unfolding view temp_view block_path get_path to_string bytes_eq generate_temp_path
HasRoom-first = record {
  content = codes "the first block";
  present = refl;
  fits = omega arith;
  stale = omega arith;
}

HasRoom-second : HasRoom two_blocks 1
unfolding view temp_view block_path get_path to_string bytes_eq generate_temp_path
HasRoom-second = record {
  content = codes "the second block";
  present = refl;
  fits = omega arith;
  stale = omega arith;
}

-- Address 10 lies in both.
IsReady-two_blocks : IsReady two_blocks 10
IsReady-two_blocks = record { first = HasRoom-first; second = λ u. HasRoom-second }

write_replicates_example :
    let w = write no_faults true (linked no_faults) (codes "1") 10 page server server in
    (w.0 ≡ returns (reply ok))
    × ((b : ℕ) → b ≤ max_blocks → view w.1.disk b ≡ write_device 10 page (view two_blocks) b)
    × ((b : ℕ) → b ≤ max_blocks → view w.2.disk b ≡ write_device 10 page (view two_blocks) b)
    × (find (codes "1") w.1.kv_store ≡ none)
    × (find (codes "1") w.2.kv_store ≡ none)
write_replicates_example =
    write_replicates no_faults no_faults true (codes "1") page 10 server server calm calm
      (omega arith) length-page IsReady-two_blocks IsReady-two_blocks

HasNoZero-replicate : (n : ℕ) → HasNoZero (replicate n b'x')
HasNoZero-replicate zero = tt
HasNoZero-replicate (suc n) = (omega arith, HasNoZero-replicate n)

read-write_replicates_example :
    let w = write no_faults false (linked no_faults) (codes "1") 10 page server server in
    let answer : Outcome ReadReply = returns (record { status = ok; buffer = page; error = 0 }) in
    ((read no_faults false 10 w.1).0 ≡ answer) × ((read no_faults false 10 w.2).0 ≡ answer)
read-write_replicates_example =
    read-write_replicates no_faults no_faults (codes "1") page 10 server server calm calm
      (omega arith) length-page (HasNoZero-replicate 4096) IsReady-two_blocks IsReady-two_blocks

-- A peer that has no file cannot stage the write.
abbrev empty_server : Server
empty_server = record { disk = λ p. none; kv_store = []; cache = [] }

refused :
    (call_prepare (linked no_faults) (codes "1") page (files_at (int_of_uint32 10)) empty_server).0
    ≡ not_found
unfolding call_prepare linked prepare stage_files write_to_temp_file open_file log_and_add
    file_parts
refused = refl

write_rejected_example :
    let w = write no_faults true (linked no_faults) (codes "1") 10 page server empty_server in
    (w.0 ≢ returns (reply ok))
    × ((b : ℕ) → b ≤ max_blocks → view w.1.disk b ≡ view two_blocks b)
    × (find (codes "1") w.1.kv_store ≡ none)
unfolding find
write_rejected_example =
    write_rejected no_faults true (linked no_faults) (codes "1") page 10 server empty_server
      (cc (refused)) (cc (refused)) refl

write_pending_example :
    let w = write no_faults true (down {P = Unit {0}}) (codes "1") 10 page server tt in
    (w.0 ≡ returns (reply ok))
    × ((b : ℕ) → b ≤ max_blocks → view w.1.disk b ≡ write_device 10 page (view two_blocks) b)
    × (find (codes "1") w.1.kv_store ≡ some (pending_data 10))
unfolding find call_prepare down
write_pending_example =
    write_pending no_faults true (down {P = Unit {0}}) (codes "1") page 10 server tt calm
      (omega arith) length-page IsReady-two_blocks refl refl

HasBlocks-two_blocks : HasBlocks (view two_blocks) 10
unfolding HasRoom-first HasRoom-second
HasBlocks-two_blocks = record {
  first = (codes "the first block", HasRoom-first.present);
  second = λ u. (codes "the second block", HasRoom-second.present);
}

read-shown_example : read no_faults false 10 server ≡ (
  returns (record { status = ok; buffer = read_shown 10 (view two_blocks); error = 0 }),
  server,
)
read-shown_example = read-shown no_faults 10 server calm (omega arith) HasBlocks-two_blocks

-- A peer that prepares every write and answers Commit with a code of its own.
abbrev half_peer : StatusCode → Stub (Unit {0})
half_peer answer = record { prepare = λ r p. (ok, p); commit_files = λ r p. (answer, p) }

write_commit_refused_example :
    let w = write no_faults true (half_peer unknown) (codes "1") 10 page server tt in
    (w.0 ≡ returns (reply unknown))
    × ((b : ℕ) → b ≤ max_blocks → view w.1.disk b ≡ write_device 10 page (view two_blocks) b)
    × (find (codes "1") w.1.kv_store ≡ none)
unfolding call_prepare call_commit
write_commit_refused_example =
    write_commit_refused no_faults true (half_peer unknown) (codes "1") page 10 server tt calm
      (omega arith) length-page IsReady-two_blocks refl (λ e. cc) (λ e. cc)

write_commit_lost_example :
    let w = write no_faults true (half_peer unavailable) (codes "1") 10 page server tt in
    (w.0 ≡ returns (reply ok))
    × ((b : ℕ) → b ≤ max_blocks → view w.1.disk b ≡ write_device 10 page (view two_blocks) b)
    × (find (codes "1") w.1.kv_store ≡ some (pending_data 10))
unfolding find call_prepare call_commit
write_commit_lost_example =
    write_commit_lost no_faults true (half_peer unavailable) (codes "1") page 10 server tt calm
      (omega arith) length-page IsReady-two_blocks refl refl refl

force_pending-overruns_example :
    (force_pending_writes no_faults
      (codes "1" ∷ [])
      (write no_faults false (down {P = Unit {0}}) (codes "1") 10 page server tt).1).0
    ≡ undefined
unfolding find call_prepare down
force_pending-overruns_example =
    force_pending-overruns no_faults false (down {P = Unit {0}}) (codes "1") page 10 server tt calm
      (omega arith) length-page IsReady-two_blocks [] refl refl (HasNoZero-replicate 4096)
