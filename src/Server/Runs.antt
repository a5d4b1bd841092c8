-- ===== src/Server/Runs.antt =====
-- Writes of src/blockstorage_server.cc in a row, on a primary and its backup.
use replicated_block_store.Prelude.{
  ℕ, ◌≡◌, ◌≤◌, ◌+◌, refl, ◌∙◌, List, [], ◌∷◌, Bytes, length, arith, All, Bool,
}
use replicated_block_store.Disk.{Faults}
use replicated_block_store.Address.{block_size, block_storage_max_size}
use replicated_block_store.Address.Paths.{max_blocks}
use replicated_block_store.Device.{Device, write_device}
use replicated_block_store.Server.{Server, ok, Outcome, returns}
use replicated_block_store.Server.Block.{WriteReply}
use replicated_block_store.Server.Write.{reply, write}
use replicated_block_store.Server.Staging.{Calm}
use replicated_block_store.Server.View.{view}
use replicated_block_store.Server.Link.{linked}
use replicated_block_store.Server.Replication.{write_replicates}
use replicated_block_store.Server.Sound.{IsSound, IsReady-sound, write-IsSound}

-- A request, and the id that its transaction is given.
pub record Request : Type 0 where
  pub address : ℕ
  pub buffer : Bytes
  pub txn_id : Bytes

abbrev pub IsWhole : Request → Type 0
IsWhole r = (r.address + block_size ≤ block_storage_max_size) × (length r.buffer ≡ block_size)

-- The answers to requests in a row, and the servers behind them.
abbrev pub run :
    Faults
    → Faults
    → Bool
    → List Request
    → Server
    → Server
    → List (Outcome WriteReply) × Server × Server
run os osb cache_on [] s p = ([], s, p)
run os osb cache_on (r ∷ rs) s p =
    let (o, s', p') = write os cache_on (linked osb) r.txn_id r.address r.buffer s p in
    let (more, s'', p'') = run os osb cache_on rs s' p' in (o ∷ more, s'', p'')

-- The same requests on the device.
abbrev pub write_all : List Request → Device → Device
write_all [] v = v
write_all (r ∷ rs) v = write_all rs (write_device r.address r.buffer v)

pub write_device-congr :
    (a : ℕ) (buffer : Bytes) (v w : Device) (b : ℕ)
    → v b ≡ w b
    → write_device a buffer v b ≡ write_device a buffer w b
unfolding write_device
write_device-congr a buffer v w b h = ground arith

pub write_all-congr :
    (rs : List Request) (v w : Device) (b : ℕ) → v b ≡ w b → write_all rs v b ≡ write_all rs w b
write_all-congr [] v w b h = h
write_all-congr (r ∷ rs) v w b h =
    write_all-congr rs _ _ b (write_device-congr r.address r.buffer v w b h)

-- Any number of writes of 4096 bytes within the bounds, one behind the other, from disks on which
-- every block is there and no temporary file is, and with nothing refused on the way: each of them
-- answers OK, both servers hold what the writes make of the device that they held, and their disks
-- are such disks again.
pub run_replicates :
    (os osb : Faults) (cache_on : Bool) (rs : List Request) (s p : Server)
    → Calm os
    → Calm osb
    → All IsWhole rs
    → IsSound s.disk
    → IsSound p.disk
    → let w = run os osb cache_on rs s p in
      All (λ o. o ≡ returns (reply ok)) w.0
      × ((b : ℕ) → b ≤ max_blocks → view w.1.disk b ≡ write_all rs (view s.disk) b)
      × ((b : ℕ) → b ≤ max_blocks → view w.2.disk b ≡ write_all rs (view p.disk) b)
      × IsSound w.1.disk
      × IsSound w.2.disk
run_replicates os osb cache_on [] s p calm calmb h sound soundb =
    (tt, (λ b hb. refl), (λ b hb. refl), sound, soundb)
run_replicates os osb cache_on (r ∷ rs) s p calm calmb ((bound, n), h) sound soundb =
    let w = write os cache_on (linked osb) r.txn_id r.address r.buffer s p in
    let (o, vs, vp, _, _) =
      write_replicates os osb cache_on r.txn_id r.buffer r.address s p calm calmb bound n
        (IsReady-sound s.disk r.address bound sound)
        (IsReady-sound p.disk r.address bound soundb) in
    let (sound', soundb') =
      write-IsSound os osb cache_on r.txn_id r.buffer r.address s p calm calmb bound n sound
        soundb in
    let (os', ws, wp, ss, sp) =
      run_replicates os osb cache_on rs w.1 w.2 calm calmb h sound' soundb' in
    (
      (o, os'),
      (λ b hb. ws b hb ∙ write_all-congr rs _ _ b (vs b hb)),
      (λ b hb. wp b hb ∙ write_all-congr rs _ _ b (vp b hb)),
      ss,
      sp,
    )
