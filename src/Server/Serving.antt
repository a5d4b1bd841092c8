-- ===== src/Server/Serving.antt =====
-- Reads of src/blockstorage_server.cc behind writes in a row.
use replicated_block_store.Prelude.{ℕ, ◌≡◌, ◌≤◌, ◌+◌, ◌/◌, ap, ◌∙◌, List, All, Bytes, arith, false}
use replicated_block_store.Disk.{Disk, Faults}
use replicated_block_store.Address.{block_size, block_storage_max_size}
use replicated_block_store.Address.Paths.{max_blocks}
use replicated_block_store.Device.{Device, read_device, read_shown}
use replicated_block_store.Device.Laws.{HasBlocks, read_shown-congr}
use replicated_block_store.Server.{Server, ok, Outcome, returns}
use replicated_block_store.Server.Block.{ReadReply, read}
use replicated_block_store.Server.Staging.{Calm}
use replicated_block_store.Server.View.{view}
use replicated_block_store.Server.Sound.{IsSound}
use replicated_block_store.Server.Runs.{
  Request, IsWhole, run, write_all, write_all-congr, run_replicates,
}
use replicated_block_store.Server.Reading.{HasNoZero, read-shown, read_shown_lem}

pub HasBlocks-sound :
    (d : Disk) (a : ℕ) → a + block_size ≤ block_storage_max_size → IsSound d → HasBlocks (view d) a
HasBlocks-sound d a bound s = record {
  first = let (c, e, _) = s.full (a / block_size) (omega arith) in (c, e);
  second = λ u. let (c, e, _) = s.full (a / block_size + 1) (ground arith) in (c, e);
}

-- A server whose blocks are those of the device `v` shows what `v` holds.
pub read-view :
    (os : Faults) (a : ℕ) (s : Server) (v : Device)
    → Calm os
    → a + block_size ≤ block_storage_max_size
    → IsSound s.disk
    → ((b : ℕ) → b ≤ max_blocks → view s.disk b ≡ v b)
    → read os false a s ≡ (returns (record { status = ok; buffer = read_shown a v; error = 0 }), s)
read-view os a s v calm bound sound same =
    read-shown os a s calm bound (HasBlocks-sound s.disk a bound sound)
    ∙ ap (λ t. (returns (record { status = ok; buffer = t; error = 0 }), s))
        (read_shown-congr a (view s.disk) v (same (a / block_size) (omega arith))
          (same (a / block_size + 1) (omega arith)))

abbrev answer_of : Outcome ReadReply × Server → Outcome ReadReply
answer_of r = r.0

abbrev shown : Bytes → Outcome ReadReply
shown t = returns (record { status = ok; buffer = t; error = 0 })

-- Behind any number of writes of 4096 bytes within the bounds, from disks with the same blocks, on
-- which every block is there and no temporary file is, and with nothing refused and the cache off,
-- a read of 4096 bytes within the bounds answers OK on either server, with the bytes that the writes
-- make of the device, as long as no zero byte is among them.
pub run-read :
    (os osb : Faults) (rs : List Request) (a : ℕ) (s p : Server)
    → Calm os
    → Calm osb
    → All IsWhole rs
    → IsSound s.disk
    → IsSound p.disk
    → ((b : ℕ) → view p.disk b ≡ view s.disk b)
    → a + block_size ≤ block_storage_max_size
    → HasNoZero (read_device a (write_all rs (view s.disk)))
    → let w = run os osb false rs s p in
      let answer : Outcome ReadReply =
        returns (record {
          status = ok;
          buffer = read_device a (write_all rs (view s.disk));
          error = 0;
        }) in
      ((read os false a w.1).0 ≡ answer) × ((read osb false a w.2).0 ≡ answer)
run-read os osb rs a s p calm calmb whole sound soundb equal bound nz =
    let (_, vs, vp, ss, sp) = run_replicates os osb false rs s p calm calmb whole sound soundb in
    let full = read_shown_lem a (write_all rs (view s.disk)) nz in
    (
      ap answer_of (read-view os a _ _ calm bound ss vs) ∙ ap shown full,
      ap answer_of (
            read-view osb a _ _ calmb bound sp
              (λ b hb. vp b hb ∙ write_all-congr rs _ _ b (equal b)))
          ∙ ap shown full,
    )
