-- ===== src/Recovery/Applying.antt =====
-- The pending writes of a peer on the disk that lacks them: `ApplyPendingWrites` of
-- src/util/crash_recovery.cc.
use replicated_block_store.Prelude.{
  ℕ, ◌≡◌, ◌≢◌, ◌≤◌, ◌+◌, ◌-◌, ◌/◌, ◌%◌, refl, ◌∙◌, some, List, [], ◌∷◌, Bytes, length, arith, inl,
  inr,
}
use replicated_block_store.Io.{done}
use replicated_block_store.Disk.{Disk, Faults, overwrite, update}
use replicated_block_store.Address.{block_size, block_storage_max_size}
use replicated_block_store.Address.Blocks.{block_path}
use replicated_block_store.Address.Paths.{max_blocks}
use replicated_block_store.Device.{Device, write_block, write_device, first_part, second_part}
use replicated_block_store.Device.Laws.{HasBlocks}
use replicated_block_store.Server.Comm.{PendingWrite}
use replicated_block_store.Server.Staging.{Calm}
use replicated_block_store.Server.View.{view, block_path_test}
use replicated_block_store.Recovery.Actions.{write_data, apply_writes}
use replicated_block_store.Recovery.Sending.{
  EndsInZero, write_data-done, length-first_part, length-second_part, first_write, second_write,
  AreSent,
}

-- A block behind a write to it.
view-update :
    (b j : ℕ) (c buf : Bytes) (offset : ℕ) (d : Disk)
    → b ≤ max_blocks
    → j ≤ max_blocks
    → view d b ≡ some c
    → view (update (block_path b) (some (overwrite c buf offset)) d) j
      ≡ write_block b offset buf (view d) j
unfolding view update
view-update b j c buf offset d hb hj e = ground (arith, block_path_test b j hb hj)

write_block-congr :
    (b offset j : ℕ) (buf : Bytes) (v w : Device)
    → v j ≡ w j
    → write_block b offset buf v j ≡ write_block b offset buf w j
write_block-congr b offset j buf v w h = ground arith

apply_writes-cons :
    (os : Faults) (w : PendingWrite) (ws : List PendingWrite) (d : Disk)
    → (write_data os w.file_name w.content w.size w.offset d).0 ≡ done tt
    → apply_writes os (w ∷ ws) d
      ≡ apply_writes os ws (write_data os w.file_name w.content w.size w.offset d).1
unfolding apply_writes
apply_writes-cons os w ws d e = rw (e, apply_writes) refl

module _ (os : Faults) (calm : Calm os) (a : ℕ) (buffer id : Bytes) (v : Device)
    (bound : a + block_size ≤ block_storage_max_size) (n : length buffer ≡ block_size)
    (blocks : HasBlocks v a) (one : EndsInZero (first_part a buffer))
    (two : a % block_size ≢ 0 → EndsInZero (second_part a buffer)) where
  abbrev b : ℕ
  b = a / block_size

  abbrev off : ℕ
  off = a % block_size

  abbrev Holding : Device → Disk → Type 0
  Holding w d = (j : ℕ) → j ≤ max_blocks → view d j ≡ w j

  -- One write of a peer on a block that is there.
  write_data-Holding :
      (block offset size : ℕ) (c buf : Bytes) (z : EndsInZero buf) (w : Device) (d : Disk)
      → block ≤ max_blocks
      → length buf ≡ size
      → w block ≡ some c
      → Holding w d
      → ((write_data os (block_path block) z.text size offset d).0 ≡ done tt)
        × Holding
            (write_block block offset buf w)
            (write_data os (block_path block) z.text size offset d).1
  write_data-Holding block offset size c buf z w d hb m e h =
      let there : view d block ≡ some c = h block hb ∙ e in
      rw (write_data-done os calm buf z (block_path block) c size offset d (unfold view in there) m)
        (
          refl,
          λ j hj.
              view-update block j c buf offset d hb hj there
              ∙ write_block-congr block offset j buf (view d) w (h j hj),
        )

  -- The parts that are sent make the write.
  pub apply_writes-Shows :
      (ws : List PendingWrite) (d : Disk)
      → AreSent os calm a buffer id v bound n blocks one two ws
      → Holding v d
      → ((apply_writes os ws d).0 ≡ done tt)
        × Holding (write_device a buffer v) (apply_writes os ws d).1
  unfolding apply_writes write_device
  apply_writes-Shows ws d which h =
      let (c, e) = blocks.first in
      let (r, first) =
        write_data-Holding b off (block_size - off) c (first_part a buffer) one v d (omega arith)
          (length-first_part a buffer v n) e h in
      let w1 = first_write os calm a buffer id v bound n blocks one two in
      elim which [
        | inl (z, w) ↦
            rw (w, apply_writes-cons os w1 [] d r) (refl, λ j hj. first j hj ∙ ground arith)
        | inr (u, w) ↦
            let (c', e') = blocks.second u in
            let (r', second) =
              write_data-Holding (b + 1) 0 off c' (second_part a buffer) (two u) _ _ (omega arith)
                (length-second_part a buffer v n) (ground arith) first in
            let w2 = second_write os calm a buffer id v bound n blocks one two u in
            rw (w, apply_writes-cons os w1 (w2 ∷ []) d r, apply_writes-cons os w2 [] _ r')
              (refl, λ j hj. second j hj ∙ ground arith)
      ]
