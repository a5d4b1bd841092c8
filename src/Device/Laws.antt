-- ===== src/Device/Laws.antt =====
-- Reads and writes of the device that the block servers implement.
use replicated_block_store.Prelude.{
  ℕ, ◌+◌, ◌-◌, ◌/◌, ◌%◌, ◌≡◌, ◌≢◌, ap, ap₂, ◌∙◌, some, Bytes, ◌++◌, arith, length, take, drop,
  take-append-drop, take_all, length-take, length-drop,
}
use native.Mathlib.Decide.{ℕ_discrete}
use replicated_block_store.Disk.{overwrite}
use replicated_block_store.Disk.Content.{read-overwrite}
use replicated_block_store.Address.{block_size}
use replicated_block_store.Device.{
  Device, write_device, read_device, read_shown, first_part, second_part, bytes_of,
}

-- A block that is not one of the address's two keeps its content.
pub write_device_ne :
    (a j : ℕ) (buffer : Bytes) (v : Device)
    → j ≢ a / block_size
    → j ≢ a / block_size + 1
    → write_device a buffer v j ≡ v j
unfolding write_device
write_device_ne a j buffer v h k = ground arith

read_written :
    (n offset : ℕ) (c buf : Bytes)
    → n ≡ length buf
    → take n (drop offset (overwrite c buf offset)) ≡ buf
read_written n offset c buf h = rw h (read-overwrite c buf offset)

-- The two parts of a whole buffer.
parts_of_buffer :
    (a : ℕ) (buffer : Bytes)
    → length buffer ≡ block_size
    → first_part a buffer ++ second_part a buffer ≡ buffer
parts_of_buffer a buffer h =
    let k = block_size - a % block_size in
    ap (◌++◌ (take k buffer))
      (take_all (a % block_size) (drop k buffer) (omega (arith, length-drop k buffer)))
    ∙ take-append-drop k buffer

-- The blocks that a read or a write at `a` needs have a file.
pub record HasBlocks (v : Device) (a : ℕ) : Type 0 where
  pub first : (c : Bytes) × (v (a / block_size) ≡ some c)
  pub second : a % block_size ≢ 0 → (c : Bytes) × (v (a / block_size + 1) ≡ some c)

module _ (a : ℕ) (buffer : Bytes) (v : Device) where
  pub first_written :
      (c : Bytes)
      → v (a / block_size) ≡ some c
      → write_device a buffer v (a / block_size)
        ≡ some (overwrite c (first_part a buffer) (a % block_size))
  unfolding write_device
  first_written c h = ground arith

  pub second_written :
      (c : Bytes)
      → a % block_size ≢ 0
      → v (a / block_size + 1) ≡ some c
      → write_device a buffer v (a / block_size + 1) ≡ some (overwrite c (second_part a buffer) 0)
  unfolding write_device
  second_written c u h = ground arith

  -- A write leaves the blocks that it needs.
  pub HasBlocks-write : HasBlocks v a → HasBlocks (write_device a buffer v) a
  HasBlocks-write h = record {
    first =
        let (c, e) = h.first in
        (overwrite c (first_part a buffer) (a % block_size), first_written c e);
    second = λ u.
        let (c, e) = h.second u in (overwrite c (second_part a buffer) 0, second_written c u e);
  }

  take_second :
      length buffer ≡ block_size
      → HasBlocks v a
      → take (a % block_size) (bytes_of (write_device a buffer v (a / block_size + 1)))
        ≡ second_part a buffer
  take_second n h = elim (ℕ_discrete (a % block_size) 0) [
    | yes z ↦ rw z
    | no u ↦
        let (c, e) = h.second u in
        rw (second_written c u e) (
          read_written (a % block_size) 0 c (second_part a buffer) (
            omega (
              arith,
              length-take (a % block_size) (drop (block_size - a % block_size) buffer),
              length-drop (block_size - a % block_size) buffer,
            )))
  ]

  -- A write of 4096 bytes at any address whose blocks are there is read back at that address.
  pub read-write :
      length buffer ≡ block_size → HasBlocks v a → read_device a (write_device a buffer v) ≡ buffer
  unfolding read_device
  read-write n h =
      let (c, e) = h.first in
      ap₂ ◌++◌
        (rw (first_written c e) (
          read_written (block_size - a % block_size) (a % block_size) c (first_part a buffer)
            (omega (arith, length-take (block_size - a % block_size) buffer))))
        (take_second n h)
      ∙ parts_of_buffer a buffer n

-- A read sees two blocks.
pub read_device-congr :
    (a : ℕ) (v w : Device)
    → v (a / block_size) ≡ w (a / block_size)
    → v (a / block_size + 1) ≡ w (a / block_size + 1)
    → read_device a v ≡ read_device a w
unfolding read_device
read_device-congr a v w h k = rw (h, k)

pub read_shown-congr :
    (a : ℕ) (v w : Device)
    → v (a / block_size) ≡ w (a / block_size)
    → v (a / block_size + 1) ≡ w (a / block_size + 1)
    → read_shown a v ≡ read_shown a w
unfolding read_shown
read_shown-congr a v w h k = rw (h, k)
