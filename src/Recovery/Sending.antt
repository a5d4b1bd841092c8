-- ===== src/Recovery/Sending.antt =====
-- One pending write on its way from the server that made it (`ForcePendingWrites` of
-- src/blockstorage_server.cc) to the disk of its peer (`WriteData` of src/util/crash_recovery.cc).
use replicated_block_store.Prelude.{
  ℕ, ◌≡◌, ◌≢◌, ◌⊎◌, ◌≤◌, ◌+◌, ◌-◌, ◌/◌, ◌%◌, refl, ap, sym, ◌∙◌, some, List, [], ◌∷◌, ◌++◌, Bytes,
  length, length-append, length-take, length-drop, take, drop, take_all, append-nil, arith, leb,
  true, ◌==◌, Bool-cases, inl, inr,
}
use replicated_block_store.Io.{done}
use replicated_block_store.Disk.{
  Disk, Faults, opens_write, pwrites, open_file, write_file, c_string_of_array, overwrite, bytes_at,
  update,
}
use replicated_block_store.Disk.Content.{read-overwrite}
use replicated_block_store.Address.{block_size, block_storage_max_size}
use replicated_block_store.Address.Blocks.{block_path, file_parts}
use replicated_block_store.Device.{Device, write_device, first_part, second_part}
use replicated_block_store.Device.Laws.{HasBlocks, first_written, second_written}
use replicated_block_store.Server.Helper.{get_data}
use replicated_block_store.Server.Comm.{PendingWrite, read_pending}
use replicated_block_store.Server.Staging.{Calm}
use replicated_block_store.Server.View.{view}
use replicated_block_store.Server.Pending.{pending_data}
use replicated_block_store.Server.Forcing.{read_open}
use replicated_block_store.Server.Reading.{HasNoZero}
use replicated_block_store.Recovery.Actions.{write_data}

-- Bytes of which the last one, and no other, is zero: `GetData` drops it, and `WriteData` writes the
-- terminator of the text in its place.
pub record EndsInZero (buf : Bytes) : Type 0 where
  pub text : Bytes
  pub whole : buf ≡ text ++ 0 ∷ []
  pub no_zero : HasNoZero text

c_string_of_array-one : (t : Bytes) → HasNoZero t → c_string_of_array (t ++ 0 ∷ []) ≡ some t
unfolding c_string_of_array
c_string_of_array-one [] h = refl
c_string_of_array-one (c ∷ t) (hc, h) = ground (arith, c_string_of_array-one t h)

bytes_at-one : (t : Bytes) → bytes_at t 0 (length t + 1) ≡ some (t ++ 0 ∷ [])
unfolding bytes_at
bytes_at-one t =
    let n : length (t ++ 0 ∷ []) ≡ length t + 1 = length-append t (0 ∷ []) in
    let fits : leb (0 + (length t + 1)) (length (t ++ 0 ∷ [])) ≡ true = ground (arith, n) in
    rw fits (ap some (take_all (length t + 1) (t ++ 0 ∷ []) (omega (arith, n))))

module _ (os : Faults) (calm : Calm os) (buf : Bytes) (z : EndsInZero buf) where
  length-text : length buf ≡ length z.text + 1
  length-text = ap length z.whole ∙ length-append z.text (0 ∷ [])

  get_data-done :
      (p content : Bytes) (size offset : ℕ) (d : Disk)
      → d p ≡ some content
      → take size (drop offset content) ≡ buf
      → length buf ≡ size
      → get_data os p size offset d ≡ done z.text
  unfolding get_data
  get_data-done p content size offset d e t n =
      let whole : size - length buf ≡ 0 = omega arith in
      rw (
        get_data,
        read_open os calm p content size offset d e,
        t,
        whole,
        append-nil buf,
        z.whole,
        c_string_of_array-one z.text z.no_zero,
      )

  pub write_data-done :
      (p c : Bytes) (size offset : ℕ) (d : Disk)
      → d p ≡ some c
      → length buf ≡ size
      → write_data os p z.text size offset d ≡ (done tt, update p (some (overwrite c buf offset)) d)
  unfolding write_data open_file write_file
  write_data-done p c size offset d e n =
      let bytes : bytes_at z.text 0 size ≡ some buf =
        ap (bytes_at z.text 0) (sym n ∙ length-text)
        ∙ bytes_at-one z.text
        ∙ ap some (sym z.whole) in
      ground (arith, calm opens_write p, calm pwrites p, bytes)

-- The two parts of a write, as the bytes behind it show them.
module _ (a : ℕ) (buffer : Bytes) (v : Device) (n : length buffer ≡ block_size) where
  pub length-first_part : length (first_part a buffer) ≡ block_size - a % block_size
  length-first_part = omega (arith, length-take (block_size - a % block_size) buffer)

  pub length-second_part : length (second_part a buffer) ≡ a % block_size
  length-second_part = omega (
    arith,
    length-take (a % block_size) (drop (block_size - a % block_size) buffer),
    length-drop (block_size - a % block_size) buffer,
  )

  shown :
      (c buf : Bytes) (size offset : ℕ)
      → length buf ≡ size
      → take size (drop offset (overwrite c buf offset)) ≡ buf
  shown c buf size offset e =
      ap (λ k. take k (drop offset (overwrite c buf offset))) (sym e) ∙ read-overwrite c buf offset

module _ (os : Faults) (calm : Calm os) (a : ℕ) (buffer id : Bytes) (v : Device)
    (bound : a + block_size ≤ block_storage_max_size) (n : length buffer ≡ block_size)
    (blocks : HasBlocks v a) (one : EndsInZero (first_part a buffer))
    (two : a % block_size ≢ 0 → EndsInZero (second_part a buffer)) where
  abbrev b : ℕ
  b = a / block_size

  abbrev off : ℕ
  off = a % block_size

  -- What the peer is sent.
  abbrev pub first_write : PendingWrite
  first_write = record {
    transaction_id = id;
    file_name = block_path b;
    content = one.text;
    size = block_size - off;
    offset = off;
  }

  abbrev pub second_write : off ≢ 0 → PendingWrite
  second_write u = record {
    transaction_id = id;
    file_name = block_path (b + 1);
    content = (two u).text;
    size = off;
    offset = 0;
  }

  -- A disk whose blocks of the address are those behind the write.
  abbrev pub Shows : Disk → Type 0
  Shows d =
      (view d b ≡ write_device a buffer v b)
      × (off ≢ 0 → view d (b + 1) ≡ write_device a buffer v (b + 1))

  get_first :
      (d : Disk) → Shows d → get_data os (block_path b) (block_size - off) off d ≡ done one.text
  unfolding view
  get_first d h =
      let (c, e) = blocks.first in
      get_data-done os calm (first_part a buffer) one (block_path b)
        (overwrite c (first_part a buffer) off) (block_size - off) off d
        (h.0 ∙ first_written a buffer v c e)
        (shown a buffer v n c (first_part a buffer) (block_size - off) off
          (length-first_part a buffer v n))
        (length-first_part a buffer v n)

  get_second :
      (d : Disk) (u : off ≢ 0)
      → Shows d
      → get_data os (block_path (b + 1)) off 0 d ≡ done (two u).text
  unfolding view
  get_second d u h =
      let (c, e) = blocks.second u in
      get_data-done os calm (second_part a buffer) (two u) (block_path (b + 1))
        (overwrite c (second_part a buffer) 0) off 0 d (h.1 u ∙ second_written a buffer v c u e)
        (shown a buffer v n c (second_part a buffer) off 0 (length-second_part a buffer v n))
        (length-second_part a buffer v n)

  abbrev pub AreSent : List PendingWrite → Type 0
  AreSent ws =
      ((off ≡ 0) × (ws ≡ first_write ∷ []))
      ⊎ ((u : off ≢ 0) × (ws ≡ first_write ∷ second_write u ∷ []))

  -- A server that holds the write, and has it pending, sends its one or two parts.
  pub read_pending_lem :
      (d : Disk)
      → Shows d
      → (ws : List PendingWrite) × (read_pending os id
            (pending_data a).original_files
            (pending_data a).sizes
            (pending_data a).offsets
            d
          ≡ done ws)
        × AreSent ws
  unfolding read_pending file_parts
  read_pending_lem d h = elim (Bool-cases (off == 0)) [
    | inl z ↦ (
      first_write ∷ [],
      rw (get_first d h, read_pending, z, read_pending) refl,
      inl (ground arith, refl),
    )
    | inr z ↦
        let u : off ≢ 0 = ground arith in
        (
          first_write ∷ second_write u ∷ [],
          rw (get_first d h, read_pending, z, read_pending, get_second d u h, read_pending) refl,
          inr (u, refl),
        )
  ]
