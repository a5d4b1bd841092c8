-- ===== src/Server/Reading.antt =====
-- `Read` of src/blockstorage_server.cc against the device, and behind a write.
use replicated_block_store.Prelude.{
  ℕ, zero, suc, ◌≡◌, ◌≢◌, ◌≤◌, ◌+◌, ◌-◌, ◌/◌, ◌%◌, refl, ap, ap₂, sym, ◌∙◌, some, false, List, [],
  ◌∷◌, ◌++◌, Bytes, arith, All, length, take, drop, ◌==◌, inl, inr, Bool-cases, append-nil,
}
use replicated_block_store.Io.{done}
use replicated_block_store.Disk.{Disk, Faults, opens_read, reads, open_file, read_file, c_string}
use replicated_block_store.Address.{PathData, block_size, block_storage_max_size}
use replicated_block_store.Address.Blocks.{block_path, file_parts}
use replicated_block_store.Device.{Device, write_device, read_device, read_shown, bytes_of}
use replicated_block_store.Device.Laws.{HasBlocks, HasBlocks-write, read-write, read_device-congr}
use replicated_block_store.Server.{Server, ok, Outcome, returns}
use replicated_block_store.Server.Block.{ReadReply, read_parts, finish_read, read_files, read}
use replicated_block_store.Server.Staging.{Calm}
use replicated_block_store.Server.View.{view}
use replicated_block_store.Server.Link.{linked}
use replicated_block_store.Server.Write.{write}
use replicated_block_store.Server.Parts.{IsReady}
use replicated_block_store.Address.Paths.{max_blocks}
use replicated_block_store.Server.Replication.{write_replicates, get_all_file_names_in_bounds}

-- A text with no zero byte is its own C string.
abbrev pub HasNoZero : Bytes → Type 0
HasNoZero = All (λ c. c ≢ 0)

c_string_lem : (s : Bytes) → HasNoZero s → c_string s ≡ s
unfolding c_string
c_string_lem [] h = refl
c_string_lem (c ∷ s) (hc, hs) = ground (arith, c_string_lem s hs)

pub take-HasNoZero : (n : ℕ) (s : Bytes) → HasNoZero s → HasNoZero (take n s)
take-HasNoZero zero s h = tt
take-HasNoZero (suc n) [] h = tt
take-HasNoZero (suc n) (c ∷ s) (hc, hs) = (hc, take-HasNoZero n s hs)

drop-HasNoZero : (n : ℕ) (s : Bytes) → HasNoZero s → HasNoZero (drop n s)
drop-HasNoZero zero s h = h
drop-HasNoZero (suc n) [] h = tt
drop-HasNoZero (suc n) (c ∷ s) (hc, hs) = drop-HasNoZero n s hs

split-HasNoZero : (xs ys : Bytes) → HasNoZero (xs ++ ys) → HasNoZero xs × HasNoZero ys
split-HasNoZero [] ys h = (tt, h)
split-HasNoZero (x ∷ xs) ys (hx, h) = let (l, r) = split-HasNoZero xs ys h in ((hx, l), r)

module _ (os : Faults) (calm : Calm os) (d : Disk) where
  -- One round of the loop.
  read_part :
      (c content : Bytes) (size offset b : ℕ) (pds : List PathData)
      → view d b ≡ some c
      → read_parts os content (record { path = block_path b; offset = offset; size = size } ∷ pds) d
        ≡ read_parts os (content ++ c_string (take size (drop offset c))) pds d
  unfolding read_parts open_file read_file view
  read_part c content size offset b pds e =
      ground (arith, calm opens_read (block_path b), calm reads (block_path b))

  read_end : (content : Bytes) → (read_parts os content [] d).0 ≡ done content
  unfolding read_parts
  read_end content = refl

  -- The loop gives what there is of the two parts, one behind the other.
  read_parts_lem :
      (a : ℕ)
      → HasBlocks (view d) a
      → (read_parts os [] (file_parts a) d).0 ≡ done (read_shown a (view d))
  unfolding file_parts read_shown c_string
  read_parts_lem a h =
      let b = a / block_size in
      let off = a % block_size in
      let (c, e) = h.first in
      let one = c_string (take (block_size - off) (drop off c)) in
      rw (read_part c [] (block_size - off) off b _ e, e)
        (elim (Bool-cases (off == 0)) [
          | inl z ↦
              let none_left : off ≡ 0 = ground arith in
              rw z (
                read_end one
                ∙ ap done (
                    sym (append-nil one)
                    ∙ ap (λ n. one ++ c_string (take n (bytes_of (view d (b + 1)))))
                        (sym none_left)))
          | inr z ↦
              let (c', e') = h.second (ground arith) in
              rw (z, read_part c' one off 0 (b + 1) _ e', e') (read_end _)
        ])

-- Bytes with no zero among them are shown in full.
pub read_shown_lem :
    (a : ℕ) (v : Device) → HasNoZero (read_device a v) → read_shown a v ≡ read_device a v
unfolding read_shown read_device
read_shown_lem a v nz =
    let one =
      take (block_size - a % block_size) (drop (a % block_size) (bytes_of (v (a / block_size)))) in
    let two = take (a % block_size) (bytes_of (v (a / block_size + 1))) in
    let (nz', nz'') = split-HasNoZero one two nz in
    ap₂ ◌++◌ (c_string_lem one nz') (c_string_lem two nz'')

-- With the cache off and nothing refused, reading 4096 bytes within the bounds, from blocks that are
-- there, whatever they hold, answers OK with what the device shows, each of the one or two parts up
-- to its first zero byte, and changes nothing.
pub read-shown :
    (os : Faults) (a : ℕ) (s : Server)
    → Calm os
    → a + block_size ≤ block_storage_max_size
    → HasBlocks (view s.disk) a
    → read os false a s
      ≡ (returns (record { status = ok; buffer = read_shown a (view s.disk); error = 0 }), s)
unfolding read
read-shown os a s calm bound h =
    rw (get_all_file_names_in_bounds a bound, read_files, read)
      (rw (read_parts_lem os calm s.disk a h, finish_read))

-- With the cache off and nothing refused, reading 4096 bytes within the bounds, from blocks that
-- are there and hold no zero byte where they are read, answers OK with the bytes of the device, and
-- changes nothing.
pub read_lem :
    (os : Faults) (a : ℕ) (s : Server)
    → Calm os
    → a + block_size ≤ block_storage_max_size
    → HasBlocks (view s.disk) a
    → HasNoZero (read_device a (view s.disk))
    → read os false a s
      ≡ (returns (record { status = ok; buffer = read_device a (view s.disk); error = 0 }), s)
read_lem os a s calm bound h nz =
    read-shown os a s calm bound h
    ∙ ap (λ t. (returns (record { status = ok; buffer = t; error = 0 }), s))
        (read_shown_lem a (view s.disk) nz)

HasBlocks-ready : (a : ℕ) (d : Disk) → IsReady d a → HasBlocks (view d) a
HasBlocks-ready a d ready = record {
  first = (ready.first.content, ready.first.present);
  second = λ u. ((ready.second u).content, (ready.second u).present);
}

-- A server whose blocks are those of a device behind the write reads what was written.
read_written :
    (os : Faults) (a : ℕ) (buffer : Bytes) (s : Server) (before : Disk)
    → Calm os
    → a + block_size ≤ block_storage_max_size
    → length buffer ≡ block_size
    → HasNoZero buffer
    → IsReady before a
    → ((b : ℕ) → b ≤ max_blocks → view s.disk b ≡ write_device a buffer (view before) b)
    → (read os false a s).0 ≡ returns (record { status = ok; buffer = buffer; error = 0 })
read_written os a buffer s before calm bound n nz ready same =
    let b = a / block_size in
    let after = write_device a buffer (view before) in
    let blocks = HasBlocks-write a buffer (view before) (HasBlocks-ready a before ready) in
    let one = same b (omega arith) in
    let two = same (b + 1) (omega arith) in
    let back =
      read_device-congr a (view s.disk) after one two
      ∙ read-write a buffer (view before) n (HasBlocks-ready a before ready) in
    let here : HasBlocks (view s.disk) a = record {
      first = (blocks.first.0, one ∙ blocks.first.1);
      second = λ u. ((blocks.second u).0, two ∙ (blocks.second u).1);
    } in
    ap (λ (r : Outcome ReadReply × Server). r.0) (read_lem os a s calm bound here (rw back nz))
    ∙ ap (λ (t : Bytes). returns (record { status = ok; buffer = t; error = 0 })) back

-- A write of 4096 bytes with no zero byte among them, within the bounds, to blocks that both
-- servers can write and with nothing refused on the way, is read back at its address from the
-- primary and from the backup: both answer OK with the bytes written.
pub read-write_replicates :
    (os osb : Faults) (now buffer : Bytes) (a : ℕ) (s p : Server)
    → Calm os
    → Calm osb
    → a + block_size ≤ block_storage_max_size
    → length buffer ≡ block_size
    → HasNoZero buffer
    → IsReady s.disk a
    → IsReady p.disk a
    → let w = write os false (linked osb) now a buffer s p in
      let answer : Outcome ReadReply =
        returns (record { status = ok; buffer = buffer; error = 0 }) in
      ((read os false a w.1).0 ≡ answer) × ((read osb false a w.2).0 ≡ answer)
read-write_replicates os osb now buffer a s p calm calmb bound n nz ready readyb =
    let r = write_replicates os osb false now buffer a s p calm calmb bound n ready readyb in
    (
      read_written os a buffer _ s.disk calm bound n nz ready r.1,
      read_written osb a buffer _ p.disk calmb bound n nz readyb r.2,
    )
