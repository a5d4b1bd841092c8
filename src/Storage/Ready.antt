-- ===== src/Storage/Ready.antt =====
-- The blocks behind `PrepareStorage` of src/blockstorage_server.cc.
use replicated_block_store.Prelude.{
  ℕ, zero, suc, ◌+◌, ◌*◌, ◌/◌, ◌%◌, ◌≡◌, ◌≢◌, ◌≤◌, ◌<◌, refl, ap, sym, ◌∙◌, Bool, false, ◌&&◌, none,
  some, Option, [], ◌∷◌, ◌++◌, Bytes, ◌==◌, if◌then◌else◌, All, arith, ltb, leb, bytes_eq_iff,
  append-nil, length,
}
use replicated_block_store.Decimal.{to_string, stoi, int_max}
use replicated_block_store.Decimal.RoundTrip.{stoi-to_string}
use replicated_block_store.Decimal.Digits.{IsDigit, to_string-IsDigit}
use replicated_block_store.Disk.{Disk, Faults, creates, update}
use replicated_block_store.Address.{server_storage_path, get_path, block_size}
use replicated_block_store.Address.Blocks.{block_path}
use replicated_block_store.Address.Paths.{max_blocks}
use replicated_block_store.Server.Staging.{Calm, content_or_empty}
use replicated_block_store.Server.View.{view, temp_view, temp_path, block_path_test, temp-ne-block}
use replicated_block_store.Server.Clean.{IsClean}
use replicated_block_store.Server.Sound.{IsSound}
use replicated_block_store.Storage.{
  slash, is_rooted, normal, create_exclusive, prepare_files, prepare_directories, prepare_storage,
}

-- Digits in front of a path stay.
normal-digits : (xs s : Bytes) → All IsDigit xs → normal (xs ++ s) ≡ xs ++ normal s
unfolding normal
normal-digits [] s h = refl
normal-digits (c ∷ xs) s (hc, h) = ground (arith, normal-digits xs s h)

not_rooted : (xs : Bytes) → All IsDigit xs → is_rooted xs ≡ false
not_rooted [] h = refl
not_rooted (c ∷ xs) (hc, h) = ground arith

normal-number : (n : ℕ) → normal (to_string n) ≡ to_string n
unfolding normal
normal-number n =
    ap normal (sym (append-nil (to_string n)))
    ∙ normal-digits (to_string n) [] (to_string-IsDigit n)
    ∙ append-nil (to_string n)

normal-file : (n : ℕ) → normal (slash ∷ to_string n) ≡ slash ∷ to_string n
unfolding normal
normal-file n = rw (normal-number n, not_rooted (to_string n) (to_string-IsDigit n))

-- A number is a digit and what is behind it.
not_rooted-number : (n : ℕ) (s : Bytes) → n ≤ int_max → is_rooted (to_string n ++ s) ≡ false
unfolding stoi
not_rooted-number n s h =
    go (to_string n) (to_string-IsDigit n) (λ e. cc (stoi-to_string n h, ap stoi e, stoi_empty))
  where
    go : (xs : Bytes) → All IsDigit xs → xs ≢ [] → is_rooted (xs ++ s) ≡ false
    go [] d ne = absurd (ne refl)
    go (c ∷ xs) (hc, d) ne = ground arith

    stoi_empty : stoi [] ≡ none
    stoi_empty = refl

-- The file that the loops make for a directory and a file.
file_of :
    (dir file : ℕ)
    → dir ≤ int_max
    → normal ((server_storage_path ++ slash ∷ to_string dir) ++ slash ∷ to_string file)
      ≡ get_path (to_string dir) (to_string file)
unfolding get_path normal
file_of dir file h =
    let tail : normal (to_string dir ++ slash ∷ to_string file)
        ≡ to_string dir ++ slash ∷ to_string file =
      normal-digits (to_string dir) _ (to_string-IsDigit dir)
      ∙ ap (◌++◌ (to_string dir)) (normal-file file) in
    rw (tail, not_rooted-number dir (slash ∷ to_string file) h)

-- A block that has a file keeps it; one that has none gets an empty one.
abbrev pub filled : Option Bytes → Option Bytes
filled o = some (content_or_empty o)

abbrev between : ℕ → ℕ → ℕ → Bool
between lower b upper = leb lower b && ltb b upper

-- Two ranges, one behind the other, are one.
join_ranges :
    (l l' m m' u u' b : ℕ) (v : Option Bytes)
    → l' ≡ l
    → m ≡ m'
    → u ≡ u'
    → (l ≤ m) × (m ≤ u)
    → (if between m' b u
        then filled (if between l' b m then filled v else v)
        else if between l' b m
        then filled v
        else v)
      ≡ (if between l b u' then filled v else v)
join_ranges l l' m m' u u' b v e f g h = ground arith

module _ (os : Faults) (calm : Calm os) where
  create_block :
      (c b : ℕ) (d : Disk)
      → c ≤ max_blocks
      → b ≤ max_blocks
      → view (create_exclusive os (block_path c) d) b
        ≡ (if c == b then filled (view d b) else view d b)
  unfolding view create_exclusive update
  create_block c b d hc hb = ground (arith, calm creates (block_path c), block_path_test c b hc hb)

  create_keeps : (p q : Bytes) (d : Disk) → p ≢ q → create_exclusive os p d q ≡ d q
  unfolding create_exclusive update
  create_keeps p q d h = ground (arith, bytes_eq_iff p q)

  -- The path that the inner loop makes is that of a block.
  block_of :
      (dir i : ℕ)
      → dir < 1024
      → i < 256
      → normal ((server_storage_path ++ slash ∷ to_string dir) ++ slash ∷ to_string i)
        ≡ block_path (dir * 256 + i)
  unfolding block_path
  block_of dir i hd hi =
      let directory : (dir * 256 + i) / 256 ≡ dir = omega arith in
      let file : (dir * 256 + i) % 256 ≡ i = omega arith in
      rw (directory, file) (file_of dir i (omega arith))

  prepare_files-view :
      (dir count i b : ℕ) (d : Disk)
      → dir < 1024
      → i + count ≤ 256
      → b ≤ max_blocks
      → view (prepare_files os (server_storage_path ++ slash ∷ to_string dir) count i d) b ≡ (
          if between (dir * 256 + i) b (dir * 256 + i + count) then filled (view d b) else view d b)
  unfolding prepare_files
  prepare_files-view dir zero i b d hd hi hb = ground arith
  prepare_files-view dir (suc count) i b d hd hi hb = rw (block_of dir i hd (omega arith)) (
      ground (
        arith,
        prepare_files-view dir count (i + 1) b (create_exclusive os (block_path (dir * 256 + i)) d)
            hd,
        create_block (dir * 256 + i) b d,
      ))

  prepare_directories-view :
      (count dir b : ℕ) (d : Disk)
      → dir + count ≤ 1024
      → b ≤ max_blocks
      → view (prepare_directories os count dir d) b
        ≡ (if between (dir * 256) b ((dir + count) * 256) then filled (view d b) else view d b)
  unfolding prepare_directories
  prepare_directories-view zero dir b d hd hb = ground arith
  prepare_directories-view (suc count) dir b d hd hb =
      let one = prepare_files os (server_storage_path ++ slash ∷ to_string dir) 256 0 d in
      prepare_directories-view count (dir + 1) b one (omega arith) hb
      ∙ rw (prepare_files-view dir 256 0 b d (omega arith) (omega arith) hb) (
          join_ranges (dir * 256) (dir * 256 + 0) (dir * 256 + 0 + 256) ((dir + 1) * 256)
            ((dir + 1 + count) * 256) ((dir + suc count) * 256) b (view d b) (omega arith)
            (omega arith) (omega arith) (omega arith))

  module _ (q : Bytes) (apart : (c : ℕ) → c ≤ max_blocks → block_path c ≢ q) where
    prepare_files-keeps :
        (dir count i : ℕ) (d : Disk)
        → dir < 1024
        → i + count ≤ 256
        → prepare_files os (server_storage_path ++ slash ∷ to_string dir) count i d q ≡ d q
    unfolding prepare_files
    prepare_files-keeps dir zero i d hd hi = refl
    prepare_files-keeps dir (suc count) i d hd hi = rw (block_of dir i hd (omega arith)) (
        prepare_files-keeps dir count (i + 1) _ hd (omega arith)
        ∙ create_keeps (block_path (dir * 256 + i)) q d (apart (dir * 256 + i) (omega arith)))

    prepare_directories-keeps :
        (count dir : ℕ) (d : Disk) → dir + count ≤ 1024 → prepare_directories os count dir d q ≡ d q
    unfolding prepare_directories
    prepare_directories-keeps zero dir d h = refl
    prepare_directories-keeps (suc count) dir d h =
        prepare_directories-keeps count (dir + 1) _ (omega arith)
        ∙ prepare_files-keeps dir 256 0 d (omega arith) (omega arith)

  pub prepare_storage-at :
      (d : Disk) (b : ℕ)
      → b ≤ max_blocks
      → view (prepare_storage os d) b ≡ (if ltb b max_blocks then filled (view d b) else view d b)
  unfolding prepare_storage
  prepare_storage-at d b h =
      prepare_directories-view 1024 0 b d (omega arith) (omega arith) ∙ ground arith

  pub prepare_storage-keeps :
      (q : Bytes)
      → ((c : ℕ) → c ≤ max_blocks → block_path c ≢ q)
      → (d : Disk) → prepare_storage os d q ≡ d q
  unfolding prepare_storage
  prepare_storage-keeps q apart d = prepare_directories-keeps q apart 1024 0 d (omega arith)

  -- Behind `PrepareStorage` every block has a file: the one that it had, or an empty one.
  prepare_storage-view :
      (d : Disk) (b : ℕ) → b < max_blocks → view (prepare_storage os d) b ≡ filled (view d b)
  unfolding prepare_storage
  prepare_storage-view d b h = prepare_storage-at d b (omega arith) ∙ ground arith

  -- A server that starts on a disk with no temporary file and no block longer than 4096 bytes, and is
  -- refused nothing, has a file for every block once `PrepareStorage` has run, still none longer than
  -- 4096 bytes, and no temporary file: the blocks keep what they had, and the new ones are empty.
  pub prepare_storage-IsSound :
      (d : Disk)
      → ((b : ℕ) → b < max_blocks → length (content_or_empty (view d b)) ≤ block_size)
      → IsClean d
      → IsSound (prepare_storage os d)
        × ((b : ℕ) → b < max_blocks → view (prepare_storage os d) b ≡ filled (view d b))
  unfolding temp_view prepare_storage
  prepare_storage-IsSound d fits clean = (
    record {
      full = λ b hb. (content_or_empty (view d b), prepare_storage-view d b hb, fits b hb);
      clean = λ b hb.
          prepare_storage-keeps (temp_path b) (λ c hc e. temp-ne-block b c hb hc (sym e)) d
          ∙ clean b hb;
    },
    prepare_storage-view d,
  )
