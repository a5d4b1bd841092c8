-- ===== src/Recovery/OwnLog.antt =====
-- `Recover` of src/util/crash_recovery.cc on the blocks, with a log that src/blockstorage_server.cc wrote.
use replicated_block_store.Prelude.{
  ℕ, ◌≡◌, ◌≢◌, ◌≤◌, ◌/◌, ◌%◌, refl, ap, sym, ◌∙◌, List, [], ◌∷◌, ◌++◌, append_assoc, Bytes, codes,
  All, All-append, arith, take,
}
use replicated_block_store.Disk.{Disk, Faults}
use replicated_block_store.Decimal.{to_string}
use replicated_block_store.Decimal.Digits.{IsDigit, to_string-IsDigit}
use replicated_block_store.Address.{get_path, server_storage_path}
use replicated_block_store.Address.Blocks.{block_path}
use replicated_block_store.Address.Paths.{max_blocks}
use replicated_block_store.Server.Helper.{generate_temp_path}
use replicated_block_store.Server.Comm.{PendingWrite}
use replicated_block_store.Server.View.{view, temp_path, temp-ne-block}
use replicated_block_store.Recovery.RoundTrip.{Record, enters, moves, log_of, IsWord, IsClean}
use replicated_block_store.Recovery.Actions.{
  RecoveryStub, log_file_path, get_undo_file_name, log_text, recover,
}
use replicated_block_store.Recovery.Keeping.{HasNoUndo}
use replicated_block_store.Recovery.Blocks.{Avoids, recover_keeps_file}

unfoldable pub last : Bytes → ℕ
last [] = 0
last (c ∷ []) = c
last (c ∷ d ∷ s) = last (d ∷ s)

pub last-append : (xs : Bytes) (y : ℕ) (ys : Bytes) → last (xs ++ y ∷ ys) ≡ last (y ∷ ys)
unfolding last
last-append [] y ys = refl
last-append (x ∷ []) y ys = refl
last-append (x ∷ z ∷ xs) y ys = last-append (z ∷ xs) y ys

-- Digits, and what digits are not.
digits-IsWord : (s : Bytes) → All IsDigit s → IsWord s
digits-IsWord [] h = tt
digits-IsWord (c ∷ s) (hc, h) = ((omega arith, omega arith), digits-IsWord s h)

last_of_digits : (s : Bytes) (c : ℕ) → c ≤ b'9' → All IsDigit s → last (c ∷ s) ≤ b'9'
unfolding last
last_of_digits [] c hc h = hc
last_of_digits (d ∷ s) c hc (hd, h) = last_of_digits s d hd.1 h

path_parts :
    (b : ℕ)
    → block_path b ≡ (server_storage_path ++ to_string (b / 256)) ++ b'/' ∷ to_string (b % 256)
unfolding block_path get_path
path_parts b = sym (append_assoc server_storage_path (to_string (b / 256)) _)

storage-IsWord : IsWord server_storage_path
storage-IsWord = omega arith

block_path-IsWord : (b : ℕ) → IsWord (block_path b)
unfolding block_path get_path
block_path-IsWord b =
    let file : IsWord (b'/' ∷ to_string (b % 256)) =
      ((omega arith, omega arith), digits-IsWord _ (to_string-IsDigit (b % 256))) in
    All-append _ server_storage_path _ storage-IsWord
      (All-append _ (to_string (b / 256)) _ (digits-IsWord _ (to_string-IsDigit (b / 256))) file)

temp_path-IsWord : (b : ℕ) → IsWord (temp_path b)
unfolding generate_temp_path
temp_path-IsWord b = All-append _ (block_path b) _ (block_path-IsWord b) (omega arith)

-- An undo file's name ends in an "o".
pub last-undo : (f : Bytes) → last (get_undo_file_name f) ≡ b'o'
unfolding get_undo_file_name last
last-undo f = last-append f b'.' (codes "undo")

pub last-block_path : (b : ℕ) → last (block_path b) ≤ b'9'
last-block_path b =
    let one =
      ap last (path_parts b)
      ∙ last-append (server_storage_path ++ to_string (b / 256)) b'/' (to_string (b % 256)) in
    let small =
      last_of_digits (to_string (b % 256)) b'/' (omega arith) (to_string-IsDigit (b % 256)) in
    omega (arith, one, small)

pub undo-ne-block : (f : Bytes) (b : ℕ) → get_undo_file_name f ≢ block_path b
undo-ne-block f b e = absurd (omega (arith, sym (last-undo f) ∙ ap last e, last-block_path b))

pub undo-ne-log : (f : Bytes) → get_undo_file_name f ≢ log_file_path
unfolding last
undo-ne-log f e =
    let h : ◌≡◌ {A = ℕ} b'o' b'g' = sym (last-undo f) ∙ ap last e in absurd (omega arith)

-- An id is digits only, and the path of a block begins with a slash.
id-ne-block : (n b : ℕ) → to_string n ≢ block_path b
unfolding block_path get_path
id-ne-block n b e =
    let digits : All IsDigit (block_path b) = rw e at (to_string-IsDigit n) in
    absurd (omega (arith, digits.0.0))

-- A record that a write makes: its id is a number, and it moves the temporary file of a block.
abbrev pub IsOwn : Bytes × Record → Type 0
IsOwn (id, enters st) = (n : ℕ) × (id ≡ to_string n)
IsOwn (id, moves tmp original) =
    (n : ℕ) × (c : ℕ) × (id ≡ to_string n)
    × (c ≤ max_blocks)
    × (tmp ≡ temp_path c)
    × (original ≡ block_path c)

pub IsOwn-IsClean : (rs : List (Bytes × Record)) → All IsOwn rs → All IsClean rs
IsOwn-IsClean [] h = tt
IsOwn-IsClean ((id, enters st) ∷ rs) ((n, e), h) =
    (rw e (digits-IsWord _ (to_string-IsDigit n)), IsOwn-IsClean rs h)
IsOwn-IsClean ((id, moves tmp original) ∷ rs) ((n, c, e, hc, t, o), h) = (
  rw (e, t, o) (digits-IsWord _ (to_string-IsDigit n), temp_path-IsWord c, block_path-IsWord c),
  IsOwn-IsClean rs h,
)

pub IsOwn-Avoids :
    (b : ℕ)
    → b ≤ max_blocks
    → (rs : List (Bytes × Record)) → All IsOwn rs
    → All (Avoids (block_path b)) rs
IsOwn-Avoids b hb [] h = tt
IsOwn-Avoids b hb ((id, enters st) ∷ rs) ((n, e), h) =
    ((λ u. id-ne-block n b (sym e ∙ u)), IsOwn-Avoids b hb rs h)
IsOwn-Avoids b hb ((id, moves tmp original) ∷ rs) ((n, c, e, hc, t, o), h) =
    ((λ u. temp-ne-block c b hc hb (sym t ∙ u)), IsOwn-Avoids b hb rs h)

pub log-ne-block : (b : ℕ) → log_file_path ≢ block_path b
unfolding block_path get_path last
log-ne-block b e =
    let seventh : ◌≡◌ {A = ℕ} b'b' b'h' = ap (λ s. last (take 7 s)) e in absurd (omega arith)

-- Recovery from a log of this program's writes changes no block that the peer sends no write to: the
-- ids in the log are numbers, its renames are of temporary files to their blocks, and no undo file is
-- there. The states in the log, what fails on the way, what the peer answers and how recovery ends do
-- not matter.
pub recover_keeps_blocks :
    (os : Faults) {P : Type 0} (stub : RecoveryStub P) (rs : List (Bytes × Record)) (d : Disk)
    (p : P) (b : ℕ)
    → b ≤ max_blocks
    → HasNoUndo d
    → log_text os d ≡ log_of rs
    → All IsOwn rs
    → ((ids : List Bytes)
        → All
            (λ (w : PendingWrite). w.file_name ≢ block_path b)
            (stub.force_pending_writes ids p).0)
    → view (recover os stub d p).1 b ≡ view d b
unfolding view
recover_keeps_blocks os stub rs d p b hb u text own sent =
    recover_keeps_file os stub (block_path b) (λ f. undo-ne-block f b) rs d p (log-ne-block b) u
      text (IsOwn-IsClean rs own) (IsOwn-Avoids b hb rs own) sent
