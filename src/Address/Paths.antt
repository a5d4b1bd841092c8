-- ===== src/Address/Paths.antt =====
-- The file names that `GetPath` of src/util/address_translation.cc makes, of blocks, and other names
-- of the program.
use replicated_block_store.Prelude.{
  ℕ, ◌/◌, ◌%◌, ◌≤◌, ◌≡◌, ◌≢◌, ap, sym, ◌∙◌, some, none, [], ◌∷◌, ◌++◌, append_assoc, append-nil,
  arith, Bytes, append_cancel_left, append-ne_self, false, refl,
}
use mathlib.Core.Option.{some-injective}
use replicated_block_store.Decimal.{to_string, stoi, is_digit}
use replicated_block_store.Decimal.RoundTrip.{
  stoi-to_string, stoi-to_string_append, to_string_injective,
}
use replicated_block_store.Address.{get_path, server_storage_path}
use replicated_block_store.Address.Blocks.{block_path}

-- The number of a block and of the one behind the last.
abbrev pub max_blocks : ℕ
max_blocks = 262144

path_rest :
    (b : ℕ) (s : Bytes)
    → block_path b ++ s
      ≡ server_storage_path ++ (to_string (b / 256) ++ b'/' ∷ (to_string (b % 256) ++ s))
unfolding block_path get_path
path_rest b s =
    append_assoc server_storage_path _ s
    ∙ ap (◌++◌ server_storage_path) (append_assoc (to_string (b / 256)) _ s)

directory_of :
    (b : ℕ) (s : Bytes) → b ≤ max_blocks → stoi (to_string (b / 256) ++ b'/' ∷ s) ≡ some (b / 256)
directory_of b s h = stoi-to_string_append (b / 256) b'/' s (omega arith) refl

-- Two names, each with something behind it, have the same directory and the same rest.
same_directory :
    (b c : ℕ) (s t : Bytes)
    → b ≤ max_blocks
    → c ≤ max_blocks
    → block_path b ++ s ≡ block_path c ++ t
    → (b / 256 ≡ c / 256) × (to_string (b % 256) ++ s ≡ to_string (c % 256) ++ t)
same_directory b c s t hb hc e = (dirs, files)
  where
    rests :
        to_string (b / 256) ++ b'/' ∷ (to_string (b % 256) ++ s)
        ≡ to_string (c / 256) ++ b'/' ∷ (to_string (c % 256) ++ t)
    rests = append_cancel_left server_storage_path _ _ (sym (path_rest b s) ∙ e ∙ path_rest c t)

    dirs : b / 256 ≡ c / 256
    dirs = some-injective _ _ (sym (directory_of b _ hb) ∙ ap stoi rests ∙ directory_of c _ hc)

    files : to_string (b % 256) ++ s ≡ to_string (c % 256) ++ t
    files = ground (arith, append_cancel_left (to_string (c / 256)) _ _ (rw dirs at rests))

-- Different blocks lie in different files.
pub block_path_injective :
    (b c : ℕ) → b ≤ max_blocks → c ≤ max_blocks → block_path b ≡ block_path c → b ≡ c
block_path_injective b c hb hc e =
    let (dirs, files) =
      same_directory b c [] [] hb hc
        (append-nil (block_path b) ∙ e ∙ sym (append-nil (block_path c))) in
    let names = sym (append-nil (to_string (b % 256))) ∙ files ∙ append-nil (to_string (c % 256)) in
    omega (arith, to_string_injective (b % 256) (c % 256) (omega arith) (omega arith) names)

-- No block's file has the name of a block's file with an ending that begins with no digit.
pub block_path-ne-append :
    (b c e : ℕ) (s : Bytes)
    → b ≤ max_blocks
    → c ≤ max_blocks
    → is_digit e ≡ false
    → block_path b ≢ block_path c ++ e ∷ s
block_path-ne-append b c e s hb hc d same =
    append-ne_self (to_string (c % 256)) e s
      (sym files ∙ append-nil (to_string (b % 256)) ∙ ap to_string number)
  where
    files : to_string (b % 256) ++ [] ≡ to_string (c % 256) ++ e ∷ s
    files = (same_directory b c [] (e ∷ s) hb hc (append-nil (block_path b) ∙ same)).1

    number : b % 256 ≡ c % 256
    number = some-injective _ _ (
        sym (stoi-to_string (b % 256) (omega arith))
        ∙ ap stoi (sym (append-nil (to_string (b % 256))) ∙ files)
        ∙ stoi-to_string_append (c % 256) e s (omega arith) d)

-- Nor the name of a file of the storage directory that begins with no digit.
pub block_path-ne-name :
    (b c : ℕ) (s t : Bytes)
    → b ≤ max_blocks
    → is_digit c ≡ false
    → block_path b ++ s ≢ server_storage_path ++ c ∷ t
unfolding stoi
block_path-ne-name b c s t hb d same =
    cc (sym (directory_of b (to_string (b % 256) ++ s) hb), ap stoi rests, not_digit c t d)
  where
    not_digit : (c : ℕ) (t : Bytes) → is_digit c ≡ false → stoi (c ∷ t) ≡ none
    not_digit c t d = rw d

    rests : to_string (b / 256) ++ b'/' ∷ (to_string (b % 256) ++ s) ≡ c ∷ t
    rests = append_cancel_left server_storage_path _ _ (sym (path_rest b s) ∙ same)
