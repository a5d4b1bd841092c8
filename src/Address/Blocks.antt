-- ===== src/Address/Blocks.antt =====
-- `GetAllFileNames` against a description by block numbers: block b lies in file b % 256 of
-- directory b / 256, and a range of 4096 bytes lies in one block or in two neighbours.
use replicated_block_store.Prelude.{
  ℕ, ◌+◌, ◌-◌, ◌/◌, ◌%◌, ◌≤◌, ◌<◌, ◌≡◌, refl, ap, some, List, [], ◌∷◌, inl, inr, arith, Bytes, ℤ,
  pos, negsuc, ltb, ltb→lt, lt→ltb, ◌∙◌, ◌==◌, if◌then◌else◌, Bool-cases, All,
}
use replicated_block_store.Decimal.{to_string}
use replicated_block_store.Decimal.RoundTrip.{stoi-to_string}
use replicated_block_store.Address.{
  PathData, block_size, partition_size, block_storage_max_size, get_directory, get_file, get_path,
  get_size, second_file, files_of, get_all_file_names,
}

unfoldable pub block_path : ℕ → Bytes
block_path b = get_path (to_string (b / 256)) (to_string (b % 256))

-- The file that an address names within its directory.
pub get_file_lem :
    (a : ℕ) → a < 2147483648 → get_file a ≡ some (to_string (a % partition_size / block_size))
unfolding get_file
get_file_lem a h =
    rw (stoi-to_string (a / partition_size) (omega arith))
      (ap (λ n. some (to_string (n / block_size))) (omega arith))

-- `GetSize` is the rest of the block from the address on: its subtractions never wrap.
pub get_size_lem : (a : ℕ) → a < 2147483648 → get_size a ≡ some (block_size - a % block_size)
unfolding get_size
get_size_lem a h =
    rw
      (
        get_file_lem (a - a % block_size) (omega arith),
        stoi-to_string ((a - a % block_size) % partition_size / block_size) (omega arith),
      )
      (ap some (omega arith))

unfoldable pub file_parts : ℕ → List PathData
file_parts a =
    record {
      path = block_path (a / block_size);
      offset = a % block_size;
      size = block_size - a % block_size;
    }
    ∷ (if a % block_size == 0
        then []
        else record { path = block_path (a / block_size + 1); offset = 0; size = a % block_size }
          ∷ [])

second_file_lem :
    (a : ℕ)
    → a < block_storage_max_size
    → second_file (a - a % block_size) (block_size - a % block_size)
      ≡ some (
          record { path = block_path (a / block_size + 1); offset = 0; size = a % block_size } ∷ [])
unfolding second_file block_path get_directory
second_file_lem a h =
    let next = a - a % block_size + block_size in
    let dir : next / partition_size ≡ (a / block_size + 1) / 256 = omega arith in
    let file : next % partition_size / block_size ≡ (a / block_size + 1) % 256 = omega arith in
    let rest : block_size - (block_size - a % block_size) ≡ a % block_size = omega arith in
    rw (get_file_lem next (omega arith), dir, file, rest)

files_of_lem : (a : ℕ) → a < block_storage_max_size → files_of a ≡ some (file_parts a)
unfolding files_of file_parts block_path
files_of_lem a h =
    let aligned = a - a % block_size in
    let dir : aligned / partition_size ≡ a / block_size / 256 = omega arith in
    let file : aligned % partition_size / block_size ≡ a / block_size % 256 = omega arith in
    rw (get_file_lem aligned (omega arith), get_size_lem a (omega arith), dir, file)
      (elim (Bool-cases (a % block_size == 0)) [
        | inl e ↦ rw e
        | inr e ↦ rw (e, second_file_lem a h)
      ])

-- The files of any address: those of its blocks within the bounds, none outside.
abbrev pub files_at : ℤ → List PathData
files_at (pos a) = if ltb a block_storage_max_size then file_parts a else []
files_at (negsuc n) = []

-- For every address, `GetAllFileNames` returns, and no exception escapes it: an address within
-- bounds has the one or two files of its blocks, any other address has none.
pub get_all_file_names_lem : (address : ℤ) → get_all_file_names address ≡ some (files_at address)
unfolding get_all_file_names
get_all_file_names_lem (negsuc n) = refl
get_all_file_names_lem (pos a) = elim (Bool-cases (ltb a block_storage_max_size)) [
  | inl e ↦ rw e (files_of_lem a (ltb→lt a _ e))
  | inr e ↦ rw e
]

abbrev pub total_size : List PathData → ℕ
total_size [] = 0
total_size (p ∷ ps) = p.size + total_size ps

abbrev pub Fits : PathData → Type 0
Fits p = (0 < p.size) × (p.offset + p.size ≤ block_size)

-- The parts of an address stay within their blocks and make up a block.
file_parts_fit : (a : ℕ) → All Fits (file_parts a) × (total_size (file_parts a) ≡ block_size)
unfolding file_parts
file_parts_fit a = ground arith

-- An address within the bounds has files; every part of them is not empty and stays within the 4096
-- bytes of its file, and the sizes add up to 4096.
pub get_all_file_names-fit :
    (a : ℕ)
    → a < block_storage_max_size
    → (ps : List PathData) × (get_all_file_names (pos a) ≡ some ps)
      × All Fits ps
      × (total_size ps ≡ block_size)
get_all_file_names-fit a h = (
  file_parts a,
  get_all_file_names_lem (pos a) ∙ rw (lt→ltb a block_storage_max_size h),
  (file_parts_fit a).0,
  (file_parts_fit a).1,
)
