-- ===== src/Address.antt =====
-- src/util/address_translation.h and .cc: from an address to the files that hold its block.
pub mod Blocks
pub mod Paths
use replicated_block_store.Prelude.{
  ℕ, zero, ◌+◌, ◌-◌, ◌*◌, ◌/◌, ◌%◌, ◌≡◌, refl, Bool, true, false, not, Option, none, some, List, [],
  ◌∷◌, ◌++◌, Bytes, codes, ℤ, pos, negsuc, ltb, ◌==◌, if◌then◌else◌, ◌>>=◌,
}
use replicated_block_store.Decimal.{to_string, stoi}

abbrev pub block_storage_max_size : ℕ
block_storage_max_size = 1073741824

abbrev pub block_size : ℕ
block_size = 4096

abbrev pub partition_size : ℕ
partition_size = 1048576

abbrev pub server_storage_path : Bytes
server_storage_path = codes "/home/hemalkumar/hemal/CS-739-P3/storage/"

pub record PathData : Type 0 where
  pub path : Bytes
  pub offset : ℕ
  pub size : ℕ

-- `false` where the code throws "Address out of bounds".
pub is_valid_address : ℤ → Bool
is_valid_address (pos address) = ltb address block_storage_max_size
is_valid_address (negsuc n) = false

-- The helpers run behind the check, on addresses that are not negative.
unfoldable pub get_directory : ℕ → Bytes
get_directory address = to_string (address / partition_size)

-- `none` where `stoi` throws.
unfoldable pub get_file : ℕ → Option Bytes
unfolding get_directory
get_file address = do
  d ← stoi (get_directory address)
  let new_address = address - d * partition_size
  some (to_string (new_address / block_size))

unfoldable pub get_path : Bytes → Bytes → Bytes
get_path dir file = server_storage_path ++ (dir ++ (b'/' ∷ file))

unfoldable pub is_address_aligned : ℕ → Bool
is_address_aligned address = address % block_size == 0

unfoldable pub get_aligned_address : ℕ → ℕ
get_aligned_address address = address - address % block_size

unfoldable pub get_offset : ℕ → ℕ
get_offset address = address % block_size

unfoldable pub get_size : ℕ → Option ℕ
unfolding get_file get_aligned_address
get_size address = do
  file ← get_file (get_aligned_address address)
  f ← stoi file
  let partition_start_addr = f * block_size
  let new_address = address % partition_size - partition_start_addr
  some (block_size - new_address)

-- The second entry, for an address that is not aligned.
unfoldable pub second_file : ℕ → ℕ → Option (List PathData)
unfolding get_directory get_file get_path
second_file aligned_address size = do
  let aligned = aligned_address + block_size
  let dir = get_directory aligned
  file ← get_file aligned
  some (record { path = get_path dir file; offset = 0; size = block_size - size } ∷ [])

-- The body of the `try` for an address that passes the check.
unfoldable pub files_of : ℕ → Option (List PathData)
unfolding get_directory is_address_aligned get_aligned_address get_offset
files_of address = do
  let aligned_address = get_aligned_address address
  let dir = get_directory aligned_address
  file ← get_file aligned_address
  let path = get_path dir file
  size ← get_size address
  rest ← if is_address_aligned address then some [] else second_file aligned_address size
  some (record { path = path; offset = get_offset address; size = size } ∷ rest)

-- An address that is out of bounds has no files; `none` is an exception that nothing catches.
unfoldable pub get_all_file_names : ℤ → Option (List PathData)
unfolding is_valid_address files_of
get_all_file_names (negsuc n) = some []
get_all_file_names (pos address) =
    if is_valid_address (pos address) then files_of address else some []

unaligned_runs :
    get_all_file_names (pos 1048575)
    ≡ some (
        record { path = server_storage_path ++ codes "0/255"; offset = 4095; size = 1 }
        ∷ record { path = server_storage_path ++ codes "1/0"; offset = 0; size = 4095 }
        ∷ [])
unfolding get_all_file_names get_file get_size second_file get_path to_string stoi
unaligned_runs = refl
