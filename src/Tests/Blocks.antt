-- ===== src/Tests/Blocks.antt =====
-- Addresses, numbers and the staging of files.
use replicated_block_store.Prelude.{◌≡◌, arith, some, List, [], ◌∷◌, codes, All, pos}
use replicated_block_store.Disk.{no_faults}
use replicated_block_store.Disk.Frame.{LeavesAlone}
use replicated_block_store.Decimal.{to_string, stoi}
use replicated_block_store.Decimal.RoundTrip.{stoi-to_string}
use replicated_block_store.Address.{PathData, block_size, get_all_file_names}
use replicated_block_store.Address.Blocks.{
  Fits, files_at, total_size, get_all_file_names_lem, get_all_file_names-fit,
}
use replicated_block_store.Server.{FileData}
use replicated_block_store.Server.Helper.{generate_temp_path}
use replicated_block_store.Server.Comm.{stage_files}
use replicated_block_store.Server.Staging.{stage_files-LeavesAlone}

get_all_file_names_lem_example : get_all_file_names (pos 1048575) ≡ some (files_at (pos 1048575))
get_all_file_names_lem_example = get_all_file_names_lem (pos 1048575)

get_all_file_names-fit_example :
    (ps : List PathData) × (get_all_file_names (pos 1048575) ≡ some ps)
    × All Fits ps
    × (total_size ps ≡ block_size)
get_all_file_names-fit_example = get_all_file_names-fit 1048575 (omega arith)

stoi-to_string_example : stoi (to_string 262143) ≡ some 262143
stoi-to_string_example = stoi-to_string 262143 (omega arith)

abbrev files : List FileData
files =
    record { file_name = codes "0/255"; offset = 4095; size = 1 }
    ∷ record { file_name = codes "1/0"; offset = 0; size = 4095 }
    ∷ []

stage_files-LeavesAlone_example :
    LeavesAlone (codes "0/255") (stage_files no_faults (codes "buffer") 0 files)
unfolding generate_temp_path
stage_files-LeavesAlone_example =
    stage_files-LeavesAlone no_faults (codes "0/255") (codes "buffer") 0 files
      ((λ e. cc), ((λ e. cc), tt))
