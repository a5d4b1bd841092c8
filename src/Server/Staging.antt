-- ===== src/Server/Staging.antt =====
-- Staging: `WriteToTempFile` and the loops that call it.
use replicated_block_store.Prelude.{
  ℕ, ◌+◌, ◌≡◌, ◌≢◌, refl, Option, none, some, [], ◌∷◌, List, arith, Bytes, take, All, bytes_ne,
  bytes_eq_refl,
}
use replicated_block_store.Io.{done}
use replicated_block_store.Disk.{
  Disk, Faults, Call, update, overwrite, bytes_at, opens_read, creates, reads, writes, pwrites,
  open_file, open_create, read_file, write_file,
}
use replicated_block_store.Disk.Frame.{LeavesAlone, LeavesAlone-bind, frame_rules}
use replicated_block_store.Server.{FileData}
use replicated_block_store.Server.Helper.{generate_temp_path, write_to_temp_file, source_bytes}
use replicated_block_store.Server.Comm.{stage_files}

source_bytes-LeavesAlone : (q : Bytes) (o : Option Bytes) → LeavesAlone q (source_bytes o)
source_bytes-LeavesAlone q none = record { at = λ d. refl }
source_bytes-LeavesAlone q (some buf) = record { at = λ d. refl }

-- Whatever fails on the way, staging one file changes no other file than its temporary one.
pub write_to_temp_file-LeavesAlone :
    (os : Faults) (q temp original buffer : Bytes) (from size offset : ℕ)
    → temp ≢ q
    → LeavesAlone q (write_to_temp_file os temp original buffer from size offset)
unfolding write_to_temp_file
write_to_temp_file-LeavesAlone os q temp original buffer from size offset h =
    search (frame_rules, source_bytes-LeavesAlone) depth 14

abbrev pub TempsApart : Bytes → List FileData → Type 0
TempsApart q = All (λ (f : FileData). generate_temp_path f.file_name ≢ q)

-- Whatever fails on the way, the loop that stages the files of a write changes no other file than
-- their temporary files.
pub stage_files-LeavesAlone :
    (os : Faults) (q buffer : Bytes) (from : ℕ) (fs : List FileData)
    → TempsApart q fs
    → LeavesAlone q (stage_files os buffer from fs)
unfolding stage_files
stage_files-LeavesAlone os q buffer from [] h = record { at = λ d. refl }
stage_files-LeavesAlone os q buffer from (f ∷ fs) (hf, hs) =
    let rest = stage_files-LeavesAlone os q buffer (from + f.size) fs hs in
    let first =
      write_to_temp_file-LeavesAlone os q (generate_temp_path f.file_name) f.file_name buffer from
        f.size f.offset hf in
    record { at = (LeavesAlone-bind q _ _ first (λ _. rest)).at }

-- An environment that refuses nothing.
abbrev pub Calm : Faults → Type 0
Calm os = (c : Call) (p : Bytes) → os c p ≡ none

abbrev pub content_or_empty : Option Bytes → Bytes
content_or_empty none = []
content_or_empty (some c) = c

-- Where nothing is refused, the temporary file is the original, written over what an earlier run
-- left there, and then the new bytes.
pub write_to_temp_file_lem :
    (os : Faults) (temp original buffer buf content : Bytes) (from size offset : ℕ) (d : Disk)
    → Calm os
    → temp ≢ original
    → d original ≡ some content
    → bytes_at buffer from size ≡ some buf
    → ((write_to_temp_file os temp original buffer from size offset d).0 ≡ done tt)
      × ((write_to_temp_file os temp original buffer from size offset d).1 temp
          ≡ some
              (overwrite (overwrite (content_or_empty (d temp)) (take 4096 content) 0) buf offset))
unfolding write_to_temp_file open_file open_create read_file write_file update
write_to_temp_file_lem os temp original buffer buf content from size offset d calm apart e b =
    ground (
      arith,
      calm opens_read original,
      calm creates temp,
      calm reads original,
      calm writes temp,
      calm pwrites temp,
      bytes_ne temp original apart,
      bytes_eq_refl temp,
    )
