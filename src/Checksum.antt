-- ===== src/Checksum.antt =====
-- The program src/crc.cc, which prints the checksum of the files that it is given. Boost's
-- `crc_32_type` is a parameter: its state, and what `process_bytes` makes of it.
use replicated_block_store.Prelude.{
  ℕ, zero, suc, ◌≡◌, ◌<◌, ap, sym, ◌∙◌, Option, none, some, Bool-cases, inl, inr, Option-cases,
  length-drop, length-take, take-append-drop, take_all, List, [], ◌∷◌, ◌++◌, Bytes, take, drop,
  length, ◌==◌, if◌then◌else◌, arith,
}
use replicated_block_store.Io.{done, failed, undefined}
use replicated_block_store.Disk.{Disk, Faults, opens_read, open_file}

abbrev pub buffer_size : ℕ
buffer_size = 1024

-- What of a file an `ifstream` reads: nothing where it cannot be opened.
unfoldable pub opened : Faults → Disk → Bytes → Option Bytes
unfolding open_file
opened os d p = elim (open_file os opens_read p d).0 [
  | done t ↦ d p
  | failed e ↦ none
  | undefined ↦ none
]

module _ {R : Type 0} (process_bytes : Bytes → R → R) where
  -- The loop over a file: a read of fewer bytes than asked for ends it. `none` is fuel that is too
  -- little.
  unfoldable pub process_file : ℕ → Bytes → R → Option R
  process_file zero rest result = none
  process_file (suc fuel) rest result =
      let buffer = take buffer_size rest in
      let result' = process_bytes buffer result in
      let more = process_file fuel (drop buffer_size rest) result' in
      if length buffer == buffer_size then more else some result'

  -- The loop over the arguments; a file that cannot be opened is passed over.
  unfoldable pub process_files : Faults → List Bytes → Disk → R → Option R
  unfolding process_file opened
  process_files os [] d result = some result
  process_files os (p ∷ ps) d result = elim (opened os d p) [
    | none ↦ process_files os ps d result
    | some content ↦ elim (process_file (suc (length content)) content result) [
      | none ↦ none
      | some result' ↦ process_files os ps d result'
    ]
  ]

-- All the bytes of the files that can be opened, one behind the other.
unfoldable pub contents : Faults → List Bytes → Disk → Bytes
unfolding opened
contents os [] d = []
contents os (p ∷ ps) d =
    let rest = contents os ps d in
    elim (opened os d p) [ none ↦ rest | some content ↦ content ++ rest ]

module _ {R : Type 0} (process_bytes : Bytes → R → R)
    (process-nil : (r : R) → process_bytes [] r ≡ r)
    (process-append : (xs ys : Bytes) (r : R)
      → process_bytes ys (process_bytes xs r) ≡ process_bytes (xs ++ ys) r) where
  process_file_lem :
      (fuel : ℕ) (rest : Bytes) (r : R)
      → length rest < fuel
      → process_file process_bytes fuel rest r ≡ some (process_bytes rest r)
  unfolding process_file
  process_file_lem zero rest r h = absurd (omega arith)
  process_file_lem (suc fuel) rest r h = elim (Bool-cases (length (take 1024 rest) == 1024)) [
    | inl e ↦
        let shorter : length (drop 1024 rest) < fuel =
          ground (arith, length-drop 1024 rest, length-take 1024 rest) in
        rw e (
          process_file_lem fuel (drop 1024 rest) (process_bytes (take 1024 rest) r) shorter
          ∙ ap some (process-append (take 1024 rest) (drop 1024 rest) r)
          ∙ ap (λ bs. some (process_bytes bs r)) (take-append-drop 1024 rest))
    | inr e ↦ rw e (
        ap (λ bs. some (process_bytes bs r))
          (take_all 1024 rest (ground (arith, length-take 1024 rest))))
  ]

  -- The checksum of the files is that of all their bytes at once: where processing no bytes does
  -- nothing, and processing two pieces in a row is processing them as one, both loops end, and the
  -- result is what the bytes of the files that can be opened, one behind the other, come to, however
  -- they fall into reads of 1024 bytes. A read of an open file does not fail.
  pub process_files_lem :
      (os : Faults) (ps : List Bytes) (d : Disk) (r : R)
      → process_files process_bytes os ps d r ≡ some (process_bytes (contents os ps d) r)
  unfolding process_files contents
  process_files_lem os [] d r = ap some (sym (process-nil r))
  process_files_lem os (p ∷ ps) d r = elim (Option-cases (opened os d p)) [
    | inl e ↦ rw (e, process_files, contents) (process_files_lem os ps d r)
    | inr (content, e) ↦
        rw
          (
            e,
            process_files,
            contents,
            process_file_lem (suc (length content)) content r (omega arith),
          )
          (process_files_lem os ps d (process_bytes content r)
            ∙ ap some (process-append content (contents os ps d) r))
  ]
