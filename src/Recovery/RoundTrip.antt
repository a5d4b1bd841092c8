-- ===== src/Recovery/RoundTrip.antt =====
-- The log that src/util/wal.cc writes, read by `LoadData` of src/util/crash_recovery.cc.
use replicated_block_store.Prelude.{
  ◌∙◌, bytes_eq, ◌≡◌, ◌≢◌, refl, List, [], ◌∷◌, ◌++◌, append-nil, append_assoc, All, All-append,
  Bytes, arith, bytes_eq,
}
use replicated_block_store.Map.{Map}
use replicated_block_store.Wal.{
  State, start, abort, rpc_init, commit, pending_replication, state_name, mv, state_line, move_line,
}
use replicated_block_store.Recovery.Parse.{
  LogData, move, invalid, colon, state_of, get_operation, load_state, load_operation, load_fields,
  load_line, load_last, load_lines, load_data,
}
use replicated_block_store.Recovery.Cut.{
  HasNoColon, HasNoNewline, state_name-HasNoColon, fields_of-two, fields_of-four,
}

-- What the log writes, and what `LoadData` should make of it.
pub data Record : Type 0 where
  enters : State → Record
  moves : Bytes → Bytes → Record

abbrev pub line_of : Bytes → Record → Bytes
line_of id (enters st) = state_line id st
line_of id (moves tmp original) = move_line id (tmp, original)

abbrev pub log_of : List (Bytes × Record) → Bytes
log_of [] = []
log_of ((id, r) ∷ rs) = line_of id r ++ log_of rs

-- A state replaces the state, a rename adds its two names; PENDING_REPLICATION, which `IsState`
-- does not know, is taken for an operation that no one has heard of, on two files: the transaction's
-- id and the word itself.
abbrev pub replay : List (Bytes × Record) → Map LogData → Map LogData
replay [] m = m
replay ((id, enters pending_replication) ∷ rs) m =
    replay rs (load_operation id invalid id (state_name pending_replication) m)
replay ((id, enters st) ∷ rs) m = replay rs (load_state id st m)
replay ((id, moves tmp original) ∷ rs) m = replay rs (load_operation id move tmp original m)

-- A word of the log: neither the delimiter nor the end of a line stands in it.
abbrev pub IsWord : Bytes → Type 0
IsWord = All (λ c. (c ≢ colon) × (c ≢ 10))

abbrev pub IsClean : Bytes × Record → Type 0
IsClean (id, enters st) = IsWord id
IsClean (id, moves tmp original) = IsWord id × IsWord tmp × IsWord original

-- A line without its newline.
abbrev line_text : Bytes → Record → Bytes
line_text id (enters st) = id ++ colon ∷ state_name st
line_text id (moves tmp original) = id ++ colon ∷ (mv ++ colon ∷ (tmp ++ colon ∷ original))

line_of-text :
    (id : Bytes) (r : Record) (rest : Bytes) → line_of id r ++ rest ≡ line_text id r ++ 10 ∷ rest
unfolding state_line move_line
line_of-text id (enters st) rest = simp append_assoc
line_of-text id (moves tmp original) rest = simp append_assoc

load_lines-line :
    (line rest before : Bytes) (m : Map LogData)
    → HasNoNewline line
    → load_lines before (line ++ 10 ∷ rest) m ≡ load_lines [] rest (load_line (before ++ line) m)
unfolding load_lines
load_lines-line [] rest before m h = rw append-nil
load_lines-line (c ∷ line) rest before m (hc, h) =
    ground
      (arith, load_lines-line line rest (before ++ c ∷ []) m h, append_assoc before (c ∷ []) line)

no_colon : (s : Bytes) → IsWord s → HasNoColon s
no_colon [] h = tt
no_colon (c ∷ s) (hc, h) = (hc.0, no_colon s h)

no_newline : (s : Bytes) → IsWord s → HasNoNewline s
no_newline [] h = tt
no_newline (c ∷ s) (hc, h) = (hc.1, no_newline s h)

state_name-HasNoNewline : (st : State) → HasNoNewline (state_name st)
unfolding state_name
state_name-HasNoNewline start = omega arith
state_name-HasNoNewline abort = omega arith
state_name-HasNoNewline rpc_init = omega arith
state_name-HasNoNewline commit = omega arith
state_name-HasNoNewline pending_replication = omega arith

line_text-HasNoNewline : (id : Bytes) (r : Record) → IsClean (id, r) → HasNoNewline (line_text id r)
line_text-HasNoNewline id (enters st) h =
    All-append _ id _ (no_newline id h) (omega arith, state_name-HasNoNewline st)
line_text-HasNoNewline id (moves tmp original) (h, ht, ho) = All-append _ id _ (no_newline id h) (
  omega arith,
  (
    omega arith,
    (
      omega arith,
      (omega arith, All-append _ tmp _ (no_newline tmp ht) (omega arith, no_newline original ho)),
    ),
  ),
)

-- One line of the log, as `LoadData` takes it.
load_line-text :
    (id : Bytes) (r : Record) (rs : List (Bytes × Record)) (m : Map LogData)
    → IsClean (id, r)
    → replay rs (load_line (line_text id r) m) ≡ replay ((id, r) ∷ rs) m
unfolding load_line load_fields
load_line-text id (enters pending_replication) rs m h =
    rw
      (fields_of-two id (state_name pending_replication) (no_colon id h)
        (state_name-HasNoColon pending_replication))
      (unfold state_of get_operation state_name bytes_eq in refl)
load_line-text id (enters start) rs m h =
    rw (fields_of-two id (state_name start) (no_colon id h) (state_name-HasNoColon start))
      (unfold state_of state_name bytes_eq in refl)
load_line-text id (enters abort) rs m h =
    rw (fields_of-two id (state_name abort) (no_colon id h) (state_name-HasNoColon abort))
      (unfold state_of state_name bytes_eq in refl)
load_line-text id (enters rpc_init) rs m h =
    rw (fields_of-two id (state_name rpc_init) (no_colon id h) (state_name-HasNoColon rpc_init))
      (unfold state_of state_name bytes_eq in refl)
load_line-text id (enters commit) rs m h =
    rw (fields_of-two id (state_name commit) (no_colon id h) (state_name-HasNoColon commit))
      (unfold state_of state_name bytes_eq in refl)
load_line-text id (moves tmp original) rs m (h, ht, ho) =
    rw
      (fields_of-four id mv tmp original (no_colon id h) (omega arith) (no_colon tmp ht)
        (no_colon original ho))
      (unfold state_of get_operation state_name bytes_eq in refl)

pub load_data-log_of :
    (rs : List (Bytes × Record)) (m : Map LogData)
    → All IsClean rs
    → load_data (log_of rs) m ≡ replay rs m
unfolding load_data
load_data-log_of [] m h = unfold load_lines load_last in refl
load_data-log_of ((id, r) ∷ rs) m (hr, h) = rw line_of-text (
    load_lines-line (line_text id r) (log_of rs) [] m (line_text-HasNoNewline id r hr)
    ∙ load_data-log_of rs (load_line (line_text id r) m) h
    ∙ load_line-text id r rs m hr)
