-- ===== src/Recovery/Parse.antt =====
-- `LoadData` of src/util/crash_recovery.cc.
use replicated_block_store.Prelude.{
  ℕ, suc, ◌+◌, ◌-◌, Option, none, some, List, [], ◌∷◌, ◌++◌, Bytes, take, drop, bytes_eq, ltb, ◌==◌,
  if◌then◌else◌,
}
use replicated_block_store.Map.{Map, find, assign}
use replicated_block_store.Wal.{State, start, abort, rpc_init, commit, state_name, mv}

-- `Command::op`: MOVE, the -1 of another word, or a variable that was never set.
pub data Operation : Type 0 where
  move invalid unset : Operation

-- `LogData` with its command.
pub record LogData : Type 0 where
  pub op : Operation
  pub file_names : List Bytes
  pub state : State

-- What `logMap[id]` creates for a key that is missing: all zero, so MOVE and START.
abbrev pub default_log : LogData
default_log = record { op = move; file_names = []; state = start }

abbrev pub log_or_default : Option LogData → LogData
log_or_default none = default_log
log_or_default (some l) = l

abbrev pub colon : ℕ
colon = b':'

-- The number of bytes up to and with the first colon; 0 where there is none.
unfoldable pub past_colon : Bytes → ℕ
past_colon [] = 0
past_colon (c ∷ s) =
    let rest = past_colon s in if c == colon then 1 else if rest == 0 then 0 else suc rest

-- `line.find(DELIM, pos)` plus one, so that `npos`, which an `int` holds as -1, is 0.
unfoldable pub find_delim : Bytes → ℕ → ℕ
unfolding past_colon
find_delim line pos = let k = past_colon (drop pos line) in if k == 0 then 0 else pos + k

-- `line.substr(pos, a - b)`: a negative count is a huge `size_t`, which means all of the rest.
unfoldable pub substr : Bytes → ℕ → ℕ → ℕ → Bytes
substr line pos a b = if ltb a b then drop pos line else take (a - b) (drop pos line)

-- `GetStateOfCurrentServer`, and `none` where `IsState` is false: PENDING_REPLICATION is not among
-- the words that it knows.
unfoldable pub state_of : Bytes → Option State
unfolding state_name
state_of val =
    if bytes_eq val (state_name start)
    then some start
    else if bytes_eq val (state_name abort)
    then some abort
    else if bytes_eq val (state_name rpc_init)
    then some rpc_init
    else if bytes_eq val (state_name commit)
    then some commit
    else none

unfoldable pub get_operation : Bytes → Operation
get_operation op = if bytes_eq op mv then move else invalid

-- The branch of a state.
unfoldable pub load_state : Bytes → State → Map LogData → Map LogData
load_state id st m =
    assign id
      (elim (find id m) [
        | none ↦ record { op = unset; file_names = []; state = st }
        | some l ↦ record l { state = st }
      ])
      m

-- The branch of an operation: two file names are appended.
unfoldable pub load_operation : Bytes → Operation → Bytes → Bytes → Map LogData → Map LogData
load_operation id op file_1 file_2 m =
    let l = log_or_default (find id m) in
    assign id (record l { op = op; file_names = l.file_names ++ (file_1 ∷ file_2 ∷ []) }) m

-- What is cut out of a line. The file names are looked for in every line here; only the branch of
-- an operation uses them.
pub record Fields : Type 0 where
  pub id : Bytes
  pub val : Bytes
  pub file_1 : Bytes
  pub file_2 : Bytes

-- `id_end`, `val_end`, … are the source's variables plus one.
unfoldable pub fields_of : Bytes → Fields
fields_of line =
    let id_end = find_delim line 0 in
    let val_end = find_delim line id_end in
    let file_end = find_delim line val_end in
    let file_end_2 = find_delim line file_end in
    record {
      id = substr line 0 id_end 1;
      val = substr line id_end val_end (id_end + 1);
      file_1 = substr line val_end file_end (val_end + 1);
      file_2 = substr line file_end file_end_2 (file_end + 3);
    }

unfoldable pub load_fields : Fields → Map LogData → Map LogData
load_fields f m = elim (state_of f.val) [
  | some st ↦ load_state f.id st m
  | none ↦ load_operation f.id (get_operation f.val) f.file_1 f.file_2 m
]

unfoldable pub load_line : Bytes → Map LogData → Map LogData
unfolding fields_of load_fields
load_line line m = load_fields (fields_of line) m

-- `getline` until the end: the lines of a text, the last one also where it does not end in a
-- newline.
unfoldable pub load_last : Bytes → Map LogData → Map LogData
load_last [] m = m
load_last (c ∷ s) m = load_line (c ∷ s) m

unfoldable pub load_lines : Bytes → Bytes → Map LogData → Map LogData
unfolding load_last
load_lines line [] m = load_last line m
load_lines line (c ∷ s) m =
    let more = load_lines (line ++ c ∷ []) s m in
    let next = load_lines [] s (load_line line m) in if c == 10 then next else more

unfoldable pub load_data : Bytes → Map LogData → Map LogData
unfolding load_lines
load_data text m = load_lines [] text m
