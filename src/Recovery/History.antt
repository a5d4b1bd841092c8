-- ===== src/Recovery/History.antt =====
-- What `LoadData` of src/util/crash_recovery.cc makes of each transaction.
use replicated_block_store.Prelude.{
  Option, none, some, ap, ◌∙◌, bytes_eq, bytes_eq_iff, if◌then◌else◌, ◌≡◌, refl, List, [], ◌∷◌,
  ◌++◌, All, Bytes, arith, bytes_eq,
}
use replicated_block_store.Map.{find, find-assign, Map}
use replicated_block_store.Wal.{
  State, start, abort, rpc_init, commit, pending_replication, state_name,
}
use replicated_block_store.Recovery.Parse.{
  LogData, Operation, move, invalid, unset, load_state, load_operation, load_data,
}
use replicated_block_store.Recovery.RoundTrip.{
  Record, enters, moves, log_of, replay, IsClean, load_data-log_of,
}

-- What one record makes of its transaction. PENDING_REPLICATION counts as an operation on two files,
-- whose names are the id and the word itself.
abbrev entered : Option LogData → State → LogData
entered none st = record { op = unset; file_names = []; state = st }
entered (some l) st = record l { state = st }

abbrev extended : Option LogData → Operation → Bytes → Bytes → LogData
extended none op a b = record { op = op; file_names = a ∷ b ∷ []; state = start }
extended (some l) op a b = record l { op = op; file_names = l.file_names ++ (a ∷ b ∷ []) }

abbrev pub recorded : Bytes → Record → Option LogData → LogData
recorded id (enters pending_replication) o = extended o invalid id (state_name pending_replication)
recorded id (enters st) o = entered o st
recorded id (moves tmp original) o = extended o move tmp original

-- What the records of one transaction make of it, in order; those of other transactions do not count.
abbrev pub history : Bytes → List (Bytes × Record) → Option LogData → Option LogData
history id [] o = o
history id ((j, r) ∷ rs) o =
    if bytes_eq j id then history id rs (some (recorded j r o)) else history id rs o

find-load_state :
    (id j : Bytes) (st : State) (m : Map LogData)
    → find id (load_state j st m)
      ≡ (if bytes_eq j id then some (entered (find j m) st) else find id m)
unfolding load_state
find-load_state id j st m = find-assign j id _ m ∙ ground arith

find-load_operation :
    (id j : Bytes) (op : Operation) (a b : Bytes) (m : Map LogData)
    → find id (load_operation j op a b m)
      ≡ (if bytes_eq j id then some (extended (find j m) op a b) else find id m)
unfolding load_operation
find-load_operation id j op a b m = find-assign j id _ m ∙ ground arith

find-replay :
    (id : Bytes) (rs : List (Bytes × Record)) (m : Map LogData)
    → find id (replay rs m) ≡ history id rs (find id m)
find-replay id [] m = refl
find-replay id ((j, enters pending_replication) ∷ rs) m = ground (
  arith,
  find-replay id rs (load_operation j invalid j (state_name pending_replication) m),
  find-load_operation id j invalid j (state_name pending_replication) m,
  bytes_eq_iff j id,
)
find-replay id ((j, enters start) ∷ rs) m = ground (
  arith,
  find-replay id rs (load_state j start m),
  find-load_state id j start m,
  bytes_eq_iff j id,
)
find-replay id ((j, enters abort) ∷ rs) m = ground (
  arith,
  find-replay id rs (load_state j abort m),
  find-load_state id j abort m,
  bytes_eq_iff j id,
)
find-replay id ((j, enters rpc_init) ∷ rs) m = ground (
  arith,
  find-replay id rs (load_state j rpc_init m),
  find-load_state id j rpc_init m,
  bytes_eq_iff j id,
)
find-replay id ((j, enters commit) ∷ rs) m = ground (
  arith,
  find-replay id rs (load_state j commit m),
  find-load_state id j commit m,
  bytes_eq_iff j id,
)
find-replay id ((j, moves tmp original) ∷ rs) m = ground (
  arith,
  find-replay id rs (load_operation j move tmp original m),
  find-load_operation id j move tmp original m,
  bytes_eq_iff j id,
)

-- `LoadData` reads a log that was written record by record, over ids and paths that hold neither a
-- colon nor a newline: it gives every transaction the state of its last record of a state that is
-- not PENDING_REPLICATION, and the files of its renames in order. A record of PENDING_REPLICATION
-- counts as an unknown operation on two files, whose names are the id and the word itself.
pub load_data-history :
    (id : Bytes) (rs : List (Bytes × Record)) (m : Map LogData)
    → All IsClean rs
    → find id (load_data (log_of rs) m) ≡ history id rs (find id m)
load_data-history id rs m h = ap (find id) (load_data-log_of rs m h) ∙ find-replay id rs m
