-- ===== src/KvStore.antt =====
-- src/util/kv_store.h and kv_store.cc: the transactions in flight. Each function holds the
-- semaphore for all of its work, so that it is one step.
pub mod Laws
use replicated_block_store.Prelude.{
  ℕ, Option, none, some, List, [], ◌∷◌, ◌++◌, Bytes, ℤ, pos, negsuc, if◌then◌else◌,
}
use replicated_block_store.Map.{Map, find, contains, assign, erase}
use replicated_block_store.Wal.{State, start, abort, rpc_init, commit, pending_replication}

pub record TxnData : Type 0 where
  pub original_files : List Bytes
  pub sizes : List ℕ
  pub offsets : List ℕ
  pub state : State

-- What `KV_STORE[txn_id]` creates for a key that is missing: the state is 0, which is START.
abbrev pub default_data : TxnData
default_data = record { original_files = []; sizes = []; offsets = []; state = start }

abbrev pub data_or_default : Option TxnData → TxnData
data_or_default none = default_data
data_or_default (some t) = t

-- The number of a state.
unfoldable pub state_number : State → ℕ
state_number start = 0
state_number abort = 1
state_number rpc_init = 2
state_number commit = 3
state_number pending_replication = 4

-- `SetTxnData` of a fresh `TxnData`
unfoldable pub set_txn_data : List Bytes → List ℕ → List ℕ → TxnData
set_txn_data original_files sizes offsets = record {
  original_files = original_files;
  sizes = sizes;
  offsets = offsets;
  state = start;
}

unfoldable pub add_to_kv_store : Bytes → List Bytes → List ℕ → List ℕ → Map TxnData → Map TxnData
unfolding set_txn_data
add_to_kv_store txn_id original_files sizes offsets kv =
    if contains txn_id kv then kv else assign txn_id (set_txn_data original_files sizes offsets) kv

unfoldable pub get_state_from_kv_store : Bytes → Map TxnData → ℤ
unfolding state_number
get_state_from_kv_store txn_id kv = elim (find txn_id kv) [
  | none ↦ negsuc 0
  | some t ↦ pos (state_number t.state)
]

-- `KV_STORE[txn_id].state = state` creates an entry where there is none.
unfoldable pub update_state_on_kv_store : Bytes → State → Map TxnData → Map TxnData
update_state_on_kv_store txn_id s kv =
    assign txn_id (record (data_or_default (find txn_id kv)) { state = s }) kv

unfoldable pub delete_from_kv_store : Bytes → Map TxnData → Map TxnData
delete_from_kv_store txn_id kv = if contains txn_id kv then erase txn_id kv else kv

-- The data, and the store: reading a missing key creates its entry.
unfoldable pub get_transaction_data_from_kv_store : Bytes → Map TxnData → TxnData × Map TxnData
get_transaction_data_from_kv_store txn_id kv = elim (find txn_id kv) [
  | none ↦ (default_data, assign txn_id default_data kv)
  | some t ↦ (t, kv)
]
