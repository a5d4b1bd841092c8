-- ===== src/KvStore/Laws.antt =====
-- Lookups behind the operations of src/util/kv_store.cc.
use replicated_block_store.Prelude.{
  ℕ, ◌≡◌, none, some, List, arith, Bytes, bytes_eq, bytes_eq_iff, bytes_eq_refl, if◌then◌else◌,
}
use replicated_block_store.Map.{Map, find, contains, find-assign, find-erase}
use replicated_block_store.Wal.{State}
use replicated_block_store.KvStore.{
  TxnData, data_or_default, set_txn_data, add_to_kv_store, update_state_on_kv_store,
  delete_from_kv_store,
}

-- Adding a transaction shows its data in the state START, unless the id is taken; no other
-- transaction changes.
pub find-add :
    (txn_id j : Bytes) (files : List Bytes) (sizes offsets : List ℕ) (kv : Map TxnData)
    → find j (add_to_kv_store txn_id files sizes offsets kv) ≡ (
        if bytes_eq txn_id j
        then some (elim (find txn_id kv) [ none ↦ set_txn_data files sizes offsets | some t ↦ t ])
        else find j kv)
unfolding add_to_kv_store contains
find-add txn_id j files sizes offsets kv =
    ground
      (arith, find-assign txn_id j (set_txn_data files sizes offsets) kv, bytes_eq_iff txn_id j)

pub find-update :
    (txn_id j : Bytes) (s : State) (kv : Map TxnData)
    → find j (update_state_on_kv_store txn_id s kv) ≡ (
        if bytes_eq txn_id j
        then some (record (data_or_default (find txn_id kv)) { state = s })
        else find j kv)
unfolding update_state_on_kv_store
find-update txn_id j s kv = find-assign txn_id j _ kv

pub find-delete :
    (txn_id j : Bytes) (kv : Map TxnData)
    → find j (delete_from_kv_store txn_id kv) ≡ (if bytes_eq txn_id j then none else find j kv)
unfolding delete_from_kv_store contains
find-delete txn_id j kv = ground (arith, find-erase txn_id j kv, bytes_eq_iff txn_id j)

-- A transaction that is added under a free id and then moved to a state has its data and that state.
pub find-update-add :
    (txn_id : Bytes) (files : List Bytes) (sizes offsets : List ℕ) (st : State) (kv : Map TxnData)
    → find txn_id kv ≡ none
    → find txn_id
        (update_state_on_kv_store txn_id st (add_to_kv_store txn_id files sizes offsets kv))
      ≡ some (record { original_files = files; sizes = sizes; offsets = offsets; state = st })
unfolding set_txn_data
find-update-add txn_id files sizes offsets st kv free = ground (
  arith,
  find-update txn_id txn_id st (add_to_kv_store txn_id files sizes offsets kv),
  find-add txn_id txn_id files sizes offsets kv,
  bytes_eq_refl txn_id,
)
