-- ===== src/Txn.antt =====
-- src/util/txn.h and txn.cc: a transaction's status and its renames.
use replicated_block_store.Prelude.{List, [], Bytes}

pub record Txn : Type 0 where
  pub status : Bytes
  pub ops : List (Bytes × Bytes)

unfoldable pub new_txn : Txn
new_txn = record { status = []; ops = [] }

unfoldable pub set_status : Bytes → Txn → Txn
set_status new_status t = record t { status = new_status }

unfoldable pub get_status : Txn → Bytes
get_status t = t.status

unfoldable pub set_ops : List (Bytes × Bytes) → Txn → Txn
set_ops ops t = record t { ops = ops }

unfoldable pub get_ops : Txn → List (Bytes × Bytes)
get_ops t = t.ops
