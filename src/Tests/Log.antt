-- ===== src/Tests/Log.antt =====
-- A log with a transaction that was begun, replicated and committed, and one that is pending.
use replicated_block_store.Prelude.{
  ℕ, ◌≡◌, refl, ap, arith, none, some, List, [], ◌∷◌, Bytes, codes, All, bytes_eq, bytes_ne, drop,
  ◌≢◌, if◌then◌else◌, pos,
}
use replicated_block_store.Decimal.{to_string}
use replicated_block_store.Address.{get_path}
use replicated_block_store.Address.Blocks.{block_path}
use replicated_block_store.Server.View.{view, temp_path}
use replicated_block_store.Recovery.Keeping.{HasNoUndo}
use replicated_block_store.Recovery.OwnLog.{recover_keeps_blocks, undo-ne-block, undo-ne-log}
use replicated_block_store.Disk.{Disk, no_faults, open_file}
use replicated_block_store.Map.{find}
use replicated_block_store.Wal.{start, rpc_init, commit, pending_replication}
use replicated_block_store.Server.{returns, ok}
use replicated_block_store.Recovery.Parse.{load_data}
use replicated_block_store.Recovery.RoundTrip.{Record, enters, moves, log_of, IsClean}
use replicated_block_store.Recovery.History.{history, load_data-history}
use replicated_block_store.Recovery.Actions.{RecoveryStub, log_file_path, log_text, recover}
use replicated_block_store.Recovery.Completion.{recover_ends}

abbrev records : List (Bytes × Record)
records =
    (codes "17", enters start)
    ∷ (codes "17", moves (codes "/storage/0/1.tmp") (codes "/storage/0/1"))
    ∷ (codes "17", enters rpc_init)
    ∷ (codes "18", enters start)
    ∷ (codes "18", moves (codes "/storage/0/2.tmp") (codes "/storage/0/2"))
    ∷ (codes "18", enters pending_replication)
    ∷ (codes "17", enters commit)
    ∷ []

IsClean-records : All IsClean records
IsClean-records = omega arith

load_data-history_example :
    find (codes "17") (load_data (log_of records) []) ≡ history (codes "17") records none
unfolding find
load_data-history_example = load_data-history (codes "17") records [] IsClean-records

-- A peer that holds one write for us.
abbrev peer : RecoveryStub (Unit {0})
peer = record {
  get_transaction_state = λ id p. pos 3;
  commit_files = λ r p. (ok, p);
  get_pending = λ p. codes "18" ∷ [];
  force_pending_writes = λ ids p. (
    record {
      transaction_id = codes "18";
      file_name = codes "/storage/0/2";
      content = codes "abc";
      size = 3;
      offset = 1;
    }
        ∷ [],
    p,
  );
}

abbrev disk : Disk
disk p =
    if bytes_eq p log_file_path
    then some (log_of records)
    else if bytes_eq p (codes "/storage/0/2")
    then some (codes "xxxxx")
    else none

recover_ends_example :
    let w = recover no_faults peer disk tt in
    (w.0 ≡ returns (pos 0)) × (log_text no_faults w.1 ≡ [])
recover_ends_example = recover_ends no_faults peer disk tt (λ ids. (omega arith, tt)) refl

-- The log of a write of block 1 that was begun when the server stopped.
abbrev own_records : List (Bytes × Record)
own_records =
    (to_string 17, enters start)
    ∷ (to_string 17, moves (temp_path 1) (block_path 1))
    ∷ (to_string 17, enters pending_replication)
    ∷ []

abbrev own_disk : Disk
own_disk p =
    if bytes_eq p log_file_path
    then some (log_of own_records)
    else if bytes_eq p (block_path 1)
    then some (codes "old")
    else none

HasNoUndo-own_disk : HasNoUndo own_disk
HasNoUndo-own_disk f = rw (bytes_ne _ _ (undo-ne-log f), bytes_ne _ _ (undo-ne-block f 1))

text_of_own_disk : log_text no_faults own_disk ≡ log_of own_records
unfolding log_text open_file bytes_eq
text_of_own_disk = refl

path-ne-block : codes "/storage/0/2" ≢ block_path 1
unfolding block_path get_path
path-ne-block e =
    let second : ◌≡◌ {A = ℕ} b's' b'h' = ap (λ s. first_code (drop 1 s)) e in absurd (omega arith)
  where
    first_code : Bytes → ℕ
    first_code [] = 0
    first_code (c ∷ s) = c

recover_keeps_blocks_example : view (recover no_faults peer own_disk tt).1 1 ≡ view own_disk 1
recover_keeps_blocks_example =
    recover_keeps_blocks no_faults peer own_records own_disk tt 1 (omega arith) HasNoUndo-own_disk
      text_of_own_disk ((17, refl), ((17, 1, refl, omega arith, refl, refl), ((17, refl), tt)))
      (λ ids. (path-ne-block, tt))
