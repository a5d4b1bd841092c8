-- ===== src/Tests/Starting.antt =====
-- Two block servers that start for the first time, with no peer to ask.
use replicated_block_store.Prelude.{
  ℕ, ◌≡◌, ◌≤◌, ◌≢◌, refl, arith, true, none, [], codes, negsuc, bytes_eq,
}
use replicated_block_store.Disk.{no_faults, open_file}
use replicated_block_store.Address.Paths.{max_blocks}
use replicated_block_store.Server.{returns, unavailable, wal_path}
use replicated_block_store.Server.View.{view, temp_view}
use replicated_block_store.Server.Sound.{IsSound}
use replicated_block_store.Recovery.Actions.{RecoveryStub, log_text}
use replicated_block_store.System.Session.{session, session_device}
use replicated_block_store.System.Failover.{lose_a}
use replicated_block_store.Startup.{start_up, convert_to_local_addr, start_identity}
use replicated_block_store.Startup.Restart.{IsAtRest, prepared, start_up-keeps_blocks}
use replicated_block_store.Startup.Serving.{serving, behind_loss, start_up-serves}
use replicated_block_store.Tests.Sessions.{empty, site, IsCalm-site, ops, Fits-ops, more, Fits-more}

-- A peer that cannot be reached: its replies stay empty.
abbrev no_peer : RecoveryStub (Unit {0})
no_peer = record {
  get_transaction_state = λ id p. negsuc 0;
  commit_files = λ r p. (unavailable, p);
  get_pending = λ p. [];
  force_pending_writes = λ ids p. ([], p);
}

IsAtRest-empty : IsAtRest no_faults [] empty
unfolding view temp_view log_text open_file
IsAtRest-empty = record {
  fits = λ b hb. omega arith;
  clean = λ b hb. refl;
  no_undo = λ f. refl;
  own = tt;
  text = refl;
}

local_addr : convert_to_local_addr (codes "20.124.236.11:40051") ≡ codes "0.0.0.0:40051"
unfolding convert_to_local_addr
local_addr = refl

-- An address with no colon is all port.
no_port : convert_to_local_addr (codes "localhost") ≡ codes "0.0.0.0:localhost"
unfolding convert_to_local_addr
no_port = refl

lower_case : start_identity (codes "backup") ≡ codes "PRIMARY"
unfolding start_identity bytes_eq
lower_case = refl

start_up-keeps_blocks_example :
    let (o, f, _) = start_up no_faults no_peer empty tt in
    (o ≡ returns true)
    × IsSound f
    × ((b : ℕ) → b ≤ max_blocks → view f b ≡ prepared (view empty) b)
    × (f wal_path ≢ none)
    × IsAtRest no_faults [] f
start_up-keeps_blocks_example =
    start_up-keeps_blocks no_faults (λ c p. refl) no_peer [] empty tt (λ ids. refl) IsAtRest-empty

start_up-serves_example :
    let (o, a, _) = start_up no_faults no_peer empty tt in
    let (o', b, _) = start_up no_faults no_peer empty tt in
    let (answers, c) = session site ops (serving site 4 3 a b) in
    let (answers', _) = session (lose_a site) more (behind_loss site 4 3 2 c) in
    let v = prepared (view empty) in
    (o ≡ returns true)
    × (o' ≡ returns true)
    × (answers ≡ (session_device ops v).0)
    × (answers' ≡ (session_device more (session_device ops v).1).0)
start_up-serves_example =
    start_up-serves site no_peer no_peer [] [] empty empty tt tt 4 3 0 ops more IsCalm-site
      (λ e. cc) refl refl (λ ids. refl) (λ ids. refl) IsAtRest-empty IsAtRest-empty (λ b hb. refl)
      Fits-ops Fits-more
