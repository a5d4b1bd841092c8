-- ===== src/Tests/Syncing.antt =====
-- Synchronisations of a backup.
use replicated_block_store.Prelude.{ℕ, ◌+◌, ◌<◌, ◌≡◌, ◌⊎◌, refl, arith, [], ◌∷◌}
use replicated_block_store.Sync.{
  Session, start, writes_status, stop_write, caller_step, Run, here, next, calls, stopped,
}
use replicated_block_store.Sync.Exploring.{CanStep, IsOver, synchronises}
use replicated_block_store.Sync.Balance.{Ends, serving, serve_releases}

-- The client has asked for a stop of the writes.
abbrev asked : Session
asked = record (start 1) { caller = stopped; requests = stop_write ∷ [] }

Run-asked : Run 1 (start 1) asked
unfolding caller_step
Run-asked = next (calls refl) here

synchronises_example : (1 < 40) × (CanStep asked ⊎ IsOver asked)
synchronises_example = synchronises 1 asked Run-asked

-- Only the status is asked for.
serve_releases_example : (n : ℕ) × Ends (serving (writes_status ∷ []) (start 1)) n × (n + 0 ≡ 2)
serve_releases_example = serve_releases (writes_status ∷ []) (start 1) (omega arith)
