-- ===== src/Tests/Cached.antt =====
-- A write and two reads with the cache on.
use replicated_block_store.Prelude.{◌≡◌, refl, arith, true, [], ◌∷◌, codes, bytes_eq}
use replicated_block_store.Disk.{no_faults}
use replicated_block_store.Map.{find}
use replicated_block_store.Decimal.{to_string}
use replicated_block_store.Server.{Server, ok, returns}
use replicated_block_store.Server.Block.{read}
use replicated_block_store.Server.Write.{write, reply}
use replicated_block_store.Server.Link.{linked}
use replicated_block_store.Server.Sound.{IsReady-sound}
use replicated_block_store.Server.Replication.{write_replicates}
use replicated_block_store.Server.Caching.{read-write_cached}
use replicated_block_store.Tests.Sessions.{fresh, IsSound-fresh, page, length-page}

-- The cache holds what was read at 2049, of which the write changes all bytes but one.
abbrev warm : Server
warm = record fresh { cache = (codes "2049", codes "old") ∷ [] }

wrote :
    (write no_faults true (linked no_faults) (codes "1") 2048 page warm fresh).0
    ≡ returns (reply ok)
wrote =
    (write_replicates no_faults no_faults true (codes "1") page 2048 warm fresh (λ c p. refl)
      (λ c p. refl) (omega arith) length-page
      (IsReady-sound warm.disk 2048 (omega arith) IsSound-fresh)
      (IsReady-sound fresh.disk 2048 (omega arith) IsSound-fresh)).0

read-write_cached_example :
    let s' = (write no_faults true (linked no_faults) (codes "1") 2048 page warm fresh).1 in
    (read no_faults true 2048 s' ≡ (returns (record { status = ok; buffer = page; error = 0 }), s'))
    × (read no_faults true 2049 s'
        ≡ (returns (record { status = ok; buffer = codes "old"; error = 0 }), s'))
unfolding bytes_eq find to_string
read-write_cached_example =
    read-write_cached no_faults no_faults (linked no_faults) (codes "1") page (codes "old") 2048
      2049 warm fresh (omega arith) (omega arith) (omega arith) (λ e. cc) (λ e. cc) refl wrote
