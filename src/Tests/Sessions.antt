-- ===== src/Tests/Sessions.antt =====
-- Two servers that start on empty disks, behind a load balancer, and clients.
use replicated_block_store.Prelude.{
  ℕ, ◌≡◌, refl, ap, arith, true, none, some, [], ◌∷◌, List, Bytes, bytes_eq, codes, length,
  length-replicate, replicate,
}
use replicated_block_store.Disk.{Disk, no_faults}
use replicated_block_store.Decimal.{to_string}
use replicated_block_store.Address.{block_size}
use replicated_block_store.Device.{Device}
use replicated_block_store.Server.{Server, ok}
use replicated_block_store.System.Pinging.{client_ping, client_ping_lem}
use replicated_block_store.Server.View.{view, temp_view}
use replicated_block_store.Server.Sound.{IsSound}
use replicated_block_store.Storage.{prepare_storage}
use replicated_block_store.Storage.Ready.{prepare_storage-IsSound}
use replicated_block_store.System.{Site}
use replicated_block_store.System.Serving.{IsCalm, Holds}
use replicated_block_store.System.Session.{
  Op, put, get, IsHealthy, Fits, session, session_device, session_lem,
}
use replicated_block_store.System.Failover.{
  started, IsHealthy-started, lose_a, fail_over, fail_over-keeps_writes,
}
use replicated_block_store.Performance.Rounds.{failures, here, through, request, over, round}
use replicated_block_store.Performance.ReadWrite
use replicated_block_store.Performance.ReadWrite.InBounds.{main_succeeds}
use replicated_block_store.Performance.Latency.{run_test, exec_write, run_test_succeeds}
use replicated_block_store.Performance.Concurrent.{test_read_write, passed, test_read_write_passes}
use replicated_block_store.Device.{write_device}

abbrev pub empty : Disk
empty p = none

pub fresh : Server
fresh = record { disk = prepare_storage no_faults empty; kv_store = []; cache = [] }

abbrev device : Device
device = view fresh.disk

pub IsSound-fresh : IsSound fresh.disk
unfolding fresh view temp_view
IsSound-fresh =
    (prepare_storage-IsSound no_faults (λ c p. refl) empty (λ b hb. omega arith) (λ b hb. refl)).0

Holds-fresh : Holds device fresh.disk
Holds-fresh = record { sound = IsSound-fresh; same = λ b hb. refl }

abbrev pub site : Site
site = record {
  addr_a = codes "10.0.0.1:50051";
  addr_b = codes "10.0.0.12:50051";
  up_a = true;
  up_b = true;
  os_a = no_faults;
  os_b = no_faults;
  clock = to_string;
}

pub IsCalm-site : IsCalm site
IsCalm-site = record {
  apart = λ e. let unequal : 15 ≡ 14 = ap (length {A = ℕ}) e in absurd (omega arith);
  named = λ e. cc;
  calm_a = λ c p. refl;
  calm_b = λ c p. refl;
}

abbrev pub page : Bytes
page = replicate 4096 b'x'

pub length-page : length page ≡ block_size
length-page = length-replicate {A = ℕ} 4096 b'x'

-- A write across two blocks, read back twice, by way of both servers.
abbrev pub ops : List Op
ops = put 2048 page ∷ get 2048 ∷ get 2048 ∷ []

pub Fits-ops : Fits ops
Fits-ops = ((omega arith, length-page), (omega arith, (omega arith, tt)))

-- The same range again, once the first server is lost.
abbrev pub more : List Op
more = get 2048 ∷ []

pub Fits-more : Fits more
Fits-more = (omega arith, tt)

IsHealthy-fresh : IsHealthy site site.addr_a site.addr_b device (started site fresh fresh)
IsHealthy-fresh =
    IsHealthy-started site device fresh fresh (λ e. cc) refl refl Holds-fresh Holds-fresh

session_lem_example :
    ((session site ops (started site fresh fresh)).0 ≡ (session_device ops device).0)
    × IsHealthy site site.addr_a site.addr_b
        (session_device ops device).1
        (session site ops (started site fresh fresh)).1
session_lem_example =
    session_lem site site.addr_a site.addr_b ops device (started site fresh fresh) IsCalm-site
      Fits-ops IsHealthy-fresh

fail_over-keeps_writes_example :
    let (answers, c) = session site ops (started site fresh fresh) in
    let (answers', c') = session (lose_a site) more (fail_over site c) in
    (answers ≡ (session_device ops device).0)
    × (answers' ≡ (session_device more (session_device ops device).1).0)
fail_over-keeps_writes_example =
    fail_over-keeps_writes site ops more device fresh fresh IsCalm-site (λ e. cc) refl refl
      Holds-fresh Holds-fresh Fits-ops Fits-more

test_read_write_passes_example :
    ((test_read_write site 4097 b'b' (started site fresh fresh)).0 ≡ passed)
    × IsHealthy site site.addr_a site.addr_b
        (write_device 4097 (replicate 4096 b'b') device)
        (test_read_write site 4097 b'b' (started site fresh fresh)).1
test_read_write_passes_example =
    test_read_write_passes site site.addr_a site.addr_b 4097 b'b' device (started site fresh fresh)
      IsCalm-site IsHealthy-fresh (omega arith) (omega arith)

-- rw_perf with the arguments 3 and 1: one write at address 0, and one at 2048.
write_page : ℕ → Op
write_page addr = put addr (replicate 4096 b'w')

main_succeeds_example :
    failures (session site (write_page 0 ∷ write_page 2048 ∷ []) (started site fresh fresh)).0 ≡ 0
unfolding write_page ReadWrite.main bytes_eq
main_succeeds_example =
    main_succeeds site (codes "3") 1 (write_page 0 ∷ write_page 2048 ∷ []) device
      (started site fresh fresh) IsCalm-site IsHealthy-fresh (omega arith)
      (round (request here (through (refl, tt))) (round (request here (through (refl, tt))) over))

run_test_succeeds_example :
    let writes = exec_write 2048 4096 3 2 in
    (reads : List Op) × (run_test 0 2048 4096 3 2 ≡ some reads)
    × (length reads ≡ 6)
    × (failures (session site reads (started site fresh fresh)).0 ≡ 0)
    × (length writes ≡ 6)
    × (failures (session site writes (started site fresh fresh)).0 ≡ 0)
run_test_succeeds_example =
    run_test_succeeds site site.addr_a site.addr_b 0 2048 4096 3 2 device (started site fresh fresh)
      IsCalm-site IsHealthy-fresh (omega arith) (omega arith)

client_ping_lem_example :
    ((client_ping site (started site fresh fresh)).0 ≡ ok)
    × IsHealthy site site.addr_a site.addr_b device (client_ping site (started site fresh fresh)).1
client_ping_lem_example =
    client_ping_lem site site.addr_a site.addr_b device (started site fresh fresh) IsCalm-site
      IsHealthy-fresh
