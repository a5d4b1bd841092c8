-- ===== src/Performance/ReadWrite.antt =====
-- performance/rw_perf.cc: which requests its workers make. What they read back is not looked at, so
-- that a worker is the list of its requests.
pub mod InBounds
use replicated_block_store.Prelude.{
  ℕ, zero, suc, ◌+◌, ◌*◌, ◌/◌, leb, Option, none, some, List, [], ◌∷◌, ◌++◌, map, Bytes, codes,
  bytes_eq, replicate, if◌then◌else◌,
}
use replicated_block_store.System.Session.{Op, put, get}

abbrev pub dir_size : ℕ
dir_size = 256 * 4096

abbrev pub file_size : ℕ
file_size = 4096

abbrev pub max_requests_per_worker : ℕ
max_requests_per_worker = 64

unfoldable pub read_worker : ℕ → ℕ → ℕ → List Op
read_worker addr jump zero = []
read_worker addr jump (suc num_requests) = get addr ∷ read_worker (addr + jump) jump num_requests

unfoldable pub write_worker : ℕ → ℕ → ℕ → List Op
write_worker addr jump zero = []
write_worker addr jump (suc num_requests) =
    put addr (replicate file_size b'w') ∷ write_worker (addr + jump) jump num_requests

-- A worker for each directory, of the first `n_workers` ones.
unfoldable pub exec_reads : ℕ → ℕ → ℕ → ℕ → List (List Op)
unfolding read_worker
exec_reads zero num_requests jump addr = []
exec_reads (suc n_workers) num_requests jump addr =
    read_worker addr jump num_requests ∷ exec_reads n_workers num_requests jump (addr + dir_size)

unfoldable pub exec_writes : ℕ → ℕ → ℕ → ℕ → List (List Op)
unfolding write_worker
exec_writes zero num_requests jump addr = []
exec_writes (suc n_workers) num_requests jump addr =
    write_worker addr jump num_requests ∷ exec_writes n_workers num_requests jump (addr + dir_size)

-- `for (num_request = 1; num_request <= MAX_REQUESTS_PER_WORKER; num_request *= 2)`: the values of
-- the loop; `none` where the fuel ran out.
unfoldable pub num_requests_from : ℕ → ℕ → Option (List ℕ)
num_requests_from zero n = none
num_requests_from (suc fuel) n =
    let rest = num_requests_from fuel (n * 2) in
    if leb n max_requests_per_worker
    then elim rest [ none ↦ none | some ns ↦ some (n ∷ ns) ]
    else some []

-- Eight rounds are enough fuel.
unfoldable pub num_requests : List ℕ
unfolding num_requests_from
num_requests = elim (num_requests_from 8 1) [ none ↦ [] | some ns ↦ ns ]

unfoldable pub read_performance : ℕ → List (List (List Op))
unfolding exec_reads num_requests
read_performance workers =
    map (λ n. exec_reads workers n (file_size * 3) (file_size + 2048)) num_requests
    ++ map (λ n. exec_reads workers n (file_size * 3) 0) num_requests

unfoldable pub write_performance : ℕ → List (List (List Op))
unfolding exec_writes num_requests
write_performance workers =
    map (λ n. exec_writes workers n (file_size * 3) 0) num_requests
    ++ map (λ n. exec_writes workers n (file_size * 3) (file_size + 2048)) num_requests

-- `for (num_worker = 1; num_worker <= worker_limit; num_worker++)`, with `left` rounds to go: that
-- many times the same worker.
unfoldable pub congestion : List Op → ℕ → ℕ → List (List (List Op))
congestion worker num_worker zero = []
congestion worker num_worker (suc left) =
    replicate num_worker worker ∷ congestion worker (num_worker + 1) left

unfoldable pub write_congestion : ℕ → List (List (List Op))
unfolding congestion write_worker
write_congestion worker_limit =
    congestion (write_worker 0 0 1) 1 worker_limit
    ++ congestion (write_worker (file_size / 2) 0 1) 1 worker_limit

unfoldable pub read_congestion : ℕ → List (List (List Op))
unfolding congestion read_worker
read_congestion worker_limit =
    congestion (read_worker 0 0 1) 1 worker_limit
    ++ congestion (read_worker (file_size / 2) 0 1) 1 worker_limit

-- The rounds of the program, with the two arguments of its command line.
unfoldable pub main : Bytes → ℕ → List (List (List Op))
unfolding write_performance read_performance write_congestion read_congestion
main arg workers =
    if bytes_eq arg (codes "1")
    then write_performance workers
    else if bytes_eq arg (codes "2")
    then read_performance workers
    else if bytes_eq arg (codes "3")
    then write_congestion workers
    else if bytes_eq arg (codes "4")
    then read_congestion workers
    else if bytes_eq arg (codes "5")
    then write_performance workers
      ++ read_performance workers
      ++ write_congestion workers
      ++ read_congestion workers
    else []
