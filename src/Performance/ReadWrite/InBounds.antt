-- ===== src/Performance/ReadWrite/InBounds.antt =====
-- The requests of performance/rw_perf.cc are within the bounds of the storage.
use replicated_block_store.Prelude.{
  ℕ, zero, suc, ◌+◌, ◌*◌, ◌≤◌, ◌≡◌, refl, List, [], ◌∷◌, ◌++◌, map, Bytes, codes, bytes_eq, All,
  All-append, length-replicate, replicate, arith, if_holds,
}
use replicated_block_store.Address.{block_size, block_storage_max_size}
use replicated_block_store.Device.{Device}
use replicated_block_store.System.{Site, Cluster}
use replicated_block_store.System.Serving.{IsCalm}
use replicated_block_store.System.Session.{Op, Fits, IsHealthy, session}
use replicated_block_store.Performance.Rounds.{Rounds, Fits-Rounds, failures, failures-session}
use replicated_block_store.Performance.ReadWrite.{
  dir_size, file_size, read_worker, write_worker, exec_reads, exec_writes, num_requests,
  read_performance, write_performance, congestion, write_congestion, read_congestion, main,
}

-- A worker whose last request is within the bounds.
Fits-read_worker :
    (addr jump n : ℕ)
    → addr + n * jump + block_size ≤ block_storage_max_size + jump
    → addr + block_size ≤ block_storage_max_size
    → Fits (read_worker addr jump n)
unfolding read_worker
Fits-read_worker addr jump zero h k = tt
Fits-read_worker addr jump (suc zero) h k = (k, tt)
Fits-read_worker addr jump (suc (suc n)) h k =
    (k, Fits-read_worker (addr + jump) jump (suc n) (grind arith) (grind arith))

Fits-write_worker :
    (addr jump n : ℕ)
    → addr + n * jump + block_size ≤ block_storage_max_size + jump
    → addr + block_size ≤ block_storage_max_size
    → Fits (write_worker addr jump n)
unfolding write_worker
Fits-write_worker addr jump zero h k = tt
Fits-write_worker addr jump (suc zero) h k = ((k, length-replicate {A = ℕ} 4096 b'w'), tt)
Fits-write_worker addr jump (suc (suc n)) h k = (
  (k, length-replicate {A = ℕ} 4096 b'w'),
  Fits-write_worker (addr + jump) jump (suc n) (grind arith) (grind arith),
)

-- The workers of a round, each in its directory: there are 1024 directories.
abbrev HaveRoom : ℕ → ℕ → Type 0
HaveRoom n_workers addr = addr + n_workers * dir_size ≤ block_storage_max_size + file_size + 2048

Fits-exec_reads :
    (n_workers n addr : ℕ)
    → n ≤ 64
    → HaveRoom n_workers addr
    → All Fits (exec_reads n_workers n (file_size * 3) addr)
unfolding exec_reads
Fits-exec_reads zero n addr h room = tt
Fits-exec_reads (suc k) n addr h room = (
  Fits-read_worker addr (file_size * 3) n (omega arith) (omega arith),
  Fits-exec_reads k n (addr + dir_size) h (omega arith),
)

Fits-exec_writes :
    (n_workers n addr : ℕ)
    → n ≤ 64
    → HaveRoom n_workers addr
    → All Fits (exec_writes n_workers n (file_size * 3) addr)
unfolding exec_writes
Fits-exec_writes zero n addr h room = tt
Fits-exec_writes (suc k) n addr h room = (
  Fits-write_worker addr (file_size * 3) n (omega arith) (omega arith),
  Fits-exec_writes k n (addr + dir_size) h (omega arith),
)

-- The loop over the number of requests ends by its test.
num_requests_lem : num_requests ≡ 1 ∷ 2 ∷ 4 ∷ 8 ∷ 16 ∷ 32 ∷ 64 ∷ []
unfolding num_requests
num_requests_lem = refl

All-map :
    {A B : Type 0} (P : A → Type 0) (Q : B → Type 0) (f : A → B) (xs : List A)
    → ((x : A) → P x → Q (f x))
    → All P xs
    → All Q (map f xs)
All-map P Q f [] step h = tt
All-map P Q f (x ∷ xs) step (h, hs) = (step x h, All-map P Q f xs step hs)

abbrev AllFit : List (List (List Op)) → Type 0
AllFit = All (All Fits)

-- A round for every number of requests.
AllFit-rounds :
    (f : ℕ → List (List Op)) → ((n : ℕ) → n ≤ 64 → All Fits (f n)) → AllFit (map f num_requests)
AllFit-rounds f h =
    All-map (λ n. n ≤ 64) (All Fits) f num_requests h (rw num_requests_lem (omega arith))

AllFit-append : (xs ys : List (List (List Op))) → AllFit xs → AllFit ys → AllFit (xs ++ ys)
AllFit-append xs ys = All-append (All Fits) xs ys

Fits-replicate : (n : ℕ) (worker : List Op) → Fits worker → All Fits (replicate n worker)
Fits-replicate zero worker h = tt
Fits-replicate (suc n) worker h = (h, Fits-replicate n worker h)

AllFit-congestion :
    (worker : List Op) (num_worker left : ℕ)
    → Fits worker
    → AllFit (congestion worker num_worker left)
unfolding congestion
AllFit-congestion worker n zero h = tt
AllFit-congestion worker n (suc left) h =
    (Fits-replicate n worker h, AllFit-congestion worker (n + 1) left h)

module _ (workers : ℕ) (few : workers ≤ 1024) where
  AllFit-read_performance : AllFit (read_performance workers)
  unfolding read_performance
  AllFit-read_performance =
      let rounds =
        λ (start : ℕ). map (λ n. exec_reads workers n (file_size * 3) start) num_requests in
      AllFit-append (rounds 6144) (rounds 0)
        (AllFit-rounds _ (λ n h. Fits-exec_reads workers n 6144 h (omega arith)))
        (AllFit-rounds _ (λ n h. Fits-exec_reads workers n 0 h (omega arith)))

  AllFit-write_performance : AllFit (write_performance workers)
  unfolding write_performance
  AllFit-write_performance =
      let rounds =
        λ (start : ℕ). map (λ n. exec_writes workers n (file_size * 3) start) num_requests in
      AllFit-append (rounds 0) (rounds 6144)
        (AllFit-rounds _ (λ n h. Fits-exec_writes workers n 0 h (omega arith)))
        (AllFit-rounds _ (λ n h. Fits-exec_writes workers n 6144 h (omega arith)))

AllFit-read_congestion : (limit : ℕ) → AllFit (read_congestion limit)
unfolding read_congestion
AllFit-read_congestion limit =
    AllFit-append (congestion (read_worker 0 0 1) 1 limit)
      (congestion (read_worker 2048 0 1) 1 limit)
      (AllFit-congestion _ 1 limit (Fits-read_worker 0 0 1 (omega arith) (omega arith)))
      (AllFit-congestion _ 1 limit (Fits-read_worker 2048 0 1 (omega arith) (omega arith)))

AllFit-write_congestion : (limit : ℕ) → AllFit (write_congestion limit)
unfolding write_congestion
AllFit-write_congestion limit =
    AllFit-append (congestion (write_worker 0 0 1) 1 limit)
      (congestion (write_worker 2048 0 1) 1 limit)
      (AllFit-congestion _ 1 limit (Fits-write_worker 0 0 1 (omega arith) (omega arith)))
      (AllFit-congestion _ 1 limit (Fits-write_worker 2048 0 1 (omega arith) (omega arith)))

-- Whatever is asked for on the command line.
AllFit-main : (arg : Bytes) (workers : ℕ) → workers ≤ 1024 → AllFit (main arg workers)
unfolding main
AllFit-main arg workers few =
    let rp = AllFit-read_performance workers few in
    let wp = AllFit-write_performance workers few in
    let rc = AllFit-read_congestion workers in
    let wc = AllFit-write_congestion workers in
    if_holds AllFit (bytes_eq arg (codes "1")) _ _ wp (
      if_holds AllFit (bytes_eq arg (codes "2")) _ _ rp (
        if_holds AllFit (bytes_eq arg (codes "3")) _ _ wc (
          if_holds AllFit (bytes_eq arg (codes "4")) _ _ rc (
            if_holds AllFit (bytes_eq arg (codes "5")) _ _
              (AllFit-append (write_performance workers)
                (read_performance workers ++ write_congestion workers ++ read_congestion workers) wp
                (AllFit-append (read_performance workers)
                  (write_congestion workers ++ read_congestion workers) rp
                  (AllFit-append (write_congestion workers) (read_congestion workers) wc rc)))
              tt))))

-- rw_perf prints no "test failed" at a healthy system with nothing refused, for every first argument
-- and up to 1024 workers, in every order of the requests of the workers of a round.
pub main_succeeds :
    (site : Site) (arg : Bytes) (workers : ℕ) (ops : List Op) (v : Device) (c : Cluster)
    → IsCalm site
    → IsHealthy site site.addr_a site.addr_b v c
    → workers ≤ 1024
    → Rounds (main arg workers) ops
    → failures (session site ops c).0 ≡ 0
main_succeeds site arg workers ops v c env h few rounds =
    failures-session site site.addr_a site.addr_b ops v c env h
      (Fits-Rounds rounds (AllFit-main arg workers few))
