-- ===== src/Performance/Latency.antt =====
-- performance/latency_perf.cc and performance/recovery_perf.cc: requests at one address after the
-- other, each of them several times. The options of the command line are parameters.
use replicated_block_store.Prelude.{
  ℕ, zero, suc, ◌+◌, ◌*◌, ◌≤◌, ◌<◌, ◌≡◌, refl, Option, none, some, List, [], ◌∷◌, ◌++◌, Bytes,
  codes, All-append, length, length-append, length-replicate, replicate, arith,
}
use replicated_block_store.Address.{block_size, block_storage_max_size}
use replicated_block_store.Device.{Device}
use replicated_block_store.System.{Site, Cluster}
use replicated_block_store.System.Serving.{IsCalm}
use replicated_block_store.System.Session.{Op, put, get, FitsOne, Fits, IsHealthy, session}
use replicated_block_store.Performance.Rounds.{failures, failures-session}

-- The loop of `generate_str`, `n` rounds from its end.
unfoldable append_letters : ℕ → Bytes → Bytes → Bytes
append_letters zero letter buffer = buffer
append_letters (suc n) letter buffer = append_letters n letter (buffer ++ letter)

unfoldable pub generate_str : Bytes → Bytes
unfolding append_letters
generate_str letter = append_letters 4096 letter []

-- The rounds of the outer loop from the i-th one on, `left` of them, with the inner loop at an
-- address.
unfoldable pub test_from : (ℕ → Op) → ℕ → ℕ → ℕ → ℕ → ℕ → List Op
test_from request start_addr jump iterations i zero = []
test_from request start_addr jump iterations i (suc left) =
    replicate iterations (request (start_addr + jump * i))
    ++ test_from request start_addr jump iterations (i + 1) left

unfoldable pub read_test : ℕ → ℕ → ℕ → ℕ → List Op
unfolding test_from
read_test start_addr jump limit iterations = test_from get start_addr jump iterations 0 limit

unfoldable pub write_test : ℕ → ℕ → ℕ → ℕ → List Op
unfolding test_from generate_str
write_test start_addr jump limit iterations =
    test_from (λ addr. put addr (generate_str (codes "A"))) start_addr jump iterations 0 limit

-- `exec_write` of recovery_perf.cc
unfoldable pub exec_write : ℕ → ℕ → ℕ → ℕ → List Op
unfolding test_from generate_str
exec_write start_addr jump limit iterations =
    test_from (λ addr. put addr (generate_str (codes "A"))) start_addr jump iterations 0 limit

-- The `switch` of `main`: `none` is the end with -1.
unfoldable pub run_test : ℕ → ℕ → ℕ → ℕ → ℕ → Option (List Op)
unfolding read_test write_test
run_test zero start_addr jump limit iterations = some (read_test start_addr jump limit iterations)
run_test (suc zero) start_addr jump limit iterations =
    some (write_test start_addr jump limit iterations)
run_test _ start_addr jump limit iterations = none

length-append_letters :
    (n : ℕ) (letter buffer : Bytes)
    → length (append_letters n letter buffer) ≡ length buffer + n * length letter
unfolding append_letters
length-append_letters zero letter buffer = omega arith
length-append_letters (suc n) letter buffer =
    grind (arith, length-append_letters n letter (buffer ++ letter), length-append buffer letter)

length-generate_str : (c : ℕ) → length (generate_str (c ∷ [])) ≡ block_size
unfolding generate_str
length-generate_str c = length-append_letters 4096 (c ∷ []) []

Fits-replicate : (n : ℕ) (op : Op) → FitsOne op → Fits (replicate n op)
Fits-replicate zero op h = tt
Fits-replicate (suc n) op h = (h, Fits-replicate n op h)

module _ (request : ℕ → Op) (start_addr jump iterations : ℕ)
    (fits : (a : ℕ) → a + block_size ≤ block_storage_max_size → FitsOne (request a)) where
  -- The last address of the loop is within the bounds.
  Fits-test_from :
      (i left : ℕ)
      → start_addr + jump * (i + left) + block_size ≤ block_storage_max_size + jump
      → Fits (test_from request start_addr jump iterations i left)
  unfolding test_from
  Fits-test_from i zero h = tt
  Fits-test_from i (suc left) h =
      All-append FitsOne (replicate iterations (request (start_addr + jump * i))) _
        (Fits-replicate iterations _ (fits (start_addr + jump * i) (grind arith)))
        (Fits-test_from (i + 1) left (grind arith))

  length-test_from :
      (i left : ℕ)
      → length (test_from request start_addr jump iterations i left) ≡ left * iterations
  unfolding test_from
  length-test_from i zero = omega arith
  length-test_from i (suc left) = grind (
    arith,
    length-append (replicate iterations (request (start_addr + jump * i)))
        (test_from request start_addr jump iterations (i + 1) left),
    length-replicate iterations (request (start_addr + jump * i)),
    length-test_from (i + 1) left,
  )

FitsOne-put :
    (a : ℕ) → a + block_size ≤ block_storage_max_size → FitsOne (put a (generate_str (codes "A")))
FitsOne-put a h = (h, length-generate_str b'A')

-- The requests of a test.
abbrev IsTest : ℕ → ℕ → List Op → Type 0
IsTest limit iterations ops = Fits ops × (length ops ≡ limit * iterations)

run_test-IsTest :
    (test start_addr jump limit iterations : ℕ)
    → start_addr + jump * limit + block_size ≤ block_storage_max_size + jump
    → test < 2
    → (ops : List Op) × (run_test test start_addr jump limit iterations ≡ some ops)
      × IsTest limit iterations ops
unfolding run_test
run_test-IsTest zero start_addr jump limit iterations h t = (
  read_test start_addr jump limit iterations,
  refl,
  (
    Fits-test_from get start_addr jump iterations (λ a k. k) 0 limit (grind arith),
    length-test_from get start_addr jump iterations (λ a k. k) 0 limit,
  ),
)
run_test-IsTest (suc zero) start_addr jump limit iterations h t =
    let request : ℕ → Op = λ addr. put addr (generate_str (codes "A")) in
    (
      write_test start_addr jump limit iterations,
      refl,
      (
        Fits-test_from request start_addr jump iterations FitsOne-put 0 limit (grind arith),
        length-test_from request start_addr jump iterations FitsOne-put 0 limit,
      ),
    )
run_test-IsTest (suc (suc n)) start_addr jump limit iterations h t = absurd (omega arith)

-- The tests 0 and 1 of latency_perf, and recovery_perf, make `limit` times `iterations` requests, and
-- none of them fails, at a healthy system with nothing refused, where the last address of the loop is
-- within the bounds.
pub run_test_succeeds :
    (site : Site) (p q : Bytes) (test start_addr jump limit iterations : ℕ) (v : Device)
    (c : Cluster)
    → IsCalm site
    → IsHealthy site p q v c
    → start_addr + jump * limit + block_size ≤ block_storage_max_size + jump
    → test < 2
    → let writes = exec_write start_addr jump limit iterations in
      (ops : List Op) × (run_test test start_addr jump limit iterations ≡ some ops)
      × (length ops ≡ limit * iterations)
      × (failures (session site ops c).0 ≡ 0)
      × (length writes ≡ limit * iterations)
      × (failures (session site writes c).0 ≡ 0)
unfolding exec_write
run_test_succeeds site p q test start_addr jump limit iterations v c env h k t =
    let (ops, e, (fits, n)) = run_test-IsTest test start_addr jump limit iterations k t in
    let request : ℕ → Op = λ addr. put addr (generate_str (codes "A")) in
    (
      ops,
      e,
      n,
      failures-session site p q ops v c env h fits,
      length-test_from request start_addr jump iterations FitsOne-put 0 limit,
      failures-session site p q _ v c env h
          (Fits-test_from request start_addr jump iterations FitsOne-put 0 limit (grind arith)),
    )
