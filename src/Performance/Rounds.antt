-- ===== src/Performance/Rounds.antt =====
-- Workers that `async` runs beside each other, round by round, and the failures that they print.
use replicated_block_store.Prelude.{
  ℕ, suc, ◌≡◌, ◌++◌, Option, none, some, List, [], ◌∷◌, All, All-append, refl, ap, ◌∙◌, Bool, true,
  false, if◌then◌else◌,
}
use replicated_block_store.Device.{Device}
use replicated_block_store.Client.{is_ok}
use replicated_block_store.System.{Site, Cluster}
use replicated_block_store.System.Serving.{IsCalm}
use replicated_block_store.System.Session.{
  Op, put, get, Answer, FitsOne, Fits, IsHealthy, session, session_device, session_lem,
}

-- The next request is that of one of the workers.
pub data Picks (op : Op) : List (List Op) → List (List Op) → Type 0 where
  here : {ops : List Op} {others : List (List Op)} → Picks op ((op ∷ ops) ∷ others) (ops ∷ others)
  there :
      {ops : List Op} {others others' : List (List Op)}
      → Picks op others others'
      → Picks op (ops ∷ others) (ops ∷ others')

-- The requests of the workers of a round, in one of the orders that keep each worker's own.
pub data Shuffle : List (List Op) → List Op → Type 0 where
  through : {workers : List (List Op)} → All (λ ops. ops ≡ []) workers → Shuffle workers []
  request :
      {op : Op} {workers workers' : List (List Op)} {ops : List Op}
      → Picks op workers workers'
      → Shuffle workers' ops
      → Shuffle workers (op ∷ ops)

-- A round begins when all workers of the one before it have ended.
pub data Rounds : List (List (List Op)) → List Op → Type 0 where
  over : Rounds [] []
  round :
      {workers : List (List Op)} {more : List (List (List Op))} {ops ops' : List Op}
      → Shuffle workers ops
      → Rounds more ops'
      → Rounds (workers ∷ more) (ops ++ ops')

-- The lines "test failed".
abbrev pub failed_test : Option Answer → Bool
failed_test none = true
failed_test (some a) = if is_ok a.status then false else true

unfoldable pub failures : List (Option Answer) → ℕ
failures [] = 0
failures (a ∷ answers) = let rest = failures answers in if failed_test a then suc rest else rest

Fits-Picks :
    {op : Op} {workers workers' : List (List Op)}
    → Picks op workers workers'
    → All Fits workers
    → FitsOne op × All Fits workers'
Fits-Picks here ((h, hs), fits) = (h, (hs, fits))
Fits-Picks (there p) (h, fits) = let (one, fits') = Fits-Picks p fits in (one, (h, fits'))

Fits-Shuffle :
    {workers : List (List Op)} {ops : List Op} → Shuffle workers ops → All Fits workers → Fits ops
Fits-Shuffle (through _) fits = tt
Fits-Shuffle (request p more) fits =
    let (one, fits') = Fits-Picks p fits in (one, Fits-Shuffle more fits')

pub Fits-Rounds :
    {rounds : List (List (List Op))} {ops : List Op}
    → Rounds rounds ops
    → All (All Fits) rounds
    → Fits ops
Fits-Rounds over fits = tt
Fits-Rounds (round {ops = ops} {ops' = ops'} s r) (h, fits) =
    All-append FitsOne ops ops' (Fits-Shuffle s h) (Fits-Rounds r fits)

failures-session_device : (ops : List Op) (v : Device) → failures (session_device ops v).0 ≡ 0
unfolding failures
failures-session_device [] v = refl
failures-session_device (put a buffer ∷ ops) v = failures-session_device ops _
failures-session_device (get a ∷ ops) v = failures-session_device ops v

-- Requests within the bounds do not fail at a healthy system.
pub failures-session :
    (site : Site) (p q : _) (ops : List Op) (v : Device) (c : Cluster)
    → IsCalm site
    → IsHealthy site p q v c
    → Fits ops
    → failures (session site ops c).0 ≡ 0
failures-session site p q ops v c env h fits =
    ap failures (session_lem site p q ops v c env fits h).0 ∙ failures-session_device ops v
