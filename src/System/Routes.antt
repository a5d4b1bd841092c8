-- ===== src/System/Routes.antt =====
-- The load balancer's routes, as the two servers' addresses, and a request that is answered at once.
use replicated_block_store.Prelude.{
  ◌≡◌, ◌≢◌, ◌≤◌, ◌-◌, ◌⊎◌, inl, inr, refl, some, [], arith, Bytes, ◌==◌, Bool-cases, true, false,
}
use replicated_block_store.Map.{find}
use replicated_block_store.Server.{StatusCode, ok}
use replicated_block_store.LoadBalancer.{
  LoadBalancer, primary_str, backup_str, node_at, touch_node, is_empty, client_at, route_read,
  route_write, get_server_to_route_to,
}
use replicated_block_store.LoadBalancer.Routing.{node_at-touch, clients-touch, idx-touch}
use replicated_block_store.Client
use replicated_block_store.Client.{Report, attempt_loop}

-- The client of a name calls the address `t`.
abbrev pub Reaches : LoadBalancer → Bytes → Bytes → Type 0
Reaches lb name t = find name lb.clients ≡ some (some t)

-- The primary is registered and called at `p`; the backup, if it is registered, is called at `q`.
pub record Routes (p q : Bytes) (lb : LoadBalancer) : Type 0 where
  pub alive : node_at primary_str lb.nodes ≢ []
  pub primary : Reaches lb primary_str p
  pub backup : node_at backup_str lb.nodes ≢ [] → Reaches lb backup_str q
  pub index : lb.idx ≤ 1

module _ (p q : Bytes) where
  pub Routes-touch :
      (identity : Bytes) (lb : LoadBalancer) → Routes p q lb → Routes p q (touch_node identity lb)
  Routes-touch identity lb r = record {
    alive = rw node_at-touch r.alive;
    primary = rw clients-touch r.primary;
    backup = λ h. rw clients-touch (r.backup (rw node_at-touch at h));
    index = rw idx-touch r.index;
  }

  -- The server that is chosen for a read.
  chosen :
      (lb : LoadBalancer)
      → Routes p q lb
      → (t : Bytes) × Reaches (get_server_to_route_to lb).1 (get_server_to_route_to lb).0 t
        × ((t ≡ p) ⊎ (t ≡ q))
        × Routes p q (get_server_to_route_to lb).1
  unfolding get_server_to_route_to
  chosen lb r =
      let lb' = record lb { idx = 1 - lb.idx } in
      let r' : Routes p q lb' = record {
        alive = r.alive;
        primary = r.primary;
        backup = r.backup;
        index = omega arith;
      } in
      elim (Bool-cases (1 - lb.idx == 0)) [
        | inl z ↦
            rw (z, empty_ne primary_str r.alive)
              (p, rw clients-touch r.primary, inl refl, Routes-touch primary_str lb' r')
        | inr z ↦
            let one : (1 - lb.idx == 1) ≡ true = ground arith in
            elim (Bool-cases (is_empty (node_at backup_str lb.nodes))) [
              | inl e ↦
                  rw (z, one, e)
                    (p, rw clients-touch r.primary, inl refl, Routes-touch backup_str lb' r')
              | inr e ↦
                  rw (z, one, e)
                    (
                      q,
                      rw clients-touch (r.backup (λ g. ground arith)),
                      inr refl,
                      Routes-touch backup_str lb' r',
                    )
            ]
      ]
    where
      empty_ne :
          (name : Bytes) → node_at name lb.nodes ≢ [] → is_empty (node_at name lb.nodes) ≡ false
      empty_ne name h = ground arith

  pub route_read-host :
      (lb : LoadBalancer)
      → Routes p q lb
      → (t : Bytes) × ((route_read lb).0 ≡ some t)
        × ((t ≡ p) ⊎ (t ≡ q))
        × Routes p q (route_read lb).1
  unfolding route_read client_at
  route_read-host lb r =
      let (t, e, which, r') = chosen lb r in (t, rw (e, client_at), which, rw (e, client_at) r')

  pub route_write-host :
      (lb : LoadBalancer)
      → Routes p q lb
      → ((route_write lb).0 ≡ some p) × ((route_write lb).1 ≡ lb)
  unfolding route_write client_at
  route_write-host lb r = let e = r.primary in (rw (e, client_at), rw (e, client_at))

-- The report of one attempt that succeeds.
abbrev pub at_once : {S : Type 0} → S → Report S
at_once t = record { status = ok; attempts = 1; slept = 0; state = t }

-- A call that is answered with OK is the only one.
module _ {S : Type 0} (call : S → StatusCode × S) (s t : S) (h : call s ≡ (ok, t)) where
  pub write-at_once : Client.write call s ≡ some (at_once t)
  unfolding Client.write attempt_loop
  write-at_once = rw h

  pub read-at_once : Client.read call s ≡ some (at_once t)
  unfolding Client.read attempt_loop
  read-at_once = rw h
