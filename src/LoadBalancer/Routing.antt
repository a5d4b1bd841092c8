-- ===== src/LoadBalancer/Routing.antt =====
-- The routing of src/load_balancer.cc, and the states that its handlers lead to.
use replicated_block_store.Prelude.{
  ◌-◌, ◌≤◌, ◌≡◌, ◌≢◌, ◌⊎◌, refl, ap, Option, none, some, [], arith, Bytes, bytes_eq_iff, ◌==◌,
  if◌then◌else◌,
}
use replicated_block_store.Map.{find, find-assign, find-insert, find-erase}
use replicated_block_store.LoadBalancer.{
  LoadBalancer, primary_str, backup_str, node_at, touch_node, init, get_server_to_route_to,
  client_at, route_read, register_node, erase_node,
}

abbrev pub IsAlive : Bytes → LoadBalancer → Type 0
IsAlive identity lb = node_at identity lb.nodes ≢ []

-- What the load balancer keeps: a registered identity has a client, no client is the null pointer,
-- and the index is 0 or 1.
pub record IsValid (lb : LoadBalancer) : Type 0 where
  pub served : (k : Bytes) → IsAlive k lb → find k lb.clients ≢ none
  pub no_null : (k : Bytes) → find k lb.clients ≢ some none
  pub index : lb.idx ≤ 1

pub IsValid-init : IsValid init
unfolding find
IsValid-init = record { served = λ k alive _. alive refl; no_null = λ k e. cc; index = omega arith }

-- Looking an identity up makes no other one alive.
pub node_at-touch :
    (identity k : Bytes) (lb : LoadBalancer)
    → node_at k (touch_node identity lb).nodes ≡ node_at k lb.nodes
unfolding touch_node
node_at-touch identity k lb =
    ground (arith, find-assign identity k [] lb.nodes, bytes_eq_iff identity k)

pub clients-touch :
    (identity : Bytes) (lb : LoadBalancer) → (touch_node identity lb).clients ≡ lb.clients
unfolding touch_node
clients-touch identity lb = ground arith

pub idx-touch : (identity : Bytes) (lb : LoadBalancer) → (touch_node identity lb).idx ≡ lb.idx
unfolding touch_node
idx-touch identity lb = ground arith

pub touch_node-IsValid :
    (identity : Bytes) (lb : LoadBalancer) → IsValid lb → IsValid (touch_node identity lb)
touch_node-IsValid identity lb v = record {
  served = λ k alive. rw clients-touch (v.served k (rw node_at-touch at alive));
  no_null = λ k. rw clients-touch (v.no_null k);
  index = rw idx-touch v.index;
}

pub register_node-IsValid :
    (identity target : Bytes) (lb : LoadBalancer)
    → IsValid lb
    → IsValid (register_node identity target lb)
unfolding register_node
register_node-IsValid identity target lb v = record {
  served = λ k alive. ground (
    arith,
    v.served k,
    find-assign identity k target lb.nodes,
    find-insert identity k (some target) lb.clients,
  );
  no_null = λ k.
      ground
        (arith, v.no_null k, v.no_null identity, find-insert identity k (some target) lb.clients);
  index = v.index;
}

pub erase_node-IsValid :
    (identity : Bytes) (lb : LoadBalancer) → IsValid lb → IsValid (erase_node identity lb)
unfolding erase_node
erase_node-IsValid identity lb v = record {
  served = λ k alive.
      ground (arith, v.served k, find-erase identity k lb.nodes, find-erase identity k lb.clients);
  no_null = λ k. ground (arith, v.no_null k, find-erase identity k lb.clients);
  index = ground (arith, v.index);
}

-- The index only turns.
turned-IsValid : (lb : LoadBalancer) → IsValid lb → IsValid (record lb { idx = 1 - lb.idx })
turned-IsValid lb v = record { served = v.served; no_null = v.no_null; index = omega arith }

pub routed-IsValid : (lb : LoadBalancer) → IsValid lb → IsValid (get_server_to_route_to lb).1
unfolding get_server_to_route_to
routed-IsValid lb v =
    let lb' = record lb { idx = 1 - lb.idx } in
    let v' = turned-IsValid lb v in
    ground (arith, touch_node-IsValid primary_str lb' v', touch_node-IsValid backup_str lb' v', v')

-- A request is routed to a server that is registered, if one is; the load balancer stays valid.
pub get_server_to_route_to_lem :
    (lb : LoadBalancer)
    → IsValid lb
    → (IsAlive primary_str lb) ⊎ (IsAlive backup_str lb)
    → IsAlive (get_server_to_route_to lb).0 (get_server_to_route_to lb).1
      × IsValid (get_server_to_route_to lb).1
unfolding get_server_to_route_to
get_server_to_route_to_lem lb v alive =
    let lb' = record lb { idx = 1 - lb.idx } in
    (
      ground (
        arith,
        node_at-touch primary_str primary_str lb',
        node_at-touch primary_str backup_str lb',
        node_at-touch backup_str primary_str lb',
        node_at-touch backup_str backup_str lb',
        v.index,
      ),
      routed-IsValid lb v,
    )

-- In a valid state the client of a registered identity is there, and looking it up changes nothing.
client_at_lem :
    (key : Bytes) (lb : LoadBalancer)
    → IsValid lb
    → IsAlive key lb
    → (target : Bytes) × (client_at key lb ≡ (some target, lb))
unfolding client_at
client_at_lem key lb v alive = go (find key lb.clients) refl
  where
    go :
        (o : Option (Option Bytes))
        → find key lb.clients ≡ o
        → (target : Bytes) × (client_at key lb ≡ (some target, lb))
    go none e = absurd (v.served key alive e)
    go (some none) e = absurd (v.no_null key e)
    go (some (some target)) e = (target, rw (e, client_at))

-- In a valid state in which a server is registered, a read reaches a client and never a null
-- pointer, and the state behind it is valid.
pub route_read-served :
    (lb : LoadBalancer)
    → IsValid lb
    → (IsAlive primary_str lb) ⊎ (IsAlive backup_str lb)
    → (target : Bytes) × ((route_read lb).0 ≡ some target) × IsValid (route_read lb).1
unfolding route_read
route_read-served lb v alive =
    let (up, v') = get_server_to_route_to_lem lb v alive in
    let (target, e) =
      client_at_lem (get_server_to_route_to lb).0 (get_server_to_route_to lb).1 v' up in
    (target, ap (λ (r : Option Bytes × LoadBalancer). r.0) e, rw e v')

-- With both registered the index alone decides, and only the index changes in what is alive.
route_both :
    (lb : LoadBalancer)
    → IsAlive primary_str lb
    → IsAlive backup_str lb
    → lb.idx ≤ 1
    → ((get_server_to_route_to lb).0 ≡ (if 1 - lb.idx == 0 then primary_str else backup_str))
      × ((get_server_to_route_to lb).1.idx ≡ 1 - lb.idx)
      × IsAlive primary_str (get_server_to_route_to lb).1
      × IsAlive backup_str (get_server_to_route_to lb).1
unfolding get_server_to_route_to
route_both lb p b h =
    let lb' = record lb { idx = 1 - lb.idx } in
    (
      ground arith,
      ground (arith, idx-touch primary_str lb', idx-touch backup_str lb'),
      ground (
        arith,
        node_at-touch primary_str primary_str lb',
        node_at-touch backup_str primary_str lb',
      ),
      ground (
        arith,
        node_at-touch primary_str backup_str lb',
        node_at-touch backup_str backup_str lb',
      ),
    )

-- In a valid state in which both servers are registered, two reads in a row go to different
-- servers.
pub route-alternates :
    (lb : LoadBalancer)
    → IsValid lb
    → IsAlive primary_str lb
    → IsAlive backup_str lb
    → (get_server_to_route_to lb).0 ≢ (get_server_to_route_to (get_server_to_route_to lb).1).0
route-alternates lb v p b e =
    let (one, turned, p', b') = route_both lb p b v.index in
    let (two, _, _, _) = route_both (get_server_to_route_to lb).1 p' b' (rw turned (omega arith)) in
    let h = v.index in ground arith
