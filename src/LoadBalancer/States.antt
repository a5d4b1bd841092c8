-- ===== src/LoadBalancer/States.antt =====
-- The states that the handlers of src/load_balancer.cc lead to.
use replicated_block_store.Prelude.{arith, Bytes, Option, none, some, Option-cases, inl, inr}
use replicated_block_store.Map.{find}
use replicated_block_store.LoadBalancer.{
  LoadBalancer, primary_str, init, client_at, route_read, route_write, erase_node, get_peer_ip,
  register_heartbeat, on_heartbeat, on_break, Stream,
}
use replicated_block_store.LoadBalancer.Routing.{
  IsValid, IsValid-init, touch_node-IsValid, register_node-IsValid, erase_node-IsValid,
  routed-IsValid,
}

-- The program, or its end: a call through a null pointer, after which nothing is said of it.
pub data State : Type 0 where
  up : LoadBalancer → State
  crashed : State

-- Behind a request, by the client that it was passed to.
abbrev pub behind : Option Bytes × LoadBalancer → State
behind (none, lb) = crashed
behind (some target, lb) = up lb

-- What may happen to the load balancer, at any time: a request arrives, a heartbeat comes on a
-- stream, or a stream breaks.
pub data Step (lb : LoadBalancer) : State → Type 0 where
  reads : Step lb (behind (route_read lb))
  writes : Step lb (behind (route_write lb))
  beats : (identity ip : Bytes) (st : Stream) → Step lb (up (on_heartbeat identity ip st lb).2)
  breaks : (st : Stream) → Step lb (up (on_break st lb))

pub data Reach : State → Type 0 where
  here : Reach (up init)
  next : {lb : LoadBalancer} {s : State} → Reach (up lb) → Step lb s → Reach s

register_heartbeat-IsValid :
    (identity ip : Bytes) (st : Stream) (lb : LoadBalancer)
    → IsValid lb
    → IsValid (register_heartbeat identity ip st lb)
unfolding register_heartbeat
register_heartbeat-IsValid identity ip st lb v = ground (
  arith,
  register_node-IsValid identity ip lb v,
  register_node-IsValid identity ip (erase_node identity lb) (erase_node-IsValid identity lb v),
)

on_heartbeat-IsValid :
    (identity ip : Bytes) (st : Stream) (lb : LoadBalancer)
    → IsValid lb
    → IsValid (on_heartbeat identity ip st lb).2
unfolding on_heartbeat get_peer_ip
on_heartbeat-IsValid identity ip st lb v =
    touch_node-IsValid _ _ (register_heartbeat-IsValid identity ip st lb v)

abbrev pub Stays : State → Type 0
Stays (up lb) = IsValid lb
Stays crashed = Unit {0}

-- A client is looked up where it is, or the request ends the program.
client_at-Stays : (key : Bytes) (lb : LoadBalancer) → IsValid lb → Stays (behind (client_at key lb))
unfolding client_at
client_at-Stays key lb v = elim (Option-cases (find key lb.clients)) [
  | inl e ↦ rw (e, client_at) tt
  | inr (none, e) ↦ rw (e, client_at) tt
  | inr (some target, e) ↦ rw (e, client_at) v
]

pub Step-Stays : {lb : LoadBalancer} {s : State} → Step lb s → IsValid lb → Stays s
Step-Stays {lb} reads v = unfold route_read in client_at-Stays _ _ (routed-IsValid lb v)
Step-Stays {lb} writes v = unfold route_write in client_at-Stays primary_str lb v
Step-Stays {lb} (beats identity ip st) v = on_heartbeat-IsValid identity ip st lb v
Step-Stays {lb} (breaks st) v = unfold on_break in erase_node-IsValid st.identity lb v

Reach-Stays : {s : State} → Reach s → Stays s
Reach-Stays here = IsValid-init
Reach-Stays (next r st) = Step-Stays st (Reach-Stays r)

-- From the start, whatever requests, heartbeats and broken streams there were in whatever order,
-- requests in front of the first registration among them, every registered identity has a client,
-- no client is a null pointer, and the index is 0 or 1, unless the program has ended with a call
-- through a null pointer.
pub Reach-IsValid : {lb : LoadBalancer} → Reach (up lb) → IsValid lb
Reach-IsValid r = Reach-Stays r
