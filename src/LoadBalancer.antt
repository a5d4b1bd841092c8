-- ===== src/LoadBalancer.antt =====
-- src/load_balancer.cc: the servers that are alive, the routing of requests, and the heartbeats.
-- A handler, or one round of a heartbeat stream, is one step.
pub mod Routing
pub mod States
pub mod Failover
pub mod Primary
use replicated_block_store.Prelude.{
  ℕ, ◌-◌, Option, none, some, Bool, true, false, not, [], ◌∷◌, Bytes, codes, bytes_eq, ◌==◌,
  if◌then◌else◌,
}
use replicated_block_store.Map.{Map, find, assign, insert, erase}

abbrev pub primary_str : Bytes
primary_str = codes "PRIMARY"

abbrev pub backup_str : Bytes
backup_str = codes "BACKUP"

-- live_servers, bs_clients and the round-robin index. A client is the address that its channel is
-- made for; `none` is the null pointer that `bs_clients[key]` makes for a missing key.
pub record LoadBalancer : Type 0 where
  pub nodes : Map Bytes
  pub clients : Map (Option Bytes)
  pub idx : ℕ

abbrev pub init : LoadBalancer
init = record { nodes = []; clients = []; idx = 0 }

-- `(*nodes)[identity]`, which makes an empty entry for a missing key.
abbrev pub node_at : Bytes → Map Bytes → Bytes
node_at identity nodes = elim (find identity nodes) [ none ↦ [] | some addr ↦ addr ]

unfoldable pub touch_node : Bytes → LoadBalancer → LoadBalancer
touch_node identity lb = elim (find identity lb.nodes) [
  | none ↦ record lb { nodes = assign identity [] lb.nodes }
  | some addr ↦ lb
]

abbrev pub is_empty : Bytes → Bool
is_empty [] = true
is_empty (c ∷ s) = false

unfoldable pub is_registered : Bytes → LoadBalancer → Bool × LoadBalancer
unfolding touch_node
is_registered identity lb = (not (is_empty (node_at identity lb.nodes)), touch_node identity lb)

-- One of the two identities, or the other where it is not registered.
abbrev choose : Bytes → Bytes → Bool × LoadBalancer → Bytes × LoadBalancer
choose wanted other (registered, lb) = ((if registered then wanted else other), lb)

unfoldable pub get_server_to_route_to : LoadBalancer → Bytes × LoadBalancer
unfolding is_registered
get_server_to_route_to lb =
    let lb' = record lb { idx = 1 - lb.idx } in
    if lb'.idx == 0
    then choose primary_str backup_str (is_registered primary_str lb')
    else if lb'.idx == 1
    then choose backup_str primary_str (is_registered backup_str lb')
    else (primary_str, lb')

-- `(*bs_clients)[key]`: the client that is called, and the map with an entry for the key. A call
-- through `none` is undefined.
unfoldable pub client_at : Bytes → LoadBalancer → Option Bytes × LoadBalancer
client_at key lb = elim (find key lb.clients) [
  | none ↦ (none, record lb { clients = assign key none lb.clients })
  | some client ↦ (client, lb)
]

-- `Read` and `Ping`: the client that the request goes to.
unfoldable pub route_read : LoadBalancer → Option Bytes × LoadBalancer
unfolding get_server_to_route_to client_at
route_read lb = let (key, lb') = get_server_to_route_to lb in client_at key lb'

-- `Write`: always the primary.
unfoldable pub route_write : LoadBalancer → Option Bytes × LoadBalancer
unfolding client_at
route_write lb = client_at primary_str lb

unfoldable pub register_node : Bytes → Bytes → LoadBalancer → LoadBalancer
register_node identity target lb = record lb {
  nodes = assign identity target lb.nodes;
  clients = insert identity (some target) lb.clients;
}

unfoldable pub erase_node : Bytes → LoadBalancer → LoadBalancer
erase_node identity lb =
    if is_empty identity
    then lb
    else record lb { nodes = erase identity lb.nodes; clients = erase identity lb.clients }

unfoldable pub get_peer_ip : Bytes → LoadBalancer → Bytes × LoadBalancer
unfolding touch_node
get_peer_ip identity lb =
    let peer = if bytes_eq identity primary_str then backup_str else primary_str in
    (node_at peer lb.nodes, touch_node peer lb)

-- The variables of one call of `SendHeartBeat`.
pub record Stream : Type 0 where
  pub prev_identity : Bytes
  pub identity : Bytes
  pub first_time : Bool

abbrev pub new_stream : Stream
new_stream = record { prev_identity = []; identity = []; first_time = true }

unfoldable pub register_heartbeat : Bytes → Bytes → Stream → LoadBalancer → LoadBalancer
unfolding register_node erase_node
register_heartbeat identity ip st lb =
    if bytes_eq identity st.prev_identity
    then lb
    else if st.first_time
    then register_node identity ip lb
    else register_node identity ip (erase_node identity lb)

-- One round of the loop: the reply's peer address, where it has one.
unfoldable pub on_heartbeat :
    Bytes → Bytes → Stream → LoadBalancer → Option Bytes × Stream × LoadBalancer
unfolding register_heartbeat get_peer_ip
on_heartbeat identity ip st lb =
    let st' : Stream = record {
      prev_identity = identity;
      identity = identity;
      first_time = if bytes_eq identity st.prev_identity then st.first_time else false;
    } in
    let (peer_ip, lb') = get_peer_ip identity (register_heartbeat identity ip st lb) in
    ((if is_empty peer_ip then none else some peer_ip), st', lb')

-- Behind the loop: the stream broke.
unfoldable pub on_break : Stream → LoadBalancer → LoadBalancer
unfolding erase_node
on_break st lb = erase_node st.identity lb

-- The server's side, `LBNodeCommClient::SendHeartBeat`: a backup that has no peer is the primary from
-- the next heartbeat on.
unfoldable pub next_identity : Bytes → Option Bytes → Bytes
next_identity identity (some peer_ip) = identity
next_identity identity none = if bytes_eq identity backup_str then primary_str else identity
