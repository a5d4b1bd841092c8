-- ===== src/LoadBalancer/Failover.antt =====
-- The failover of src/load_balancer.cc, heartbeat by heartbeat.
use replicated_block_store.Prelude.{
  ◌≡◌, ◌≢◌, ◌≤◌, ap, sym, ◌∙◌, Option, none, some, false, [], arith, Bytes, bytes_eq, if◌then◌else◌,
}
use replicated_block_store.Map.{find-assign, find-erase}
use replicated_block_store.LoadBalancer.{
  LoadBalancer, primary_str, backup_str, node_at, touch_node, is_empty, register_node, erase_node,
  get_peer_ip, register_heartbeat, on_heartbeat, on_break, next_identity, Stream,
  get_server_to_route_to,
}
use replicated_block_store.LoadBalancer.Routing.{
  node_at-touch, IsValid, touch_node-IsValid, register_node-IsValid, erase_node-IsValid,
}

pub node_at-erase :
    (identity k : Bytes) (lb : LoadBalancer)
    → node_at k (erase_node identity lb).nodes ≡ (
        if is_empty identity
        then node_at k lb.nodes
        else if bytes_eq identity k
        then []
        else node_at k lb.nodes)
unfolding erase_node
node_at-erase identity k lb = ground (arith, find-erase identity k lb.nodes)

pub node_at-register :
    (identity target k : Bytes) (lb : LoadBalancer)
    → node_at k (register_node identity target lb).nodes
      ≡ (if bytes_eq identity k then target else node_at k lb.nodes)
unfolding register_node
node_at-register identity target k lb = ground (arith, find-assign identity k target lb.nodes)

-- The streams of a registered backup and of a primary.
abbrev pub backup_stream : Stream
backup_stream = record { prev_identity = backup_str; identity = backup_str; first_time = false }

abbrev pub primary_stream : Stream
primary_stream = record { prev_identity = primary_str; identity = primary_str; first_time = false }

-- The load balancer behind the break, behind the backup's next heartbeat, and behind the one after.
abbrev pub broken : LoadBalancer → LoadBalancer
broken lb = on_break primary_stream lb

abbrev pub noticed : Bytes → LoadBalancer → Option Bytes × Stream × LoadBalancer
noticed ip lb = on_heartbeat backup_str ip backup_stream (broken lb)

abbrev pub taken_over : Bytes → LoadBalancer → Option Bytes × Stream × LoadBalancer
taken_over ip lb = on_heartbeat primary_str ip (noticed ip lb).1 (noticed ip lb).2

-- Without a primary requests go to the backup.
route_backup_only :
    (lb : LoadBalancer)
    → lb.idx ≤ 1
    → node_at primary_str lb.nodes ≡ []
    → node_at backup_str lb.nodes ≢ []
    → (get_server_to_route_to lb).0 ≡ backup_str
unfolding get_server_to_route_to
route_backup_only lb h p b = ground arith

module _ (ip : Bytes) (lb : LoadBalancer) where
  nodes-broken : node_at primary_str (broken lb).nodes ≡ []
  unfolding on_break bytes_eq
  nodes-broken = node_at-erase primary_str primary_str lb

  backup-broken : node_at backup_str (broken lb).nodes ≡ node_at backup_str lb.nodes
  unfolding on_break bytes_eq
  backup-broken = node_at-erase primary_str backup_str lb

  noticed_lem : noticed ip lb ≡ (none, backup_stream, touch_node primary_str (broken lb))
  unfolding on_heartbeat register_heartbeat get_peer_ip bytes_eq
  noticed_lem = rw nodes-broken

  abbrev pub renewed : LoadBalancer
  renewed =
      register_node primary_str ip (erase_node primary_str (touch_node primary_str (broken lb)))

  pub primary-renewed : node_at primary_str renewed.nodes ≡ ip
  unfolding bytes_eq
  primary-renewed = node_at-register primary_str ip primary_str _

  pub backup-renewed : node_at backup_str renewed.nodes ≡ node_at backup_str lb.nodes
  unfolding bytes_eq
  backup-renewed =
      node_at-register primary_str ip backup_str _
      ∙ node_at-erase primary_str backup_str _
      ∙ node_at-touch primary_str backup_str _
      ∙ backup-broken

  renew_lem : on_heartbeat primary_str ip backup_stream (touch_node primary_str (broken lb)) ≡ (
    (if is_empty (node_at backup_str lb.nodes) then none else some (node_at backup_str lb.nodes)),
    primary_stream,
    touch_node backup_str renewed,
  )
  unfolding on_heartbeat register_heartbeat get_peer_ip bytes_eq
  renew_lem = rw backup-renewed

  pub taken_over_lem : taken_over ip lb ≡ (
    (if is_empty (node_at backup_str lb.nodes) then none else some (node_at backup_str lb.nodes)),
    primary_stream,
    touch_node backup_str renewed,
  )
  taken_over_lem =
      ap (λ (r : Option Bytes × Stream × LoadBalancer). on_heartbeat primary_str ip r.1 r.2)
        noticed_lem
      ∙ renew_lem

  -- The backup takes over in two heartbeats: behind the break of a registered primary's stream the
  -- first heartbeat of a registered backup is answered with no peer, which makes the backup the
  -- primary, and the second one registers its address under that name.
  pub takeover :
      ((noticed ip lb).0 ≡ none)
      × (next_identity backup_str (noticed ip lb).0 ≡ primary_str)
      × (node_at primary_str (taken_over ip lb).2.nodes ≡ ip)
  unfolding next_identity bytes_eq
  takeover = (
    rw noticed_lem,
    rw noticed_lem,
    rw taken_over_lem (node_at-touch backup_str primary_str renewed ∙ primary-renewed),
  )

  -- The load balancer when the stream of the new primary breaks too.
  abbrev gone : LoadBalancer
  gone = erase_node primary_str (touch_node backup_str renewed)

  backup-gone : node_at backup_str gone.nodes ≡ node_at backup_str lb.nodes
  unfolding bytes_eq
  backup-gone =
      node_at-erase primary_str backup_str _
      ∙ node_at-touch backup_str backup_str _
      ∙ backup-renewed

  primary-gone : node_at primary_str gone.nodes ≡ []
  unfolding bytes_eq
  primary-gone = node_at-erase primary_str primary_str _

  gone-IsValid : IsValid lb → IsValid gone
  unfolding on_break
  gone-IsValid v = erase_node-IsValid primary_str _ (
      touch_node-IsValid backup_str _ (
        register_node-IsValid primary_str ip _ (
          erase_node-IsValid primary_str _
            (touch_node-IsValid primary_str _ (erase_node-IsValid primary_str lb v)))))

  -- The failover erases the new name and not the old one: in a valid state, a backup that was
  -- registered, and took over, is told its own address as its peer's, and when its stream breaks
  -- no primary is registered, it is still registered as the backup, and reads are routed to it.
  pub takeover_keeps_backup :
      IsValid lb
      → node_at backup_str lb.nodes ≡ ip
      → ip ≢ []
      → let last = on_break (taken_over ip lb).1 (taken_over ip lb).2 in
        ((taken_over ip lb).0 ≡ some ip)
        × (node_at primary_str last.nodes ≡ [])
        × (node_at backup_str last.nodes ≡ ip)
        × ((get_server_to_route_to last).0 ≡ backup_str)
  unfolding on_break
  takeover_keeps_backup v registered h = rw taken_over_lem (
    ground arith,
    primary-gone,
    backup-gone ∙ registered,
    route_backup_only gone (gone-IsValid v).index primary-gone
        (λ e. h (sym registered ∙ sym backup-gone ∙ e)),
  )
