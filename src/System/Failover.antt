-- ===== src/System/Failover.antt =====
-- The system from the registration of its servers on, through the loss of the primary: heartbeats
-- of src/load_balancer.cc between requests of clients.
use replicated_block_store.Prelude.{
  ◌≡◌, ◌≢◌, inl, inr, refl, none, some, true, false, List, [], Bytes, arith, bytes_eq,
  bytes_eq_refl, bytes_lt, if◌then◌else◌,
}
use replicated_block_store.Map.{find, assign, insert, erase, contains, find-insert, find-erase}
use replicated_block_store.Device.{Device}
use replicated_block_store.Server.{Server}
use replicated_block_store.LoadBalancer.{
  LoadBalancer, init, primary_str, backup_str, touch_node, register_node, erase_node, get_peer_ip,
  register_heartbeat, on_heartbeat, on_break, new_stream,
}
use replicated_block_store.LoadBalancer.Routing.{node_at-touch, clients-touch, idx-touch}
use replicated_block_store.LoadBalancer.Failover.{
  taken_over, renewed, broken, primary-renewed, backup-renewed, taken_over_lem,
}
use replicated_block_store.System.{Site, Cluster}
use replicated_block_store.System.Serving.{Holds, IsCalm}
use replicated_block_store.System.Routes.{Routes}
use replicated_block_store.System.Session.{
  Op, IsHealthy, Fits, session, session_device, session_lem,
}

-- Both servers' first heartbeats.
abbrev pub joined : Bytes → Bytes → LoadBalancer
joined p q =
    let (_, _, lb) = on_heartbeat primary_str p new_stream init in
    let (_, _, lb') = on_heartbeat backup_str q new_stream lb in lb'

pub Routes-joined : (p q : Bytes) → p ≢ [] → Routes p q (joined p q)
unfolding on_heartbeat register_heartbeat register_node get_peer_ip touch_node find assign insert
    contains bytes_eq bytes_lt
Routes-joined p q h = record { alive = h; primary = refl; backup = λ _. refl; index = omega arith }

module _ (ip : Bytes) (lb : LoadBalancer) where
  clients-broken :
      (k : Bytes)
      → find k (broken lb).clients ≡ (if bytes_eq primary_str k then none else find k lb.clients)
  unfolding on_break erase_node
  clients-broken k = find-erase primary_str k lb.clients

  clients-renewed :
      (k : Bytes)
      → find k (renewed ip lb).clients
        ≡ (if bytes_eq primary_str k then some (some ip) else find k lb.clients)
  unfolding register_node erase_node
  clients-renewed k =
      let kept = (touch_node primary_str (broken lb)).clients in
      ground (
        arith,
        find-insert primary_str k (some ip) (erase primary_str kept),
        find-erase primary_str k kept,
        find-erase primary_str primary_str kept,
        bytes_eq_refl primary_str,
        clients-touch primary_str (broken lb),
        clients-broken k,
      )

  idx-renewed : (renewed ip lb).idx ≡ lb.idx
  unfolding register_node erase_node on_break
  idx-renewed = idx-touch primary_str _

  -- Behind the takeover both names lead to the server that took over.
  pub Routes-taken_over : (p : Bytes) → ip ≢ [] → Routes p ip lb → Routes ip ip (taken_over ip lb).2
  unfolding bytes_eq
  Routes-taken_over p h r = rw taken_over_lem (record {
    alive = rw (node_at-touch, primary-renewed) h;
    primary = rw (clients-touch, clients-renewed) refl;
    backup = λ u.
        rw (clients-touch, clients-renewed) (r.backup (rw (node_at-touch, backup-renewed) at u));
    index = rw (idx-touch, idx-renewed) r.index;
  })

-- The system once both servers have registered, and behind the loss of the server at the first
-- address and the takeover of the other one.
abbrev pub started : Site → Server → Server → Cluster
started site a b = record {
  balancer = joined site.addr_a site.addr_b;
  at_a = a;
  at_b = b;
  ticks = 0;
}

abbrev pub lose_a : Site → Site
lose_a site = record site { up_a = false }

abbrev pub fail_over : Site → Cluster → Cluster
fail_over site c = record c { balancer = (taken_over site.addr_b c.balancer).2 }

pub IsCalm-lose_a : (site : Site) → IsCalm site → IsCalm (lose_a site)
IsCalm-lose_a site env = record {
  apart = env.apart;
  named = env.named;
  calm_a = env.calm_a;
  calm_b = env.calm_b;
}

pub IsHealthy-started :
    (site : Site) (v : Device) (a b : Server)
    → site.addr_a ≢ []
    → site.up_a ≡ true
    → site.up_b ≡ true
    → Holds v a.disk
    → Holds v b.disk
    → IsHealthy site site.addr_a site.addr_b v (started site a b)
IsHealthy-started site v a b named up_a up_b ha hb = record {
  current = record { at_a = λ _. ha; at_b = λ _. hb };
  routes = Routes-joined site.addr_a site.addr_b named;
  host_p = inl (refl, up_a);
  host_q = inr (refl, up_b);
}

IsHealthy-fail_over :
    (site : Site) (v : Device) (c : Cluster)
    → site.addr_b ≢ []
    → site.up_b ≡ true
    → IsHealthy site site.addr_a site.addr_b v c
    → IsHealthy (lose_a site) site.addr_b site.addr_b v (fail_over site c)
IsHealthy-fail_over site v c named up_b h = record {
  current = record { at_a = λ e. absurd (cc); at_b = h.current.at_b };
  routes = Routes-taken_over site.addr_b c.balancer site.addr_a named h.routes;
  host_p = inr (refl, up_b);
  host_q = inr (refl, up_b);
}

-- No acknowledged write is lost with the primary: from two servers at two addresses that hold the
-- same device, on which nothing is refused, once both have registered, every request of a session,
-- each a write of 4096 bytes or a read, within the bounds, is answered with OK at its first attempt
-- as one device answers it; and when the server at the first address is then lost, and the other one
-- has taken over, every such request of a second session is answered as the same device goes on to
-- answer it. A read is shown each of its one or two parts up to the first zero byte.
pub fail_over-keeps_writes :
    (site : Site) (ops more : List Op) (v : Device) (a b : Server)
    → IsCalm site
    → site.addr_a ≢ []
    → site.up_a ≡ true
    → site.up_b ≡ true
    → Holds v a.disk
    → Holds v b.disk
    → Fits ops
    → Fits more
    → let (answers, c) = session site ops (started site a b) in
      let (answers', c') = session (lose_a site) more (fail_over site c) in
      (answers ≡ (session_device ops v).0)
      × (answers' ≡ (session_device more (session_device ops v).1).0)
fail_over-keeps_writes site ops more v a b env named up_a up_b ha hb fits fits' =
    let (same, h) =
      session_lem site site.addr_a site.addr_b ops v (started site a b) env fits
        (IsHealthy-started site v a b named up_a up_b ha hb) in
    let env' = IsCalm-lose_a site env in
    let (same', _) =
      session_lem (lose_a site) site.addr_b site.addr_b more _ _ env' fits'
        (IsHealthy-fail_over site _ _ env.named up_b h) in
    (same, same')
