-- ===== src/System/Pinging.antt =====
-- `Ping` of all three processes: src/client.cc, src/load_balancer.cc and both services of
-- src/blockstorage_server.cc.
use replicated_block_store.Prelude.{
  ◌≡◌, refl, none, some, Bool, ◌&&◌, Bool-cases, inl, inr, Bytes, bytes_eq, bytes_eq_refl, bytes_ne,
  if◌then◌else◌,
}
use replicated_block_store.Device.{Device}
use replicated_block_store.Server.{StatusCode, ok, unavailable, Outcome, returns, crashes}
use replicated_block_store.Server.Link.{status_of}
use replicated_block_store.LoadBalancer.{route_read}
use replicated_block_store.Client
use replicated_block_store.System.{Site, Cluster}
use replicated_block_store.System.Serving.{IsHost, IsCalm}
use replicated_block_store.System.Routes.{route_read-host}
use replicated_block_store.System.Session.{IsHealthy}

-- `ServiceCommImpl::Ping`
abbrev comm_ping : StatusCode
comm_ping = ok

-- `BlockStorageServiceImpl::Ping`: what the peer answers, where it is up.
abbrev block_ping : Bool → StatusCode
block_ping peer_up = if peer_up then comm_ping else unavailable

module _ (site : Site) where
  -- A ping that arrives at an address.
  unfoldable pub call_ping : Bytes → Cluster → StatusCode × Cluster
  call_ping target c =
      if bytes_eq target site.addr_a && site.up_a
      then (block_ping site.up_b, c)
      else if bytes_eq target site.addr_b && site.up_b
      then (block_ping site.up_a, c)
      else (unavailable, c)

  -- `BlockStorageService::Ping` of the load balancer, which routes as for a read.
  unfoldable pub lb_ping : Cluster → Outcome StatusCode × Cluster
  unfolding Client.ping
  lb_ping c =
      let (client, lb) = route_read c.balancer in
      let c' = record c { balancer = lb } in
      elim client [
        | none ↦ (crashes, c')
        | some target ↦ let (status, d) = Client.ping (call_ping target) c' in (returns status, d)
      ]

  -- `BlockStorageClient::Ping` of a client program.
  unfoldable pub client_ping : Cluster → StatusCode × Cluster
  unfolding Client.ping
  client_ping c = Client.ping (λ s. let (o, d) = lb_ping s in (status_of o, d)) c

  module _ (env : IsCalm site) (t : Bytes) (host : IsHost site t) where
    call_ping-host :
        (c : Cluster) → call_ping t c ≡ ((if site.up_a && site.up_b then ok else unavailable), c)
    unfolding call_ping
    call_ping-host c = elim host [
      | inl (e, up) ↦ rw (e, bytes_eq_refl, up) refl
      | inr (e, up) ↦
          rw (e, bytes_ne site.addr_b site.addr_a env.apart, bytes_eq_refl, up)
            (elim (Bool-cases site.up_a) [ inl u ↦ rw u refl | inr u ↦ rw u refl ])
    ]

-- A ping tells whether both servers are up, and not whether the service answers: where the load
-- balancer's registered names, the primary among them, are servers that are up, at two addresses,
-- which hold the device, and nothing is refused, so that every read and write of a client is
-- answered with OK, a ping is answered with OK where both servers are up, and with UNAVAILABLE where
-- one is down, whichever one it is routed to; and it leaves such a system.
pub client_ping_lem :
    (site : Site) (p q : Bytes) (v : Device) (c : Cluster)
    → IsCalm site
    → IsHealthy site p q v c
    → ((client_ping site c).0 ≡ (if site.up_a && site.up_b then ok else unavailable))
      × IsHealthy site p q v (client_ping site c).1
unfolding client_ping lb_ping Client.ping
client_ping_lem site p q v c env h =
    let (t, e, which, routes) = route_read-host p q c.balancer h.routes in
    let host : IsHost site t = elim which [
      | inl same ↦ rw same h.host_p
      | inr same ↦ rw same h.host_q
    ] in
    let d = record c { balancer = (route_read c.balancer).1 } in
    rw (e, lb_ping, call_ping-host site env t host d)
      (
        refl,
        record {
          current = record { at_a = h.current.at_a; at_b = h.current.at_b };
          routes = routes;
          host_p = h.host_p;
          host_q = h.host_q;
        },
      )
