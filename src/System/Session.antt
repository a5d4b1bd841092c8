-- ===== src/System/Session.antt =====
-- Requests of client programs in a row, through src/load_balancer.cc to src/blockstorage_server.cc.
use replicated_block_store.Prelude.{
  ℕ, ◌≡◌, ◌≤◌, ◌+◌, refl, ap, ap₂, Option, none, some, List, [], ◌∷◌, Bytes, All, length, inl, inr,
}
use replicated_block_store.Address.{block_size, block_storage_max_size}
use replicated_block_store.Device.{Device, write_device, read_shown}
use replicated_block_store.Server.{StatusCode, ok, returns}
use replicated_block_store.LoadBalancer.{route_read}
use replicated_block_store.Client.{Report}
use replicated_block_store.System.{
  Site, Cluster, Reading, call_write, call_read, lb_write, lb_read, client_write, client_read,
}
use replicated_block_store.System.Serving.{
  IsCurrent, IsHost, IsCalm, call_write-host, call_read-host,
}
use replicated_block_store.System.Routes.{
  Routes, route_read-host, route_write-host, at_once, write-at_once, read-at_once,
}

-- A request of a client.
pub data Op : Type 0 where
  put : ℕ → Bytes → Op
  get : ℕ → Op

-- What a client sees of a request: the status, the bytes that it read, and the attempts it took.
pub record Answer : Type 0 where
  pub status : StatusCode
  pub content : Bytes
  pub attempts : ℕ

-- The processes between requests: the load balancer routes to `p` and `q`, where servers are up,
-- and these hold the device.
pub record IsHealthy (site : Site) (p q : Bytes) (v : Device) (c : Cluster) : Type 0 where
  pub current : IsCurrent site v c
  pub routes : Routes p q c.balancer
  pub host_p : IsHost site p
  pub host_q : IsHost site q

module _ (site : Site) where
  abbrev of_write : Option (Report Cluster) → Cluster → Option Answer × Cluster
  of_write none c = (none, c)
  of_write (some r) c =
      (some (record { status = r.status; content = []; attempts = r.attempts }), r.state)

  abbrev of_read : Option (Report Reading) → Cluster → Option Answer × Cluster
  of_read none c = (none, c)
  of_read (some r) c = (
    some (record { status = r.status; content = r.state.reply; attempts = r.attempts }),
    r.state.cluster,
  )

  unfoldable pub request : Op → Cluster → Option Answer × Cluster
  request (put a buffer) c = of_write (client_write site a buffer c) c
  request (get a) c = of_read (client_read site a c) c

  unfoldable pub session : List Op → Cluster → List (Option Answer) × Cluster
  unfolding request
  session [] c = ([], c)
  session (op ∷ ops) c =
      let (answer, c') = request op c in
      let (answers, c'') = session ops c' in (answer ∷ answers, c'')

abbrev pub answered : Bytes → Option Answer
answered content = some (record { status = ok; content = content; attempts = 1 })

-- The same requests on one device.
abbrev pub request_device : Op → Device → Option Answer × Device
request_device (put a buffer) v = (answered [], write_device a buffer v)
request_device (get a) v = (answered (read_shown a v), v)

abbrev pub session_device : List Op → Device → List (Option Answer) × Device
session_device [] v = ([], v)
session_device (op ∷ ops) v =
    let (answer, v') = request_device op v in
    let (answers, v'') = session_device ops v' in (answer ∷ answers, v'')

-- Whole blocks within the bounds.
abbrev pub FitsOne : Op → Type 0
FitsOne (put a buffer) = (a + block_size ≤ block_storage_max_size) × (length buffer ≡ block_size)
FitsOne (get a) = (a + block_size ≤ block_storage_max_size)

abbrev pub Fits : List Op → Type 0
Fits = All FitsOne

module _ (site : Site) (env : IsCalm site) (p q : Bytes) (a : ℕ) (v : Device) (c : Cluster)
    (h : IsHealthy site p q v c) where
  lb_write-IsHealthy :
      (buffer : Bytes)
      → FitsOne (put a buffer)
      → (d : Cluster) × (lb_write site a buffer c ≡ (returns ok, d))
        × IsHealthy site p q (write_device a buffer v) d
  unfolding lb_write
  lb_write-IsHealthy buffer (bound, n) =
      let (e, kept) = route_write-host p q c.balancer h.routes in
      let (o, current, same) = call_write-host site env p h.host_p v c h.current a bound buffer n in
      let call = call_write site p a buffer in
      (
        (call c).1,
        rw (e, kept, lb_write, write-at_once call c (call c).1 (ap (λ r. (r, (call c).1)) o)) refl,
        record {
          current = current;
          routes = rw same h.routes;
          host_p = h.host_p;
          host_q = h.host_q;
        },
      )

  lb_read-IsHealthy :
      (reply : Bytes)
      → FitsOne (get a)
      → (d : Cluster) × (lb_read site a (record { cluster = c; reply = reply })
          ≡ (returns ok, record { cluster = d; reply = read_shown a v }))
        × IsHealthy site p q v d
  unfolding lb_read
  lb_read-IsHealthy reply bound =
      let (t, e, which, routes) = route_read-host p q c.balancer h.routes in
      let host : IsHost site t = elim which [
        | inl same ↦ rw same h.host_p
        | inr same ↦ rw same h.host_q
      ] in
      let d = record c { balancer = (route_read c.balancer).1 } in
      let current : IsCurrent site v d = record { at_a = h.current.at_a; at_b = h.current.at_b } in
      (
        d,
        rw
            (
              e,
              lb_read,
              read-at_once (call_read site t a) (record { cluster = d; reply = reply }) _
                  (call_read-host site env t host v d current a bound reply),
            )
            refl,
        record { current = current; routes = routes; host_p = h.host_p; host_q = h.host_q },
      )

  pub client_write-IsHealthy :
      (buffer : Bytes)
      → FitsOne (put a buffer)
      → (d : Cluster) × (client_write site a buffer c ≡ some (at_once d))
        × IsHealthy site p q (write_device a buffer v) d
  unfolding client_write
  client_write-IsHealthy buffer fits =
      let (d, e, good) = lb_write-IsHealthy buffer fits in
      (d, write-at_once _ c d (rw e refl), good)

  pub client_read-IsHealthy :
      FitsOne (get a)
      → (d : Cluster) × (client_read site a c
          ≡ some (at_once (record { cluster = d; reply = read_shown a v })))
        × IsHealthy site p q v d
  unfolding client_read
  client_read-IsHealthy fits =
      let (d, e, good) = lb_read-IsHealthy [] fits in (d, read-at_once _ _ _ (rw e refl), good)

request-IsHealthy :
    (site : Site) (p q : Bytes) (op : Op) (v : Device) (c : Cluster)
    → IsCalm site
    → FitsOne op
    → IsHealthy site p q v c
    → ((request site op c).0 ≡ (request_device op v).0)
      × IsHealthy site p q (request_device op v).1 (request site op c).1
unfolding request
request-IsHealthy site p q (put a buffer) v c env fits h =
    let (d, e, good) = client_write-IsHealthy site env p q a v c h buffer fits in rw e (refl, good)
request-IsHealthy site p q (get a) v c env fits h =
    let (d, e, good) = client_read-IsHealthy site env p q a v c h fits in rw e (refl, good)

-- Any number of requests of clients in a row, each a write of 4096 bytes or a read, within the
-- bounds, through a load balancer whose registered names, the primary among them, are servers that
-- are up and hold the device, at two addresses, with nothing refused: each is answered with OK at its
-- first attempt, a read with what the one device shows on which the same requests run, each part up
-- to its first zero byte, whichever server it is routed to, and the system behind them is such a
-- system again, with that device.
pub session_lem :
    (site : Site) (p q : Bytes) (ops : List Op) (v : Device) (c : Cluster)
    → IsCalm site
    → Fits ops
    → IsHealthy site p q v c
    → ((session site ops c).0 ≡ (session_device ops v).0)
      × IsHealthy site p q (session_device ops v).1 (session site ops c).1
unfolding session
session_lem site p q [] v c env fits h = (refl, h)
session_lem site p q (op ∷ ops) v c env (one, fits) h =
    let (answer, good) = request-IsHealthy site p q op v c env one h in
    let (answers, good') =
      session_lem site p q ops (request_device op v).1 (request site op c).1 env fits good in
    (ap₂ ◌∷◌ answer answers, good')
