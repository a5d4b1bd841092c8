-- ===== src/System.antt =====
-- The three processes together: clients (src/client.cc), the load balancer (src/load_balancer.cc)
-- and two block servers (src/blockstorage_server.cc). gRPC carries each call to the process that
-- listens at the address, or answers UNAVAILABLE; CACHE_ON is 0. One request runs at a time.
pub mod Serving
pub mod Routes
pub mod Session
pub mod Pinging
pub mod Failover
use replicated_block_store.Prelude.{
  ℕ, ◌+◌, Option, none, some, Bool, true, false, ◌&&◌, List, [], ◌∷◌, Bytes, bytes_eq,
  if◌then◌else◌,
}
use replicated_block_store.Disk.{Faults}
use replicated_block_store.Server.{
  Server, StatusCode, ok, unavailable, unknown, Outcome, returns, throws, crashes,
}
use replicated_block_store.Server.Block.{Stub, ReadReply, WriteReply, read}
use replicated_block_store.Server.Write.{write}
use replicated_block_store.Server.Link.{linked, down, status_of}
use replicated_block_store.LoadBalancer.{LoadBalancer, route_read, route_write}
use replicated_block_store.Client
use replicated_block_store.Client.{Report}

-- Where the two servers listen, which of them are up, what their kernels refuse, and the ids that
-- the clock gives.
pub record Site : Type 0 where
  pub addr_a : Bytes
  pub addr_b : Bytes
  pub up_a : Bool
  pub up_b : Bool
  pub os_a : Faults
  pub os_b : Faults
  pub clock : ℕ → Bytes

pub record Cluster : Type 0 where
  pub balancer : LoadBalancer
  pub at_a : Server
  pub at_b : Server
  pub ticks : ℕ

-- A call of Read: the processes, and the reply that it fills.
pub record Reading : Type 0 where
  pub cluster : Cluster
  pub reply : Bytes

-- The server's stub for its peer.
abbrev pub peer : Bool → Faults → Stub Server
peer up os = if up then linked os else down

abbrev write_status : Outcome WriteReply → StatusCode
write_status (returns r) = r.status
write_status throws = unknown
write_status crashes = unavailable

-- A reply travels with OK only.
abbrev read_status : Outcome ReadReply → StatusCode × Bytes
read_status (returns r) = (r.status, elim r.status [ ok ↦ r.buffer | _ ↦ [] ])
read_status throws = (unknown, [])
read_status crashes = (unavailable, [])

module _ (site : Site) where
  -- The calls that arrive at an address.
  unfoldable pub call_write : Bytes → ℕ → Bytes → Cluster → StatusCode × Cluster
  call_write target addr buffer c =
      let now = site.clock c.ticks in
      if bytes_eq target site.addr_a && site.up_a
      then (let (o, a, b) =
            write site.os_a false (peer site.up_b site.os_b) now addr buffer c.at_a c.at_b in
          (write_status o, record c { at_a = a; at_b = b; ticks = c.ticks + 1 }))
      else if bytes_eq target site.addr_b && site.up_b
      then (let (o, b, a) =
            write site.os_b false (peer site.up_a site.os_a) now addr buffer c.at_b c.at_a in
          (write_status o, record c { at_a = a; at_b = b; ticks = c.ticks + 1 }))
      else (unavailable, c)

  unfoldable pub call_read : Bytes → ℕ → Reading → StatusCode × Reading
  call_read target addr r =
      let c = r.cluster in
      if bytes_eq target site.addr_a && site.up_a
      then (let (o, a) = read site.os_a false addr c.at_a in
          let (status, buffer) = read_status o in
          (status, record { cluster = record c { at_a = a }; reply = buffer }))
      else if bytes_eq target site.addr_b && site.up_b
      then (let (o, b) = read site.os_b false addr c.at_b in
          let (status, buffer) = read_status o in
          (status, record { cluster = record c { at_b = b }; reply = buffer }))
      else (unavailable, record { cluster = c; reply = [] })

  -- The load balancer's client returns with the status of its last attempt. Its fuel is enough.
  abbrev settle : {S : Type 0} → Option (Report S) → S → Outcome StatusCode × S
  settle none s = (crashes, s)
  settle (some r) s = (returns r.status, r.state)

  -- `BlockStorageService::Write` and `Read` of the load balancer.
  unfoldable pub lb_write : ℕ → Bytes → Cluster → Outcome StatusCode × Cluster
  lb_write addr buffer c =
      let (client, lb) = route_write c.balancer in
      let c' = record c { balancer = lb } in
      elim client [
        | none ↦ (crashes, c')
        | some target ↦ settle (Client.write (call_write target addr buffer) c') c'
      ]

  unfoldable pub lb_read : ℕ → Reading → Outcome StatusCode × Reading
  lb_read addr r =
      let (client, lb) = route_read r.cluster.balancer in
      let r' = record r { cluster = record r.cluster { balancer = lb } } in
      elim client [
        | none ↦ (crashes, r')
        | some target ↦ settle (Client.read (call_read target addr) r') r'
      ]

  abbrev delivered : {S : Type 0} → Outcome StatusCode × S → StatusCode × S
  delivered (o, s) = (status_of o, s)

  -- `BlockStorageClient::Write` and `Read` of a client program; a read clears the reply.
  unfoldable pub client_write : ℕ → Bytes → Cluster → Option (Report Cluster)
  client_write addr buffer c = Client.write (λ s. delivered (lb_write addr buffer s)) c

  unfoldable pub client_read : ℕ → Cluster → Option (Report Reading)
  client_read addr c =
      Client.read (λ r. delivered (lb_read addr (record r { reply = [] })))
        (record { cluster = c; reply = [] })
