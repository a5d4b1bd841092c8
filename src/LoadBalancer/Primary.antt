-- ===== src/LoadBalancer/Primary.antt =====
-- Where writes go in src/load_balancer.cc while the primary is registered.
use replicated_block_store.Prelude.{
  ◌≡◌, ◌≢◌, ◌⊎◌, inl, inr, refl, none, some, true, [], Bytes, bytes_eq, bytes_eq_iff, bytes_eq_refl,
  arith, if_holds, ◌-◌,
}
use replicated_block_store.Map.{find, find-insert, find-erase}
use replicated_block_store.LoadBalancer.{
  LoadBalancer, Stream, primary_str, backup_str, new_stream, client_at, route_read, route_write,
  get_server_to_route_to, touch_node, register_node, erase_node, get_peer_ip, register_heartbeat,
  on_heartbeat, on_break,
}
use replicated_block_store.LoadBalancer.Failover.{node_at-erase, node_at-register}
use replicated_block_store.LoadBalancer.Routing.{
  IsAlive, IsValid, node_at-touch, clients-touch, route_read-served, routed-IsValid,
}
use replicated_block_store.LoadBalancer.States.{
  State, up, crashed, Step, reads, writes, beats, breaks, Step-Stays, behind,
}

-- The steps that keep the primary's name: all but the break of a stream of that name, and a
-- heartbeat by which another server takes it over. A heartbeat of a new stream under that name gives
-- an address.
abbrev pub Spares : {lb : LoadBalancer} {s : State} → Step lb s → Type 0
Spares reads = Unit {0}
Spares writes = Unit {0}
Spares (beats identity ip st) =
    (identity ≢ primary_str)
    ⊎ ((identity ≡ st.prev_identity) ⊎ ((st.first_time ≡ true) × (ip ≢ [])))
Spares (breaks st) = st.identity ≢ primary_str

pub data Run (lb : LoadBalancer) : State → Type 0 where
  stay : Run lb (up lb)
  next : {m : LoadBalancer} {s : State} → Run lb (up m) → (step : Step m s) → Spares step → Run lb s

-- The primary is registered, and its client calls `ip`.
record Calls (ip : Bytes) (lb : LoadBalancer) : Type 0 where
  alive : IsAlive primary_str lb
  client : find primary_str lb.clients ≡ some (some ip)

abbrev Stands : Bytes → State → Type 0
Stands ip (up lb) = IsValid lb × Calls ip lb
Stands ip crashed = ⊥

module _ (ip : Bytes) where
  touch-Calls :
      (identity : Bytes) (lb : LoadBalancer) → Calls ip lb → Calls ip (touch_node identity lb)
  touch-Calls identity lb c = record {
    alive = rw node_at-touch c.alive;
    client = rw clients-touch c.client;
  }

  erase-Calls :
      (identity : Bytes) (lb : LoadBalancer)
      → identity ≢ primary_str
      → Calls ip lb
      → Calls ip (erase_node identity lb)
  erase-Calls identity lb h c =
      let k = c.client in
      record {
        alive =
            rw (node_at-erase identity primary_str lb)
              (ground (arith, c.alive, bytes_eq_iff identity primary_str));
        client =
            unfold erase_node in
            ground (
              arith,
              find-erase identity primary_str lb.clients,
              bytes_eq_iff identity primary_str,
            );
      }

  -- A registration keeps the client that is there.
  register-Calls :
      (identity target : Bytes) (lb : LoadBalancer)
      → (identity ≢ primary_str) ⊎ (target ≢ [])
      → Calls ip lb
      → Calls ip (register_node identity target lb)
  register-Calls identity target lb h c =
      let k = c.client in
      record {
        alive =
            rw (node_at-register identity target primary_str lb)
              (ground (arith, c.alive, bytes_eq_iff identity primary_str));
        client =
            unfold register_node in
            ground (
              arith,
              find-insert identity primary_str (some target) lb.clients,
              bytes_eq_iff identity primary_str,
            );
      }

  register_heartbeat-Calls :
      (identity addr : Bytes) (st : Stream) (lb : LoadBalancer)
      → (identity ≢ primary_str)
        ⊎ ((identity ≡ st.prev_identity) ⊎ ((st.first_time ≡ true) × (addr ≢ [])))
      → Calls ip lb
      → Calls ip (register_heartbeat identity addr st lb)
  unfolding register_heartbeat
  register_heartbeat-Calls identity addr st lb (inl other) c =
      if_holds (Calls ip) (bytes_eq identity st.prev_identity) _ _ c (
        if_holds (Calls ip) st.first_time _ _ (register-Calls identity addr lb (inl other) c)
          (register-Calls identity addr _ (inl other) (erase-Calls identity lb other c)))
  register_heartbeat-Calls identity addr st lb (inr (inl e)) c = rw (e, bytes_eq_refl) c
  register_heartbeat-Calls identity addr st lb (inr (inr (e, named))) c = rw e (
      if_holds (Calls ip) (bytes_eq identity st.prev_identity) _ _ c
        (register-Calls identity addr lb (inr named) c))

  heartbeat-Calls :
      (identity addr : Bytes) (st : Stream) (lb : LoadBalancer)
      → (identity ≢ primary_str)
        ⊎ ((identity ≡ st.prev_identity) ⊎ ((st.first_time ≡ true) × (addr ≢ [])))
      → Calls ip lb
      → Calls ip (on_heartbeat identity addr st lb).2
  unfolding on_heartbeat get_peer_ip
  heartbeat-Calls identity addr st lb h c =
      touch-Calls _ _ (register_heartbeat-Calls identity addr st lb h c)

  routed-Calls : (lb : LoadBalancer) → Calls ip lb → Calls ip (get_server_to_route_to lb).1
  unfolding get_server_to_route_to
  routed-Calls lb c =
      let lb' = record lb { idx = 1 - lb.idx } in
      let c' : Calls ip lb' = record { alive = c.alive; client = c.client } in
      ground (arith, touch-Calls primary_str lb' c', touch-Calls backup_str lb' c', c')

  client_at-found :
      (key target : Bytes) (lb : LoadBalancer)
      → (client_at key lb).0 ≡ some target
      → client_at key lb ≡ (some target, lb)
  unfolding client_at
  client_at-found key target lb h = ground arith

  writes_lem : (lb : LoadBalancer) → Calls ip lb → route_write lb ≡ (some ip, lb)
  unfolding route_write client_at
  writes_lem lb c = rw (c.client, client_at) refl

  reads-Stands : (lb : LoadBalancer) → IsValid lb → Calls ip lb → Stands ip (behind (route_read lb))
  unfolding route_read
  reads-Stands lb v c =
      let (target, e, v') = route_read-served lb v (inl c.alive) in
      rw (client_at-found _ target (get_server_to_route_to lb).1 e)
        (routed-IsValid lb v, routed-Calls lb c)

  Step-Stands :
      {lb : LoadBalancer} {s : State} (step : Step lb s)
      → Spares step
      → IsValid lb
      → Calls ip lb
      → Stands ip s
  Step-Stands {lb} reads h v c = reads-Stands lb v c
  Step-Stands {lb} writes h v c = rw (writes_lem lb c) (v, c)
  Step-Stands {lb} (beats identity addr st) h v c =
      (Step-Stays (beats identity addr st) v, heartbeat-Calls identity addr st lb h c)
  Step-Stands {lb} (breaks st) h v c =
      (Step-Stays {lb = lb} (breaks st) v, unfold on_break in erase-Calls st.identity lb h c)

  Run-Stands : {lb : LoadBalancer} {s : State} → IsValid lb → Calls ip lb → Run lb s → Stands ip s
  Run-Stands v c stay = (v, c)
  Run-Stands v c (next r step h) = let (v', c') = Run-Stands v c r in Step-Stands step h v' c'

  -- The first heartbeat of a primary, whose name has no client.
  joined-Stands :
      (lb : LoadBalancer)
      → IsValid lb
      → find primary_str lb.clients ≡ none
      → ip ≢ []
      → Stands ip (up (on_heartbeat primary_str ip new_stream lb).2)
  unfolding on_heartbeat get_peer_ip register_heartbeat bytes_eq
  joined-Stands lb v free named = (
    Step-Stays {lb = lb} (beats primary_str ip new_stream) v,
    touch-Calls backup_str (register_node primary_str ip lb) (record {
      alive = rw (node_at-register primary_str ip primary_str lb) named;
      client =
          unfold register_node in
          ground (arith, find-insert primary_str primary_str (some ip) lb.clients);
    }),
  )

-- What a write that arrives then does.
abbrev pub WritesGoTo : Bytes → State → Type 0
WritesGoTo ip (up lb) = route_write lb ≡ (some ip, lb)
WritesGoTo ip crashed = ⊥

Stands-WritesGoTo : (ip : Bytes) (s : State) → Stands ip s → WritesGoTo ip s
Stands-WritesGoTo ip (up lb) (v, c) = writes_lem ip lb c
Stands-WritesGoTo ip crashed h = h

-- Writes go to the primary, and to no other server, as long as it keeps its name: behind the first
-- heartbeat of a primary at an address, in a valid state in which that name had no client, and any
-- further requests, heartbeats and broken streams in whatever order, the program has not ended, and
-- a write is passed to the client of that very address and changes nothing. Excepted are only the
-- break of a stream of the primary's name and a heartbeat by which a server that had another name
-- takes it over; a new stream may give the name with another address, not an empty one.
pub Run-WritesGoTo :
    (ip : Bytes) (lb : LoadBalancer) (s : State)
    → IsValid lb
    → find primary_str lb.clients ≡ none
    → ip ≢ []
    → Run (on_heartbeat primary_str ip new_stream lb).2 s
    → WritesGoTo ip s
Run-WritesGoTo ip lb s v free named r =
    let (v', c) = joined-Stands ip lb v free named in Stands-WritesGoTo ip s (Run-Stands ip v' c r)
