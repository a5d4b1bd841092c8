-- ===== src/Startup/Beats.antt =====
-- The heartbeats of a block server, `LBNodeCommClient::SendHeartBeat` of src/blockstorage_server.cc,
-- and the load balancer that answers them (src/load_balancer.cc). The `sleep` between two rounds is
-- not modelled, and the endless loop is any number of its rounds.
use replicated_block_store.Prelude.{
  ℕ, zero, suc, ◌≡◌, ◌≢◌, refl, none, some, Option, [], Bytes, bytes_eq, bytes_lt, arith, ap, ◌∙◌,
}
use replicated_block_store.Map.{find, assign, insert, erase, contains}
use replicated_block_store.LoadBalancer.{
  LoadBalancer, on_break, init, primary_str, backup_str, node_at, touch_node, register_node,
  get_peer_ip, register_heartbeat, erase_node, on_heartbeat, next_identity, new_stream, Stream,
}
use replicated_block_store.LoadBalancer.Failover.{
  backup_stream, primary_stream, broken, noticed, taken_over, takeover, taken_over_lem,
}
use replicated_block_store.System.Routes.{Routes, Routes-touch}
use replicated_block_store.System.Failover.{Routes-taken_over, Routes-joined, joined}
use replicated_block_store.Startup.{start_identity}

-- The server's identity, the variables of its stream in the load balancer, and the load balancer.
pub record Beating : Type 0 where
  pub identity : Bytes
  pub stream : Stream
  pub balancer : LoadBalancer

-- `StartHB`
unfoldable pub start_hb : Bytes → LoadBalancer → Beating
unfolding start_identity
start_hb identity_str lb = record {
  identity = start_identity identity_str;
  stream = new_stream;
  balancer = lb;
}

-- One round of `while(1)`, behind the reply.
abbrev pub answered : Bytes → Option Bytes × Stream × LoadBalancer → Beating
answered identity (peer_ip, st, lb) = record {
  identity = next_identity identity peer_ip;
  stream = st;
  balancer = lb;
}

unfoldable pub beat : Bytes → Beating → Beating
beat self_addr b = answered b.identity (on_heartbeat b.identity self_addr b.stream b.balancer)

unfoldable pub send_heart_beat : ℕ → Bytes → Beating → Beating
unfolding beat
send_heart_beat zero self_addr b = b
send_heart_beat (suc n) self_addr b = send_heart_beat n self_addr (beat self_addr b)

-- A registered primary, and a registered backup, between two rounds.
abbrev pub as_primary : LoadBalancer → Beating
as_primary lb = record { identity = primary_str; stream = primary_stream; balancer = lb }

abbrev pub as_backup : LoadBalancer → Beating
as_backup lb = record { identity = backup_str; stream = backup_stream; balancer = lb }

-- A primary stays one.
primary_stays : (reply : Option Bytes) → next_identity primary_str reply ≡ primary_str
unfolding next_identity bytes_eq
primary_stays none = refl
primary_stays (some peer_ip) = refl

module _ (ip : Bytes) (lb : LoadBalancer) where
  beat-primary : beat ip (as_primary lb) ≡ as_primary (touch_node backup_str lb)
  unfolding beat on_heartbeat next_identity register_heartbeat get_peer_ip bytes_eq
  beat-primary = ground arith

  beat-backup :
      node_at primary_str lb.nodes ≢ []
      → beat ip (as_backup lb) ≡ as_backup (touch_node primary_str lb)
  unfolding beat on_heartbeat next_identity register_heartbeat get_peer_ip bytes_eq
  beat-backup h = ground arith

  -- The two rounds in which a backup without a primary takes over.
  pub beats-take_over : beat ip (beat ip (as_backup (broken lb))) ≡ as_primary (taken_over ip lb).2
  unfolding beat
  beats-take_over =
      ap
        (λ (name : Bytes). answered name (on_heartbeat name ip (noticed ip lb).1 (noticed ip lb).2))
        (takeover ip lb).1
      ∙ ap
          (λ (name : Bytes). record {
            identity = name;
            stream = (taken_over ip lb).1;
            balancer = (taken_over ip lb).2;
          })
          (primary_stays (taken_over ip lb).0)
      ∙ ap
          (λ (st : Stream). record {
            identity = primary_str;
            stream = st;
            balancer = (taken_over ip lb).2;
          })
          (ap (λ (r : Option Bytes × Stream × LoadBalancer). r.1) (taken_over_lem ip lb))

-- What the rounds of a registered server leave, while its peer lives or is gone.
pub record Steady (p q : Bytes) (of : LoadBalancer → Beating) (b : Beating) : Type 0 where
  pub balancer : LoadBalancer
  pub same : b ≡ of balancer
  pub routes : Routes p q balancer

module _ (ip p q : Bytes) where
  pub primary-Steady :
      (n : ℕ) (lb : LoadBalancer)
      → Routes p q lb
      → Steady p q as_primary (send_heart_beat n ip (as_primary lb))
  unfolding send_heart_beat
  primary-Steady zero lb r = record { balancer = lb; same = refl; routes = r }
  primary-Steady (suc n) lb r =
      rw (beat-primary ip lb) (primary-Steady n _ (Routes-touch p q backup_str lb r))

  pub backup-Steady :
      (n : ℕ) (lb : LoadBalancer)
      → Routes p q lb
      → Steady p q as_backup (send_heart_beat n ip (as_backup lb))
  unfolding send_heart_beat
  backup-Steady zero lb r = record { balancer = lb; same = refl; routes = r }
  backup-Steady (suc n) lb r =
      rw (beat-backup ip lb r.alive) (backup-Steady n _ (Routes-touch p q primary_str lb r))

-- The load balancer behind the first round of a primary, and of a backup behind it.
abbrev pub first_a : Bytes → Beating
first_a p = beat p (start_hb primary_str init)

abbrev pub first_b : Bytes → Bytes → Beating
first_b p q = beat q (start_hb backup_str (first_a p).balancer)

module _ (p q : Bytes) where
  pub first_a-is : first_a p ≡ as_primary (first_a p).balancer
  unfolding start_hb start_identity beat on_heartbeat next_identity bytes_eq
  first_a-is = ground arith

  pub first_b-is : p ≢ [] → first_b p q ≡ as_backup (joined p q)
  unfolding start_hb start_identity beat on_heartbeat next_identity bytes_eq register_heartbeat
      register_node get_peer_ip touch_node find assign
  first_b-is h = ground arith

  -- A backup that starts in front of the primary takes over at once, and where a primary starts then,
  -- it is registered under its name, while the client of that name still calls the backup.
  started_backwards :
      let taken = beat q (beat q (start_hb backup_str init)) in
      let late = beat p (start_hb primary_str taken.balancer) in
      (taken.identity ≡ primary_str)
      × (node_at primary_str late.balancer.nodes ≡ p)
      × (find primary_str late.balancer.clients ≡ some (some q))
  unfolding start_hb start_identity beat on_heartbeat next_identity bytes_eq register_heartbeat
      register_node get_peer_ip touch_node find assign erase_node erase insert contains bytes_lt
  started_backwards = (primary_stays _, refl, refl)

-- The rounds of both servers: the first ones, then `n` of the primary and `m` of the backup.
abbrev pub rounds_a : ℕ → Bytes → Bytes → Beating
rounds_a n p q = send_heart_beat n p (record (first_a p) { balancer = (first_b p q).balancer })

abbrev pub rounds_b : ℕ → ℕ → Bytes → Bytes → Beating
rounds_b n m p q =
    send_heart_beat m q (record (first_b p q) { balancer = (rounds_a n p q).balancer })

module _ (p q : Bytes) (named : p ≢ []) (n m : ℕ) where
  pub rounds_a-Steady : Steady p q as_primary (rounds_a n p q)
  rounds_a-Steady =
      rw (first_a-is p q, first_b-is p q named)
        (primary-Steady p p q n (joined p q) (Routes-joined p q named))

  backup-from :
      (b : Beating) (before now : LoadBalancer)
      → b ≡ as_backup before
      → Routes p q now
      → Steady p q as_backup (send_heart_beat m q (record b { balancer = now }))
  backup-from b before now e r = rw e (backup-Steady q p q m now r)

  pub rounds_b-Steady : Steady p q as_backup (rounds_b n m p q)
  rounds_b-Steady =
      let s = rounds_a-Steady in
      backup-from (first_b p q) (joined p q) (rounds_a n p q).balancer (first_b-is p q named)
        (rw s.same s.routes)

-- The backup's rounds behind the break of the primary's stream: from the second one on both names
-- lead to it.
pub beats-take_over_lem :
    (p ip : Bytes) (k : ℕ) (lb : LoadBalancer)
    → ip ≢ []
    → Routes p ip lb
    → Steady ip ip as_primary (send_heart_beat (suc (suc k)) ip (as_backup (broken lb)))
unfolding send_heart_beat
beats-take_over_lem p ip k lb named r =
    rw (beats-take_over ip lb)
      (primary-Steady ip ip ip k (taken_over ip lb).2 (Routes-taken_over ip lb p named r))

pub Routes-take_over :
    (p ip : Bytes) (k : ℕ) (a b : Beating) (x y lb : LoadBalancer)
    → a ≡ as_primary x
    → b ≡ as_backup y
    → ip ≢ []
    → Routes p ip lb
    → let b' = record b { balancer = on_break a.stream lb } in
      Routes ip ip (send_heart_beat (suc (suc k)) ip b').balancer
Routes-take_over p ip k a b x y lb ea eb named r =
    let s = beats-take_over_lem p ip k lb named r in rw (ea, eb, s.same) s.routes
