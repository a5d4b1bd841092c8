-- ===== src/Startup/Serving.antt =====
-- Two block servers from their start on (src/blockstorage_server.cc), behind the load balancer
-- (src/load_balancer.cc), and the clients that they serve.
use replicated_block_store.Prelude.{
  ℕ, suc, ◌≡◌, ◌≢◌, ◌≤◌, refl, ◌∙◌, inl, inr, true, [], List, Bytes,
}
use replicated_block_store.Disk.{Disk, Faults}
use replicated_block_store.Server.Staging.{Calm}
use replicated_block_store.Address.Paths.{max_blocks}
use replicated_block_store.Device.{Device}
use replicated_block_store.Server.{returns}
use replicated_block_store.Server.View.{view}
use replicated_block_store.LoadBalancer.{on_break}
use replicated_block_store.Recovery.RoundTrip.{Record}
use replicated_block_store.Recovery.Actions.{RecoveryStub}
use replicated_block_store.System.{Site, Cluster}
use replicated_block_store.System.Serving.{Holds, IsCalm}
use replicated_block_store.System.Session.{
  Op, IsHealthy, Fits, session, session_device, session_lem,
}
use replicated_block_store.System.Failover.{lose_a, IsCalm-lose_a}
use replicated_block_store.Startup.{start_up, server_on}
use replicated_block_store.Startup.Restart.{IsAtRest, prepared, start_up-keeps_blocks}
use replicated_block_store.Startup.Beats.{
  send_heart_beat, rounds_a, rounds_b, rounds_a-Steady, rounds_b-Steady, Routes-take_over,
}

-- The system behind `n` and `m` rounds of heartbeats, on the disks that the starts left.
abbrev pub serving : Site → ℕ → ℕ → Disk → Disk → Cluster
serving site n m a b = record {
  balancer = (rounds_b n m site.addr_a site.addr_b).balancer;
  at_a = server_on a;
  at_b = server_on b;
  ticks = 0;
}

-- The primary's stream breaks, and the backup goes on with `k` rounds.
abbrev pub behind_loss : Site → ℕ → ℕ → ℕ → Cluster → Cluster
behind_loss site n m k c =
    let lost = on_break (rounds_a n site.addr_a site.addr_b).stream c.balancer in
    let b = record (rounds_b n m site.addr_a site.addr_b) { balancer = lost } in
    record c { balancer = (send_heart_beat k site.addr_b b).balancer }

prepared-congr : (v w : Device) (b : ℕ) → v b ≡ w b → prepared v b ≡ prepared w b
prepared-congr v w b e = rw e refl

module _ (site : Site) (v : Device) (named : site.addr_a ≢ []) (up_b : site.up_b ≡ true)
    (n m : ℕ) where
  IsHealthy-serving :
      (a b : Disk)
      → site.up_a ≡ true
      → Holds v a
      → Holds v b
      → IsHealthy site site.addr_a site.addr_b v (serving site n m a b)
  IsHealthy-serving a b up_a ha hb =
      let s = rounds_b-Steady site.addr_a site.addr_b named n m in
      record {
        current = record { at_a = λ _. ha; at_b = λ _. hb };
        routes = rw s.same s.routes;
        host_p = inl (refl, up_a);
        host_q = inr (refl, up_b);
      }

  IsHealthy-behind_loss :
      (k : ℕ) (c : Cluster)
      → site.addr_b ≢ []
      → IsHealthy site site.addr_a site.addr_b v c
      → IsHealthy (lose_a site) site.addr_b site.addr_b v (behind_loss site n m (suc (suc k)) c)
  IsHealthy-behind_loss k c named_b h =
      let a = rounds_a-Steady site.addr_a site.addr_b named n m in
      let b = rounds_b-Steady site.addr_a site.addr_b named n m in
      record {
        current = record { at_a = λ e. absurd (cc); at_b = h.current.at_b };
        routes =
            Routes-take_over site.addr_a site.addr_b k _ _ a.balancer b.balancer c.balancer a.same
              b.same named_b h.routes;
        host_p = inr (refl, up_b);
        host_q = inr (refl, up_b);
      }

Holds-started :
    (site_os : Faults) (calm : Calm site_os) {P : Type 0} (stub : RecoveryStub P)
    (rs : List (Bytes × Record)) (d : Disk) (p : P) (v : Device)
    → ((ids : List Bytes) → (stub.force_pending_writes ids p).0 ≡ [])
    → IsAtRest site_os rs d
    → ((b : ℕ) → b ≤ max_blocks → view d b ≡ v b)
    → let (o, e, _) = start_up site_os stub d p in (o ≡ returns true) × Holds (prepared v) e
Holds-started os calm stub rs d p v silent rest same =
    let (o, sound, blocks, _, _) = start_up-keeps_blocks os calm stub rs d p silent rest in
    (
      o,
      record {
        sound = sound;
        same = λ b hb. blocks b hb ∙ prepared-congr (view d) v b (same b hb);
      },
    )

-- The service as a whole keeps what it acknowledged, from the start of its processes on: where two
-- block servers at two addresses start on the disks of runs that stopped between two writes, with
-- the same blocks, on which nothing is refused, and neither is sent a write by its peer, both come
-- to wait for requests; behind the first heartbeats of the primary and of the backup, and any number
-- of further ones, every request of a session of clients, each a write of 4096 bytes or a read,
-- within the bounds, is answered with OK at its first attempt as one device answers it that holds
-- those blocks, the missing ones as empty; and where the primary is then lost, then behind two or
-- more heartbeats of the backup, every such request of a second session is answered as the same
-- device goes on to answer it. A read is shown each of its one or two parts up to the first zero
-- byte.
pub start_up-serves :
    (site : Site) {P Q : Type 0} (stub : RecoveryStub P) (stub' : RecoveryStub Q)
    (rs rs' : List (Bytes × Record)) (d d' : Disk) (p : P) (q : Q) (n m k : ℕ) (ops more : List Op)
    → IsCalm site
    → site.addr_a ≢ []
    → site.up_a ≡ true
    → site.up_b ≡ true
    → ((ids : List Bytes) → (stub.force_pending_writes ids p).0 ≡ [])
    → ((ids : List Bytes) → (stub'.force_pending_writes ids q).0 ≡ [])
    → IsAtRest site.os_a rs d
    → IsAtRest site.os_b rs' d'
    → ((b : ℕ) → b ≤ max_blocks → view d' b ≡ view d b)
    → Fits ops
    → Fits more
    → let (o, a, _) = start_up site.os_a stub d p in
      let (o', b, _) = start_up site.os_b stub' d' q in
      let (answers, c) = session site ops (serving site n m a b) in
      let (answers', _) = session (lose_a site) more (behind_loss site n m (suc (suc k)) c) in
      let v = prepared (view d) in
      (o ≡ returns true)
      × (o' ≡ returns true)
      × (answers ≡ (session_device ops v).0)
      × (answers' ≡ (session_device more (session_device ops v).1).0)
start_up-serves site stub stub' rs rs' d d' p q n m k ops more env named up_a up_b silent silent'
      rest rest' same fits fits' =
    let (o, ha) =
      Holds-started site.os_a env.calm_a stub rs d p (view d) silent rest (λ b hb. refl) in
    let (o', hb) = Holds-started site.os_b env.calm_b stub' rs' d' q (view d) silent' rest' same in
    let (answers, h) =
      session_lem site site.addr_a site.addr_b ops (prepared (view d)) (serving site n m _ _) env
        fits (IsHealthy-serving site _ named up_b n m _ _ up_a ha hb) in
    let (answers', _) =
      session_lem (lose_a site) site.addr_b site.addr_b more _ _ (IsCalm-lose_a site env) fits'
        (IsHealthy-behind_loss site _ named up_b n m k _ env.named h) in
    (o, o', answers, answers')
