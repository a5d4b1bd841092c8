-- ===== src/System/Serving.antt =====
-- The block servers behind the load balancer: what a call that reaches one of them does.
use replicated_block_store.Prelude.{
  ℕ, ◌≡◌, ◌≢◌, ◌⊎◌, inl, inr, ◌≤◌, ◌+◌, [], refl, ◌∙◌, Bool, true, false, Bytes, bytes_ne,
  bytes_eq_refl, length,
}
use replicated_block_store.Disk.{Disk, Faults}
use replicated_block_store.Address.{block_size, block_storage_max_size}
use replicated_block_store.Address.Blocks.{file_parts}
use replicated_block_store.Address.Paths.{max_blocks}
use replicated_block_store.Device.{Device, write_device, read_shown}
use replicated_block_store.Server.{Server, ok, unavailable, returns}
use replicated_block_store.Server.Block.{call_prepare}
use replicated_block_store.Server.Write.{write, reply}
use replicated_block_store.Server.Link.{down}
use replicated_block_store.Server.Staging.{Calm}
use replicated_block_store.Server.View.{view}
use replicated_block_store.Server.Sound.{IsSound, IsReady-sound, write-IsSound}
use replicated_block_store.Server.Alone.{write_alone}
use replicated_block_store.Server.Replication.{write_replicates}
use replicated_block_store.Server.Runs.{write_device-congr}
use replicated_block_store.Server.Serving.{read-view}
use replicated_block_store.System.{Site, Cluster, peer, call_write, call_read}

-- A disk between requests that holds the device `v`.
pub record Holds (v : Device) (d : Disk) : Type 0 where
  pub sound : IsSound d
  pub same : (b : ℕ) → b ≤ max_blocks → view d b ≡ v b

-- A disk whose blocks are those that a write makes of such a disk's.
Holds-write :
    (a : ℕ) (buffer : Bytes) (v : Device) (d e : Disk)
    → Holds v d
    → IsSound e
    → ((b : ℕ) → b ≤ max_blocks → view e b ≡ write_device a buffer (view d) b)
    → Holds (write_device a buffer v) e
Holds-write a buffer v d e h sound views = record {
  sound = sound;
  same = λ b hb. views b hb ∙ write_device-congr a buffer (view d) v b (h.same b hb);
}

-- A write on a server that holds the device, whether its peer is up, and holds it too, or is not.
pub write-Holds :
    (os osb : Faults) (up : Bool) (now buffer : Bytes) (a : ℕ) (v : Device) (s p : Server)
    → Calm os
    → Calm osb
    → a + block_size ≤ block_storage_max_size
    → length buffer ≡ block_size
    → Holds v s.disk
    → (up ≡ true → Holds v p.disk)
    → let w = write os false (peer up osb) now a buffer s p in
      (w.0 ≡ returns (reply ok))
      × Holds (write_device a buffer v) w.1.disk
      × (up ≡ true → Holds (write_device a buffer v) w.2.disk)
write-Holds os osb true now buffer a v s p calm calmb bound n h hp =
    let g = hp refl in
    let (o, vs, vp, _, _) =
      write_replicates os osb false now buffer a s p calm calmb bound n
        (IsReady-sound s.disk a bound h.sound) (IsReady-sound p.disk a bound g.sound) in
    let (ss, sp) = write-IsSound os osb false now buffer a s p calm calmb bound n h.sound g.sound in
    (o, Holds-write a buffer v s.disk _ h ss vs, λ _. Holds-write a buffer v p.disk _ g sp vp)
write-Holds os osb false now buffer a v s p calm calmb bound n h hp =
    let lost : (call_prepare (down {P = Server}) now buffer (file_parts a) p).0 ≡ unavailable =
      unfold call_prepare down in refl in
    let (o, vs, ss, _) =
      write_alone os calm false (down {P = Server}) now buffer a p bound n lost s h.sound in
    (o, Holds-write a buffer v s.disk _ h ss vs, λ e. absurd (cc))

-- The servers that are up hold the device.
pub record IsCurrent (site : Site) (v : Device) (c : Cluster) : Type 0 where
  pub at_a : site.up_a ≡ true → Holds v c.at_a.disk
  pub at_b : site.up_b ≡ true → Holds v c.at_b.disk

-- An address at which a server is up.
abbrev pub IsHost : Site → Bytes → Type 0
IsHost site t = ((t ≡ site.addr_a) × (site.up_a ≡ true)) ⊎ ((t ≡ site.addr_b) × (site.up_b ≡ true))

-- Two servers at two addresses, on which nothing is refused.
pub record IsCalm (site : Site) : Type 0 where
  pub apart : site.addr_b ≢ site.addr_a
  pub named : site.addr_b ≢ []
  pub calm_a : Calm site.os_a
  pub calm_b : Calm site.os_b

module _ (site : Site) (env : IsCalm site) (t : Bytes) (host : IsHost site t) (v : Device)
    (c : Cluster) (now : IsCurrent site v c) (a : ℕ)
    (bound : a + block_size ≤ block_storage_max_size) where
  pub call_write-host :
      (buffer : Bytes)
      → length buffer ≡ block_size
      → ((call_write site t a buffer c).0 ≡ ok)
        × IsCurrent site (write_device a buffer v) (call_write site t a buffer c).1
        × ((call_write site t a buffer c).1.balancer ≡ c.balancer)
  unfolding call_write
  call_write-host buffer n = elim host [
    | inl (e, up) ↦
        let (o, hs, hp) =
          write-Holds site.os_a site.os_b site.up_b (site.clock c.ticks) buffer a v c.at_a c.at_b
            env.calm_a env.calm_b bound n (now.at_a up) now.at_b in
        rw (e, bytes_eq_refl, up, o) (refl, record { at_a = λ _. hs; at_b = hp }, refl)
    | inr (e, up) ↦
        let (o, hs, hp) =
          write-Holds site.os_b site.os_a site.up_a (site.clock c.ticks) buffer a v c.at_b c.at_a
            env.calm_b env.calm_a bound n (now.at_b up) now.at_a in
        rw (e, bytes_ne site.addr_b site.addr_a env.apart, bytes_eq_refl, up, o)
          (refl, record { at_a = hp; at_b = λ _. hs }, refl)
  ]

  pub call_read-host :
      (reply : Bytes)
      → call_read site t a (record { cluster = c; reply = reply })
        ≡ (ok, record { cluster = c; reply = read_shown a v })
  unfolding call_read
  call_read-host reply = elim host [
    | inl (e, up) ↦
        let h = now.at_a up in
        rw (e, bytes_eq_refl, up, read-view site.os_a a c.at_a v env.calm_a bound h.sound h.same)
          refl
    | inr (e, up) ↦
        let h = now.at_b up in
        rw
          (
            e,
            bytes_ne site.addr_b site.addr_a env.apart,
            bytes_eq_refl,
            up,
            read-view site.os_b a c.at_b v env.calm_b bound h.sound h.same,
          )
          refl
  ]
