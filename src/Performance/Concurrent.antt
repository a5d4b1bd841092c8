-- ===== src/Performance/Concurrent.antt =====
-- `testReadWrite` of performance/concurrent_rw.cc: a write of one byte, 4096 times, which is read
-- back. The program runs two calls of it at the same time.
use replicated_block_store.Prelude.{
  ℕ, zero, suc, ◌≡◌, ◌≢◌, ◌≤◌, ◌+◌, ◌/◌, refl, sym, ◌∙◌, inl, inr, Option, none, some, Bytes,
  bytes_eq, bytes_eq_refl, replicate, length-replicate, if◌then◌else◌, arith,
}
use replicated_block_store.Address.{block_size, block_storage_max_size}
use replicated_block_store.Device.{Device, write_device, read_device}
use replicated_block_store.Device.Laws.{HasBlocks, read-write}
use replicated_block_store.Server.Reading.{HasNoZero, read_shown_lem}
use replicated_block_store.Server.Serving.{HasBlocks-sound}
use replicated_block_store.Client.{Report, is_ok}
use replicated_block_store.System.{Site, Cluster, Reading, client_write, client_read}
use replicated_block_store.System.Serving.{Holds, IsCalm}
use replicated_block_store.System.Session.{IsHealthy, client_write-IsHealthy, client_read-IsHealthy}

-- The line that is printed.
pub data Verdict : Type 0 where
  write_failed read_failed passed failed : Verdict

-- The client's loop ends: its fuel is enough, and `none` does not occur.
abbrev compare_reply : Bytes → Option (Report Reading) → Cluster → Verdict × Cluster
compare_reply buffer none c = (read_failed, c)
compare_reply buffer (some r) c = (
  (if is_ok r.status
      then (if bytes_eq r.state.reply buffer then passed else failed)
      else read_failed),
  r.state.cluster,
)

module _ (site : Site) (address : ℕ) where
  abbrev read_back : Bytes → Option (Report Cluster) → Cluster → Verdict × Cluster
  read_back buffer none c = (write_failed, c)
  read_back buffer (some r) c =
      if is_ok r.status
      then compare_reply buffer (client_read site address r.state) r.state
      else (write_failed, r.state)

  unfoldable pub test_read_write : ℕ → Cluster → Verdict × Cluster
  test_read_write char c =
      let buffer = replicate 4096 char in read_back buffer (client_write site address buffer c) c

HasNoZero-replicate : (n c : ℕ) → c ≢ 0 → HasNoZero (replicate n c)
HasNoZero-replicate zero c h = tt
HasNoZero-replicate (suc n) c h = (h, HasNoZero-replicate n c h)

HasBlocks-Holds :
    (v : Device) (d : _) (a : ℕ)
    → a + block_size ≤ block_storage_max_size
    → Holds v d
    → HasBlocks v a
HasBlocks-Holds v d a bound h =
    let blocks = HasBlocks-sound d a bound h.sound in
    record {
      first = let (c, e) = blocks.first in (c, sym (h.same (a / block_size) (omega arith)) ∙ e);
      second = λ u.
          let (c, e) = blocks.second u in (c, sym (h.same (a / block_size + 1) (omega arith)) ∙ e);
    }

HasBlocks-healthy :
    (site : Site) (p q : Bytes) (v : Device) (c : Cluster) (a : ℕ)
    → a + block_size ≤ block_storage_max_size
    → IsHealthy site p q v c
    → HasBlocks v a
HasBlocks-healthy site p q v c a bound h = elim h.host_p [
  | inl (_, up) ↦ HasBlocks-Holds v _ a bound (h.current.at_a up)
  | inr (_, up) ↦ HasBlocks-Holds v _ a bound (h.current.at_b up)
]

-- A call of testReadWrite between whose two requests no other request comes prints that it passed:
-- at any address, aligned or not, whose 4096 bytes are within the bounds, and with any byte but zero,
-- at a system in which the load balancer's names lead to servers that are up and hold one device,
-- and nothing is refused. Behind it the system is such a system, and the device is the one behind
-- the write.
pub test_read_write_passes :
    (site : Site) (p q : Bytes) (address char : ℕ) (v : Device) (c : Cluster)
    → IsCalm site
    → IsHealthy site p q v c
    → address + block_size ≤ block_storage_max_size
    → char ≢ 0
    → ((test_read_write site address char c).0 ≡ passed)
      × IsHealthy site p q
          (write_device address (replicate 4096 char) v)
          (test_read_write site address char c).1
unfolding test_read_write
test_read_write_passes site p q address char v c env h bound nz =
    let buffer : Bytes = replicate 4096 char in
    let n = length-replicate {A = ℕ} 4096 char in
    let (d, e, good) = client_write-IsHealthy site env p q address v c h buffer (bound, n) in
    let w = write_device address buffer v in
    let same = read-write address buffer v n (HasBlocks-healthy site p q v c address bound h) in
    let (d', e', good') = client_read-IsHealthy site env p q address w d good bound in
    let zeros : HasNoZero (read_device address w) = rw same (HasNoZero-replicate 4096 char nz) in
    rw (e, e', read_shown_lem address w zeros, same, bytes_eq_refl) (refl, good')
