-- ===== src/Server/Overlap/Loss.antt =====
-- Two writes of src/blockstorage_server.cc at the same time that share a block: the last block of one
-- is the first block of the other.
use replicated_block_store.Prelude.{
  ℕ, ◌≡◌, ◌≢◌, ◌≤◌, ◌+◌, ◌-◌, ◌/◌, ◌%◌, ap, sym, ◌∙◌, none, some, false, Bytes, arith, length,
  length-take, map, inl, inr, ◌==◌, Bool-cases, if◌then◌else◌, [], ◌∷◌, List,
}
use replicated_block_store.Io.{done}
use replicated_block_store.Disk.{Disk, Faults, overwrite}
use replicated_block_store.Disk.Content.{length-overwrite_le}
use replicated_block_store.Address.{block_size, block_storage_max_size}
use replicated_block_store.Address.Blocks.{block_path, file_parts}
use replicated_block_store.Address.Paths.{max_blocks, block_path_injective}
use replicated_block_store.Device.{write_device, first_part}
use replicated_block_store.Map.{Map}
use replicated_block_store.Locks.{SharedMutex, free, mutex_at, lock_files}
use replicated_block_store.Locks.Handover.{lock_files-overtakes}
use replicated_block_store.Server.{Server, ok, Outcome, returns}
use replicated_block_store.Server.Comm.{stage_files}
use replicated_block_store.Server.Block.{WriteReply, file_data_of}
use replicated_block_store.Server.Write.{paths, reply, write_job, replicate_staged}
use replicated_block_store.Server.Staging.{Calm, content_or_empty}
use replicated_block_store.Server.View.{view, temp_view}
use replicated_block_store.Server.Parts.{IsReady, IsStaged, stage_parts}
use replicated_block_store.Server.Link.{linked}
use replicated_block_store.Server.Runs.{write_device-congr}
use replicated_block_store.Server.Clean.{IsClean-renamed, moved-second, others-kept, staged-others}
use replicated_block_store.Server.Sound.{
  IsFull-congr, write_device-IsFull, IsSound, IsReady-sound, write_job-temps,
}
use replicated_block_store.Server.Replication.{write_job_replicates}
use replicated_block_store.Server.Overlap.{job_of, overtake, last_block, two_paths}
use replicated_block_store.Server.Overlap.Rest.{rest_lem}

module _ (os osb : Faults) (calm : Calm os) (calmb : Calm osb) (a c : ℕ)
    (buffer buffer' now now' : Bytes) (s p : Server)
    (bound : a + block_size ≤ block_storage_max_size)
    (bound' : c + block_size ≤ block_storage_max_size) (n : length buffer ≡ block_size)
    (n' : length buffer' ≡ block_size) (u : a % block_size ≢ 0) (u' : c % block_size ≢ 0)
    (next : c / block_size ≡ a / block_size + 1) (sound : IsSound s.disk) (soundb : IsSound p.disk)
    (whole : length (content_or_empty (view s.disk (a / block_size + 1))) ≡ block_size) where
  -- The primary's disk with the late write staged.
  abbrev begun : Disk
  begun = (stage_files os buffer' 0 (map file_data_of (file_parts c)) s.disk).1

  begun-IsStaged :
      ((stage_files os buffer' 0 (map file_data_of (file_parts c)) s.disk).0 ≡ done tt)
      × IsStaged c buffer' (view s.disk) begun
  begun-IsStaged =
      stage_parts os calm c buffer' bound' s.disk n' (IsReady-sound s.disk c bound' sound)

  -- The early write can stage over it.
  begun-IsReady : IsReady begun a
  begun-IsReady =
      let (_, staged) = begun-IsStaged in
      let (x, e, l) = sound.full (a / block_size) (omega arith) in
      let (y, f, m) = sound.full (a / block_size + 1) (omega arith) in
      let (z, g, t) = staged.first in
      let (z', g', l') = sound.full (c / block_size) (omega arith) in
      let z_fits : length z ≤ block_size = ground (arith) in
      let apart_temp : temp_view begun (a / block_size) ≡ temp_view s.disk (a / block_size) =
        staged-others os c buffer' s.disk bound' (a / block_size) (omega arith) (ground arith)
          (λ _. ground arith) in
      let at_shared : temp_view begun (a / block_size + 1)
          ≡ some (overwrite z (first_part c buffer') (c % block_size)) =
        ap (temp_view begun) (sym next) ∙ t in
      let shared : length y ≡ block_size = rw f at whole in
      let over : length (overwrite z (first_part c buffer') (c % block_size)) ≤ block_size =
        length-overwrite_le z (first_part c buffer') (c % block_size) block_size z_fits
          (omega (arith, length-take (block_size - c % block_size) buffer')) in
      record {
        first = record {
          content = x;
          present = staged.same (a / block_size) (omega arith) ∙ e;
          fits = l;
          stale = rw (apart_temp ∙ sound.clean (a / block_size) (omega arith)) (omega arith);
        };
        second = λ _. record {
          content = y;
          present = staged.same (a / block_size + 1) (omega arith) ∙ f;
          fits = m;
          stale = rw at_shared (ground (arith, over, shared));
        };
      }

  -- The early write from there on.
  abbrev one : Outcome WriteReply × Server × Server
  one = write_job os false (linked osb) (job_of now a buffer) (record s { disk = begun }) p

  early_lem :
      (one.0 ≡ returns (reply ok))
      × ((b : ℕ) → b ≤ max_blocks → view one.1.disk b ≡ write_device a buffer (view begun) b)
      × ((b : ℕ) → b ≤ max_blocks → view one.2.disk b ≡ write_device a buffer (view p.disk) b)
  early_lem =
      let (o, v, w, _, _) =
        write_job_replicates os osb calm calmb false now [] buffer a (record s { disk = begun }) p
          bound n begun-IsReady (IsReady-sound p.disk a bound soundb) in
      (o, v, w)

  -- It has taken the temporary file of the shared block away, and left that of the late write's last
  -- block.
  shared_gone : temp_view one.1.disk (a / block_size + 1) ≡ none
  shared_gone =
      (write_job-temps os osb calm calmb false now [] buffer a (record s { disk = begun }) p bound n
          begun-IsReady (IsReady-sound p.disk a bound soundb)).0
        (a / block_size + 1) (omega arith)
      ∙ moved-second os calm a buffer _ begun bound (ground arith)

  last_left : temp_view one.1.disk (c / block_size + 1) ≡ temp_view begun (c / block_size + 1)
  last_left =
      (write_job-temps os osb calm calmb false now [] buffer a (record s { disk = begun }) p bound n
          begun-IsReady (IsReady-sound p.disk a bound soundb)).0
        (c / block_size + 1) (omega arith)
      ∙ others-kept os calm a buffer _ begun bound (c / block_size + 1) (omega arith) (ground arith)
          (λ _. ground arith)

  -- The backup is between two writes.
  one-IsSound : IsSound one.2.disk
  one-IsSound =
      let (_, _, v) = early_lem in
      record {
        full = IsFull-congr _ _ v (write_device-IsFull a buffer (view p.disk) n soundb.full);
        clean = λ b hb.
            (write_job-temps os osb calm calmb false now [] buffer a (record s { disk = begun }) p
                bound n begun-IsReady (IsReady-sound p.disk a bound soundb)).1
              b hb
            ∙ IsClean-renamed osb calmb a buffer _ p.disk bound soundb.clean b hb;
      }

  early_view : (j : ℕ) → j ≤ max_blocks → view one.1.disk j ≡ write_device a buffer (view s.disk) j
  early_view j hj =
      early_lem.1 j hj
      ∙ write_device-congr a buffer (view begun) (view s.disk) j (begun-IsStaged.1.same j hj)

  -- The late write behind the early one.
  late_lem :
      let w =
        replicate_staged os false (linked osb) (job_of now' c buffer') (done tt) one.1 one.2 in
      (w.0 ≡ returns (reply ok))
      × ((j : ℕ)
          → j ≤ max_blocks
          → view w.1.disk j ≡ (
              if c / block_size + 1 == j
              then write_device c buffer' (view s.disk) j
              else write_device a buffer (view s.disk) j))
      × ((j : ℕ)
          → j ≤ max_blocks
          → view w.2.disk j ≡ write_device c buffer' (write_device a buffer (view p.disk)) j)
  late_lem =
      let (z, g, t) = begun-IsStaged.1.second u' in
      let (o, v, v') =
        rest_lem os osb calm calmb c buffer' now' bound' n' u' one.1 one.2 one-IsSound _
          (ap (temp_view one.1.disk) next ∙ shared_gone) (last_left ∙ t) in
      (
        o,
        (λ j hj. v j hj ∙ elim (Bool-cases (c / block_size + 1 == j)) [
          | inl q ↦
              let same : c / block_size + 1 ≡ j = ground arith in
              rw q (
                sym (last_block c buffer' (view s.disk) z u' g)
                ∙ ap (write_device c buffer' (view s.disk)) same)
          | inr q ↦ rw q (early_view j hj)
        ]),
        λ j hj.
            v' j hj
            ∙ write_device-congr c buffer' (view one.2.disk) (write_device a buffer (view p.disk)) j
                (early_lem.2 j hj),
      )

  -- A write that is answered with OK can be lost: two writes of 4096 bytes within the bounds, of which
  -- the late one begins in the block in which the early one ends, and ends in the next one, are both
  -- answered with OK, in an order of their steps that the file locks allow, where nothing is refused,
  -- both servers are between writes, and the shared block has all of its 4096 bytes on the primary.
  -- The backup then has both writes. On the primary, the shared block has the early write only,
  -- whether or not the two ranges have a byte in common, and the late one is in its last block only.
  -- The late write has staged its files when the early one comes, which stages the shared block over
  -- it. No block is locked at first; the late write gets its locks, and the early one gets its own
  -- behind them.
  pub overtake_lem :
      (m : Map SharedMutex)
      → ((b : ℕ) → mutex_at (block_path b) m ≡ free)
      → let w = overtake os osb (job_of now a buffer) (job_of now' c buffer') s p in
        (w.early ≡ returns (reply ok))
        × (w.late ≡ returns (reply ok))
        × ((j : ℕ)
            → j ≤ max_blocks
            → view w.backup.disk j ≡ write_device c buffer' (write_device a buffer (view p.disk)) j)
        × ((j : ℕ)
            → j ≤ max_blocks
            → view w.primary.disk j ≡ (
                if c / block_size + 1 == j
                then write_device c buffer' (view s.disk) j
                else write_device a buffer (view s.disk) j))
        × ((m' : Map SharedMutex) × (m'' : Map SharedMutex) × (lock_files none
                (paths (file_parts c))
                m
              ≡ some m')
            × (lock_files none (paths (file_parts a)) m' ≡ some m''))
  unfolding overtake
  overtake_lem m unlocked =
      let b = a / block_size in
      let apart : (i j : ℕ)
          → i ≤ max_blocks
          → j ≤ max_blocks
          → i ≢ j
          → block_path i ≢ block_path j =
        λ i j hi hj ne e. ne (block_path_injective i j hi hj e) in
      let (ends, _) = begun-IsStaged in
      let (o, v, v') = late_lem in
      let (m', m'', l, l') =
        lock_files-overtakes (block_path b) (block_path (b + 1)) (block_path (b + 1 + 1)) m
          (apart b (b + 1) (omega arith) (omega arith) (omega arith))
          (apart b (b + 1 + 1) (omega arith) (omega arith) (omega arith))
          (apart (b + 1) (b + 1 + 1) (omega arith) (omega arith) (omega arith)) (unlocked b)
          (unlocked (b + 1)) (unlocked (b + 1 + 1)) in
      let late_paths : paths (file_parts c) ≡ block_path (b + 1) ∷ block_path (b + 1 + 1) ∷ [] =
        two_paths c u' ∙ ap (λ i. block_path i ∷ block_path (i + 1) ∷ []) next in
      rw ends (
        early_lem.0,
        o,
        v',
        v,
        (
          m',
          m'',
          ap (λ (ps : List Bytes). lock_files none ps m) late_paths ∙ l,
          ap (λ (ps : List Bytes). lock_files none ps m') (two_paths a u) ∙ l',
        ),
      )
