-- ===== src/Startup/Restart.antt =====
-- A block server that starts on the disk of an earlier run (src/blockstorage_server.cc).
use replicated_block_store.Prelude.{
  ℕ, ◌≡◌, ◌≢◌, ◌≤◌, ◌<◌, refl, ap, sym, ◌∙◌, none, some, Option-cases, inl, inr, true, List, [],
  ◌∷◌, Bytes, length, All, arith, ltb, if◌then◌else◌, bytes_eq_iff, bytes_eq_refl,
}
use replicated_block_store.Disk.{
  Disk, Faults, open_create, open_file, opens_read, creates, truncates, update,
}
use replicated_block_store.Address.{block_size}
use replicated_block_store.Address.Blocks.{block_path}
use replicated_block_store.Address.Paths.{max_blocks}
use replicated_block_store.Device.{Device}
use replicated_block_store.Server.{wal_path, returns}
use replicated_block_store.Server.Staging.{Calm, content_or_empty}
use replicated_block_store.Server.View.{view, temp_view, temp_path, log-ne-block, log-ne-temp}
use replicated_block_store.Server.Clean.{IsClean}
use replicated_block_store.Server.Sound.{IsSound}
use replicated_block_store.Recovery.RoundTrip.{Record, enters, moves, log_of}
use replicated_block_store.Recovery.Actions.{
  RecoveryStub, log_file_path, get_undo_file_name, log_text, recover,
}
use replicated_block_store.Recovery.Completion.{recover_ends}
use replicated_block_store.Recovery.Keeping.{HasNoUndo}
use replicated_block_store.Recovery.Absent.{recover-none}
use replicated_block_store.Recovery.Blocks.{Avoids, recover_keeps_file}
use replicated_block_store.Decimal.{to_string}
use replicated_block_store.Decimal.Digits.{IsDigit, to_string-IsDigit}
use replicated_block_store.Recovery.OwnLog.{
  IsOwn, IsOwn-IsClean, recover_keeps_blocks, last, last-undo, undo-ne-block,
}
use replicated_block_store.Recovery.OwnLog
use replicated_block_store.Storage.{prepare_storage}
use replicated_block_store.Storage.Ready.{
  filled, prepare_storage-IsSound, prepare_storage-at, prepare_storage-keeps,
}
use replicated_block_store.Startup.{open_log, run_block_storage_server, start_up}

-- The blocks that `PrepareStorage` makes of those that are there.
abbrev pub prepared : Device → Device
prepared v b = if ltb b max_blocks then filled (v b) else v b

-- What a run that stopped between two writes leaves: no block is longer than 4096 bytes, no
-- temporary and no undo file is there, and the log that recovery reads is one of this program's.
pub record IsAtRest (os : Faults) (rs : List (Bytes × Record)) (d : Disk) : Type 0 where
  pub fits : (b : ℕ) → b < max_blocks → length (content_or_empty (view d b)) ≤ block_size
  pub clean : IsClean d
  pub no_undo : HasNoUndo d
  pub own : All IsOwn rs
  pub text : log_text os d ≡ log_of rs

undo-ne-wal : (f : Bytes) → get_undo_file_name f ≢ wal_path
unfolding last
undo-ne-wal f e =
    let h : ◌≡◌ {A = ℕ} b'o' b'g' = sym (last-undo f) ∙ ap last e in absurd (omega arith)

wal-ne-log : wal_path ≢ log_file_path
wal-ne-log e = let h = ap (length {A = ℕ}) e in absurd (omega arith)

-- No record of the log is about the file that the server logs to.
id-ne-wal : (n : ℕ) → to_string n ≢ wal_path
id-ne-wal n e =
    let digits : All IsDigit wal_path = rw e at (to_string-IsDigit n) in absurd (omega arith)

IsOwn-Avoids-wal : (rs : List (Bytes × Record)) → All IsOwn rs → All (Avoids wal_path) rs
IsOwn-Avoids-wal [] h = tt
IsOwn-Avoids-wal ((id, enters st) ∷ rs) ((n, e), h) =
    ((λ u. id-ne-wal n (sym e ∙ u)), IsOwn-Avoids-wal rs h)
IsOwn-Avoids-wal ((id, moves tmp original) ∷ rs) ((n, c, e, hc, t, o), h) =
    ((λ u. log-ne-temp c hc (sym u ∙ t)), IsOwn-Avoids-wal rs h)

module _ (os : Faults) (calm : Calm os) where
  -- Opening the log makes it, and changes no other file.
  open_log_lem :
      (p : Bytes) (d : Disk)
      → (d' : Disk) × (open_log os p d ≡ some d')
        × (d' p ≢ none)
        × ((q : Bytes) → p ≢ q → d' q ≡ d q)
  unfolding open_log open_create update
  open_log_lem p d = elim (Option-cases (d p)) [
    | inl e ↦ (
      update p (some []) d,
      ground (arith, calm creates p),
      ground (arith, bytes_eq_refl p),
      λ q h. ground (arith, bytes_eq_iff p q),
    )
    | inr (c, e) ↦ (d, ground (arith, calm creates p), (λ k. cc), λ q h. refl)
  ]

  -- What is read of the log depends on no other file.
  log_text-same :
      (d d' : Disk) → d' log_file_path ≡ d log_file_path → log_text os d' ≡ log_text os d
  unfolding log_text open_file
  log_text-same d d' h = ground (arith, calm opens_read log_file_path)

  -- The storage and the log, in front of recovery.
  abbrev IsOpened : List (Bytes × Record) → Disk → Disk → Type 0
  IsOpened rs d e =
      IsSound e
      × ((b : ℕ) → b ≤ max_blocks → view e b ≡ prepared (view d) b)
      × HasNoUndo e
      × (log_text os e ≡ log_of rs)
      × (e wal_path ≢ none)

  open_prepared :
      (rs : List (Bytes × Record)) (d : Disk)
      → IsAtRest os rs d
      → (e : Disk) × (open_log os wal_path (prepare_storage os d) ≡ some e) × IsOpened rs d e
  unfolding view temp_view
  open_prepared rs d h =
      let d' = prepare_storage os d in
      let (e, opened, there, same) = open_log_lem wal_path d' in
      let (sound, _) = prepare_storage-IsSound os calm d h.fits h.clean in
      let blocks : (b : ℕ) → b ≤ max_blocks → view e b ≡ view d' b =
        λ b hb. same (block_path b) (log-ne-block b hb) in
      (
        e,
        opened,
        (
          record {
            full = λ b hb. let (c, k, n) = sound.full b hb in (c, blocks b (omega arith) ∙ k, n);
            clean = λ b hb. same (temp_path b) (log-ne-temp b hb) ∙ sound.clean b hb;
          },
          (λ b hb. blocks b hb ∙ prepare_storage-at os calm d b hb),
          (λ f.
              same (get_undo_file_name f) (λ u. undo-ne-wal f (sym u))
              ∙ prepare_storage-keeps os calm (get_undo_file_name f)
                  (λ c hc u. undo-ne-block f c (sym u)) d
              ∙ h.no_undo f),
          (log_text-same d e (
                same log_file_path wal-ne-log
                ∙ prepare_storage-keeps os calm log_file_path
                    (λ c hc u. OwnLog.log-ne-block c (sym u)) d)
              ∙ h.text),
          there,
        ),
      )

  module _ {P : Type 0} (stub : RecoveryStub P) (rs : List (Bytes × Record)) (d : Disk) (p : P)
      (silent : (ids : List Bytes) → (stub.force_pending_writes ids p).0 ≡ [])
      (h : IsAtRest os rs d) where
    -- Recovery behind the opened log.
    run_lem :
        (e : Disk)
        → IsOpened rs d e
        → let (o, f, _) = run_block_storage_server os stub e p in
          (o ≡ returns true) × IsOpened [] d f × IsClean f
    unfolding run_block_storage_server view temp_view
    run_lem e (sound, blocks, no_undo, text, there) =
        let (ends, empty) =
          recover_ends os stub e p (λ ids. rw (silent ids) tt) (calm truncates log_file_path) in
        let f = (recover os stub e p).1 in
        let same : (b : ℕ) → b ≤ max_blocks → view f b ≡ view e b = λ b hb.
          recover_keeps_blocks os stub rs e p b hb no_undo text h.own (λ ids. rw (silent ids) tt) in
        let clean : IsClean f =
          λ b hb. recover-none os stub (temp_path b) e p no_undo (sound.clean b hb) in
        rw ends (
          refl,
          (
            record {
              full = λ b hb. let (c, k, n) = sound.full b hb in (c, same b (omega arith) ∙ k, n);
              clean = clean;
            },
            (λ b hb. same b hb ∙ blocks b hb),
            (λ q. recover-none os stub (get_undo_file_name q) e p no_undo (no_undo q)),
            empty,
            λ k. there (
                sym (
                  recover_keeps_file os stub wal_path undo-ne-wal rs e p (λ u. wal-ne-log (sym u))
                    no_undo text (IsOwn-IsClean rs h.own) (IsOwn-Avoids-wal rs h.own)
                    (λ ids. rw (silent ids) tt))
                ∙ k),
          ),
          clean,
        )

    -- A server that starts again on the disk of a run that stopped between two writes, is refused
    -- nothing, and is sent no write by its peer, comes to wait for requests, and loses nothing: every
    -- block keeps its bytes, and one that had no file has an empty one. Every block then has a file of
    -- at most 4096 bytes, and no temporary file is there; the file that the server logs to is there,
    -- the log that recovery reads is empty, and the disk is again such a disk. Each block had at most
    -- 4096 bytes, no temporary or undo file was there, and the log that recovery reads is one of this
    -- program's writes.
    pub start_up-keeps_blocks :
        let (o, f, _) = start_up os stub d p in
        (o ≡ returns true)
        × IsSound f
        × ((b : ℕ) → b ≤ max_blocks → view f b ≡ prepared (view d) b)
        × (f wal_path ≢ none)
        × IsAtRest os [] f
    unfolding start_up
    start_up-keeps_blocks =
        let (e, opened, before) = open_prepared rs d h in
        let (o, (sound, blocks, no_undo, empty, there), clean) = run_lem e before in
        rw (opened, start_up)
          (
            o,
            sound,
            blocks,
            there,
            record {
              fits = λ b hb. let (c, k, n) = sound.full b hb in rw k n;
              clean = clean;
              no_undo = no_undo;
              own = tt;
              text = empty;
            },
          )
