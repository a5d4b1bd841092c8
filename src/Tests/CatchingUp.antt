-- ===== src/Tests/CatchingUp.antt =====
-- A primary that wrote alone, and its peer that comes back.
use replicated_block_store.Prelude.{
  ℕ, zero, suc, ◌≤◌, ◌≡◌, refl, arith, none, some, [], ◌∷◌, ◌++◌, Bytes, codes, replicate, leb,
  if◌then◌else◌, pos, false,
}
use replicated_block_store.Disk.{Disk, no_faults, open_file}
use replicated_block_store.Map.{find}
use replicated_block_store.Address.Blocks.{block_path}
use replicated_block_store.Address.Paths.{max_blocks}
use replicated_block_store.Device.{write_device, first_part, second_part}
use replicated_block_store.Server.{Server, ok, returns}
use replicated_block_store.Server.Helper.{generate_temp_path}
use replicated_block_store.Server.Block.{call_prepare}
use replicated_block_store.Server.Write.{reply, write}
use replicated_block_store.Server.Link.{down}
use replicated_block_store.Server.View.{view, temp_view, temp_path}
use replicated_block_store.Server.Pending.{pending_data}
use replicated_block_store.Server.Alone.{write_alone}
use replicated_block_store.Server.Sound.{IsSound}
use replicated_block_store.Server.Serving.{HasBlocks-sound}
use replicated_block_store.Server.Reading.{HasNoZero}
use replicated_block_store.Recovery.Parse.{load_data}
use replicated_block_store.Recovery.Actions.{log_text, recover}
use replicated_block_store.Recovery.Keeping.{HasNoUndo}
use replicated_block_store.Recovery.OwnLog.{last, last-append, last-undo, last-block_path}
use replicated_block_store.Recovery.Sending.{EndsInZero}
use replicated_block_store.Recovery.CatchUp.{
  peer_stub, recover-write_pending, recover-first_pending,
}

-- Every path that ends in a digit is an empty file.
unfoldable blank : Disk
unfolding last
blank p = if leb (last p) b'9' then some [] else none

view-blank : (b : ℕ) → view blank b ≡ some []
unfolding blank view
view-blank b = let h = last-block_path b in ground arith

last-temp : (b : ℕ) → last (temp_path b) ≡ b'p'
unfolding generate_temp_path last
last-temp b = last-append (block_path b) b'.' (codes "tmp")

IsSound-blank : IsSound blank
unfolding blank temp_view
IsSound-blank = record {
  full = λ b hb. ([], view-blank b, omega arith);
  clean = λ b hb. let h = last-temp b in ground arith;
}

HasNoUndo-blank : HasNoUndo blank
unfolding blank
HasNoUndo-blank f = let h = last-undo f in ground arith

no_log : log_text no_faults blank ≡ []
unfolding log_text open_file blank last
no_log = refl

abbrev server : Server
server = record { disk = blank; kv_store = []; cache = [] }

abbrev half : Bytes
half = replicate 2047 b'x'

-- Two parts of 2048 bytes.
abbrev page : Bytes
page = (half ++ 0 ∷ []) ++ (half ++ 0 ∷ [])

HasNoZero-half : (n : ℕ) → HasNoZero (replicate n b'x')
HasNoZero-half zero = tt
HasNoZero-half (suc n) = (omega arith, HasNoZero-half n)

one : EndsInZero (first_part 2048 page)
one = record { text = half; whole = refl; no_zero = HasNoZero-half 2047 }

two : EndsInZero (second_part 2048 page)
two = record { text = half; whole = refl; no_zero = HasNoZero-half 2047 }

recover-write_pending_example :
    let (o, s', _) = write no_faults false (down {P = Unit {0}}) (codes "1") 2048 page server tt in
    let w = recover no_faults (peer_stub no_faults) blank s' in
    (o ≡ returns (reply ok))
    × (w.0 ≡ returns (pos 0))
    × ((b : ℕ) → b ≤ max_blocks → view w.1 b ≡ view s'.disk b)
unfolding call_prepare down load_data find
recover-write_pending_example =
    recover-write_pending no_faults no_faults false (down {P = Unit {0}}) (codes "1") page 2048
      server tt blank [] (λ c p. refl) (λ c p. refl) (omega arith) refl one (λ u. two) IsSound-blank
      refl refl (λ b hb. refl) HasNoUndo-blank no_log tt refl

-- A primary that has two transactions pending.
abbrev ahead : Server
ahead = record {
  disk = (write no_faults false (down {P = Unit {0}}) (codes "1") 2048 page server tt).1.disk;
  kv_store = (codes "1", pending_data 2048) ∷ (codes "2", pending_data 8192) ∷ [];
  cache = [];
}

shows : (b : ℕ) → b ≤ max_blocks → view ahead.disk b ≡ write_device 2048 page (view blank) b
unfolding call_prepare down
shows =
    (write_alone no_faults (λ c p. refl) false (down {P = Unit {0}}) (codes "1") page 2048 tt
      (omega arith) refl refl server IsSound-blank).1

recover-first_pending_example :
    let w = recover no_faults (peer_stub no_faults) blank ahead in
    (w.0 ≡ returns (pos 0))
    × ((b : ℕ) → b ≤ max_blocks → view w.1 b ≡ write_device 2048 page (view blank) b)
unfolding load_data find
recover-first_pending_example =
    recover-first_pending no_faults no_faults (λ c p. refl) (λ c p. refl) 2048 page (codes "1")
      (view blank) (omega arith) refl one (λ u. two) [] ((codes "2", pending_data 8192) ∷ []) blank
      ahead (HasBlocks-sound blank 2048 (omega arith) IsSound-blank) refl (shows 0 (omega arith))
      (λ u. shows 1 (omega arith)) (λ b hb. refl) HasNoUndo-blank no_log tt refl
