-- ===== src/Server/View.antt =====
-- A server's disk seen as a device of blocks, and the temporary files of the blocks.
use replicated_block_store.Prelude.{
  ℕ, ◌≤◌, ◌≡◌, ◌≢◌, refl, sym, ◌∙◌, [], ◌∷◌, ◌++◌, arith, Bytes, codes, false, ◌==◌, bytes_eq,
  bytes_ne, bytes_eq_iff, append_cancel_one, append_assoc, append-nil,
}
use replicated_block_store.Disk.{Disk}
use replicated_block_store.Address.Blocks.{block_path}
use replicated_block_store.Address.Paths.{
  max_blocks, block_path_injective, block_path-ne-append, block_path-ne-name,
}
use replicated_block_store.Device.{Device}
use replicated_block_store.Server.{wal_path}
use replicated_block_store.Server.Helper.{generate_temp_path}

abbrev pub temp_path : ℕ → Bytes
temp_path b = generate_temp_path (block_path b)

unfoldable pub view : Disk → Device
view d b = d (block_path b)

unfoldable pub temp_view : Disk → Device
temp_view d b = d (temp_path b)

-- No name is two things.
module _ (b c : ℕ) (hb : b ≤ max_blocks) (hc : c ≤ max_blocks) where
  pub temp-ne-block : temp_path b ≢ block_path c
  unfolding generate_temp_path
  temp-ne-block e = block_path-ne-append c b b'.' (codes "tmp") hc hb refl (sym e)

  -- Texts with the ending ".tmp" are equal only if they are so without it.
  temp_injective : temp_path b ≡ temp_path c → b ≡ c
  unfolding generate_temp_path
  temp_injective e = block_path_injective b c hb hc (strip (block_path b) (block_path c) e)
    where
      regroup :
          (s : Bytes)
          → s ++ codes ".tmp" ≡ (((s ++ b'.' ∷ []) ++ b't' ∷ []) ++ b'm' ∷ []) ++ b'p' ∷ []
      regroup s = simp append_assoc

      strip : (s t : Bytes) → s ++ codes ".tmp" ≡ t ++ codes ".tmp" → s ≡ t
      strip s t e = append_cancel_one s t b'.' (
          append_cancel_one _ _ b't' (
            append_cancel_one _ _ b'm'
              (append_cancel_one _ _ b'p' (sym (regroup s) ∙ e ∙ regroup t))))

  pub block_path_test : bytes_eq (block_path b) (block_path c) ≡ (b == c)
  block_path_test =
      ground (arith, bytes_eq_iff (block_path b) (block_path c), block_path_injective b c hb hc)

  pub temp_path_test : bytes_eq (temp_path b) (temp_path c) ≡ (b == c)
  temp_path_test = ground (arith, bytes_eq_iff (temp_path b) (temp_path c), temp_injective)

  pub block_temp_test : bytes_eq (block_path b) (temp_path c) ≡ false
  unfolding generate_temp_path
  block_temp_test = bytes_ne _ _ (block_path-ne-append b c b'.' (codes "tmp") hb hc refl)

  pub temp_block_test : bytes_eq (temp_path b) (block_path c) ≡ false
  temp_block_test = bytes_ne _ _ temp-ne-block

pub log-ne-block : (b : ℕ) → b ≤ max_blocks → wal_path ≢ block_path b
log-ne-block b h e =
    block_path-ne-name b b's' [] (codes "elf.log") h refl (append-nil (block_path b) ∙ sym e)

pub log-ne-temp : (b : ℕ) → b ≤ max_blocks → wal_path ≢ temp_path b
unfolding generate_temp_path
log-ne-temp b h e = block_path-ne-name b b's' (codes ".tmp") (codes "elf.log") h refl (sym e)
