-- ===== src/Recovery/Cut.antt =====
-- How `LoadData` of src/util/crash_recovery.cc cuts a line.
use replicated_block_store.Prelude.{
  ℕ, zero, suc, ◌+◌, ◌-◌, ◌<◌, ◌≡◌, ◌≢◌, refl, ap, ◌∙◌, some, false, [], ◌∷◌, ◌++◌, All, Bytes,
  arith, length, drop, take-append, ltb, lt→ltb, bytes_eq,
}
use replicated_block_store.Wal.{
  State, start, abort, rpc_init, commit, pending_replication, state_name,
}
use replicated_block_store.Recovery.Parse.{
  colon, past_colon, find_delim, substr, state_of, fields_of,
}

abbrev pub HasNoColon : Bytes → Type 0
HasNoColon = All (λ c. c ≢ colon)

abbrev pub HasNoNewline : Bytes → Type 0
HasNoNewline = All (λ c. c ≢ 10)

past_colon_at : (a b : Bytes) → HasNoColon a → past_colon (a ++ colon ∷ b) ≡ length a + 1
unfolding past_colon
past_colon_at [] b h = refl
past_colon_at (c ∷ a) b (hc, h) = ground (arith, past_colon_at a b h)

past_colon_none : (a : Bytes) → HasNoColon a → past_colon a ≡ 0
unfolding past_colon
past_colon_none [] h = refl
past_colon_none (c ∷ a) (hc, h) = ground (arith, past_colon_none a h)

suc_form : (m n : ℕ) → suc m + n ≡ suc (m + n)
suc_form m n = omega arith

not_below : (pos n : ℕ) → ltb (pos + (n + 1)) (pos + 1) ≡ false
not_below pos n = ground arith

drop-drop : (m n : ℕ) (s : Bytes) → drop (m + n) s ≡ drop n (drop m s)
drop-drop zero n s = ap (λ k. drop k s) (omega arith)
drop-drop (suc m) zero [] = rw (suc_form m zero)
drop-drop (suc m) (suc n) [] = rw (suc_form m (suc n))
drop-drop (suc m) n (c ∷ s) = rw (suc_form m n) (drop-drop m n s)

module _ (line : Bytes) (pos : ℕ) where
  module _ (a b : Bytes) (here : drop pos line ≡ a ++ colon ∷ b) (free : HasNoColon a) where
    find_delim_at : find_delim line pos ≡ pos + (length a + 1)
    unfolding find_delim
    find_delim_at = rw (here, past_colon_at a b free) (ground arith)

    next_part : drop (pos + (length a + 1)) line ≡ b
    next_part = drop-drop pos (length a + 1) line ∙ rw here (behind a)
      where
        behind : (a : Bytes) → drop (length a + 1) (a ++ colon ∷ b) ≡ b
        behind [] = refl
        behind (c ∷ a) = rw (suc_form (length a) 1) (behind a)

    substr_at : substr line pos (pos + (length a + 1)) (pos + 1) ≡ a
    unfolding substr
    substr_at =
        let count : pos + (length a + 1) - (pos + 1) ≡ length a = omega arith in
        rw (not_below pos (length a), here, count) (take-append (length a) a _ refl)

  module _ (a : Bytes) (here : drop pos line ≡ a) (free : HasNoColon a) where
    find_delim_none : find_delim line pos ≡ 0
    unfolding find_delim
    find_delim_none = rw (here, past_colon_none a free)

    substr_rest : (k : ℕ) → 0 < k → substr line pos 0 k ≡ a
    unfolding substr
    substr_rest k h = rw (lt→ltb 0 k h) here

pub state_of-state_name :
    (st : State) → st ≢ pending_replication → state_of (state_name st) ≡ some st
unfolding state_of state_name bytes_eq
state_of-state_name start h = refl
state_of-state_name abort h = refl
state_of-state_name rpc_init h = refl
state_of-state_name commit h = refl
state_of-state_name pending_replication h = absurd (h refl)

pub state_name-HasNoColon : (st : State) → HasNoColon (state_name st)
unfolding state_name
state_name-HasNoColon start = omega arith
state_name-HasNoColon abort = omega arith
state_name-HasNoColon rpc_init = omega arith
state_name-HasNoColon commit = omega arith
state_name-HasNoColon pending_replication = omega arith

-- The fields of a line "id:val".
pub fields_of-two :
    (id val : Bytes)
    → HasNoColon id
    → HasNoColon val
    → fields_of (id ++ colon ∷ val) ≡ record { id = id; val = val; file_1 = id; file_2 = val }
unfolding fields_of
fields_of-two id val hid hval =
    let line = id ++ colon ∷ val in
    let i = 0 + (length id + 1) in
    let at_val = next_part line 0 id val refl hid in
    rw (
      find_delim_at line 0 id val refl hid,
      find_delim_none line i val at_val hval,
      find_delim_at line 0 id val refl hid,
      find_delim_none line i val at_val hval,
      substr_at line 0 id val refl hid,
      substr_rest line i val at_val hval (i + 1) (omega arith),
      substr_rest line i val at_val hval (i + 3) (omega arith),
    )

-- The fields of a line "id:val:tmp:original".
pub fields_of-four :
    (id val tmp original : Bytes)
    → HasNoColon id
    → HasNoColon val
    → HasNoColon tmp
    → HasNoColon original
    → fields_of (id ++ colon ∷ (val ++ colon ∷ (tmp ++ colon ∷ original)))
      ≡ record { id = id; val = val; file_1 = tmp; file_2 = original }
unfolding fields_of
fields_of-four id val tmp original hid hval ht ho =
    let rest = tmp ++ colon ∷ original in
    let line = id ++ colon ∷ (val ++ colon ∷ rest) in
    let i = 0 + (length id + 1) in
    let v = i + (length val + 1) in
    let f = v + (length tmp + 1) in
    let at_val = next_part line 0 id (val ++ colon ∷ rest) refl hid in
    let at_tmp = next_part line i val rest at_val hval in
    let at_original = next_part line v tmp original at_tmp ht in
    rw (
      find_delim_at line 0 id (val ++ colon ∷ rest) refl hid,
      find_delim_at line i val rest at_val hval,
      find_delim_at line v tmp original at_tmp ht,
      find_delim_none line f original at_original ho,
      substr_at line 0 id (val ++ colon ∷ rest) refl hid,
      substr_at line i val rest at_val hval,
      substr_at line v tmp original at_tmp ht,
      substr_rest line f original at_original ho (f + 3) (omega arith),
    )
