-- ===== src/Map.antt =====
-- `std::map` and `std::unordered_map` with text keys: entries in the order of the keys.
use replicated_block_store.Prelude.{
  ◌≡◌, refl, Bool, true, false, Option, none, some, List, [], ◌∷◌, arith, Bytes, bytes_eq, bytes_lt,
  bytes_eq_iff, if◌then◌else◌, if_holds, All,
}

abbrev pub Map {ℓ} : Type ℓ → Type ℓ
Map V = List (Bytes × V)

module _ {ℓ} {V : Type ℓ} where
  -- `m.find(k)`
  unfoldable pub find : Bytes → Map V → Option V
  find k [] = none
  find k ((j, v) ∷ m) = if bytes_eq j k then some v else find k m

  -- `m.count(k) != 0`
  unfoldable pub contains : Bytes → Map V → Bool
  contains k m = elim (find k m) [ none ↦ false | some v ↦ true ]

  -- `m[k] = v`
  unfoldable pub assign : Bytes → V → Map V → Map V
  assign k v [] = (k, v) ∷ []
  assign k v ((j, w) ∷ m) =
      if bytes_eq j k
      then (k, v) ∷ m
      else if bytes_lt k j
      then (k, v) ∷ (j, w) ∷ m
      else (j, w) ∷ assign k v m

  -- `m.insert({k, v})`, which leaves an entry that is there
  unfoldable pub insert : Bytes → V → Map V → Map V
  unfolding contains
  insert k v m = if contains k m then m else assign k v m

  -- `m.erase(k)`
  unfoldable pub erase : Bytes → Map V → Map V
  erase k [] = []
  erase k ((j, w) ∷ m) = let rest = erase k m in if bytes_eq j k then rest else (j, w) ∷ rest

  pub find-assign :
      (k j : Bytes) (v : V) (m : Map V)
      → find j (assign k v m) ≡ (if bytes_eq k j then some v else find j m)
  unfolding find assign
  find-assign k j v [] = refl
  find-assign k j v ((i, w) ∷ m) =
      ground (arith, bytes_eq_iff k j, bytes_eq_iff i k, bytes_eq_iff i j, find-assign k j v m)

  pub find-erase :
      (k j : Bytes) (m : Map V) → find j (erase k m) ≡ (if bytes_eq k j then none else find j m)
  unfolding find erase
  find-erase k j [] = ground arith
  find-erase k j ((i, w) ∷ m) =
      ground (arith, bytes_eq_iff k j, bytes_eq_iff i k, bytes_eq_iff i j, find-erase k j m)

  pub find-insert :
      (k j : Bytes) (v : V) (m : Map V)
      → find j (insert k v m)
        ≡ (if bytes_eq k j then some (elim (find k m) [ none ↦ v | some w ↦ w ]) else find j m)
  unfolding insert
  find-insert k j v m = ground (arith, find-assign k j v m, bytes_eq_iff k j)

-- A property of the values, through the operations.
abbrev pub AllValues {ℓ κ} : {V : Type ℓ} → (V → Type κ) → Map V → Type κ
AllValues Q = All (λ e. Q e.1)

module _ {ℓ κ} {V : Type ℓ} (Q : V → Type κ) where
  pub AllValues-assign :
      (k : Bytes) (v : V) (m : Map V) → Q v → AllValues Q m → AllValues Q (assign k v m)
  unfolding assign
  AllValues-assign k v [] h hs = (h, tt)
  AllValues-assign k v ((j, w) ∷ m) h (hw, hs) =
      if_holds (AllValues Q) (bytes_eq j k) _ _ (h, hs)
        (if_holds (AllValues Q) (bytes_lt k j) _ _ (h, (hw, hs)) (hw, AllValues-assign k v m h hs))

  pub AllValues-find : (k : Bytes) (m : Map V) (v : V) → AllValues Q m → find k m ≡ some v → Q v
  unfolding find
  AllValues-find k [] v h e = absurd (cc)
  AllValues-find k ((j, w) ∷ m) v (hw, hs) e = ground (arith, AllValues-find k m v hs)
