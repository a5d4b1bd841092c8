-- ===== src/Prelude/Text.antt =====
-- Texts of the program (`std::string`) as lists of bytes, with the comparison of `std::string`.
use Prim.Native.Nat.{ℕ}
use Prim.Native.Char.{code}
use Prim.Native.String.{String}
use mathlib.Core.Path.{◌≡◌, refl}
use mathlib.Core.Logic.{◌↔◌, ◌⊎◌, inl, inr, ◌≢◌}
use mathlib.Core.Bool.{Bool, true, false, ◌&&◌}
use mathlib.Core.List.{List, [], ◌∷◌, ◌++◌}
use native.Mathlib.Omega.{arith}
use replicated_block_store.Prelude.Tests.{ltb, ◌==◌, if◌then◌else◌, Bool-cases}

abbrev pub Bytes : Type 0
Bytes = List ℕ

-- The code points of a literal: its bytes, since the program's literals are ASCII.
abbrev pub codes : String → Bytes
codes String.[] = []
codes (String.◌∷◌ c s) = code c ∷ codes s

-- `a == b`, `a.compare(b) == 0`
unfoldable pub bytes_eq : Bytes → Bytes → Bool
bytes_eq [] [] = true
bytes_eq [] (y ∷ ys) = false
bytes_eq (x ∷ xs) [] = false
bytes_eq (x ∷ xs) (y ∷ ys) = x == y && bytes_eq xs ys

-- `a < b`, the order of `std::map`
unfoldable pub bytes_lt : Bytes → Bytes → Bool
bytes_lt [] [] = false
bytes_lt [] (y ∷ ys) = true
bytes_lt (x ∷ xs) [] = false
bytes_lt (x ∷ xs) (y ∷ ys) =
    let rest = bytes_lt xs ys in if ltb x y then true else if ltb y x then false else rest

pub bytes_eq_refl : (a : Bytes) → bytes_eq a a ≡ true
unfolding bytes_eq
bytes_eq_refl [] = refl
bytes_eq_refl (x ∷ xs) = ground (arith, bytes_eq_refl xs)

pub bytes_eq_sound : (a b : Bytes) → bytes_eq a b ≡ true → a ≡ b
unfolding bytes_eq
bytes_eq_sound [] [] h = refl
bytes_eq_sound [] (y ∷ ys) h = cc
bytes_eq_sound (x ∷ xs) [] h = cc
bytes_eq_sound (x ∷ xs) (y ∷ ys) h = ground (arith, bytes_eq_sound xs ys)

pub bytes_eq_iff : (a b : Bytes) → (bytes_eq a b ≡ true) ↔ (a ≡ b)
bytes_eq_iff a b = (bytes_eq_sound a b, λ e. ground (arith, bytes_eq_refl a))

pub bytes_ne : (a b : Bytes) → a ≢ b → bytes_eq a b ≡ false
bytes_ne a b h = ground (arith, bytes_eq_iff a b)

-- To split on the equality of two texts.
pub bytes-cases : (a b : Bytes) → (a ≡ b) ⊎ (bytes_eq a b ≡ false)
bytes-cases a b = elim (Bool-cases (bytes_eq a b)) [
  | inl h ↦ inl (bytes_eq_sound a b h)
  | inr h ↦ inr h
]

-- A text that ends in more bytes than another is no prefix of it to be equal to.
pub append-ne_self : (a : Bytes) (c : ℕ) (b : Bytes) → a ++ c ∷ b ≢ a
append-ne_self [] c b e = cc
append-ne_self (x ∷ xs) c b e = append-ne_self xs c b (ground arith)

pub append_cancel_left : (a b c : Bytes) → a ++ b ≡ a ++ c → b ≡ c
append_cancel_left [] b c e = e
append_cancel_left (x ∷ xs) b c e = append_cancel_left xs b c (ground arith)

-- Texts with one end have one beginning.
pub append_cancel_one : (a b : Bytes) (c : ℕ) → a ++ c ∷ [] ≡ b ++ c ∷ [] → a ≡ b
append_cancel_one [] [] c e = refl
append_cancel_one [] (y ∷ []) c e = cc
append_cancel_one [] (y ∷ z ∷ ys) c e = cc
append_cancel_one (x ∷ []) [] c e = cc
append_cancel_one (x ∷ z ∷ xs) [] c e = cc
append_cancel_one (x ∷ xs) (y ∷ ys) c e = ground (arith, append_cancel_one xs ys c (ground arith))
