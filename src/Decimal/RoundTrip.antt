-- ===== src/Decimal/RoundTrip.antt =====
-- `std::stoi` of what `std::to_string` prints.
use replicated_block_store.Prelude.{
  ℕ, zero, suc, ◌+◌, ◌/◌, ◌%◌, ◌≤◌, ◌<◌, ◌≡◌, refl, ap, ◌∙◌, sym, true, false, some, [], ◌∷◌, ◌++◌,
  append_assoc, inl, inr, arith, Bytes, ltb, Bool-cases,
}
use mathlib.Core.Option.{some-injective}
use replicated_block_store.Decimal.{print_digits, to_string, read_digits, stoi, int_max, is_digit}

read-print :
    (fuel n : ℕ) (out : Bytes)
    → n < fuel
    → read_digits 0 (print_digits fuel n out) ≡ read_digits n out
unfolding print_digits read_digits
read-print zero n out h = absurd (omega arith)
read-print (suc fuel) n out h = ground (arith, read-print fuel (n / 10) ((b'0' + n % 10) ∷ out))

-- A printed number begins with a digit.
digit-print :
    (fuel n : ℕ) (out : Bytes)
    → n < fuel
    → (c : ℕ) × (s : Bytes) × (print_digits fuel n out ≡ c ∷ s) × (is_digit c ≡ true)
unfolding print_digits
digit-print zero n out h = absurd (omega arith)
digit-print (suc fuel) n out h = elim (Bool-cases (ltb n 10)) [
  | inl small ↦ (b'0' + n, out, ground arith, ground arith)
  | inr large ↦
      let (c, s, e, d) = digit-print fuel (n / 10) ((b'0' + n % 10) ∷ out) (ground arith) in
      (c, s, rw large e, d)
]

print-append : (fuel n : ℕ) (out : Bytes) → print_digits fuel n out ≡ print_digits fuel n [] ++ out
unfolding print_digits
print-append zero n out = refl
print-append (suc fuel) n out = elim (Bool-cases (ltb n 10)) [
  | inl small ↦ rw small
  | inr large ↦
      let d = b'0' + n % 10 in
      rw large (
        print-append fuel (n / 10) (d ∷ out)
        ∙ sym (
            ap (λ s. s ++ out) (print-append fuel (n / 10) (d ∷ []))
            ∙ append_assoc (print_digits fuel (n / 10) []) (d ∷ []) out))
]

-- `stoi` of a number's print in front of a text that begins with no digit.
stoi-print :
    (n : ℕ) (out : Bytes)
    → n ≤ int_max
    → read_digits n out ≡ n
    → stoi (print_digits (suc n) n out) ≡ some n
unfolding stoi
stoi-print n out h stop =
    let (c, s, e, d) = digit-print (suc n) n out (omega arith) in
    let back : read_digits 0 (c ∷ s) ≡ n =
      ap (read_digits 0) (sym e) ∙ read-print (suc n) n out (omega arith) ∙ stop in
    rw e (ground arith)

-- Every number that an `int` holds is read back from its print.
pub stoi-to_string : (n : ℕ) → n ≤ int_max → stoi (to_string n) ≡ some n
unfolding to_string
stoi-to_string n h = stoi-print n [] h (unfold read_digits in refl)

-- Also from a text in which the print is followed by something else than a digit.
pub stoi-to_string_append :
    (n c : ℕ) (s : Bytes) → n ≤ int_max → is_digit c ≡ false → stoi (to_string n ++ c ∷ s) ≡ some n
unfolding to_string
stoi-to_string_append n c s h d =
    rw (← print-append (suc n) n (c ∷ s)) (stoi-print n (c ∷ s) h (unfold read_digits in rw d))

-- Different numbers have different prints.
pub to_string_injective : (m n : ℕ) → m ≤ int_max → n ≤ int_max → to_string m ≡ to_string n → m ≡ n
to_string_injective m n hm hn e =
    some-injective m n (sym (stoi-to_string m hm) ∙ ap stoi e ∙ stoi-to_string n hn)
