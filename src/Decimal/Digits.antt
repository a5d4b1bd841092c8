-- ===== src/Decimal/Digits.antt =====
-- The characters that `std::to_string` prints.
use replicated_block_store.Prelude.{
  ℕ, zero, suc, ◌≤◌, ◌+◌, ◌/◌, ◌%◌, [], ◌∷◌, Bytes, All, arith, Bool-cases, inl, inr, ltb, ltb→lt,
}
use replicated_block_store.Decimal.{print_digits, to_string}

abbrev pub IsDigit : ℕ → Type 0
IsDigit c = (b'0' ≤ c) × (c ≤ b'9')

print-IsDigit : (fuel n : ℕ) (out : Bytes) → All IsDigit out → All IsDigit (print_digits fuel n out)
unfolding print_digits
print-IsDigit zero n out h = h
print-IsDigit (suc fuel) n out h =
    let below : n % 10 ≤ 9 = omega arith in
    let rest =
      print-IsDigit fuel (n / 10) ((b'0' + n % 10) ∷ out) ((omega arith, omega arith), h) in
    elim (Bool-cases (ltb n 10)) [
      | inl e ↦ let small = ltb→lt n 10 e in rw e ((omega arith, omega arith), h)
      | inr e ↦ rw e rest
    ]

pub to_string-IsDigit : (n : ℕ) → All IsDigit (to_string n)
unfolding to_string
to_string-IsDigit n = print-IsDigit (suc n) n [] tt
