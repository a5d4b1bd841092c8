-- ===== src/Decimal.antt =====
-- `std::to_string` and `std::stoi`, which the program uses to name directories, files and
-- transactions.
pub mod RoundTrip
pub mod Digits
use replicated_block_store.Prelude.{
  ℕ, zero, suc, ◌+◌, ◌-◌, ◌*◌, ◌/◌, ◌%◌, ◌≡◌, refl, Bool, ◌&&◌, Option, none, some, [], ◌∷◌, Bytes,
  codes, ltb, leb, if◌then◌else◌,
}

-- The digits of `n`, most significant first, in front of `out`; one unit of fuel for each digit.
print_digits : ℕ → ℕ → Bytes → Bytes
print_digits zero n out = out
print_digits (suc fuel) n out =
    let rest = print_digits fuel (n / 10) ((b'0' + n % 10) ∷ out) in
    if ltb n 10 then (b'0' + n) ∷ out else rest

-- `to_string(n)`: a number has at most as many digits as its successor says.
unfoldable pub to_string : ℕ → Bytes
unfolding print_digits
to_string n = print_digits (suc n) n []

abbrev pub is_digit : ℕ → Bool
is_digit c = leb b'0' c && leb c b'9'

-- The value of the leading digits, behind a value already read.
read_digits : ℕ → Bytes → ℕ
read_digits acc [] = acc
read_digits acc (c ∷ s) =
    let rest = read_digits (acc * 10 + (c - b'0')) s in if is_digit c then rest else acc

abbrev pub int_max : ℕ
int_max = 2147483647

-- `stoi(s)`: `none` where it throws, with no digit in front or a value that no `int` holds. Leading
-- blanks and signs, which `to_string` never prints, are not read.
unfoldable pub stoi : Bytes → Option ℕ
unfolding read_digits
stoi [] = none
stoi (c ∷ s) =
    let value = read_digits 0 (c ∷ s) in
    if is_digit c then (if leb value int_max then some value else none) else none

to_string_runs : to_string 1048576 ≡ codes "1048576"
unfolding to_string
to_string_runs = refl

stoi_runs : stoi (codes "255/x") ≡ some 255
unfolding stoi
stoi_runs = refl

stoi_overflow : stoi (codes "2147483648") ≡ none
unfolding stoi
stoi_overflow = refl
