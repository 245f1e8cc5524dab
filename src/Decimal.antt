-- ===== src/Decimal.antt =====
-- Decimal conversions of the C++ library: `std::to_string`, `std::stoul`, `std::stoull` and
-- `std::stoi`, whose exceptions (no digits, out of range) are `none`.
pub mod RoundTrip
use req_pack_core.Prelude.{
  ℕ, zero, suc, ◌+◌, ◌-◌, ◌*◌, ◌/◌, ◌%◌, ◌^◌, ◌<◌, ltb, leb, Bool, true, false, ◌&&◌, ◌||◌, ◌==◌,
  if◌then◌else◌, nat_eq, Text, text_eq, List, [], ◌∷◌, Option, none, some, ℤ, pos, negsuc,
}

-- The digits of a number below 10 ^ fuel, before the digits that are already there.
print_from : ℕ → ℕ → Text → Text
print_from zero n digits = digits
print_from (suc fuel) n digits =
    let more = print_from fuel (n / 10) ((b'0' + n % 10) ∷ digits) in
    if ltb n 10 then (b'0' + n) ∷ digits else more

-- A number has at most as many digits as its value and one more.
unfoldable pub to_string : ℕ → Text
unfolding print_from
to_string n = print_from (suc n) n []

unfoldable pub is_digit : ℕ → Bool
is_digit c = leb b'0' c && leb c b'9'

-- `std::isspace` in the "C" locale.
is_space : ℕ → Bool
is_space c = c == 32 || leb 9 c && leb c 13

-- The value of the leading digits.
read_digits : ℕ → Text → ℕ
read_digits n [] = n
read_digits n (c ∷ rest) =
    let more = read_digits (n * 10 + (c - b'0')) rest in if is_digit c then more else n

read_number : Text → Option ℕ
unfolding read_digits is_digit
read_number [] = none
read_number (c ∷ rest) = if is_digit c then some (read_digits (c - b'0') rest) else none

with_sign : Bool → Option ℕ → Option (Bool × ℕ)
with_sign negative none = none
with_sign negative (some n) = some (negative, n)

-- Whether there is a minus sign, and the value behind the sign.
read_signed : Text → Option (Bool × ℕ)
unfolding read_number with_sign
read_signed [] = none
read_signed (c ∷ rest) =
    if c == b'-'
    then with_sign true (read_number rest)
    else if c == b'+'
    then with_sign false (read_number rest)
    else with_sign false (read_number (c ∷ rest))

skip_spaces : Text → Text
unfolding is_space
skip_spaces [] = []
skip_spaces (c ∷ rest) = let more = skip_spaces rest in if is_space c then more else c ∷ rest

u64_of : Bool × ℕ → Option ℕ
u64_of (negative, n) =
    if ltb n (2 ^ 64) then some (if negative then (2 ^ 64 - n) % 2 ^ 64 else n) else none

-- `unsigned long` and `unsigned long long` have 64 bits. A minus sign wraps the value around.
unfoldable pub stoul : Text → Option ℕ
unfolding skip_spaces read_signed u64_of
stoul text = elim (read_signed (skip_spaces text)) [ none ↦ none | some r ↦ u64_of r ]

int_of : Bool × ℕ → Option ℤ
int_of (true, zero) = some (pos 0)
int_of (true, suc n) = if ltb n (2 ^ 31) then some (negsuc n) else none
int_of (false, n) = if ltb n (2 ^ 31) then some (pos n) else none

unfoldable pub stoi : Text → Option ℤ
unfolding skip_spaces read_signed int_of
stoi text = elim (read_signed (skip_spaces text)) [ none ↦ none | some r ↦ int_of r ]
