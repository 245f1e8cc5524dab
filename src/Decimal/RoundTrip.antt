-- ===== src/Decimal/RoundTrip.antt =====
-- Numbers that are printed are read back.
use req_pack_core.Prelude.{
  ℕ, zero, suc, ◌+◌, ◌/◌, ◌%◌, ◌^◌, ◌<◌, ltb, true, false, ◌==◌, nat_eq, Text, text_eq, [], ◌∷◌,
  some, pos, ◌≡◌, arith, nat_beq_iff, Bool-cases, inl, inr, All, ◌⊎◌, ◌∙◌, ap,
}
use req_pack_core.Decimal.{
  print_from, to_string, is_digit, is_space, read_digits, read_signed, skip_spaces, u64_of, stoul,
  int_of, stoi,
}

is_digit_of_lt : (d : ℕ) → d < 10 → is_digit (b'0' + d) ≡ true
unfolding is_digit
is_digit_of_lt d h = ground arith

-- Reading what `print_from` prints.
read_print :
    (fuel n : ℕ) (digits : Text)
    → n < fuel
    → read_digits 0 (print_from fuel n digits) ≡ read_digits n digits
unfolding print_from read_digits
read_print zero n digits h = elim h [ ]
read_print (suc fuel) n digits h = elim (Bool-cases (ltb n 10)) [
  | inl small ↦
      rw (small, is_digit_of_lt n (ground arith)) (ap (λ m. read_digits m digits) (omega arith))
  | inr big ↦ rw big (
      read_print fuel (n / 10) _ (ground arith)
      ∙ rw (is_digit_of_lt (n % 10) (omega arith)) (ap (λ m. read_digits m digits) (omega arith)))
]

abbrev pub IsDigit : ℕ → Type 0
IsDigit c = is_digit c ≡ true

print-IsDigit :
    (fuel n : ℕ) (digits : Text) → All IsDigit digits → All IsDigit (print_from fuel n digits)
unfolding print_from
print-IsDigit zero n digits h = h
print-IsDigit (suc fuel) n digits h = elim (Bool-cases (ltb n 10)) [
  | inl small ↦ rw small (is_digit_of_lt n (ground arith), h)
  | inr big ↦ rw big (print-IsDigit fuel (n / 10) _ (is_digit_of_lt (n % 10) (omega arith), h))
]

-- A printed number consists of digits.
pub to_string-IsDigit : (n : ℕ) → All IsDigit (to_string n)
unfolding to_string
to_string-IsDigit n = print-IsDigit (suc n) n [] tt

abbrev IsHead : Text → Type 0
IsHead [] = ⊥
IsHead (c ∷ rest) = Unit

print-IsHead :
    (fuel n : ℕ) (digits : Text) → IsHead digits ⊎ (0 < fuel) → IsHead (print_from fuel n digits)
unfolding print_from
print-IsHead zero n digits (inl h) = h
print-IsHead zero n digits (inr h) = elim h [ ]
print-IsHead (suc fuel) n digits h = elim (Bool-cases (ltb n 10)) [
  | inl small ↦ rw small tt
  | inr big ↦ rw big (print-IsHead fuel (n / 10) _ (inl tt))
]

-- A number is read at its first digit, and whole.
read_signed-digits :
    (t : Text)
    → IsHead t
    → All IsDigit t
    → (skip_spaces t ≡ t) × (read_signed t ≡ some (false, read_digits 0 t))
unfolding read_signed is_space skip_spaces is_digit read_digits
read_signed-digits [] h d = absurd h
read_signed-digits (c ∷ rest) h d = (ground (arith, d.0), ground (arith, d.0))

to_string-IsHead : (n : ℕ) → IsHead (to_string n)
unfolding to_string
to_string-IsHead n = print-IsHead (suc n) n [] (inr (omega arith))

read-to_string : (n : ℕ) → read_digits 0 (to_string n) ≡ n
unfolding to_string read_digits
read-to_string n = read_print (suc n) n [] (omega arith)

read_signed-to_string :
    (n : ℕ)
    → (skip_spaces (to_string n) ≡ to_string n) × (read_signed (to_string n) ≡ some (false, n))
read_signed-to_string n =
    let (spaces, signed) =
      read_signed-digits (to_string n) (to_string-IsHead n) (to_string-IsDigit n) in
    (spaces, signed ∙ ap (λ m. some (false, m)) (read-to_string n))

-- `std::stoul` reads what `std::to_string` prints, for every 64-bit number.
pub stoul-to_string : (n : ℕ) → n < 2 ^ 64 → stoul (to_string n) ≡ some n
unfolding stoul u64_of
stoul-to_string n h = let e = read_signed-to_string n in ground (arith, e.0, e.1)

-- The same of `std::stoi`, for every number that an `int` holds.
pub stoi-to_string : (n : ℕ) → n < 2 ^ 31 → stoi (to_string n) ≡ some (pos n)
unfolding stoi int_of
stoi-to_string n h = let e = read_signed-to_string n in ground (arith, e.0, e.1)

-- A printed number has no byte that is no digit.
pub to_string-Without :
    (byte n : ℕ) → is_digit byte ≡ false → All (λ c. (c == byte) ≡ false) (to_string n)
to_string-Without byte n other = each (to_string n) (to_string-IsDigit n)
  where
    each : (t : Text) → All IsDigit t → All (λ c. (c == byte) ≡ false) t
    each [] h = tt
    each (c ∷ t) h = (
      elim (Bool-cases (c == byte)) [ inl e ↦ cc ((nat_beq_iff c byte).0 e) | inr e ↦ e ],
      each t h.1,
    )
