-- ===== src/Libc/Numbers/RoundTrip.antt =====
-- What atoi makes of the digits of itoa.
use netd_moduos.Common.{
  ℕ, zero, suc, ◌+◌, ◌-◌, ◌*◌, ◌/◌, ◌%◌, ◌^◌, ◌≤◌, ◌<◌, ◌≡◌, refl, ◌∙◌, true, false, ◌||◌, List, [],
  ◌∷◌, ◌++◌, some, ◌==◌, All, Bool-cases, inl, inr, ℤ, pos, negsuc, lt→ltb, arith,
}
use mathlib.Core.List.{reverse_aux, foldl}
use netd_moduos.Libc.Print.{digits_of, print_uint}
use netd_moduos.Libc.Print.Laws.{digit_value, number_of-print}
use netd_moduos.Libc.Sprintf.Digits.{digit_decimal}
use netd_moduos.Libc.Snprintf.{ulltoa}
use netd_moduos.Libc.Numbers.{
  is_decimal, decimal, skip_blanks, take_sign, before_number, atoi, itoa,
}

abbrev pub IsDecimal : ℕ → Type 0
IsDecimal c = (b'0' ≤ c) × (c ≤ b'9')

pub is_decimal-eq-true : (c : ℕ) → IsDecimal c → is_decimal c ≡ true
is_decimal-eq-true c d = ground arith

-- An `int` but the least, whose digits are read as a number before the sign is.
abbrev pub IsSmall : ℤ → Type 0
IsSmall (pos n) = n < 2 ^ 31
IsSmall (negsuc n) = n + 1 < 2 ^ 31

abbrev pub value : ℕ → List ℕ → ℕ
value n xs = foldl (λ n c. n * 10 + (c - b'0')) n xs

pub value_grows : (n : ℕ) (xs : List ℕ) → n ≤ value n xs
value_grows n [] = omega arith
value_grows n (x ∷ xs) = omega (arith, value_grows (n * 10 + (x - b'0')) xs)

value-number_of :
    (n : ℕ) (xs : List ℕ)
    → All IsDecimal xs
    → value n xs ≡ foldl (λ n c. n * 10 + digit_value c) n xs
value-number_of n [] ds = refl
value-number_of n (x ∷ xs) ds =
    let same : digit_value x ≡ x - b'0' = ground (arith, ds.0) in
    rw same (value-number_of (n * 10 + (x - b'0')) xs ds.1)

All-reverse_aux :
    (xs r : List ℕ) → All IsDecimal xs → All IsDecimal r → All IsDecimal (reverse_aux xs r)
All-reverse_aux [] r dx dr = dr
All-reverse_aux (x ∷ xs) r dx dr = All-reverse_aux xs (x ∷ r) dx.1 (dx.0, dr)

All-digits_of : (fuel n : ℕ) → All IsDecimal (digits_of fuel 10 false n)
unfolding digits_of
All-digits_of zero n = tt
All-digits_of (suc fuel) n = elim (Bool-cases (n == 0)) [
  | inl none' ↦ rw none' tt
  | inr some' ↦
      rw (some', digit_decimal (n % 10) (omega arith))
        ((omega arith, omega arith), All-digits_of fuel (n / 10))
]

pub All-ulltoa : (n : ℕ) → All IsDecimal (ulltoa n 10 false)
unfolding ulltoa
All-ulltoa n = elim (Bool-cases (n == 0)) [
  | inl none' ↦ rw none' ((omega arith, omega arith), tt)
  | inr some' ↦ rw some' (All-reverse_aux (digits_of 64 10 false n) [] (All-digits_of 64 n) tt)
]

pub value-ulltoa : (n : ℕ) → n < 2 ^ 64 → value 0 (ulltoa n 10 false) ≡ n
unfolding ulltoa print_uint
value-ulltoa n h =
    value-number_of 0 (ulltoa n 10 false) (All-ulltoa n) ∙ (number_of-print n false h).0.0

decimal-digits :
    (n : ℕ) (xs rest : List ℕ)
    → All IsDecimal xs
    → value n xs < 2 ^ 31
    → decimal n (xs ++ 0 ∷ rest) ≡ some (value n xs, 0 ∷ rest)
unfolding decimal
decimal-digits n [] rest ds h = refl
decimal-digits n (x ∷ xs) rest ds h =
    let next = n * 10 + (x - b'0') in
    let fits : next < 2 ^ 31 = omega (arith, value_grows next xs, h) in
    rw (is_decimal-eq-true x ds.0, lt→ltb next (2 ^ 31) fits, decimal)
      (decimal-digits next xs rest ds.1 h)

before_number-digits :
    (xs rest : List ℕ)
    → All IsDecimal xs
    → before_number (xs ++ 0 ∷ rest) ≡ some (false, xs ++ 0 ∷ rest)
unfolding before_number skip_blanks take_sign
before_number-digits [] rest ds = refl
before_number-digits (x ∷ xs) rest ds =
    let blank : ((x == b' ') || (x == b'\t')) ≡ false = ground (arith, ds.0) in
    let dash : (x == b'-') ≡ false = ground (arith, ds.0) in
    rw (before_number, skip_blanks, blank, take_sign, dash) refl

before_number-dash : (s : List ℕ) → before_number (b'-' ∷ s) ≡ some (true, s)
unfolding before_number skip_blanks take_sign
before_number-dash s = refl

-- atoi reads back what itoa writes in base 10, for every int but the least.
pub atoi-itoa : (z : ℤ) (rest : List ℕ) → IsSmall z → atoi (itoa z 10 ++ 0 ∷ rest) ≡ some z
unfolding atoi itoa
atoi-itoa (pos n) rest small =
    let ds = All-ulltoa n in
    let v = value-ulltoa n (omega arith) in
    rw
      (
        itoa,
        atoi,
        before_number-digits (ulltoa n 10 false) rest ds,
        decimal-digits 0 (ulltoa n 10 false) rest ds (omega (arith, v)),
        v,
      )
      refl
atoi-itoa (negsuc n) rest small =
    let ds = All-ulltoa (suc n) in
    let v = value-ulltoa (suc n) (omega arith) in
    rw
      (
        itoa,
        atoi,
        before_number-dash (ulltoa (suc n) 10 false ++ 0 ∷ rest),
        decimal-digits 0 (ulltoa (suc n) 10 false) rest ds (omega (arith, v)),
        v,
      )
      refl
