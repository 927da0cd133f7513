-- ===== src/Libc/Print/Laws.antt =====
-- What is printed reads back as the number.
use netd_moduos.Common.{
  ℕ, zero, suc, ◌+◌, ◌-◌, ◌*◌, ◌/◌, ◌%◌, ◌^◌, ◌≤◌, ◌<◌, ◌≡◌, refl, ◌∙◌, Bool, true, false, ◌&&◌,
  List, [], ◌∷◌, ltb, ◌==◌, ==_iff, if◌then◌else◌, get_or, arith, Bool-cases, inl, inr,
}
use native.Mathlib.Nat.{pow-suc}
use mathlib.Core.List.{reverse_aux, foldl}
use netd_moduos.Libc.Print.{digit_chars, digits_of, print_uint, print_ulong, print_ulonglong}

-- The value of a digit in bases up to 16.
abbrev pub digit_value : ℕ → ℕ
digit_value c = if ltb c 58 then c - 48 else if ltb c b'a' then c - 55 else c - 87

-- The number that digits spell, the highest first.
abbrev pub number_of : ℕ → List ℕ → ℕ
number_of base = foldl (λ n c. n * base + digit_value c) 0

-- The same for digits with the lowest first.
numeral : ℕ → List ℕ → ℕ
numeral base [] = 0
numeral base (c ∷ cs) = numeral base cs * base + digit_value c

number_of-reverse_aux :
    (base : ℕ) (xs r : List ℕ)
    → number_of base (reverse_aux xs r)
      ≡ foldl (λ n c. n * base + digit_value c) (numeral base xs) r
unfolding numeral
number_of-reverse_aux base [] r = refl
number_of-reverse_aux base (x ∷ xs) r = number_of-reverse_aux base xs (x ∷ r)

all_digits : Bool → ℕ → Bool
all_digits upper zero = true
all_digits upper (suc d) = (digit_value (get_or (digit_chars upper) d 0) == d) && all_digits upper d

all_digits_sound :
    (upper : Bool) (n d : ℕ)
    → all_digits upper n ≡ true
    → d < n
    → digit_value (get_or (digit_chars upper) d 0) ≡ d
unfolding all_digits
all_digits_sound upper zero d all h = absurd (omega arith)
all_digits_sound upper (suc n) d all h = elim (Bool-cases (d == n)) [
  | inl last ↦
      let same : d ≡ n = (==_iff d n).0 last in
      rw same ((==_iff (digit_value (get_or (digit_chars upper) n 0)) n).0 (ground (arith, all)))
  | inr other ↦ all_digits_sound upper n d (ground (arith, all)) (ground (arith, other))
]

digit_value_char :
    (upper : Bool) (d : ℕ) → d < 16 → digit_value (get_or (digit_chars upper) d 0) ≡ d
unfolding all_digits
digit_value_char true d h = all_digits_sound true 16 d refl h
digit_value_char false d h = all_digits_sound false 16 d refl h

module _ (base : ℕ) (split : (n : ℕ) → (n / base) * base + n % base ≡ n)
    (halves : (n : ℕ) → n / base ≤ n / 2) (fits : (n : ℕ) → n % base < 16) where
  numeral-digits_of :
      (fuel : ℕ) (upper : Bool) (n : ℕ)
      → n < 2 ^ fuel
      → numeral base (digits_of fuel base upper n) ≡ n
  unfolding numeral digits_of
  numeral-digits_of zero upper n h = omega arith
  numeral-digits_of (suc fuel) upper n h = elim (Bool-cases (n == 0)) [
    | inl none' ↦ rw (none') (ground (arith, none'))
    | inr some' ↦
        rw
          (
            some',
            digit_value_char upper (n % base) (fits n),
            numeral-digits_of fuel upper (n / base) (small n fuel h),
          )
          (split n)
  ]
    where
      small : (n fuel : ℕ) → n < 2 ^ suc fuel → n / base < 2 ^ fuel
      small n fuel h = omega (arith, halves n, pow-suc 2 fuel)

  number_of-print_uint :
      (n : ℕ) (upper : Bool) → n < 2 ^ 64 → number_of base (print_uint n base upper) ≡ n
  unfolding print_uint
  number_of-print_uint n upper h = elim (Bool-cases (n == 0)) [
    | inl none' ↦ rw (none') (ground (arith, none'))
    | inr some' ↦
        rw (some') (
          number_of-reverse_aux base (digits_of 64 base upper n) []
          ∙ numeral-digits_of 64 upper n h)
  ]

-- The two bases that printf prints in.
abbrev pub SpellsIn10And16 : (ℕ → ℕ → Bool → List ℕ) → ℕ → Bool → Type 0
SpellsIn10And16 print n upper =
    (number_of 10 (print n 10 upper) ≡ n) × (number_of 16 (print n 16 upper) ≡ n)

spells : (n : ℕ) (upper : Bool) → n < 2 ^ 64 → SpellsIn10And16 print_uint n upper
spells n upper h = (
  number_of-print_uint 10 (λ k. omega arith) (λ k. omega arith) (λ k. omega arith) n upper h,
  number_of-print_uint 16 (λ k. omega arith) (λ k. omega arith) (λ k. omega arith) n upper h,
)

-- What each of the three printing routines writes for a number of at most 64 bits, in base 10 and
-- in base 16 and with either letters, spells that number.
pub number_of-print :
    (n : ℕ) (upper : Bool)
    → n < 2 ^ 64
    → SpellsIn10And16 print_uint n upper
      × SpellsIn10And16 print_ulong n upper
      × SpellsIn10And16 print_ulonglong n upper
unfolding print_uint print_ulong print_ulonglong
number_of-print n upper h = (spells n upper h, spells n upper h, spells n upper h)
