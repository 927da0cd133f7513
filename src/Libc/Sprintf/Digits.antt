-- ===== src/Libc/Sprintf/Digits.antt =====
-- That the texts of numbers are those that the printing routines write.
use netd_moduos.Common.{
  ℕ, zero, suc, ◌+◌, ◌-◌, ◌/◌, ◌%◌, ◌^◌, ◌<◌, ◌≡◌, ◌≢◌, refl, ap, Bool, true, false, ◌&&◌, ℤ, pos,
  negsuc, ◌==◌, ==_iff, length, get_or, arith, Bool-cases, inl, inr,
}
use netd_moduos.Libc.Print.{digit_chars, digits_of, print_uint, print_uint_padded, print_int}
use netd_moduos.Libc.Sprintf.{decimal_digits, signed_text, unsigned_text}

all_decimal : ℕ → Bool
all_decimal zero = true
all_decimal (suc d) = (get_or (digit_chars false) d 0 == b'0' + d) && all_decimal d

all_decimal_sound :
    (n d : ℕ) → all_decimal n ≡ true → d < n → get_or (digit_chars false) d 0 ≡ b'0' + d
unfolding all_decimal
all_decimal_sound zero d all h = absurd (omega arith)
all_decimal_sound (suc n) d all h = elim (Bool-cases (d == n)) [
  | inl last ↦
      let same : d ≡ n = (==_iff d n).0 last in
      rw same ((==_iff (get_or (digit_chars false) n 0) (b'0' + n)).0 (ground (arith, all)))
  | inr other ↦ all_decimal_sound n d (ground (arith, all)) (ground (arith, other))
]

pub digit_decimal : (d : ℕ) → d < 10 → get_or (digit_chars false) d 0 ≡ b'0' + d
unfolding all_decimal
digit_decimal d h = all_decimal_sound 10 d refl h

decimal_digits-digits_of : (fuel n : ℕ) → decimal_digits fuel n ≡ digits_of fuel 10 false n
unfolding decimal_digits digits_of
decimal_digits-digits_of zero n = refl
decimal_digits-digits_of (suc fuel) n =
    rw (digit_decimal (n % 10) (omega arith), decimal_digits-digits_of fuel (n / 10)) refl

pub unsigned_text-print_uint :
    (base n : ℕ) (upper : Bool) → unsigned_text base upper n ≡ print_uint n base upper
unfolding unsigned_text print_uint
unsigned_text-print_uint base n upper = refl

pub signed_text-print_int : (z : ℤ) → z ≢ negsuc (2 ^ 31 - 1) → signed_text z ≡ print_int z
unfolding signed_text print_int print_uint
signed_text-print_int (pos n) h = rw (decimal_digits-digits_of 64 n) refl
signed_text-print_int (negsuc n) h = elim (Bool-cases (n == 2 ^ 31 - 1)) [
  | inl least ↦ absurd (h (ap negsuc ((==_iff n (2 ^ 31 - 1)).0 least)))
  | inr other ↦
      let some' : (suc n == 0) ≡ false = ground arith in
      rw (other, decimal_digits-digits_of 64 (suc n), print_uint, some') refl
]

pub padded : (n : ℕ) → print_uint_padded n 16 false 0 b' ' ≡ print_uint n 16 false
unfolding print_uint_padded print_uint
padded n = elim (Bool-cases (n == 0)) [
  | inl none' ↦ rw none' refl
  | inr some' ↦
      let no_padding : 0 - length (digits_of 64 16 false n) ≡ 0 = omega arith in
      rw (some', no_padding) refl
]
