-- ===== src/Libc/Numbers/Long.antt =====
-- What strtol makes of the digits of a long.
use netd_moduos.Common.{
  ℕ, suc, ◌+◌, ◌-◌, ◌*◌, ◌^◌, ◌<◌, ◌≡◌, refl, true, false, ◌||◌, List, [], ◌∷◌, ◌++◌, some, leb,
  ◌==◌, All, ℤ, pos, negsuc, lt→ltb, arith,
}
use netd_moduos.Libc.Snprintf.{ulltoa, signed_digits}
use netd_moduos.Libc.Numbers.{skip_spaces, long_sign, find_base, digit_of, long_digits, strtol}
use netd_moduos.Libc.Numbers.RoundTrip.{
  IsDecimal, is_decimal-eq-true, value, value_grows, All-ulltoa, value-ulltoa,
}

digit_of-IsDecimal : (c : ℕ) → IsDecimal c → digit_of c ≡ some (c - b'0')
unfolding digit_of
digit_of-IsDecimal c d = rw (is_decimal-eq-true c d) refl

long_digits-digits :
    (n : ℕ) (xs rest : List ℕ)
    → All IsDecimal xs
    → value n xs < 2 ^ 63
    → long_digits 10 n (xs ++ 0 ∷ rest) ≡ some (value n xs, 0 ∷ rest)
unfolding long_digits digit_of
long_digits-digits n [] rest ds h = refl
long_digits-digits n (x ∷ xs) rest ds h =
    let next = n * 10 + (x - b'0') in
    let fits : next < 2 ^ 63 = omega (arith, value_grows next xs, h) in
    let digit : leb 10 (x - b'0') ≡ false = ground (arith, ds.0) in
    rw (long_digits, digit_of-IsDecimal x ds.0, digit, lt→ltb next (2 ^ 63) fits)
      (long_digits-digits next xs rest ds.1 h)

find_base-ten : (xs rest : List ℕ) → find_base 10 (xs ++ 0 ∷ rest) ≡ some (10, xs ++ 0 ∷ rest)
unfolding find_base
find_base-ten [] rest = refl
find_base-ten (x ∷ xs) rest = refl

skip_spaces-digits :
    (xs rest : List ℕ) → All IsDecimal xs → skip_spaces (xs ++ 0 ∷ rest) ≡ some (xs ++ 0 ∷ rest)
unfolding skip_spaces
skip_spaces-digits [] rest ds = refl
skip_spaces-digits (x ∷ xs) rest ds =
    let space : ((x == b' ') || ((x == b'\t') || ((x == b'\n') || (x == b'\r')))) ≡ false =
      ground (arith, ds.0) in
    rw (skip_spaces, space) refl

long_sign-digits :
    (xs rest : List ℕ)
    → All IsDecimal xs
    → long_sign (xs ++ 0 ∷ rest) ≡ some (false, xs ++ 0 ∷ rest)
unfolding long_sign
long_sign-digits [] rest ds = refl
long_sign-digits (x ∷ xs) rest ds =
    let dash : (x == b'-') ≡ false = ground (arith, ds.0) in
    let plus : (x == b'+') ≡ false = ground (arith, ds.0) in rw (long_sign, dash, plus) refl

skip_spaces-dash : (s : List ℕ) → skip_spaces (b'-' ∷ s) ≡ some (b'-' ∷ s)
unfolding skip_spaces
skip_spaces-dash s = refl

long_sign-dash : (s : List ℕ) → long_sign (b'-' ∷ s) ≡ some (true, s)
unfolding long_sign
long_sign-dash s = refl

-- A `long` but the least.
abbrev pub IsLong : ℤ → Type 0
IsLong (pos n) = n < 2 ^ 63
IsLong (negsuc n) = n + 1 < 2 ^ 63

-- For every long but the least, strtol in base 10 reads back the digits that snprintf writes for
-- `%ld`, and leaves `*endptr` at the zero behind them.
pub strtol-signed_digits :
    (z : ℤ) (rest : List ℕ)
    → IsLong z
    → strtol (signed_digits z ++ 0 ∷ rest) 10 ≡ some (z, 0 ∷ rest)
unfolding strtol signed_digits
strtol-signed_digits (pos n) rest small =
    let ds = All-ulltoa n in
    let v = value-ulltoa n (omega arith) in
    rw
      (
        signed_digits,
        strtol,
        skip_spaces-digits (ulltoa n 10 false) rest ds,
        long_sign-digits (ulltoa n 10 false) rest ds,
        find_base-ten (ulltoa n 10 false) rest,
        long_digits-digits 0 (ulltoa n 10 false) rest ds (omega (arith, v)),
        v,
      )
      refl
strtol-signed_digits (negsuc n) rest small =
    let ds = All-ulltoa (suc n) in
    let v = value-ulltoa (suc n) (omega arith) in
    rw
      (
        signed_digits,
        strtol,
        skip_spaces-dash (ulltoa (suc n) 10 false ++ 0 ∷ rest),
        long_sign-dash (ulltoa (suc n) 10 false ++ 0 ∷ rest),
        find_base-ten (ulltoa (suc n) 10 false) rest,
        long_digits-digits 0 (ulltoa (suc n) 10 false) rest ds (omega (arith, v)),
        v,
      )
      refl
