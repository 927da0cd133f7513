-- ===== src/Libc/Numbers.antt =====
-- Numbers in text of include/libc.h: atoi, itoa, strtol, sscanf and rand. A string is what can be
-- read from the pointer on. `none` is a read past that, or a number that does not fit its type,
-- which C leaves undefined.
pub mod RoundTrip
pub mod Long
use netd_moduos.Common.{
  ℕ, zero, suc, ◌+◌, ◌-◌, ◌*◌, ◌/◌, ◌%◌, ◌^◌, Bool, true, false, ◌&&◌, ◌||◌, not, List, [], ◌∷◌,
  ◌++◌, Option, none, some, ltb, leb, ◌==◌, if◌then◌else◌, ℤ, pos, negsuc,
}
use netd_moduos.Libc.Snprintf.{ulltoa}

abbrev pub is_decimal : ℕ → Bool
is_decimal c = leb b'0' c && leb c b'9'

-- `while (*s >= '0' && *s <= '9') { res = res * 10 + (*s - '0'); s++; }`: the number, and where it
-- ends.
unfoldable pub decimal : ℕ → List ℕ → Option (ℕ × List ℕ)
decimal res [] = none
decimal res (c ∷ cs) =
    let next = res * 10 + (c - b'0') in
    let rest = decimal next cs in
    if is_decimal c then (if ltb next (2 ^ 31) then rest else none) else some (res, c ∷ cs)

-- `while (*s == ' ' || *s == '\t') s++`.
unfoldable pub skip_blanks : List ℕ → Option (List ℕ)
skip_blanks [] = none
skip_blanks (c ∷ cs) =
    let rest = skip_blanks cs in if (c == b' ') || (c == b'\t') then rest else some (c ∷ cs)

-- `if (*s == '-') { sign = -1; s++; }`: whether there is a sign.
unfoldable pub take_sign : List ℕ → Option (Bool × List ℕ)
take_sign [] = none
take_sign (c ∷ cs) = if c == b'-' then some (true, cs) else some (false, c ∷ cs)

abbrev pub with_sign : Bool → ℕ → ℤ
with_sign false n = pos n
with_sign true zero = pos 0
with_sign true (suc n) = negsuc n

-- Blanks, a sign, and the text behind them.
unfoldable pub before_number : List ℕ → Option (Bool × List ℕ)
before_number str = elim (skip_blanks str) [ none ↦ none | some s ↦ take_sign s ]

unfoldable pub atoi : List ℕ → Option ℤ
atoi str = elim (before_number str) [
  | none ↦ none
  | some s ↦ elim (decimal 0 s.1) [ none ↦ none | some r ↦ some (with_sign s.0 r.0) ]
]

-- itoa: what it leaves in `str`, before the zero.
unfoldable pub itoa : ℤ → ℕ → List ℕ
itoa (pos n) base = ulltoa n base false
itoa (negsuc n) base =
    if base == 10 then b'-' ∷ ulltoa (suc n) 10 false else ulltoa (2 ^ 32 - suc n) base false

-- strtol.
unfoldable pub skip_spaces : List ℕ → Option (List ℕ)
skip_spaces [] = none
skip_spaces (c ∷ cs) =
    let rest = skip_spaces cs in
    if (c == b' ') || ((c == b'\t') || ((c == b'\n') || (c == b'\r'))) then rest else some (c ∷ cs)

unfoldable pub long_sign : List ℕ → Option (Bool × List ℕ)
long_sign [] = none
long_sign (c ∷ cs) =
    if c == b'-'
    then some (true, cs)
    else if c == b'+'
    then some (false, cs)
    else some (false, c ∷ cs)

-- `*str == '0' && (str[1] == 'x' || str[1] == 'X')`.
unfoldable pub has_0x : List ℕ → Option Bool
has_0x [] = none
has_0x (c ∷ []) = if c == b'0' then none else some false
has_0x (c ∷ d ∷ cs) = some ((c == b'0') && ((d == b'x') || (d == b'X')))

abbrev pub behind_0x : List ℕ → List ℕ
behind_0x [] = []
behind_0x (c ∷ []) = []
behind_0x (c ∷ d ∷ cs) = cs

-- The base, and where the digits begin.
unfoldable pub find_base : ℕ → List ℕ → Option (ℕ × List ℕ)
find_base base [] = none
find_base base (c ∷ cs) =
    if (base == 0) || (base == 16)
    then (elim (has_0x (c ∷ cs)) [
      | none ↦ none
      | some hex ↦
          if hex
          then some (16, behind_0x (c ∷ cs))
          else if base == 16
          then some (16, c ∷ cs)
          else if c == b'0'
          then some (8, c ∷ cs)
          else some (10, c ∷ cs)
    ])
    else some (base, c ∷ cs)

unfoldable pub digit_of : ℕ → Option ℕ
digit_of c =
    if is_decimal c
    then some (c - b'0')
    else if leb b'a' c && leb c b'z'
    then some (c - b'a' + 10)
    else if leb b'A' c && leb c b'Z'
    then some (c - b'A' + 10)
    else none

-- The loop over the digits: the number, and `str` at the end.
unfoldable pub long_digits : ℕ → ℕ → List ℕ → Option (ℕ × List ℕ)
long_digits base result [] = none
long_digits base result (c ∷ cs) =
    let on : ℕ → Option (ℕ × List ℕ) = λ next. long_digits base next cs in
    elim (digit_of c) [
      | none ↦ some (result, c ∷ cs)
      | some digit ↦
          if leb base digit
          then some (result, c ∷ cs)
          else if ltb (result * base + digit) (2 ^ 63)
          then on (result * base + digit)
          else none
    ]

-- strtol on a string that is not NULL, for a base that is not negative: the result, and what
-- `*endptr` points at.
unfoldable pub strtol : List ℕ → ℕ → Option (ℤ × List ℕ)
strtol str base = elim (skip_spaces str) [
  | none ↦ none
  | some s ↦ elim (long_sign s) [
    | none ↦ none
    | some t ↦ elim (find_base base t.1) [
      | none ↦ none
      | some b ↦ elim (long_digits b.0 0 b.1) [
        | none ↦ none
        | some r ↦ some (with_sign t.0 r.0, r.1)
      ]
    ]
  ]
]

-- sscanf: how many `%d` the format has.
unfoldable pub count_ints : List ℕ → Option ℕ
count_ints [] = none
count_ints (c ∷ []) = if c == 0 then some 0 else none
count_ints (c ∷ d ∷ cs) =
    let two = count_ints cs in
    let one = count_ints (d ∷ cs) in
    if c == 0
    then some 0
    else if (c == b'%') && (d == b'd')
    then (elim two [ none ↦ none | some n ↦ some (suc n) ])
    else one

-- The loop of sscanf: the numbers that it stores, in the order of the arguments.
unfoldable pub scan_ints : ℕ → List ℕ → Option (List ℤ)
scan_ints zero s = some []
scan_ints (suc left) [] = none
scan_ints (suc left) (c ∷ cs) =
    let on : List ℕ → Option (List ℤ) = scan_ints left in
    if c == 0 then some [] else elim (before_number (c ∷ cs)) [
      | none ↦ none
      | some (sign, []) ↦ none
      | some (sign, d ∷ ds) ↦
          if is_decimal d
          then (elim (decimal 0 (d ∷ ds)) [
            | none ↦ none
            | some r ↦ elim (on r.1) [ none ↦ none | some zs ↦ some (with_sign sign r.0 ∷ zs) ]
          ])
          else some []
    ]

-- sscanf on a format of at most 16 `%d`: `args` has no place for more, and `none` stands for the
-- write behind it. The result of the call is the number of integers.
unfoldable pub sscanf : List ℕ → List ℕ → Option (List ℤ)
sscanf str format = elim (count_ints format) [
  | none ↦ none
  | some n ↦ if ltb 16 n then none else scan_ints n str
]

-- rand, with `__rand_seed` before and after.
unfoldable pub rand : ℕ → ℕ × ℕ
rand seed = let seed' = (seed * 1103515245 + 12345) % 2 ^ 32 in (seed' / 65536 % 32768, seed')
