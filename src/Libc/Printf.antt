-- ===== src/Libc/Printf.antt =====
-- printf of include/libc.h. A format is the characters before its end; what is printed is the bytes
-- of all writes in order.
pub mod Laws
pub mod Unknown
use netd_moduos.Common.{
  ℕ, zero, suc, ◌+◌, ◌-◌, ◌%◌, ◌^◌, Bool, true, false, ◌&&◌, ◌||◌, List, [], ◌∷◌, ◌++◌, Option,
  none, some, ℤ, pos, negsuc, signed32, ltb, leb, ◌==◌, if◌then◌else◌, length, take,
}
use netd_moduos.Libc.Memory.{strlen}
use netd_moduos.Libc.Print.{
  print_uint, print_ulong, print_ulonglong, print_uint_padded, print_int, print_long,
}

-- What a caller passes: the 64 bits of a number, or a pointer to a string, given by what can be
-- read from it on (`none` is NULL).
pub data Arg : Type 0 where
  num : ℕ → Arg
  text : Option (List ℕ) → Arg

-- `undefined` is an argument that is missing or of another kind, or a string without an end.
pub data Printed : Type 0 where
  printed : List ℕ → Printed
  undefined unfinished : Printed

-- The modifiers `l` and `ll`.
pub data Width : Type 0 where
  plain long long_long : Width

-- `*fmt`, which is 0 at the end, and `if (*fmt) fmt++`.
abbrev pub head : List ℕ → ℕ
head [] = 0
head (c ∷ cs) = c

abbrev pub tail : List ℕ → List ℕ
tail [] = []
tail (c ∷ cs) = cs

unfoldable pub read_width : List ℕ → Width × List ℕ
read_width fmt =
    if head fmt == b'l'
    then (if head (tail fmt) == b'l' then (long_long, tail (tail fmt)) else (long, tail fmt))
    else (plain, fmt)

-- The `long` with the bit pattern `w`.
abbrev pub signed64 : ℕ → ℤ
signed64 w = if ltb w (2 ^ 63) then pos w else negsuc (2 ^ 64 - w - 1)

-- `if (n < 0) { … n = -n; } print_ulonglong(n, 10, 0)`.
unfoldable pub print_long_long : ℤ → List ℕ
print_long_long (pos n) = print_ulonglong n 10 false
print_long_long (negsuc n) = b'-' ∷ print_ulonglong (suc n) 10 false

-- The cases `d` and `i`.
unfoldable pub print_signed : Width → ℕ → List ℕ
print_signed plain v = print_int (signed32 (v % 2 ^ 32))
print_signed long v = print_long (signed64 (v % 2 ^ 64))
print_signed long_long v = print_long_long (signed64 (v % 2 ^ 64))

unfoldable pub print_unsigned : ℕ → Bool → Width → ℕ → List ℕ
print_unsigned base upper plain v = print_uint (v % 2 ^ 32) base upper
print_unsigned base upper long v = print_ulong (v % 2 ^ 64) base upper
print_unsigned base upper long_long v = print_ulonglong (v % 2 ^ 64) base upper

-- What a directive prints, where it leaves `fmt`, and the arguments behind its own.
abbrev pub Step : Type 0
Step = Option (List ℕ × List ℕ × List Arg)

-- A directive that prints a number.
unfoldable pub number : (ℕ → List ℕ) → List ℕ → List Arg → Step
number show' fmt (num v ∷ args) = some (show' v, fmt, args)
number show' fmt (text s ∷ args) = none
number show' fmt [] = none

-- The characters of the string that `%s` prints.
unfoldable pub characters : Option (List ℕ) → Option (List ℕ)
characters none = some (b'(' ∷ b'n' ∷ b'u' ∷ b'l' ∷ b'l' ∷ b')' ∷ [])
characters (some s) = elim (strlen s) [ none ↦ none | some n ↦ some (take n s) ]

unfoldable pub string : List ℕ → List Arg → Step
string fmt (text s ∷ args) = elim (characters s) [ none ↦ none | some cs ↦ some (cs, fmt, args) ]
string fmt (num v ∷ args) = none
string fmt [] = none

abbrev pub is_digit : ℕ → Bool
is_digit c = leb b'0' c && leb c b'9'

-- The case `x`: the tests on a zero and a digit are made where `fmt` still stands on the `x`.
unfoldable pub hex : List ℕ → List Arg → Step
hex fmt args =
    let pad = if head fmt == b'0' then b'0' else b' ' in
    let fmt' = if head fmt == b'0' then tail fmt else fmt in
    let width = if is_digit (head fmt') then head fmt' - b'0' else 0 in
    let fmt'' = if is_digit (head fmt') then tail fmt' else fmt' in
    number (λ v. print_uint_padded (v % 2 ^ 32) 16 false width pad) fmt'' args

-- `switch (*fmt)`.
unfoldable pub directive : Width → List ℕ → List Arg → Step
directive width fmt args =
    let c = head fmt in
    if c == b'c'
    then number (λ v. (v % 256) ∷ []) fmt args
    else if c == b's'
    then string fmt args
    else if (c == b'd') || (c == b'i')
    then number (print_signed width) fmt args
    else if c == b'u'
    then number (print_unsigned 10 false width) fmt args
    else if c == b'x'
    then hex fmt args
    else if c == b'X'
    then number (print_unsigned 16 true width) fmt args
    else if c == b'%'
    then some (b'%' ∷ [], fmt, args)
    else some (b'%' ∷ take 1 fmt, fmt, args)

abbrev pub emit : List ℕ → Printed → Printed
emit out (printed rest) = printed (out ++ rest)
emit out undefined = undefined
emit out unfinished = unfinished

-- The rest of the format behind a directive; `next` is the next round.
unfoldable pub after_directive : (List ℕ → List Arg → Printed) → Step → Printed
after_directive next none = undefined
after_directive next (some (out, fmt, args)) = emit out (next (tail fmt) args)

-- The loop of printf. A run of other characters is printed in one write, here one by one. Each
-- round takes a character of the format.
unfoldable pub printf_loop : ℕ → List ℕ → List Arg → Printed
printf_loop zero fmt args = unfinished
printf_loop (suc fuel) [] args = printed []
printf_loop (suc fuel) (c ∷ cs) args =
    if c == b'%'
    then after_directive (λ fmt' args'. printf_loop fuel fmt' args')
        (directive ((read_width cs).0) ((read_width cs).1) args)
    else emit (c ∷ []) (printf_loop fuel cs args)

unfoldable pub printf : List ℕ → List Arg → Printed
printf fmt args = printf_loop (length fmt + 1) fmt args
