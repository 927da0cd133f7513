-- ===== src/Libc/Snprintf.antt =====
-- snprintf of include/libc.h, with ulltoa. The format is the characters before its end.
pub mod Laws
use netd_moduos.Common.{
  ℕ, zero, suc, ◌+◌, ◌-◌, ◌%◌, ◌^◌, Bool, true, false, ◌&&◌, ◌||◌, not, List, [], ◌∷◌, ◌++◌, Option,
  none, some, ℤ, pos, negsuc, signed32, ltb, ◌==◌, if◌then◌else◌, length,
}
use mathlib.Core.List.{reverse}
use netd_moduos.Libc.Print.{digits_of}
use netd_moduos.Libc.Printf.{
  Arg, num, text, Width, plain, long, long_long, head, tail, read_width, signed64, characters,
}

-- The digits that ulltoa leaves in `str`, before the zero; they are written from the lowest on, and
-- then turned around.
unfoldable pub ulltoa : ℕ → ℕ → Bool → List ℕ
ulltoa value base upper = if value == 0 then b'0' ∷ [] else reverse (digits_of 64 base upper value)

-- `if (val < 0) { *buf = '-'; ulltoa(-val, buf + 1, 10, 0); } else ulltoa(val, buf, 10, 0);`
unfoldable pub signed_digits : ℤ → List ℕ
signed_digits (pos n) = ulltoa n 10 false
signed_digits (negsuc n) = b'-' ∷ ulltoa (suc n) 10 false

-- The argument at its width.
unfoldable pub signed_value : Width → ℕ → ℤ
signed_value plain v = signed32 (v % 2 ^ 32)
signed_value long v = signed64 (v % 2 ^ 64)
signed_value long_long v = signed64 (v % 2 ^ 64)

unfoldable pub unsigned_value : Width → ℕ → ℕ
unsigned_value plain v = v % 2 ^ 32
unsigned_value long v = v % 2 ^ 64
unsigned_value long_long v = v % 2 ^ 64

-- The characters that a conversion adds, and the arguments behind its own; `none` is an argument
-- that is missing or of another kind, or a string without an end.
abbrev pub Conversion : Type 0
Conversion = Option (List ℕ × List Arg)

unfoldable pub convert_number : (ℕ → List ℕ) → List Arg → Conversion
convert_number digits (num v ∷ args) = some (digits v, args)
convert_number digits (text s ∷ args) = none
convert_number digits [] = none

unfoldable pub convert_string : List Arg → Conversion
convert_string (text s ∷ args) = elim (characters s) [ none ↦ none | some cs ↦ some (cs, args) ]
convert_string (num v ∷ args) = none
convert_string [] = none

-- `switch (*p)`, on the character `c`. The pointer of `%p` has 64 bits.
unfoldable pub conversion : Width → ℕ → List Arg → Conversion
conversion width c args =
    if c == b's'
    then convert_string args
    else if (c == b'd') || (c == b'i')
    then convert_number (λ v. signed_digits (signed_value width v)) args
    else if c == b'u'
    then convert_number (λ v. ulltoa (unsigned_value width v) 10 false) args
    else if (c == b'x') || (c == b'X')
    then convert_number (λ v. ulltoa (unsigned_value width v) 16 (c == b'X')) args
    else if c == b'p'
    then convert_number (λ v. b'0' ∷ b'x' ∷ ulltoa (v % 2 ^ 64) 16 false) args
    else if c == b'c'
    then convert_number (λ v. (v % 256) ∷ []) args
    else if c == b'%'
    then some (b'%' ∷ [], args)
    else some (b'%' ∷ c ∷ [], args)

-- What stands before `out`, the room behind it, and the count of all characters.
pub record Out : Type 0 where
  pub text' : List ℕ
  pub rem : ℕ
  pub total : ℕ

-- `if (rem > 0) { *out++ = c; rem--; } total++;`
unfoldable pub add : Out → ℕ → Out
add o c =
    if ltb 0 o.rem
    then record { text' = o.text' ++ c ∷ []; rem = o.rem - 1; total = o.total + 1 }
    else record o { total = o.total + 1 }

unfoldable pub add_all : Out → List ℕ → Out
add_all o [] = o
add_all o (c ∷ cs) = add_all (add o c) cs

-- `past_end`: the format ends within a directive, and `p` is moved past its end. That and `undefined`
-- are undefined behaviour.
pub data Filled (A : Type 0) : Type 0 where
  filled : A → Filled A
  undefined past_end unfinished : Filled A

-- Behind the modifiers of a directive, where `p` is at `at`; `next` is the next round.
unfoldable pub after_conversion :
    (List ℕ → List Arg → Out → Filled Out) → List ℕ → Out → Conversion → Filled Out
after_conversion next at o none = undefined
after_conversion next [] o (some (chars, args)) = past_end
after_conversion next (c ∷ cs) o (some (chars, args)) = next cs args (add_all o chars)

-- The loop of snprintf. Each round takes a character of the format.
unfoldable pub snprintf_loop : ℕ → List ℕ → List Arg → Out → Filled Out
snprintf_loop zero p args o = unfinished
snprintf_loop (suc fuel) [] args o = filled o
snprintf_loop (suc fuel) (c ∷ cs) args o =
    if (c == b'%') && ltb 0 (length cs)
    then after_conversion (λ p' args' o'. snprintf_loop fuel p' args' o') ((read_width cs).1) o
        (conversion ((read_width cs).0) (head ((read_width cs).1)) args)
    else snprintf_loop fuel cs args (add o c)

-- The end of snprintf: what is stored at `str`, and the result.
unfoldable pub end_text : Out → List ℕ × ℤ
end_text o = (o.text' ++ 0 ∷ [], signed32 (o.total % 2 ^ 32))

abbrev pub map_filled : {A B : Type 0} → (A → B) → Filled A → Filled B
map_filled f (filled a) = filled (f a)
map_filled f undefined = undefined
map_filled f past_end = past_end
map_filled f unfinished = unfinished

-- snprintf, on a `str` that is not NULL.
unfoldable pub snprintf : ℕ → List ℕ → List Arg → Filled (List ℕ × ℤ)
snprintf size fmt args =
    if size == 0
    then filled ([], pos 0)
    else map_filled end_text
        (snprintf_loop (length fmt + 1) fmt args (record { text' = []; rem = size - 1; total = 0 }))
