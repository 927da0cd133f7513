-- ===== src/Libc/Sprintf.antt =====
-- sprintf of include/libc.h, on a `str` that is not NULL. The format is the characters before its end,
-- and the buffer is taken to be large enough: the model gives the text before the zero, whose length is
-- the result.
pub mod Digits
pub mod Laws
use netd_moduos.Common.{
  ℕ, zero, suc, ◌+◌, ◌-◌, ◌/◌, ◌%◌, ◌^◌, Bool, true, false, ◌||◌, List, [], ◌∷◌, ◌++◌, Option, none,
  some, ℤ, pos, negsuc, signed32, ◌==◌, if◌then◌else◌, length, take,
}
use mathlib.Core.List.{reverse}
use netd_moduos.Libc.Print.{digits_of}
use netd_moduos.Libc.Printf.{
  Arg, Width, Printed, printed, undefined, unfinished, head, tail, read_width, Step, number, string,
  emit, after_directive,
}

-- `while (val > 0) { buf[i++] = '0' + (val % 10); val /= 10; }`: the bytes of `buf`.
unfoldable pub decimal_digits : ℕ → ℕ → List ℕ
decimal_digits zero n = []
decimal_digits (suc fuel) n =
    let rest = decimal_digits fuel (n / 10) in if n == 0 then [] else (b'0' + n % 10) ∷ rest

-- The cases `d` and `i`; every width is cut to an `int`. The least number has no negative in C, where
-- its bits stay as they are, so that the loop over its digits does not run.
unfoldable pub signed_text : ℤ → List ℕ
signed_text (pos n) = if n == 0 then b'0' ∷ [] else reverse (decimal_digits 64 n)
signed_text (negsuc n) =
    b'-' ∷ (if n == 2 ^ 31 - 1 then [] else reverse (decimal_digits 64 (suc n)))

-- The cases `u`, `x` and `X`; every width is cut to 32 bits.
unfoldable pub unsigned_text : ℕ → Bool → ℕ → List ℕ
unsigned_text base upper n = if n == 0 then b'0' ∷ [] else reverse (digits_of 64 base upper n)

-- `switch (*fmt)`. The modifiers have no effect.
unfoldable pub sprintf_directive : Width → List ℕ → List Arg → Step
sprintf_directive width fmt args =
    let c = head fmt in
    if c == b'c'
    then number (λ v. (v % 256) ∷ []) fmt args
    else if c == b's'
    then string fmt args
    else if (c == b'd') || (c == b'i')
    then number (λ v. signed_text (signed32 (v % 2 ^ 32))) fmt args
    else if c == b'u'
    then number (λ v. unsigned_text 10 false (v % 2 ^ 32)) fmt args
    else if c == b'x'
    then number (λ v. unsigned_text 16 false (v % 2 ^ 32)) fmt args
    else if c == b'X'
    then number (λ v. unsigned_text 16 true (v % 2 ^ 32)) fmt args
    else if c == b'%'
    then some (b'%' ∷ [], fmt, args)
    else some (b'%' ∷ take 1 fmt, fmt, args)

-- The loop of sprintf; a run of other characters is copied one by one. Each round takes a character
-- of the format.
unfoldable pub sprintf_loop : ℕ → List ℕ → List Arg → Printed
sprintf_loop zero fmt args = unfinished
sprintf_loop (suc fuel) [] args = printed []
sprintf_loop (suc fuel) (c ∷ cs) args =
    if c == b'%'
    then after_directive (λ fmt' args'. sprintf_loop fuel fmt' args')
        (sprintf_directive ((read_width cs).0) ((read_width cs).1) args)
    else emit (c ∷ []) (sprintf_loop fuel cs args)

unfoldable pub sprintf : List ℕ → List Arg → Printed
sprintf fmt args = sprintf_loop (length fmt + 1) fmt args
