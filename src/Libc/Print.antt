-- ===== src/Libc/Print.antt =====
-- print_uint, print_uint_padded, print_int, print_ulong, print_ulonglong and print_long of
-- include/libc.h, as the bytes that they write to the standard output.
pub mod Laws
use netd_moduos.Common.{
  ℕ, zero, suc, ◌+◌, ◌-◌, ◌/◌, ◌%◌, Bool, false, List, [], ◌∷◌, ◌++◌, ℤ, pos, negsuc, ◌==◌,
  if◌then◌else◌, length, get_or, replicate,
}
use mathlib.Core.List.{reverse}

-- `upper ? "0123456789ABCDEF" : "0123456789abcdef"`.
abbrev pub digit_chars : Bool → List ℕ
digit_chars upper =
    b'0'
    ∷ b'1'
    ∷ b'2'
    ∷ b'3'
    ∷ b'4'
    ∷ b'5'
    ∷ b'6'
    ∷ b'7'
    ∷ b'8'
    ∷ b'9'
    ∷ (if upper
        then b'A' ∷ b'B' ∷ b'C' ∷ b'D' ∷ b'E' ∷ b'F' ∷ []
        else b'a' ∷ b'b' ∷ b'c' ∷ b'd' ∷ b'e' ∷ b'f' ∷ [])

-- `while (n > 0) { buf[i++] = digits[n % base]; n /= base; }`: the bytes of `buf`. A number of at
-- most 64 bits has no more than 64 digits.
unfoldable pub digits_of : ℕ → ℕ → Bool → ℕ → List ℕ
digits_of zero base upper n = []
digits_of (suc fuel) base upper n =
    let rest = digits_of fuel base upper (n / base) in
    if n == 0 then [] else get_or (digit_chars upper) (n % base) 0 ∷ rest

unfoldable pub print_uint : ℕ → ℕ → Bool → List ℕ
print_uint n base upper = if n == 0 then b'0' ∷ [] else reverse (digits_of 64 base upper n)

unfoldable pub print_ulong : ℕ → ℕ → Bool → List ℕ
print_ulong n base upper = if n == 0 then b'0' ∷ [] else reverse (digits_of 64 base upper n)

unfoldable pub print_ulonglong : ℕ → ℕ → Bool → List ℕ
print_ulonglong n base upper = if n == 0 then b'0' ∷ [] else reverse (digits_of 64 base upper n)

unfoldable pub print_uint_padded : ℕ → ℕ → Bool → ℕ → ℕ → List ℕ
print_uint_padded n base upper width pad =
    let buf = if n == 0 then b'0' ∷ [] else digits_of 64 base upper n in
    replicate (width - length buf) (if pad == b'0' then b'0' else b' ') ++ reverse buf

-- The least number has no negative in C, where its bits stay as they are.
unfoldable pub print_int : ℤ → List ℕ
print_int (pos n) = print_uint n 10 false
print_int (negsuc n) = b'-' ∷ print_uint (suc n) 10 false

unfoldable pub print_long : ℤ → List ℕ
print_long (pos n) = print_ulong n 10 false
print_long (negsuc n) = b'-' ∷ print_ulong (suc n) 10 false
