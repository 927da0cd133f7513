-- ===== src/Libc/Strings.antt =====
-- Searching and comparing of include/libc.h, on what can be read from a pointer on; `none` is a read
-- past that. A pointer into a string is the number of characters before it.
pub mod Copy
pub mod Tokens
pub mod Search
pub mod Append
use netd_moduos.Common.{
  ℕ, zero, suc, ◌+◌, ◌-◌, ◌*◌, ◌%◌, ◌^◌, Bool, true, false, ◌&&◌, ◌||◌, not, List, [], ◌∷◌, Option,
  none, some, ltb, leb, ◌==◌, if◌then◌else◌, ℤ, pos, negsuc, difference,
}

unfoldable pub strcmp : List ℕ → List ℕ → Option ℤ
strcmp [] s2 = none
strcmp (a ∷ s1) [] = none
strcmp (a ∷ s1) (b ∷ s2) =
    let rest = strcmp s1 s2 in if not (a == 0) && (a == b) then rest else some (difference a b)

unfoldable pub strncmp : List ℕ → List ℕ → ℕ → Option ℤ
strncmp s1 s2 zero = some (pos 0)
strncmp [] s2 (suc n) = none
strncmp (a ∷ s1) [] (suc n) = none
strncmp (a ∷ s1) (b ∷ s2) (suc n) =
    let rest = strncmp s1 s2 n in
    if not (a == 0) && ((a == b) && not (n == 0)) then rest else some (difference a b)

-- `(*s >= 'A' && *s <= 'Z') ? *s + 32 : *s`, for a `char` with a sign, moved up by 128.
abbrev pub lower : ℕ → ℕ
lower c = if leb b'A' c && leb c b'Z' then c + 32 + 128 else (c + 128) % 256

unfoldable pub strcasecmp : List ℕ → List ℕ → Option ℤ
strcasecmp [] s2 = none
strcasecmp (a ∷ s1) [] = none
strcasecmp (a ∷ s1) (b ∷ s2) =
    let rest = strcasecmp s1 s2 in
    if a == 0
    then some (difference a b)
    else if lower a == lower b
    then rest
    else some (difference (lower a) (lower b))

-- A pointer one character on, or NULL.
abbrev pub one_on : Option (Option ℕ) → Option (Option ℕ)
one_on none = none
one_on (some none) = some none
one_on (some (some i)) = some (some (suc i))

-- strchr; `c` is the bit pattern of the `int`, and `none` behind `some` is NULL.
unfoldable pub strchr : List ℕ → ℕ → Option (Option ℕ)
strchr [] c = none
strchr (x ∷ xs) c =
    let rest = one_on (strchr xs c) in
    if x == 0
    then some (if c == 0 then some 0 else none)
    else if x == c % 256
    then some (some 0)
    else rest

-- The loop of strrchr, `i` characters on: the end of the string, and `last`.
unfoldable pub last_of : List ℕ → ℕ → ℕ → Option ℕ → Option (ℕ × Option ℕ)
last_of [] c i last = none
last_of (x ∷ xs) c i last =
    let here = last_of xs c (i + 1) (some i) in
    let rest = last_of xs c (i + 1) last in
    if x == 0 then some (i, last) else if x == c % 256 then here else rest

unfoldable pub strrchr : List ℕ → ℕ → Option (Option ℕ)
strrchr str c = elim (last_of str c 0 none) [
  | none ↦ none
  | some r ↦ some (if c == 0 then some (r.0) else r.1)
]

-- The loop inside strstr, and `!*n` behind it.
unfoldable pub matches : List ℕ → List ℕ → Option Bool
matches [] n = none
matches (x ∷ h) [] = none
matches (x ∷ h) (y ∷ n) =
    let rest = matches h n in
    if not (x == 0) && (not (y == 0) && (x == y)) then rest else some (y == 0)

-- The outer loop of strstr, on a needle that is not empty.
unfoldable pub search : List ℕ → List ℕ → Option (Option ℕ)
search [] needle = none
search (x ∷ xs) needle =
    let rest = one_on (search xs needle) in
    if x == 0 then some none else elim (matches (x ∷ xs) needle) [
      | none ↦ none
      | some hit ↦ if hit then some (some 0) else rest
    ]

unfoldable pub strstr : List ℕ → List ℕ → Option (Option ℕ)
strstr haystack [] = none
strstr haystack (y ∷ n) = if y == 0 then some (some 0) else search haystack (y ∷ n)
