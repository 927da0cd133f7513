-- ===== src/Libc/Memory.antt =====
-- memset, memcpy, memmove, memcmp and strlen of include/libc.h. `none` is a read or a write outside a buffer.
pub mod Laws
pub mod Move
use netd_moduos.Common.{
  ℕ, zero, suc, ◌+◌, ◌%◌, Bool, List, [], ◌∷◌, Option, none, some, ltb, ◌==◌, if◌then◌else◌, length,
  get_elem?, set, ℤ, pos, difference,
}

-- `*ptr = (unsigned char)v`.
unfoldable pub put : List ℕ → ℕ → ℕ → Option (List ℕ)
put buf i v = if ltb i (length buf) then some (set buf i (v % 256)) else none

-- `memset(buf + i, v, len)`.
unfoldable pub memset : List ℕ → ℕ → ℕ → ℕ → Option (List ℕ)
memset buf i v zero = some buf
memset buf i v (suc len) = elim (put buf i v) [
  | none ↦ none
  | some buf' ↦ memset buf' (i + 1) v len
]

-- `memcpy(dest + i, src + j, len)`, for a source that is not the destination.
unfoldable pub memcpy : List ℕ → ℕ → List ℕ → ℕ → ℕ → Option (List ℕ)
memcpy dest i src j zero = some dest
memcpy dest i src j (suc len) = elim (get_elem? src j) [
  | none ↦ none
  | some b ↦ elim (put dest i b) [ none ↦ none | some dest' ↦ memcpy dest' (i + 1) src (j + 1) len ]
]

-- strlen, on what can be read from the string on.
unfoldable pub strlen : List ℕ → Option ℕ
strlen [] = none
strlen (c ∷ cs) =
    let rest = strlen cs in
    if c == 0 then some 0 else elim rest [ none ↦ none | some n ↦ some (suc n) ]

-- `*d = *s`, a byte to a byte.
unfoldable pub place : List ℕ → ℕ → ℕ → Option (List ℕ)
place buf i b = if ltb i (length buf) then some (set buf i b) else none

-- `while (n--) *d++ = *s++`, both inside one buffer.
unfoldable pub move_up : List ℕ → ℕ → ℕ → ℕ → Option (List ℕ)
move_up buf d s zero = some buf
move_up buf d s (suc n) = elim (get_elem? buf s) [
  | none ↦ none
  | some b ↦ elim (place buf d b) [ none ↦ none | some buf' ↦ move_up buf' (d + 1) (s + 1) n ]
]

-- `while (n--) *--d = *--s`, from `d + n` and `s + n` on.
unfoldable pub move_down : List ℕ → ℕ → ℕ → ℕ → Option (List ℕ)
move_down buf d s zero = some buf
move_down buf d s (suc n) = elim (get_elem? buf (s + n)) [
  | none ↦ none
  | some b ↦ elim (place buf (d + n) b) [ none ↦ none | some buf' ↦ move_down buf' d s n ]
]

-- `memmove(buf + d, buf + s, n)`.
unfoldable pub memmove : List ℕ → ℕ → ℕ → ℕ → Option (List ℕ)
memmove buf d s n =
    if ltb d s then move_up buf d s n else if ltb s d then move_down buf d s n else some buf

-- memcmp, on what can be read from either pointer on.
unfoldable pub memcmp : List ℕ → List ℕ → ℕ → Option ℤ
memcmp s1 s2 zero = some (pos 0)
memcmp [] s2 (suc n) = none
memcmp (a ∷ s1) [] (suc n) = none
memcmp (a ∷ s1) (b ∷ s2) (suc n) =
    let rest = memcmp s1 s2 n in if a == b then rest else some (difference a b)
