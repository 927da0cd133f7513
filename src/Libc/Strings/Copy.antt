-- ===== src/Libc/Strings/Copy.antt =====
-- Copying and appending of include/libc.h: `dest` is what can be written from the destination on,
-- and the source another buffer. `none` is a read or a write outside.
use netd_moduos.Common.{
  ℕ, zero, suc, ◌+◌, ◌-◌, List, [], ◌∷◌, Option, none, some, ltb, leb, ◌==◌, if◌then◌else◌,
}
use netd_moduos.Libc.Memory.{place, memset, strlen}

-- `for (i = 0; i < n && src[i]; i++) dest[at + i] = src[i]`: the buffer, and `i` at the end.
unfoldable pub copy_loop : List ℕ → ℕ → List ℕ → ℕ → Option (List ℕ × ℕ)
copy_loop dest at src zero = some (dest, 0)
copy_loop dest at [] (suc n) = none
copy_loop dest at (c ∷ cs) (suc n) = if c == 0 then some (dest, 0) else elim (place dest at c) [
  | none ↦ none
  | some dest' ↦ elim (copy_loop dest' (at + 1) cs n) [ none ↦ none | some r ↦ some (r.0, r.1 + 1) ]
]

-- The loop, and `dest[at + i] = '\0'` behind it.
unfoldable pub copy_ended : List ℕ → ℕ → List ℕ → ℕ → Option (List ℕ × ℕ)
copy_ended dest at src n = elim (copy_loop dest at src n) [
  | none ↦ none
  | some r ↦ elim (place r.0 (at + r.1) 0) [ none ↦ none | some dest' ↦ some (dest', r.1) ]
]

-- `strlcpy(dest + at, src, size)`.
unfoldable pub strlcpy : List ℕ → ℕ → List ℕ → ℕ → Option (List ℕ × ℕ)
strlcpy dest at src size = elim (strlen src) [
  | none ↦ none
  | some src_len ↦
      if ltb 0 size
      then (elim (copy_ended dest at src (size - 1)) [ none ↦ none | some r ↦ some (r.0, src_len) ])
      else some (dest, src_len)
]

unfoldable pub strlcat : List ℕ → List ℕ → ℕ → Option (List ℕ × ℕ)
strlcat dest src size = elim (strlen dest) [
  | none ↦ none
  | some dest_len ↦ elim (strlen src) [
    | none ↦ none
    | some src_len ↦
        if leb size dest_len
        then some (dest, size + src_len)
        else elim (strlcpy dest dest_len src (size - dest_len)) [
          | none ↦ none
          | some r ↦ some (r.0, dest_len + src_len)
        ]
  ]
]

-- `while ((*d++ = *src++) != '\0')`, from `dest + at` on.
unfoldable pub copy_all : List ℕ → ℕ → List ℕ → Option (List ℕ)
copy_all dest at [] = none
copy_all dest at (c ∷ cs) = elim (place dest at c) [
  | none ↦ none
  | some dest' ↦ if c == 0 then some dest' else copy_all dest' (at + 1) cs
]

unfoldable pub strcpy : List ℕ → List ℕ → Option (List ℕ)
strcpy dest src = copy_all dest 0 src

unfoldable pub strcat : List ℕ → List ℕ → Option (List ℕ)
strcat dest src = elim (strlen dest) [ none ↦ none | some d ↦ copy_all dest d src ]

unfoldable pub strncpy : List ℕ → List ℕ → ℕ → Option (List ℕ)
strncpy dest src n = elim (copy_loop dest 0 src n) [
  | none ↦ none
  | some r ↦ memset r.0 r.1 0 (n - r.1)
]

unfoldable pub strncat : List ℕ → List ℕ → ℕ → Option (List ℕ)
strncat dest src n = elim (strlen dest) [
  | none ↦ none
  | some d ↦ elim (copy_ended dest d src n) [ none ↦ none | some r ↦ some (r.0) ]
]

-- safe_strcpy, on pointers that are not NULL.
unfoldable pub safe_strcpy : List ℕ → ℕ → List ℕ → Option (List ℕ × ℕ)
safe_strcpy dest dest_sz src =
    if dest_sz == 0 then some (dest, 0) else copy_ended dest 0 src (dest_sz - 1)

unfoldable pub safe_strcat : List ℕ → ℕ → List ℕ → Option (List ℕ × ℕ)
safe_strcat dest dest_sz src = strlcat dest src dest_sz
