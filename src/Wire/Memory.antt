-- ===== src/Wire/Memory.antt =====
-- Loads and stores through cast pointers, and `memcpy` between buffers.
use netd_moduos.Common.{
  ℕ, ◌+◌, ◌*◌, ◌/◌, ◌%◌, ◌^◌, Option, none, some, List, [], ◌∷◌, ltb, if◌then◌else◌, length,
  get_elem?, set, take,
}

infixl 5 ◌>>=◌
abbrev ◌>>=◌ : Option ℕ → (ℕ → Option ℕ) → Option ℕ
none >>= k = none
some x >>= k = k x

-- `*(uint16_t *)(buf + i)`.
unfoldable pub load16 : List ℕ → ℕ → Option ℕ
load16 buf i = do lo ← get_elem? buf i; hi ← get_elem? buf (i + 1); some (lo + hi * 2 ^ 8)

-- `*(uint32_t *)(buf + i)`.
unfoldable pub load32 : List ℕ → ℕ → Option ℕ
load32 buf i = do
  a ← get_elem? buf i
  b ← get_elem? buf (i + 1)
  c ← get_elem? buf (i + 2)
  d ← get_elem? buf (i + 3)
  some (a + b * 2 ^ 8 + c * 2 ^ 16 + d * 2 ^ 24)

-- `*(uint16_t *)(buf + i) = v`, for a place inside the buffer.
abbrev pub store16 : List ℕ → ℕ → ℕ → List ℕ
store16 buf i v = set (set buf i (v % 256)) (i + 1) (v / 256 % 256)

-- `*(uint32_t *)(buf + i) = v`, for a place inside the buffer.
abbrev pub store32 : List ℕ → ℕ → ℕ → List ℕ
store32 buf i v =
    set (set (set (set buf i (v % 256)) (i + 1) (v / 256 % 256)) (i + 2) (v / 2 ^ 16 % 256)) (i + 3)
      (v / 2 ^ 24 % 256)

-- `memcpy(buf + i, src, length src)`, for a place inside the buffer.
abbrev pub store : List ℕ → ℕ → List ℕ → List ℕ
store buf i [] = buf
store buf i (x ∷ xs) = store (set buf i x) (i + 1) xs

-- The head of `xs` replaced by `ys`; `none` if `ys` is longer.
unfoldable pub overwrite : List ℕ → List ℕ → Option (List ℕ)
overwrite xs [] = some xs
overwrite [] (y ∷ ys) = none
overwrite (x ∷ xs) (y ∷ ys) = elim (overwrite xs ys) [ none ↦ none | some zs ↦ some (y ∷ zs) ]

-- The first `n` bytes of a source; `none` if it has fewer.
unfoldable pub bytes? : List ℕ → ℕ → Option (List ℕ)
bytes? src n = if ltb (length src) n then none else some (take n src)
