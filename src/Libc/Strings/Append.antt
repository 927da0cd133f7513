-- ===== src/Libc/Strings/Append.antt =====
-- strlcpy and strlcat on strings.
use netd_moduos.Common.{
  ℕ, zero, suc, ◌+◌, ◌-◌, ◌≤◌, ◌<◌, ◌≡◌, refl, ap, ◌∙◌, false, List, [], ◌∷◌, ◌++◌, some, leb,
  lt→ltb, ne→not-eq, length, length-set, length-take, take, set, arith,
}
use netd_moduos.Wire.Memory.{store}
use netd_moduos.Libc.Memory.Laws.{strlen-length}
use netd_moduos.Libc.Memory.Move.{place-set}
use netd_moduos.Libc.Strings.Copy.{copy_loop, copy_ended, strlcpy, strlcat}
use netd_moduos.Libc.Strings.Search.{IsText}

length-store : (buf : List ℕ) (i : ℕ) (xs : List ℕ) → length (store buf i xs) ≡ length buf
length-store buf i [] = refl
length-store buf i (x ∷ xs) = length-store (set buf i x) (i + 1) xs ∙ length-set buf i x

store-append :
    (buf : List ℕ) (i : ℕ) (xs : List ℕ) (y : ℕ)
    → set (store buf i xs) (i + length xs) y ≡ store buf i (xs ++ y ∷ [])
store-append buf i [] y = let e : i + 0 ≡ i = omega arith in rw e refl
store-append buf i (x ∷ xs) y =
    let e : i + suc (length xs) ≡ i + 1 + length xs = omega arith in
    rw e (store-append (set buf i x) (i + 1) xs y)

copy_loop-take :
    (dest : List ℕ) (at : ℕ) (cs rest : List ℕ) (n : ℕ)
    → IsText cs
    → at + n ≤ length dest
    → copy_loop dest at (cs ++ 0 ∷ rest) n ≡ some (store dest at (take n cs), length (take n cs))
unfolding copy_loop
copy_loop-take dest at cs rest zero text room = refl
copy_loop-take dest at [] rest (suc n) text room = refl
copy_loop-take dest at (c ∷ cs) rest (suc n) text room =
    rw
      (
        copy_loop,
        ne→not-eq c 0 text.0,
        place-set dest at c (omega arith),
        copy_loop-take (set dest at c) (at + 1) cs rest n text.1
            (omega (arith, length-set dest at c)),
      )
      (ap (λ k. some (store (set dest at c) (at + 1) (take n cs), k)) (omega arith))

copy_ended-take :
    (dest : List ℕ) (at : ℕ) (cs rest : List ℕ) (n : ℕ)
    → IsText cs
    → at + n < length dest
    → copy_ended dest at (cs ++ 0 ∷ rest) n
      ≡ some (store dest at (take n cs ++ 0 ∷ []), length (take n cs))
unfolding copy_ended
copy_ended-take dest at cs rest n text room =
    let inside : at + length (take n cs) < length (store dest at (take n cs)) =
      omega (arith, length-take n cs, length-store dest at (take n cs)) in
    rw
      (
        copy_ended,
        copy_loop-take dest at cs rest n text (omega arith),
        place-set (store dest at (take n cs)) (at + length (take n cs)) 0 inside,
        store-append dest at (take n cs) 0,
      )
      refl

-- With a size that is not 0, and as much room, strlcpy writes as much of a string as fits before a
-- zero, and the zero, and returns the length of the string.
pub strlcpy_cuts :
    (dest : List ℕ) (at : ℕ) (cs rest : List ℕ) (size : ℕ)
    → IsText cs
    → 0 < size
    → at + size ≤ length dest
    → strlcpy dest at (cs ++ 0 ∷ rest) size
      ≡ some (store dest at (take (size - 1) cs ++ 0 ∷ []), length cs)
unfolding strlcpy
strlcpy_cuts dest at cs rest size text some' room =
    rw
      (
        strlcpy,
        strlen-length cs rest text,
        lt→ltb 0 size some',
        copy_ended-take dest at cs rest (size - 1) text (omega arith),
      )
      refl

-- Behind a string that is shorter than the size, inside the buffer, strlcat writes as much of the
-- other as fits before a zero, and the zero, and returns the sum of the lengths.
pub strlcat_cuts :
    (front more cs rest : List ℕ) (size : ℕ)
    → IsText front
    → IsText cs
    → length front < size
    → size ≤ length (front ++ 0 ∷ more)
    → strlcat (front ++ 0 ∷ more) (cs ++ 0 ∷ rest) size
      ≡ some (
        store (front ++ 0 ∷ more) (length front) (take (size - length front - 1) cs ++ 0 ∷ []),
        length front + length cs,
      )
unfolding strlcat
strlcat_cuts front more cs rest size text text' above room =
    let dest = front ++ 0 ∷ more in
    let enough : leb size (length front) ≡ false = ground (arith, above) in
    rw
      (
        strlcat,
        strlen-length front more text,
        strlen-length cs rest text',
        enough,
        strlcpy_cuts dest (length front) cs rest (size - length front) text' (omega arith)
            (omega (arith, room)),
      )
      refl
