-- ===== src/Libc/Memory/Laws.antt =====
-- The loops do what the model of the daemon takes `memset` and `memcpy` for.
use netd_moduos.Common.{
  ℕ, zero, suc, ◌+◌, ◌%◌, ◌≤◌, ◌<◌, ◌≡◌, ◌≢◌, refl, List, [], ◌∷◌, ◌++◌, some, lt→ltb, length,
  length-set, get_elem?, set, take, drop, replicate, arith, All, ne→not-eq,
}
use netd_moduos.Wire.Memory.{store}
use netd_moduos.Wire.Cksum.Laws.{IsByte}
use netd_moduos.Libc.Memory.{put, memset, memcpy, strlen}

put-set : (buf : List ℕ) (i b : ℕ) → i < length buf → b < 256 → put buf i b ≡ some (set buf i b)
unfolding put
put-set buf i b inside small =
    let same : b % 256 ≡ b = omega arith in rw (lt→ltb i (length buf) inside, same) refl

-- Inside the buffer memset stores the byte `len` times in a row, and changes nothing else.
pub memset-store :
    (buf : List ℕ) (i b len : ℕ)
    → i + len ≤ length buf
    → b < 256
    → memset buf i b len ≡ some (store buf i (replicate len b))
unfolding memset
memset-store buf i b zero inside small = refl
memset-store buf i b (suc len) inside small =
    rw (memset, put-set buf i b (omega arith) small)
      (memset-store (set buf i b) (i + 1) b len (omega (arith, length-set buf i b)) small)

drop_step :
    (src : List ℕ) (j : ℕ)
    → j < length src
    → (b : ℕ) × (get_elem? src j ≡ some b) × (drop j src ≡ b ∷ drop (j + 1) src)
drop_step [] j inside = absurd (omega arith)
drop_step (x ∷ xs) zero inside = (x, refl, refl)
drop_step (x ∷ xs) (suc j) inside =
    let (b, e, e') = drop_step xs j (omega arith) in
    let next : suc j + 1 ≡ suc (j + 1) = omega arith in (b, e, rw next e')

get_elem?-IsByte : (xs : List ℕ) (i b : ℕ) → All IsByte xs → get_elem? xs i ≡ some b → b < 256
get_elem?-IsByte [] i b all e = cc
get_elem?-IsByte (x ∷ xs) zero b all e = ground arith
get_elem?-IsByte (x ∷ xs) (suc i) b all e = get_elem?-IsByte xs i b all.1 e

-- Inside both buffers memcpy, on a source of bytes, stores the `len` bytes from the index `j` on
-- at the index `i`, as the model of the daemon does, and changes nothing else.
pub memcpy-store :
    (dest : List ℕ) (i : ℕ) (src : List ℕ) (j len : ℕ)
    → All IsByte src
    → i + len ≤ length dest
    → j + len ≤ length src
    → memcpy dest i src j len ≡ some (store dest i (take len (drop j src)))
unfolding memcpy
memcpy-store dest i src j zero bytes inside inside' = refl
memcpy-store dest i src j (suc len) bytes inside inside' =
    let (b, e, e') = drop_step src j (omega arith) in
    rw (memcpy, e, e', put-set dest i b (omega arith) (get_elem?-IsByte src j b bytes e))
      (memcpy-store (set dest i b) (i + 1) src (j + 1) len bytes
        (omega (arith, length-set dest i b)) (omega arith))

-- strlen counts the characters before the first zero.
pub strlen-length :
    (s rest : List ℕ) → All (λ c. c ≢ 0) s → strlen (s ++ 0 ∷ rest) ≡ some (length s)
unfolding strlen
strlen-length [] rest text = refl
strlen-length (c ∷ cs) rest (more, text) = rw (ne→not-eq c 0 more, strlen-length cs rest text) refl
