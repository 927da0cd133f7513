-- ===== src/Libc/Heap/Reached.antt =====
-- The heaps that calls of malloc, free and realloc reach from the empty one.
use netd_moduos.Common.{
  Bool, not, ◌%◌, ℕ, ◌+◌, ◌-◌, ◌^◌, ◌≤◌, ◌≡◌, inl, inr, sym, subst, List, [], Option, some, ltb,
  leb, ◌==◌, All, Bool-cases, Option-cases, arith,
}
use netd_moduos.Libc.Heap.{
  Chunk, Heap, header_size, header_of, uheap_align, uheap_remove_free, end_of, malloc, find_chunk,
  free, Reallocated, given, freed_chunk, unmapped, combined, move_chunk, keep_chunk, expand_into,
  realloc,
}
use netd_moduos.Libc.Heap.Owners.{
  within, owners, Fits, uheap_split_if_needed-Split, owners-remove, remove-Fits, find_chunk-Fits,
}
use netd_moduos.Libc.Heap.Sound.{IsSound, IsFresh, malloc_cases, free-IsSound}

-- What holds of the result, where realloc has one.
unfoldable All-given : (Option ℕ × Heap → Type 0) → Reallocated → Type 0
All-given P (given r) = P r
All-given P freed_chunk = Unit
All-given P unmapped = Unit

keep_chunk-IsSound :
    (ptr new_sz : ℕ) (c : Chunk) (free_list others : List Chunk)
    → Fits c
    → All Fits free_list
    → All Fits others
    → ((a : ℕ) → within a c + owners a free_list + owners a others ≤ 1)
    → IsSound (keep_chunk ptr new_sz c free_list others).1
unfolding keep_chunk owners
keep_chunk-IsSound ptr new_sz c free_list others fc ff fo single =
    let s = uheap_split_if_needed-Split c new_sz free_list fc ff in
    record {
      free_fit = s.list_fits;
      used_fit = (s.chunk_fits, fo);
      single = λ a. omega (arith, s.same_bytes a, single a);
    }

malloc_keeps :
    (sbrk : ℕ → ℕ) (size : ℕ) (h : Heap)
    → IsSound h
    → IsFresh sbrk h
    → IsSound (malloc sbrk size h).1
malloc_keeps sbrk size h sound fresh = elim (malloc_cases sbrk size h sound fresh) [
  | inl refused ↦ rw refused sound
  | inr (c, p, u, big, s) ↦ s
]

move_chunk-IsSound :
    (sbrk : ℕ → ℕ) (ptr new_sz : ℕ) (h : Heap)
    → IsSound h
    → IsFresh sbrk h
    → IsSound (move_chunk sbrk ptr new_sz h).1
unfolding move_chunk
move_chunk-IsSound sbrk ptr new_sz h sound fresh =
    let kept = malloc_keeps sbrk new_sz h sound fresh in
    elim (Option-cases ((malloc sbrk new_sz h).0)) [
      | inl none' ↦ rw (move_chunk, none') kept
      | inr (n, moved) ↦ rw (move_chunk, moved) (free-IsSound ptr (malloc sbrk new_sz h).1 kept).0
    ]

-- A chunk that takes in the next one owns what both owned.
within-expand :
    (a : ℕ) (c n : Chunk)
    → Fits c
    → Fits n
    → n.at ≡ end_of c
    → within a (record c { size = combined c n }) ≡ within a c + within a n
unfolding within
within-expand a c n fc fn next =
    let meet : n.at ≡ c.at + header_size + c.size = omega (arith, fc, next) in
    let sum : combined c n ≡ c.size + header_size + n.size = omega (arith, fn, meet) in
    rw sum (ground (arith, meet))

expand_into-IsSound :
    (sbrk : ℕ → ℕ) (ptr new_sz : ℕ) (c n : Chunk) (h : Heap)
    → IsSound h
    → IsFresh sbrk h
    → find_chunk c.at h.used ≡ some c
    → find_chunk (end_of c) h.free_list ≡ some n
    → IsSound (expand_into sbrk ptr new_sz c n h).1
unfolding expand_into
expand_into-IsSound sbrk ptr new_sz c n h sound fresh held next =
    elim (Bool-cases (ltb ((2 ^ 64 + (2 ^ 64 - 1) - c.size - header_size) % 2 ^ 64) n.size)) [
      | inl wraps ↦ rw wraps sound
      | inr sums ↦ elim (Bool-cases (leb new_sz (combined c n))) [
        | inr short ↦ rw (sums, short) (move_chunk-IsSound sbrk ptr new_sz h sound fresh)
        | inl wide ↦
            let at_end = (owners-remove 0 (end_of c) h.free_list n next).0 in
            let fc = find_chunk-Fits c.at h.used c held sound.used_fit in
            let fn = find_chunk-Fits (end_of c) h.free_list n next sound.free_fit in
            rw (sums, wide)
              (keep_chunk-IsSound ptr new_sz (record c { size = combined c n })
                (uheap_remove_free n.at h.free_list) (uheap_remove_free c.at h.used)
                (omega (arith, fc, fn, at_end)) (remove-Fits n.at h.free_list sound.free_fit)
                (remove-Fits c.at h.used sound.used_fit)
                λ a. omega (
                  arith,
                  within-expand a c n fc fn at_end,
                  sound.single a,
                  (owners-remove a c.at h.used c held).1,
                  (owners-remove a n.at h.free_list n
                      (subst (λ x. find_chunk x h.free_list ≡ some n) (sym at_end) next)).1,
                ))
      ]
    ]

reallocated-IsSound :
    (sbrk : ℕ → ℕ) (mapped : ℕ → Bool) (ptr size : ℕ) (h : Heap)
    → IsSound h
    → IsFresh sbrk h
    → All-given (λ r. IsSound r.1) (realloc sbrk mapped ptr size h)
unfolding realloc All-given
reallocated-IsSound sbrk mapped ptr size h sound fresh = elim (Bool-cases (ptr == 0)) [
  | inl null ↦ rw null (malloc_keeps sbrk size h sound fresh)
  | inr some' ↦ elim (Bool-cases (size == 0)) [
    | inl nothing' ↦ rw (some', nothing') (free-IsSound ptr h sound).0
    | inr more ↦ elim (Option-cases (find_chunk (header_of ptr) h.used)) [
      | inl none' ↦ elim (Option-cases (find_chunk (header_of ptr) h.free_list)) [
        | inl none'' ↦ rw (some', more, none', none'') sound
        | inr (c, freed) ↦ rw (some', more, none', freed) tt
      ]
      | inr (c, held) ↦
          let place = (owners-remove 0 (header_of ptr) h.used c held).0 in
          let held' = subst (λ x. find_chunk x h.used ≡ some c) (sym place) held in
          elim (Bool-cases (leb (uheap_align size) c.size)) [
            | inl enough ↦
                rw (some', more, held, enough)
                  (keep_chunk-IsSound ptr (uheap_align size) c h.free_list
                    (uheap_remove_free c.at h.used)
                    (find_chunk-Fits c.at h.used c held' sound.used_fit) sound.free_fit
                    (remove-Fits c.at h.used sound.used_fit)
                    λ a. omega (arith, sound.single a, (owners-remove a c.at h.used c held').1))
            | inr short ↦ elim (Bool-cases (not (mapped (end_of c)))) [
              | inl outside ↦ rw (some', more, held, short, outside) tt
              | inr inside ↦ elim (Option-cases (find_chunk (end_of c) h.free_list)) [
                | inl none'' ↦
                    rw (some', more, held, short, inside, none'')
                      (move_chunk-IsSound sbrk ptr (uheap_align size) h sound fresh)
                | inr (n, next) ↦
                    rw (some', more, held, short, inside, next)
                      (expand_into-IsSound sbrk ptr (uheap_align size) c n h sound fresh held' next)
              ]
            ]
          ]
    ]
  ]
]

-- One call. The kernel's answers to it are `sbrk`.
pub data Step : Heap → Heap → Type 0 where
  allocates : (sbrk : ℕ → ℕ) (size : ℕ) {h : Heap} → IsFresh sbrk h → Step h (malloc sbrk size h).1
  frees : (ptr : ℕ) {h : Heap} → Step h (free ptr h)
  reallocates :
      (sbrk : ℕ → ℕ) (mapped : ℕ → Bool) (ptr size : ℕ) {h : Heap} {r : Option ℕ × Heap}
      → IsFresh sbrk h
      → realloc sbrk mapped ptr size h ≡ given r
      → Step h r.1

pub data Reached : Heap → Type 0 where
  empty : Reached (record { free_list = []; used = [] })
  then_calls : {h h' : Heap} → Reached h → Step h h' → Reached h'

Step-IsSound : {h h' : Heap} → Step h h' → IsSound h → IsSound h'
unfolding All-given
Step-IsSound (allocates sbrk size {h} fresh) sound = malloc_keeps sbrk size h sound fresh
Step-IsSound (frees ptr {h}) sound = (free-IsSound ptr h sound).0
Step-IsSound (reallocates sbrk mapped ptr size {h} {r} fresh result) sound =
    subst (All-given (λ r. IsSound r.1)) result
      (reallocated-IsSound sbrk mapped ptr size h sound fresh)

-- After any sequence of calls of malloc, free and realloc, with any sizes and pointers but for a
-- realloc of memory that is on the free list, no byte belongs to two chunks, free or in use, and
-- every chunk ends inside the address space, if the memory that the kernel gives is nobody's yet,
-- and no realloc looks for a header where the process has no memory.
pub Reached-IsSound : {h : Heap} → Reached h → IsSound h
unfolding owners
Reached-IsSound empty = record { free_fit = tt; used_fit = tt; single = λ a. omega arith }
Reached-IsSound (then_calls before step) = Step-IsSound step (Reached-IsSound before)
