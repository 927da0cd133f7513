-- ===== src/Examples/Heap.antt =====
-- The heap of include/libc.h on concrete calls.
use netd_moduos.Common.{
  Bool, ℕ, ◌^◌, ◌≡◌, ◌⊎◌, refl, true, false, [], ◌∷◌, Option, none, some, ltb, if◌then◌else◌,
  Bool-cases, inl, inr, ltb→lt, arith,
}
use netd_moduos.Libc.Heap.{
  Heap, is_refused, malloc, free, realloc, given, uheap_align, find_chunk, first_fit, hand_out,
  uheap_request_from_kernel, uheap_split_if_needed, keep_chunk, uheap_insert_free,
  uheap_remove_free,
}
use netd_moduos.Libc.Heap.Owners.{owners}
use netd_moduos.Libc.Heap.Sound.{IsSound, IsFresh, Hands, malloc-IsSound}
use netd_moduos.Libc.Heap.Reached.{
  empty, then_calls, allocates, frees, reallocates, Reached-IsSound,
}

abbrev no_heap : Heap
no_heap = record { free_list = []; used = [] }

-- A kernel that gives less than 2^32 bytes at 65536, and one that gives nothing.
abbrev grants : ℕ → ℕ
grants total = if ltb total (2 ^ 32) then 65536 else 0

abbrev grants_nothing : ℕ → ℕ
grants_nothing total = 0

granted :
    (total : ℕ)
    → is_refused (grants total) ≡ false
    → (grants total ≡ 65536) × (ltb total (2 ^ 32) ≡ true)
granted total h = elim (Bool-cases (ltb total (2 ^ 32))) [
  | inl small ↦ (rw small refl, small)
  | inr large ↦ cc (rw large at h)
]

grants-IsFresh : IsFresh grants no_heap
unfolding owners
grants-IsFresh = record {
  ends = λ total h.
      let (at, small) = granted total h in omega (arith, at, ltb→lt total (2 ^ 32) small);
  unowned = λ total a h low high. refl;
}

grants_nothing-IsFresh : (h : Heap) → IsFresh grants_nothing h
grants_nothing-IsFresh h = record { ends = λ total e. cc; unowned = λ total a e low high. cc }

abbrev everywhere : ℕ → Bool
everywhere at = true

abbrev one_chunk : Heap
one_chunk = (malloc grants 100 no_heap).1

malloc-IsSound_example :
    (malloc grants 100 no_heap ≡ (none, no_heap)) ⊎ Hands 100 no_heap (malloc grants 100 no_heap)
malloc-IsSound_example =
    malloc-IsSound grants 100 no_heap (Reached-IsSound empty) grants-IsFresh (omega arith)

malloc_gives : (malloc grants 100 no_heap).0 ≡ some 65560
unfolding malloc uheap_align first_fit uheap_request_from_kernel hand_out
malloc_gives = refl

abbrev reallocated : Option ℕ × Heap
reallocated = (
  some 65560,
  record {
    free_list = record { at = 65608; size = 48 } ∷ [];
    used = record { at = 65536; size = 48 } ∷ [];
  },
)

shrinks : realloc grants_nothing everywhere 65560 40 one_chunk ≡ given reallocated
unfolding malloc uheap_align realloc find_chunk first_fit hand_out uheap_request_from_kernel
    uheap_split_if_needed keep_chunk uheap_insert_free uheap_remove_free
shrinks = refl

Reached-IsSound_example : IsSound (free 65560 reallocated.1)
Reached-IsSound_example = Reached-IsSound (
    then_calls
      (then_calls (then_calls empty (allocates grants 100 grants-IsFresh))
        (reallocates grants_nothing everywhere 65560 40 (grants_nothing-IsFresh one_chunk) shrinks))
      (frees 65560))
