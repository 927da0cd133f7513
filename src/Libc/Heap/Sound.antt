-- ===== src/Libc/Heap/Sound.antt =====
-- The owners of the bytes of a heap, before and after malloc and free.
use netd_moduos.Common.{
  ℕ, ◌+◌, ◌-◌, ◌%◌, ◌^◌, ◌≤◌, ◌<◌, ◌≡◌, ◌⊎◌, inl, inr, refl, ap, ◌∙◌, subst, false, ◌&&◌, List, ◌∷◌,
  Option, none, some, ltb, leb, ◌==◌, All, Bool-cases, Option-cases, not-ltb→le, arith,
}
use netd_moduos.Libc.Heap.{
  Chunk, Heap, header_size, uheap_align, uheap_insert_free, uheap_remove_free, uheap_coalesce,
  is_refused, uheap_request_from_kernel, uheap_split_if_needed, first_fit, hand_out, malloc,
  find_chunk, header_of, free,
}
use netd_moduos.Libc.Heap.Owners.{
  within, owners, Fits, owners-insert, insert-Fits, owners-coalesce, uheap_split_if_needed-Split,
  owners-first_fit, owners-remove, remove-Fits, find_chunk-Fits,
}

-- The chunks, free or in use, that a byte belongs to.
abbrev pub owners_in : ℕ → Heap → ℕ
owners_in a h = owners a h.free_list + owners a h.used

pub record IsSound (h : Heap) : Type 0 where
  pub free_fit : All Fits h.free_list
  pub used_fit : All Fits h.used
  pub single : (a : ℕ) → owners_in a h ≤ 1

-- Memory that the kernel gives is nobody's, and ends before the end of the address space.
pub record IsFresh (sbrk : ℕ → ℕ) (h : Heap) : Type 0 where
  pub ends : (total : ℕ) → is_refused (sbrk total) ≡ false → sbrk total + total < 2 ^ 64
  pub unowned :
      (total a : ℕ)
      → is_refused (sbrk total) ≡ false
      → sbrk total ≤ a
      → a < sbrk total + total
      → owners_in a h ≡ 0

-- The memory at `c`, of at least `size` bytes, is handed out.
abbrev pub Hands : ℕ → Heap → Option ℕ × Heap → Type 0
Hands size h r =
    (c : Chunk) × (r.0 ≡ some (c.at + header_size))
    × (r.1.used ≡ c ∷ h.used)
    × (size ≤ c.size)
    × IsSound r.1

within_cases :
    (a : ℕ) (c : Chunk)
    → (within a c ≡ 0) ⊎ ((within a c ≡ 1) × (c.at ≤ a) × (a < c.at + header_size + c.size))
unfolding within
within_cases a c = elim (Bool-cases (leb c.at a && ltb a (c.at + header_size + c.size))) [
  | inl inside ↦ inr (rw inside refl, ground (arith, inside), ground (arith, inside))
  | inr outside ↦ inl (rw outside refl)
]

hand_out-Hands :
    (size : ℕ) (c : Chunk) (free_list : List Chunk) (h : Heap)
    → Fits c
    → All Fits free_list
    → All Fits h.used
    → size ≤ c.size
    → ((a : ℕ) → within a c + owners a free_list + owners a h.used ≤ 1)
    → Hands size h (hand_out size c free_list h)
unfolding hand_out owners
hand_out-Hands size c free_list h fc fs fu big single =
    let s = uheap_split_if_needed-Split c size free_list fc fs in
    (
      (uheap_split_if_needed c size free_list).0,
      rw (s.same_place) refl,
      refl,
      s.enough big,
      record {
        free_fit = s.list_fits;
        used_fit = (s.chunk_fits, fu);
        single = λ a. omega (arith, s.same_bytes a, single a);
      },
    )

room_for_header :
    (payload : ℕ)
    → ltb (2 ^ 64 - 1 - header_size) payload ≡ false
    → ltb (uheap_align ((header_size + payload) % 2 ^ 64)) payload ≡ false
    → payload + header_size ≤ uheap_align ((header_size + payload) % 2 ^ 64)
unfolding uheap_align
room_for_header payload small enough = omega (
  arith,
  not-ltb→le (2 ^ 64 - 1 - header_size) payload small,
  not-ltb→le (uheap_align ((header_size + payload) % 2 ^ 64)) payload enough,
)

-- A new chunk of at least `payload` bytes and the heap have no byte in common.
new_chunk :
    (sbrk : ℕ → ℕ) (payload total : ℕ) (h : Heap)
    → IsFresh sbrk h
    → IsSound h
    → is_refused (sbrk total) ≡ false
    → payload + header_size ≤ total
    → let c : Chunk = record { at = sbrk total; size = total - header_size } in
      Fits c × (payload ≤ c.size) × ((a : ℕ) → within a c + owners_in a h ≤ 1)
new_chunk sbrk payload total h fresh sound given' room =
    let ends = fresh.ends total given' in
    (
      omega (arith, ends, room),
      omega (arith, room),
      λ a. elim (within_cases a (record { at = sbrk total; size = total - header_size })) [
        | inl apart ↦ omega (arith, apart, sound.single a)
        | inr (own, low, high) ↦
            omega (arith, own, fresh.unowned total a given' low (omega (arith, high, room)))
      ],
    )

request-Fits :
    (sbrk : ℕ → ℕ) (payload : ℕ) (c : Chunk) (h : Heap)
    → IsFresh sbrk h
    → IsSound h
    → uheap_request_from_kernel sbrk payload ≡ some c
    → Fits c × (payload ≤ c.size) × ((a : ℕ) → within a c + owners_in a h ≤ 1)
unfolding uheap_request_from_kernel
request-Fits sbrk payload c h fresh sound e =
    elim (Bool-cases (ltb (2 ^ 64 - 1 - header_size) payload)) [
      | inl big ↦ cc (rw big at e)
      | inr small ↦
          elim (Bool-cases (ltb (uheap_align ((header_size + payload) % 2 ^ 64)) payload)) [
            | inl wrapped ↦ cc (rw (small, wrapped) at e)
            | inr enough ↦
                elim (Bool-cases
                  (is_refused (sbrk (uheap_align ((header_size + payload) % 2 ^ 64))))) [
                    | inl refused ↦ cc (rw (small, enough, refused) at e)
                    | inr given' ↦
                        let total = uheap_align ((header_size + payload) % 2 ^ 64) in
                        let same : record { at = sbrk total; size = total - header_size } ≡ c =
                          cc (rw (small, enough, given') at e) in
                        subst
                          (λ (c : Chunk).
                            Fits c
                            × (payload ≤ c.size)
                            × ((a : ℕ) → within a c + owners_in a h ≤ 1))
                          same
                          (new_chunk sbrk payload total h fresh sound given'
                            (room_for_header payload small enough))
                  ]
          ]
    ]

pub malloc_cases :
    (sbrk : ℕ → ℕ) (size : ℕ) (h : Heap)
    → IsSound h
    → IsFresh sbrk h
    → (malloc sbrk size h ≡ (none, h)) ⊎ Hands (uheap_align size) h (malloc sbrk size h)
unfolding malloc
malloc_cases sbrk size h sound fresh = elim (Bool-cases (size == 0)) [
  | inl nothing' ↦ inl (rw nothing' refl)
  | inr some' ↦ elim (Option-cases (first_fit (uheap_align size) h.free_list)) [
    | inr ((c, rest), found) ↦
        let first = λ (a : ℕ).
          owners-first_fit a (uheap_align size) h.free_list rest c found sound.free_fit in
        let (sum, big, fits, fits') = first 0 in
        rw (some', malloc, found)
          (inr (
            hand_out-Hands (uheap_align size) c rest h fits fits' sound.used_fit big
              λ a. omega (arith, (first a).0, sound.single a)))
    | inl none' ↦ elim (Option-cases (uheap_request_from_kernel sbrk (uheap_align size))) [
      | inl refused ↦ inl (rw (some', malloc, none', refused) refl)
      | inr (c, grown) ↦
          let (fits, big, single) = request-Fits sbrk (uheap_align size) c h fresh sound grown in
          rw (some', malloc, none', grown)
            (inr (
              hand_out-Hands (uheap_align size) c h.free_list h fits sound.free_fit sound.used_fit
                big λ a. omega (arith, single a)))
    ]
  ]
]

uheap_align-le : (size : ℕ) → size ≤ 2 ^ 64 - 16 → size ≤ uheap_align size
unfolding uheap_align
uheap_align-le size h = omega (arith, h)

-- On a sound heap, in which no byte has two owners, and with fresh memory from the kernel, malloc
-- of at most 2^64 - 16 bytes fails and changes nothing, or hands out the memory behind the header
-- of one more chunk in use, of at least that size, and leaves a sound heap.
pub malloc-IsSound :
    (sbrk : ℕ → ℕ) (size : ℕ) (h : Heap)
    → IsSound h
    → IsFresh sbrk h
    → size ≤ 2 ^ 64 - 16
    → (malloc sbrk size h ≡ (none, h)) ⊎ Hands size h (malloc sbrk size h)
malloc-IsSound sbrk size h sound fresh small = elim (malloc_cases sbrk size h sound fresh) [
  | inl refused ↦ inl refused
  | inr (c, p, u, big, s) ↦ inr (c, p, u, omega (arith, big, uheap_align-le size small), s)
]

-- free of any pointer keeps a sound heap sound, and gives no byte away: each has as many owners as
-- before.
pub free-IsSound :
    (ptr : ℕ) (h : Heap)
    → IsSound h
    → IsSound (free ptr h) × ((a : ℕ) → owners_in a (free ptr h) ≡ owners_in a h)
unfolding free owners
free-IsSound ptr h sound = elim (Bool-cases (ptr == 0)) [
  | inl null ↦ rw null (sound, λ a. refl)
  | inr some' ↦ elim (Option-cases (find_chunk (header_of ptr) h.used)) [
    | inl none' ↦ rw (some', free, none') (sound, λ a. refl)
    | inr (c, found) ↦
        let fits = find_chunk-Fits (header_of ptr) h.used c found sound.used_fit in
        let listed = insert-Fits c h.free_list fits sound.free_fit in
        let merged = λ (a : ℕ). owners-coalesce a (uheap_insert_free c h.free_list) listed in
        let taken = λ (a : ℕ). owners-remove a (header_of ptr) h.used c found in
        let place = (taken 0).0 in
        let same : (a : ℕ)
            → owners a (uheap_coalesce (uheap_insert_free c h.free_list))
                + owners a (uheap_remove_free c.at h.used)
              ≡ owners_in a h =
          λ a.
            ap
              (λ n.
                owners a (uheap_coalesce (uheap_insert_free c h.free_list))
                + owners a (uheap_remove_free n h.used))
              place
            ∙ omega (arith, (merged a).0, owners-insert a c h.free_list, (taken a).1) in
        rw (some', free, found)
          (
            record {
              free_fit = (merged 0).1;
              used_fit = remove-Fits c.at h.used sound.used_fit;
              single = λ a. rw (same a) (sound.single a);
            },
            same,
          )
  ]
]
