-- ===== src/Libc/Heap.antt =====
-- malloc, free, calloc and realloc of include/libc.h: the layout of the heap. What the memory holds
-- is not modelled, but for the headers: a header whose `free` is 1 is one of `free_list`, in the
-- order of the links from `g_uheap_free` on, and one with UHEAP_MAGIC whose `free` is 0 is one of
-- `used`. Memory that is no header is taken not to hold UHEAP_MAGIC.
pub mod Owners
pub mod Sound
pub mod Reached
use netd_moduos.Common.{
  ℕ, ◌+◌, ◌-◌, ◌*◌, ◌/◌, ◌%◌, ◌^◌, Bool, true, false, ◌&&◌, ◌||◌, not, List, [], ◌∷◌, Option, none,
  some, ltb, leb, ◌==◌, if◌then◌else◌,
}

-- A header's address, and the size of the memory behind its 24 bytes.
pub record Chunk : Type 0 where
  pub at : ℕ
  pub size : ℕ

pub record Heap : Type 0 where
  pub free_list : List Chunk
  pub used : List Chunk

-- sizeof(uheap_hdr_t).
abbrev pub header_size : ℕ
header_size = 24

unfoldable pub uheap_align : ℕ → ℕ
uheap_align n = (n + 15) % 2 ^ 64 / 16 * 16

-- uheap_insert_free, in the order of addresses.
unfoldable pub uheap_insert_free : Chunk → List Chunk → List Chunk
uheap_insert_free b [] = b ∷ []
uheap_insert_free b (c ∷ cs) = if ltb c.at b.at then c ∷ uheap_insert_free b cs else b ∷ c ∷ cs

-- uheap_remove_free, and the removal of a used header from `used`.
unfoldable pub uheap_remove_free : ℕ → List Chunk → List Chunk
uheap_remove_free at [] = []
uheap_remove_free at (c ∷ cs) =
    let rest = uheap_remove_free at cs in if c.at == at then cs else c ∷ rest

-- `(uint8_t*)(c + 1) + c->size`.
abbrev pub end_of : Chunk → ℕ
end_of c = (c.at + header_size + c.size) % 2 ^ 64

abbrev pub absorb : Chunk → Chunk → Chunk
absorb c n = record c { size = (c.size + (header_size + n.size)) % 2 ^ 64 }

-- The loop of uheap_coalesce, which stands on `cur`.
unfoldable pub coalesce_from : Chunk → List Chunk → List Chunk
coalesce_from cur [] = cur ∷ []
coalesce_from cur (n ∷ rest) =
    let merged = coalesce_from (absorb cur n) rest in
    let on = coalesce_from n rest in if end_of cur == n.at then merged else cur ∷ on

unfoldable pub uheap_coalesce : List Chunk → List Chunk
uheap_coalesce [] = []
uheap_coalesce (c ∷ cs) = coalesce_from c cs

-- `!mem || (intptr_t)mem < 0`.
abbrev pub is_refused : ℕ → Bool
is_refused mem = (mem == 0) || leb (2 ^ 63) mem

-- uheap_request_from_kernel; `sbrk` is the kernel's answer to this call.
unfoldable pub uheap_request_from_kernel : (ℕ → ℕ) → ℕ → Option Chunk
uheap_request_from_kernel sbrk payload =
    let total = uheap_align ((header_size + payload) % 2 ^ 64) in
    if ltb (2 ^ 64 - 1 - header_size) payload
    then none
    else if ltb total payload
    then none
    else if is_refused (sbrk total)
    then none
    else some (record { at = sbrk total; size = total - header_size })

-- uheap_split_if_needed: the header, and the free list.
unfoldable pub uheap_split_if_needed : Chunk → ℕ → List Chunk → Chunk × List Chunk
uheap_split_if_needed h need free_list =
    let remain = if ltb need h.size then h.size - need else 0 in
    if ltb remain (header_size + 32) then (h, free_list) else (
      record h { size = need },
      uheap_insert_free (record { at = h.at + header_size + need; size = remain - header_size })
          free_list,
    )

-- The first-fit loop of malloc: the chunk that is taken, and the list without it.
unfoldable pub first_fit : ℕ → List Chunk → Option (Chunk × List Chunk)
first_fit size [] = none
first_fit size (c ∷ cs) =
    let rest = first_fit size cs in
    if leb size c.size
    then some (c, cs)
    else elim rest [ none ↦ none | some r ↦ some (r.0, c ∷ r.1) ]

-- The end of malloc on a chunk that is on no list: it is split, and its payload is the result.
unfoldable pub hand_out : ℕ → Chunk → List Chunk → Heap → Option ℕ × Heap
hand_out size c free_list h =
    let s = uheap_split_if_needed c size free_list in
    (some (c.at + header_size), record { free_list = s.1; used = s.0 ∷ h.used })

unfoldable pub malloc : (ℕ → ℕ) → ℕ → Heap → Option ℕ × Heap
malloc sbrk size h =
    let size' = uheap_align size in
    if size == 0 then (none, h) else elim (first_fit size' h.free_list) [
      | some r ↦ hand_out size' r.0 r.1 h
      | none ↦ elim (uheap_request_from_kernel sbrk size') [
        | none ↦ (none, h)
        | some c ↦ hand_out size' c h.free_list h
      ]
    ]

-- The header at an address.
unfoldable pub find_chunk : ℕ → List Chunk → Option Chunk
find_chunk at [] = none
find_chunk at (c ∷ cs) = let rest = find_chunk at cs in if c.at == at then some c else rest

-- `((uheap_hdr_t*)ptr) - 1`.
abbrev pub header_of : ℕ → ℕ
header_of ptr = (ptr + (2 ^ 64 - header_size)) % 2 ^ 64

-- free; a pointer that no chunk in use stands behind is ignored.
unfoldable pub free : ℕ → Heap → Heap
free ptr h = if ptr == 0 then h else elim (find_chunk (header_of ptr) h.used) [
  | none ↦ h
  | some c ↦ record {
    free_list = uheap_coalesce (uheap_insert_free c h.free_list);
    used = uheap_remove_free c.at h.used;
  }
]

-- calloc; its `memset` changes no header.
unfoldable pub calloc : (ℕ → ℕ) → ℕ → ℕ → Heap → Option ℕ × Heap
calloc sbrk nmemb size h =
    if ltb 0 nmemb && ltb ((2 ^ 64 - 1) / nmemb) size
    then (none, h)
    else malloc sbrk (nmemb * size) h

-- `freed_chunk` is a pointer to memory on the free list, whose header would be changed there, and
-- `unmapped` the read of a header behind the chunk, where the process has no memory.
pub data Reallocated : Type 0 where
  given : Option ℕ × Heap → Reallocated
  freed_chunk unmapped : Reallocated

-- The end of realloc: new memory, a copy of what the old holds, and the old is freed.
unfoldable pub move_chunk : (ℕ → ℕ) → ℕ → ℕ → Heap → Option ℕ × Heap
move_chunk sbrk ptr new_sz h =
    let r = malloc sbrk new_sz h in
    elim (r.0) [ none ↦ (none, r.1) | some n ↦ (some n, free ptr r.1) ]

-- realloc on a chunk in use, which it leaves where it is, with the lists `free_list` and `others`.
unfoldable pub keep_chunk : ℕ → ℕ → Chunk → List Chunk → List Chunk → Option ℕ × Heap
keep_chunk ptr new_sz c free_list others =
    let s = uheap_split_if_needed c new_sz free_list in
    (some ptr, record { free_list = s.1; used = s.0 ∷ others })

abbrev pub combined : Chunk → Chunk → ℕ
combined c n = (c.size + header_size + n.size) % 2 ^ 64

-- The attempt to expand into the chunk `n`, which is free and begins where `c` ends.
unfoldable pub expand_into : (ℕ → ℕ) → ℕ → ℕ → Chunk → Chunk → Heap → Option ℕ × Heap
expand_into sbrk ptr new_sz c n h =
    if ltb ((2 ^ 64 + (2 ^ 64 - 1) - c.size - header_size) % 2 ^ 64) n.size
    then (none, h)
    else if leb new_sz (combined c n)
    then keep_chunk ptr new_sz (record c { size = combined c n })
        (uheap_remove_free n.at h.free_list) (uheap_remove_free c.at h.used)
    else move_chunk sbrk ptr new_sz h

-- realloc; `mapped` says at which addresses a header can be read.
unfoldable pub realloc : (ℕ → ℕ) → (ℕ → Bool) → ℕ → ℕ → Heap → Reallocated
realloc sbrk mapped ptr size h =
    let new_sz = uheap_align size in
    if ptr == 0
    then given (malloc sbrk size h)
    else if size == 0
    then given (none, free ptr h)
    else elim (find_chunk (header_of ptr) h.used) [
      | none ↦ elim (find_chunk (header_of ptr) h.free_list) [
        | none ↦ given (none, h)
        | some c ↦ freed_chunk
      ]
      | some c ↦
          if leb new_sz c.size
          then given (keep_chunk ptr new_sz c h.free_list (uheap_remove_free c.at h.used))
          else if not (mapped (end_of c))
          then unmapped
          else elim (find_chunk (end_of c) h.free_list) [
            | none ↦ given (move_chunk sbrk ptr new_sz h)
            | some n ↦ given (expand_into sbrk ptr new_sz c n h)
          ]
    ]
