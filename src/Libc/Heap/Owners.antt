-- ===== src/Libc/Heap/Owners.antt =====
-- How many chunks a byte of the heap belongs to, before and after the lists' operations.
use netd_moduos.Common.{
  ℕ, ◌+◌, ◌-◌, ◌%◌, ◌^◌, ◌≤◌, ◌<◌, ◌≡◌, refl, subst, ◌⊎◌, leb→le, true, ◌&&◌, List, [], ◌∷◌, some,
  ltb, leb, ◌==◌, ==_iff, if◌then◌else◌, All, Bool-cases, Option-cases, inl, inr, arith,
}
use netd_moduos.Libc.Heap.{
  Chunk, header_size, uheap_insert_free, uheap_remove_free, end_of, absorb, coalesce_from,
  uheap_coalesce, uheap_split_if_needed, first_fit, find_chunk,
}

-- 1 for a byte of the header or of the memory behind it, and 0 for others.
unfoldable pub within : ℕ → Chunk → ℕ
within a c = if leb c.at a && ltb a (c.at + header_size + c.size) then 1 else 0

unfoldable pub owners : ℕ → List Chunk → ℕ
owners a [] = 0
owners a (c ∷ cs) = within a c + owners a cs

-- The chunk ends before the end of the address space.
abbrev pub Fits : Chunk → Type 0
Fits c = c.at + header_size + c.size < 2 ^ 64

pub owners-insert :
    (a : ℕ) (b : Chunk) (cs : List Chunk)
    → owners a (uheap_insert_free b cs) ≡ within a b + owners a cs
unfolding uheap_insert_free owners
owners-insert a b [] = refl
owners-insert a b (c ∷ cs) = elim (Bool-cases (ltb c.at b.at)) [
  | inl before ↦ rw (before, owners) (omega (arith, owners-insert a b cs))
  | inr here ↦ rw here refl
]

pub insert-Fits :
    (b : Chunk) (cs : List Chunk) → Fits b → All Fits cs → All Fits (uheap_insert_free b cs)
unfolding uheap_insert_free
insert-Fits b [] fb fs = (fb, tt)
insert-Fits b (c ∷ cs) fb fs = elim (Bool-cases (ltb c.at b.at)) [
  | inl before ↦ rw before (fs.0, insert-Fits b cs fb fs.1)
  | inr here ↦ rw here (fb, fs)
]

-- Adjacent chunks own together what their union owns.
within-absorb :
    (a : ℕ) (c n : Chunk)
    → Fits c
    → Fits n
    → (end_of c == n.at) ≡ true
    → (within a (absorb c n) ≡ within a c + within a n) × Fits (absorb c n)
unfolding within
within-absorb a c n fc fn adjacent =
    let meet : c.at + header_size + c.size ≡ n.at =
      omega (arith, fc, (==_iff (end_of c) n.at).0 adjacent) in
    let size : (c.size + (header_size + n.size)) % 2 ^ 64 ≡ c.size + (header_size + n.size) =
      omega (arith, fn, meet) in
    (rw size (ground (arith, meet)), omega (arith, size, meet, fn))

pub owners-coalesce_from :
    (a : ℕ) (cur : Chunk) (cs : List Chunk)
    → Fits cur
    → All Fits cs
    → (owners a (coalesce_from cur cs) ≡ within a cur + owners a cs)
      × All Fits (coalesce_from cur cs)
unfolding coalesce_from owners
owners-coalesce_from a cur [] fc fs = (refl, (fc, tt))
owners-coalesce_from a cur (n ∷ rest) fc fs = elim (Bool-cases (end_of cur == n.at)) [
  | inl adjacent ↦
      let (sum, fits) = within-absorb a cur n fc fs.0 adjacent in
      let (same, fits') = owners-coalesce_from a (absorb cur n) rest fits fs.1 in
      rw adjacent (omega (arith, sum, same), fits')
  | inr apart ↦
      let (same, fits') = owners-coalesce_from a n rest fs.0 fs.1 in
      rw (apart, owners) (omega (arith, same), (fc, fits'))
]

pub owners-coalesce :
    (a : ℕ) (cs : List Chunk)
    → All Fits cs
    → (owners a (uheap_coalesce cs) ≡ owners a cs) × All Fits (uheap_coalesce cs)
unfolding uheap_coalesce owners
owners-coalesce a [] fs = (refl, tt)
owners-coalesce a (c ∷ cs) fs = owners-coalesce_from a c cs fs.0 fs.1

-- What a split leaves: the bytes are the same, and so is where the memory begins.
pub record Split (c : Chunk) (need : ℕ) (free_list : List Chunk) (s : Chunk × List Chunk)
    : Type 0 where
  pub same_bytes : (a : ℕ) → within a s.0 + owners a s.1 ≡ within a c + owners a free_list
  pub same_place : s.0.at ≡ c.at
  pub enough : need ≤ c.size → need ≤ s.0.size
  pub chunk_fits : Fits s.0
  pub list_fits : All Fits s.1

within-cut :
    (a at need size : ℕ)
    → need + header_size ≤ size
    → within a (record { at = at; size = need })
        + within a (record { at = at + header_size + need; size = size - need - header_size })
      ≡ within a (record { at = at; size = size })
unfolding within
within-cut a at need size h = ground arith

split_cases :
    (c : Chunk) (need : ℕ) (free_list : List Chunk)
    → (uheap_split_if_needed c need free_list ≡ (c, free_list))
      ⊎ ((need + 56 ≤ c.size)
          × (uheap_split_if_needed c need free_list ≡ (
            record c { size = need },
            uheap_insert_free
                (record { at = c.at + header_size + need; size = c.size - need - header_size })
                free_list,
          )))
unfolding uheap_split_if_needed
split_cases c need free_list = elim (Bool-cases (ltb need c.size)) [
  | inr small ↦ inl (rw small refl)
  | inl more ↦ elim (Bool-cases (ltb (c.size - need) (header_size + 32))) [
    | inl little ↦ inl (rw (more, little) refl)
    | inr room ↦ inr (ground (arith, more, room), rw (more, room) refl)
  ]
]

pub uheap_split_if_needed-Split :
    (c : Chunk) (need : ℕ) (free_list : List Chunk)
    → Fits c
    → All Fits free_list
    → Split c need free_list (uheap_split_if_needed c need free_list)
uheap_split_if_needed-Split c need free_list fc fs = elim (split_cases c need free_list) [
  | inl whole ↦ rw whole record {
    same_bytes = λ a. refl;
    same_place = refl;
    enough = λ h. h;
    chunk_fits = fc;
    list_fits = fs;
  }
  | inr (room, cut) ↦
      let b : Chunk = record {
        at = c.at + header_size + need;
        size = c.size - need - header_size;
      } in
      rw cut record {
        same_bytes = λ a. omega (
          arith,
          owners-insert a b free_list,
          within-cut a c.at need c.size (omega (arith, room)),
        );
        same_place = refl;
        enough = λ h. omega arith;
        chunk_fits = omega (arith, fc, room);
        list_fits = insert-Fits b free_list (omega (arith, fc, room)) fs;
      }
]

pub owners-first_fit :
    (a size : ℕ) (cs rest : List Chunk) (c : Chunk)
    → first_fit size cs ≡ some (c, rest)
    → All Fits cs
    → (owners a cs ≡ within a c + owners a rest) × (size ≤ c.size) × Fits c × All Fits rest
unfolding first_fit owners
owners-first_fit a size [] rest c e fs = cc
owners-first_fit a size (x ∷ xs) rest c e fs = elim (Bool-cases (leb size x.size)) [
  | inl hit ↦
      let same : (x, xs) ≡ (c, rest) = cc (rw (hit, first_fit) at e) in
      subst
        (λ (r : Chunk × List Chunk).
          (within a x + owners a xs ≡ within a r.0 + owners a r.1)
          × (size ≤ r.0.size)
          × Fits r.0
          × All Fits r.1)
        same (refl, leb→le size x.size hit, fs.0, fs.1)
  | inr miss ↦ elim (Option-cases (first_fit size xs)) [
    | inl none' ↦ cc (rw (miss, first_fit, none') at e)
    | inr ((c', rest'), found) ↦
        let (sum, big, fits, fits') = owners-first_fit a size xs rest' c' found fs.1 in
        let same : (c', x ∷ rest') ≡ (c, rest) = cc (rw (miss, first_fit, found) at e) in
        subst
          (λ (r : Chunk × List Chunk).
            (within a x + owners a xs ≡ within a r.0 + owners a r.1)
            × (size ≤ r.0.size)
            × Fits r.0
            × All Fits r.1)
          same (omega (arith, sum), big, fits, (fs.0, fits'))
  ]
]

pub owners-remove :
    (a at : ℕ) (cs : List Chunk) (c : Chunk)
    → find_chunk at cs ≡ some c
    → (c.at ≡ at) × (owners a cs ≡ within a c + owners a (uheap_remove_free at cs))
unfolding find_chunk uheap_remove_free owners
owners-remove a at [] c e = cc
owners-remove a at (x ∷ xs) c e = elim (Bool-cases (x.at == at)) [
  | inl here ↦
      let same : x ≡ c = cc (rw (here, find_chunk) at e) in
      rw here (
        subst (λ (d : Chunk). (d.at ≡ at) × (within a x + owners a xs ≡ within a d + owners a xs))
          same ((==_iff x.at at).0 here, refl))
  | inr other ↦
      let (place, sum) = owners-remove a at xs c (rw (other, find_chunk) at e) in
      rw (other, owners) (place, omega (arith, sum))
]

pub remove-Fits : (at : ℕ) (cs : List Chunk) → All Fits cs → All Fits (uheap_remove_free at cs)
unfolding uheap_remove_free
remove-Fits at [] fs = tt
remove-Fits at (x ∷ xs) fs = elim (Bool-cases (x.at == at)) [
  | inl here ↦ rw here fs.1
  | inr other ↦ rw other (fs.0, remove-Fits at xs fs.1)
]

pub find_chunk-Fits :
    (at : ℕ) (cs : List Chunk) (c : Chunk) → find_chunk at cs ≡ some c → All Fits cs → Fits c
unfolding find_chunk
find_chunk-Fits at [] c e fs = cc
find_chunk-Fits at (x ∷ xs) c e fs = elim (Bool-cases (x.at == at)) [
  | inl here ↦ let same : x ≡ c = cc (rw (here, find_chunk) at e) in subst Fits same fs.0
  | inr other ↦ find_chunk-Fits at xs c (rw (other, find_chunk) at e) fs.1
]
