-- ===== src/Arp/Evict.antt =====
-- Which neighbour arp_learn forgets: nobody while an entry is free, and the oldest otherwise.
use netd_moduos.Common.{
  ℕ, zero, suc, ◌+◌, ◌-◌, ◌^◌, ◌≤◌, ◌<◌, ◌≡◌, ◌≢◌, ◌⊎◌, refl, true, false, List, [], ◌∷◌, none,
  some, ltb, ltb→lt, not-ltb→le, if◌then◌else◌, arith, set, get_elem?, Bool-cases, Option-cases,
  inl, inr, All,
}
use netd_moduos.State.{Mac, ArpEntry}
use netd_moduos.Arp.Cache.{holds, refresh, find_slot, learn}
use netd_moduos.Arp.Entries.{find_entry, find_entry-set_other}
use netd_moduos.Arp.Learn.{learned, refresh_other}

abbrev pub IsValid : ArpEntry → Type 0
IsValid e = e.valid ≡ true

-- An entry at an index that is not in use.
abbrev pub HasFree : List ArpEntry → Type 0
HasFree es = (j : ℕ) × (e : ArpEntry) × (get_elem? es j ≡ some e) × (e.valid ≡ false)

find_slot_free :
    (i slot oldest : ℕ) (es : List ArpEntry)
    → HasFree es
    → (j : ℕ) × (e : ArpEntry) × (find_slot i slot oldest es ≡ i + j)
      × (get_elem? es j ≡ some e)
      × (e.valid ≡ false)
unfolding find_slot
find_slot_free i slot oldest [] (j, e, at_j, free) = cc
find_slot_free i slot oldest (x ∷ es) (j, e, at_j, free) = elim (Bool-cases x.valid) [
  | inr off ↦ (0, x, rw (off, find_slot) (omega arith), refl, off)
  | inl on ↦
      let rest =
        find_slot_free (i + 1) (if ltb x.ts oldest then i else slot)
          (if ltb x.ts oldest then x.ts else oldest) es (later j at_j on) in
      (suc rest.0, rest.1, rw (on, find_slot) (omega (arith, rest.2)), rest.3, rest.4)
]
  where
    later : (n : ℕ) → get_elem? (x ∷ es) n ≡ some e → x.valid ≡ true → HasFree es
    later zero p on = cc (p, free)
    later (suc n) p on = (n, e, p, free)

-- What the search has found in a full table, after `i` entries with `oldest` at `slot`.
abbrev FoundOldest : ℕ → ℕ → ℕ → List ArpEntry → ℕ → Type 0
FoundOldest i slot oldest es k =
    ((k ≡ slot) × All (λ x. oldest ≤ x.ts) es)
    ⊎ ((j : ℕ) × (e : ArpEntry) × (k ≡ i + j)
        × (get_elem? es j ≡ some e)
        × (e.ts < oldest)
        × All (λ x. e.ts ≤ x.ts) es)

find_slot_full :
    (i slot oldest : ℕ) (es : List ArpEntry)
    → All IsValid es
    → FoundOldest i slot oldest es (find_slot i slot oldest es)
unfolding find_slot
find_slot_full i slot oldest [] full = inl (refl, tt)
find_slot_full i slot oldest (x ∷ es) full = elim (Bool-cases (ltb x.ts oldest)) [
  | inl older ↦
      let lt : x.ts < oldest = ltb→lt x.ts oldest older in
      elim (find_slot_full (i + 1) i x.ts es full.1) [
        | inl (at_slot, all) ↦ inr (
          0,
          x,
          rw (full.0, find_slot, older) (omega (arith, at_slot)),
          refl,
          lt,
          (omega arith, all),
        )
        | inr (j, e, at_j, is_e, less, all) ↦ inr (
          suc j,
          e,
          rw (full.0, find_slot, older) (omega (arith, at_j)),
          is_e,
          omega arith,
          (omega arith, all),
        )
      ]
  | inr newer ↦
      let le : oldest ≤ x.ts = not-ltb→le x.ts oldest newer in
      elim (find_slot_full (i + 1) slot oldest es full.1) [
        | inl (at_slot, all) ↦ inl (rw (full.0, find_slot, newer) at_slot, (le, all))
        | inr (j, e, at_j, is_e, less, all) ↦ inr (
          suc j,
          e,
          rw (full.0, find_slot, newer) (omega (arith, at_j)),
          is_e,
          less,
          (omega arith, all),
        )
      ]
]

not-holds_other : (x ip : ℕ) (e : ArpEntry) → x ≢ ip → e.ip ≡ ip → holds x e ≡ false
not-holds_other x ip e ne at_ip = ground arith

-- While the table has a free entry, learning an address changes what no other address resolves to.
pub find_entry-learn_other :
    (x ip now : ℕ) (mac : Mac) (cache : List ArpEntry)
    → x ≢ ip
    → HasFree cache
    → find_entry x (learn ip mac now cache) ≡ find_entry x cache
unfolding learn
find_entry-learn_other x ip now mac cache ne free = elim (Option-cases (refresh ip mac now cache)) [
  | inr (es', e) ↦ rw (e, learn) (refresh_other x ip now mac cache es' e ne)
  | inl e ↦
      let (j, old, is_slot, at_j, off) = find_slot_free 0 0 (2 ^ 64 - 1) cache free in
      let slot : find_slot 0 0 (2 ^ 64 - 1) cache ≡ j = omega (arith, is_slot) in
      rw (e, learn, slot)
        (find_entry-set_other x j (learned ip mac now) old cache at_j (ground arith)
          (not-holds_other x ip (learned ip mac now) ne refl))
]

refresh_absent :
    (ip now : ℕ) (mac : Mac) (es : List ArpEntry)
    → find_entry ip es ≡ none
    → refresh ip mac now es ≡ none
unfolding refresh find_entry
refresh_absent ip now mac [] h = refl
refresh_absent ip now mac (e ∷ es) h = ground (arith, refresh_absent ip now mac es)

-- In a full table, whose times are 64-bit numbers, an address that has no entry replaces an entry
-- whose time is the least.
pub learn_evicts_oldest :
    (ip now : ℕ) (mac : Mac) (first : ArpEntry) (rest : List ArpEntry)
    → All IsValid (first ∷ rest)
    → All (λ e. e.ts < 2 ^ 64) (first ∷ rest)
    → find_entry ip (first ∷ rest) ≡ none
    → (k : ℕ) × (victim : ArpEntry) × (get_elem? (first ∷ rest) k ≡ some victim)
      × All (λ e. victim.ts ≤ e.ts) (first ∷ rest)
      × (learn ip mac now (first ∷ rest) ≡ set (first ∷ rest) k (learned ip mac now))
unfolding learn
learn_evicts_oldest ip now mac first rest full times new =
    let e = refresh_absent ip now mac (first ∷ rest) new in
    elim (find_slot_full 0 0 (2 ^ 64 - 1) (first ∷ rest) full) [
      | inr (j, victim, at_j, is_victim, less, all) ↦
          let slot : find_slot 0 0 (2 ^ 64 - 1) (first ∷ rest) ≡ j = omega (arith, at_j) in
          (j, victim, is_victim, all, rw (e, learn, slot) refl)
      | inl (at_slot, all) ↦ (
        0,
        first,
        refl,
        (omega arith, at_top first (omega arith) rest all.1),
        rw (e, learn, at_slot) refl,
      )
    ]
  where
    at_top :
        (e : ArpEntry)
        → e.ts ≤ 2 ^ 64 - 1
        → (es : List ArpEntry) → All (λ x. 2 ^ 64 - 1 ≤ x.ts) es
        → All (λ x. e.ts ≤ x.ts) es
    at_top e top [] h = tt
    at_top e top (x ∷ es) h = (omega arith, at_top e top es h.1)
