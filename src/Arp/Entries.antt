-- ===== src/Arp/Entries.antt =====
-- The table of arp.c seen as a map: the entry that an address has, and how many it has.
use netd_moduos.Common.{
  ℕ, zero, suc, ◌+◌, ◌≤◌, ◌<◌, ◌≡◌, refl, true, false, List, [], ◌∷◌, Option, none, some,
  if◌then◌else◌, arith, length, set, get_elem?, Bool-cases, inl, inr,
}
use netd_moduos.State.{ArpEntry}
use netd_moduos.Arp.Cache.{holds}

-- The first valid entry for an address.
unfoldable pub find_entry : ℕ → List ArpEntry → Option ArpEntry
find_entry ip [] = none
find_entry ip (e ∷ es) = let rest = find_entry ip es in if holds ip e then some e else rest

unfoldable pub holders : ℕ → List ArpEntry → ℕ
holders ip [] = 0
holders ip (e ∷ es) = (if holds ip e then 1 else 0) + holders ip es

-- No address has two valid entries.
abbrev pub IsUnique : List ArpEntry → Type 0
IsUnique cache = (ip : ℕ) → holders ip cache ≤ 1

pub holders-eq-zero : (ip : ℕ) (es : List ArpEntry) → find_entry ip es ≡ none → holders ip es ≡ 0
unfolding find_entry holders
holders-eq-zero ip [] h = refl
holders-eq-zero ip (e ∷ es) h = ground (arith, holders-eq-zero ip es)

pub find_entry-none : (ip : ℕ) (es : List ArpEntry) → holders ip es ≡ 0 → find_entry ip es ≡ none
unfolding find_entry holders
find_entry-none ip [] h = refl
find_entry-none ip (e ∷ es) h = ground (arith, find_entry-none ip es)

pub holders-set-le :
    (ip k : ℕ) (e : ArpEntry) (es : List ArpEntry)
    → holders ip (set es k e) ≤ (if holds ip e then 1 else 0) + holders ip es
unfolding holders
holders-set-le ip k e [] = omega arith
holders-set-le ip zero e (x ∷ es) = omega arith
holders-set-le ip (suc k) e (x ∷ es) = omega (arith, holders-set-le ip k e es)

pub find_entry-set_new :
    (ip k : ℕ) (e : ArpEntry) (es : List ArpEntry)
    → find_entry ip es ≡ none
    → holds ip e ≡ true
    → k < length es
    → find_entry ip (set es k e) ≡ some e
unfolding find_entry
find_entry-set_new ip k e [] h new lt = absurd (omega arith)
find_entry-set_new ip zero e (x ∷ es) h new lt = rw new refl
find_entry-set_new ip (suc k) e (x ∷ es) h new lt = elim (Bool-cases (holds ip x)) [
  | inl hit ↦ absurd (cc (rw (hit, find_entry) at h))
  | inr miss ↦
      rw (miss, find_entry)
        (find_entry-set_new ip k e es (rw (miss, find_entry) at h) new (omega arith))
]

-- A write changes the entry of no address that neither the old nor the new record is for.
pub find_entry-set_other :
    (ip k : ℕ) (e old : ArpEntry) (es : List ArpEntry)
    → get_elem? es k ≡ some old
    → holds ip old ≡ false
    → holds ip e ≡ false
    → find_entry ip (set es k e) ≡ find_entry ip es
unfolding find_entry
find_entry-set_other ip k e old [] at_k a b = refl
find_entry-set_other ip zero e old (x ∷ es) at_k a b = ground arith
find_entry-set_other ip (suc k) e old (x ∷ es) at_k a b =
    ground (arith, find_entry-set_other ip k e old es)
