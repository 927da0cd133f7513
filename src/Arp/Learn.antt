-- ===== src/Arp/Learn.antt =====
-- arp_learn: the address is in the table afterwards, and in one entry only.
use netd_moduos.Common.{
  ℕ, ◌+◌, ◌-◌, ◌^◌, ◌≤◌, ◌<◌, ◌≡◌, ◌≢◌, refl, true, List, [], ◌∷◌, none, some, ltb, ==-refl,
  if◌then◌else◌, arith, length, Option-cases, inl, inr, length-set,
}
use netd_moduos.State.{Mac, ArpEntry}
use netd_moduos.Arp.Cache.{refresh, find_slot, learn}
use netd_moduos.Arp.Entries.{
  find_entry, holders, IsUnique, holders-eq-zero, holders-set-le, find_entry-set_new,
}

-- The record that arp_learn leaves for an address.
abbrev pub learned : ℕ → Mac → ℕ → ArpEntry
learned ip mac now = record { ip = ip; mac = mac; ts = now; valid = true }

-- The first loop finds nothing exactly when the address has no entry.
pub refresh-none :
    (ip now : ℕ) (mac : Mac) (es : List ArpEntry)
    → refresh ip mac now es ≡ none
    → find_entry ip es ≡ none
unfolding refresh find_entry
refresh-none ip now mac [] h = refl
refresh-none ip now mac (e ∷ es) h = ground (arith, refresh-none ip now mac es)

-- If it finds the address it updates that entry and no other.
refresh-length :
    (ip now : ℕ) (mac : Mac) (es es' : List ArpEntry)
    → refresh ip mac now es ≡ some es'
    → length es' ≡ length es
unfolding refresh
refresh-length ip now mac [] es' h = cc
refresh-length ip now mac (e ∷ es) es' h = elim (Option-cases (refresh ip mac now es)) [
  | inl none' ↦ ground arith
  | inr (rest, found') ↦ ground (arith, refresh-length ip now mac es rest found')
]

refresh-holders :
    (x ip now : ℕ) (mac : Mac) (es es' : List ArpEntry)
    → refresh ip mac now es ≡ some es'
    → holders x es' ≡ holders x es
unfolding refresh holders
refresh-holders x ip now mac [] es' h = cc
refresh-holders x ip now mac (e ∷ es) es' h = elim (Option-cases (refresh ip mac now es)) [
  | inl none' ↦ ground arith
  | inr (rest, found') ↦ ground (arith, refresh-holders x ip now mac es rest found')
]

refresh_self :
    (ip now : ℕ) (mac : Mac) (es es' : List ArpEntry)
    → refresh ip mac now es ≡ some es'
    → find_entry ip es' ≡ some (learned ip mac now)
unfolding refresh find_entry
refresh_self ip now mac [] es' h = cc
refresh_self ip now mac (e ∷ es) es' h = elim (Option-cases (refresh ip mac now es)) [
  | inl none' ↦ ground arith
  | inr (rest, found') ↦ ground (arith, refresh_self ip now mac es rest found')
]

pub refresh_other :
    (x ip now : ℕ) (mac : Mac) (es es' : List ArpEntry)
    → refresh ip mac now es ≡ some es'
    → x ≢ ip
    → find_entry x es' ≡ find_entry x es
unfolding refresh find_entry
refresh_other x ip now mac [] es' h ne = cc
refresh_other x ip now mac (e ∷ es) es' h ne = elim (Option-cases (refresh ip mac now es)) [
  | inl none' ↦ ground arith
  | inr (rest, found') ↦ ground (arith, refresh_other x ip now mac es rest found')
]

pub find_slot-lt :
    (i slot oldest n : ℕ) (es : List ArpEntry)
    → slot < n
    → i + length es ≤ n
    → find_slot i slot oldest es < n
unfolding find_slot
find_slot-lt i slot oldest n [] h fits = h
find_slot-lt i slot oldest n (e ∷ es) h fits = ground (
  arith,
  find_slot-lt (i + 1) (if ltb e.ts oldest then i else slot)
      (if ltb e.ts oldest then e.ts else oldest) n es,
)

-- After arp_learn a lookup of the address finds what was learned.
pub find_entry-learn :
    (ip now : ℕ) (mac : Mac) (cache : List ArpEntry)
    → 0 < length cache
    → find_entry ip (learn ip mac now cache) ≡ some (learned ip mac now)
unfolding learn
find_entry-learn ip now mac cache room = elim (Option-cases (refresh ip mac now cache)) [
  | inr (es', e) ↦ rw (e, learn) (refresh_self ip now mac cache es' e)
  | inl e ↦
      rw (e, learn)
        (find_entry-set_new ip (find_slot 0 0 (2 ^ 64 - 1) cache) (learned ip mac now) cache
          (refresh-none ip now mac cache e) (==-refl ip)
          (find_slot-lt 0 0 (2 ^ 64 - 1) (length cache) cache room (omega arith)))
]

-- The table keeps its size.
pub length-learn :
    (ip now : ℕ) (mac : Mac) (cache : List ArpEntry)
    → length (learn ip mac now cache) ≡ length cache
unfolding learn
length-learn ip now mac cache = elim (Option-cases (refresh ip mac now cache)) [
  | inr (es', e) ↦ rw (e, learn) (refresh-length ip now mac cache es' e)
  | inl e ↦ rw (e, learn) (length-set cache _ _)
]

-- arp_learn gives no address a second valid entry, if none had one before.
pub learn-IsUnique :
    (ip now : ℕ) (mac : Mac) (cache : List ArpEntry)
    → IsUnique cache
    → IsUnique (learn ip mac now cache)
unfolding learn
learn-IsUnique ip now mac cache unique x = elim (Option-cases (refresh ip mac now cache)) [
  | inr (es', e) ↦ rw (e, learn) (omega (arith, refresh-holders x ip now mac cache es' e, unique x))
  | inl e ↦
      rw (e, learn)
        (ground (
          arith,
          holders-set-le x (find_slot 0 0 (2 ^ 64 - 1) cache) (learned ip mac now) cache,
          holders-eq-zero ip cache (refresh-none ip now mac cache e),
          unique x,
        ))
]
