-- ===== src/Arp/Lookup.antt =====
-- arp_lookup: a fresh entry is found, an old one is dropped, and what was learned can be looked up.
use netd_moduos.Common.{
  ℕ, suc, ◌+◌, ◌^◌, ◌≤◌, ◌<◌, ◌≡◌, refl, ap, sym, subst, lt→ltb, le→not-ltb, true, false, List, [],
  ◌∷◌, Option, none, some, arith, length, Bool-cases, inl, inr,
}
use netd_moduos.State.{Mac, ArpEntry, Sys, done, ◌>>◌}
use netd_moduos.Arp.Cache.{holds, is_fresh, learn, arp_learn, lookup_from, arp_lookup}
use netd_moduos.Arp.Entries.{find_entry, holders, IsUnique, find_entry-none}
use netd_moduos.Arp.Learn.{learned, find_entry-learn}

-- The state after the clock was read once more.
abbrev pub ticked : Sys → Sys
ticked s = record s { os = record (s.os) { clock_calls = suc s.os.clock_calls } }

-- What `time_ms()` returns next.
abbrev pub now_of : Sys → ℕ
now_of s = s.os.clock s.os.clock_calls

first_entry :
    (ip : ℕ) (e x : ArpEntry) (es : List ArpEntry)
    → find_entry ip (x ∷ es) ≡ some e
    → holds ip x ≡ true
    → x ≡ e
unfolding find_entry
first_entry ip e x es h hit = cc (rw (hit, find_entry) at h)

lookup_from_fresh :
    (ip : ℕ) (e : ArpEntry) (es : List ArpEntry) (s : Sys)
    → find_entry ip es ≡ some e
    → is_fresh (now_of s) e ≡ true
    → lookup_from ip es s ≡ done (some e.mac, es) (ticked s)
unfolding lookup_from find_entry
lookup_from_fresh ip e [] s h fresh = cc
lookup_from_fresh ip e (x ∷ es) s h fresh = elim (Bool-cases (holds ip x)) [
  | inl hit ↦
      let same : x ≡ e = first_entry ip e x es h hit in
      let fresh_x : is_fresh (now_of s) x ≡ true =
        subst (λ z. is_fresh (now_of s) z ≡ true) (sym same) fresh in
      rw (hit, lookup_from, fresh_x) (ap (λ z. done (some z.mac, x ∷ es) (ticked s)) same)
  | inr miss ↦
      rw (miss, lookup_from, lookup_from_fresh ip e es s (rw (miss, find_entry) at h) fresh) refl
]

pub lookup_from_absent :
    (ip : ℕ) (es : List ArpEntry) (s : Sys)
    → find_entry ip es ≡ none
    → lookup_from ip es s ≡ done (none, es) s
unfolding lookup_from find_entry
lookup_from_absent ip [] s h = refl
lookup_from_absent ip (x ∷ es) s h = elim (Bool-cases (holds ip x)) [
  | inl hit ↦ cc (rw (hit, find_entry) at h)
  | inr miss ↦ rw (miss, lookup_from, lookup_from_absent ip es s (rw (miss, find_entry) at h)) refl
]

lookup_from_stale :
    (ip : ℕ) (e : ArpEntry) (es : List ArpEntry) (s : Sys)
    → find_entry ip es ≡ some e
    → holders ip es ≤ 1
    → is_fresh (now_of s) e ≡ false
    → (es' : List ArpEntry) × (lookup_from ip es s ≡ done (none, es') (ticked s))
      × (find_entry ip es' ≡ none)
unfolding lookup_from find_entry holders
lookup_from_stale ip e [] s h one stale = cc
lookup_from_stale ip e (x ∷ es) s h one stale = elim (Bool-cases (holds ip x)) [
  | inl hit ↦
      let same : x ≡ e = first_entry ip e x es h hit in
      let stale_x : is_fresh (now_of s) x ≡ false =
        subst (λ z. is_fresh (now_of s) z ≡ false) (sym same) stale in
      let alone : find_entry ip es ≡ none = find_entry-none ip es (ground (arith, one)) in
      (
        record x { valid = false } ∷ es,
        rw (hit, lookup_from, stale_x, lookup_from_absent ip es (ticked s) alone) refl,
        alone,
      )
  | inr miss ↦
      let (es', e', gone) =
        lookup_from_stale ip e es s (rw (miss, find_entry) at h) (ground (arith, one)) stale in
      (x ∷ es', rw (miss, lookup_from, e') refl, rw (miss, find_entry) gone)
]

abbrev pub with_cache : List ArpEntry → Sys → Sys
with_cache cache s = record s { net = record (s.net) { arp_cache = cache } }

-- Right after arp_learn, in a table with any entries at all, arp_lookup gives the address that was
-- learned, if the clock has not gone back nor on by 30 seconds or past 64 bits; beside the table
-- that arp_learn leaves, nothing changes but the count of clock readings.
pub arp_lookup-arp_learn :
    (ip : ℕ) (mac : Mac) (s : Sys)
    → 0 < length s.net.arp_cache
    → now_of s ≤ now_of (ticked s)
    → now_of (ticked s) < now_of s + 30000
    → now_of (ticked s) < 2 ^ 64
    → (arp_learn ip mac >> arp_lookup ip) s
      ≡ done (some mac) (ticked (ticked (with_cache (learn ip mac (now_of s) s.net.arp_cache) s)))
unfolding arp_learn arp_lookup
arp_lookup-arp_learn ip mac s room later soon word =
    let there = find_entry-learn ip (now_of s) mac s.net.arp_cache room in
    let fresh : is_fresh (now_of (ticked s)) (learned ip mac (now_of s)) ≡ true =
      lt→ltb _ 30000 (omega arith) in
    rw
      (lookup_from_fresh ip (learned ip mac (now_of s)) (learn ip mac (now_of s) s.net.arp_cache)
        (ticked (with_cache (learn ip mac (now_of s) s.net.arp_cache) s)) there fresh)
      refl

-- In a table where no address has two valid entries, an entry that is 30 seconds old or older, by
-- a 64-bit clock, is not given out, and is gone from the table afterwards.
pub arp_lookup_expired :
    (ip : ℕ) (e : ArpEntry) (s : Sys)
    → IsUnique s.net.arp_cache
    → find_entry ip s.net.arp_cache ≡ some e
    → e.ts + 30000 ≤ now_of s
    → now_of s < 2 ^ 64
    → (cache : List ArpEntry) × (arp_lookup ip s ≡ done none (ticked (with_cache cache s)))
      × (find_entry ip cache ≡ none)
unfolding arp_lookup
arp_lookup_expired ip e s unique here old word =
    let stale : is_fresh (now_of s) e ≡ false = le→not-ltb _ 30000 (omega arith) in
    let (cache, run, gone) = lookup_from_stale ip e s.net.arp_cache s here (unique ip) stale in
    (cache, rw run refl, gone)

-- An address without an entry is not found, and nothing changes.
pub arp_lookup_unknown :
    (ip : ℕ) (s : Sys) → find_entry ip s.net.arp_cache ≡ none → arp_lookup ip s ≡ done none s
unfolding arp_lookup
arp_lookup_unknown ip s h = rw (lookup_from_absent ip s.net.arp_cache s h) refl

-- A fresh entry is given out, and only the clock was read.
pub arp_lookup_fresh :
    (ip : ℕ) (e : ArpEntry) (s : Sys)
    → find_entry ip s.net.arp_cache ≡ some e
    → is_fresh (now_of s) e ≡ true
    → arp_lookup ip s ≡ done (some e.mac) (ticked s)
unfolding arp_lookup
arp_lookup_fresh ip e s h fresh = rw (lookup_from_fresh ip e s.net.arp_cache s h fresh) refl

-- The state after arp_lookup: another table, and the clock read up to the `k`-th time.
abbrev pub looked : List ArpEntry → ℕ → Sys → Sys
looked cache k s = record s {
  net = record (s.net) { arp_cache = cache };
  os = record (s.os) { clock_calls = k };
}

lookup_from-done :
    (ip : ℕ) (es : List ArpEntry) (s : Sys)
    → (r : Option Mac × List ArpEntry) × (k : ℕ) × (lookup_from ip es s
        ≡ done r (record s { os = record (s.os) { clock_calls = k } }))
unfolding lookup_from
lookup_from-done ip [] s = ((none, []), s.os.clock_calls, refl)
lookup_from-done ip (x ∷ es) s = elim (Bool-cases (holds ip x)) [
  | inr miss ↦
      let (r, k, e) = lookup_from-done ip es s in
      ((r.0, x ∷ r.1), k, rw (miss, lookup_from, e) refl)
  | inl hit ↦ elim (Bool-cases (is_fresh (now_of s) x)) [
    | inl fresh ↦ ((some x.mac, x ∷ es), suc s.os.clock_calls, rw (hit, lookup_from, fresh) refl)
    | inr stale ↦
        let (r, k, e) = lookup_from-done ip es (ticked s) in
        ((r.0, record x { valid = false } ∷ r.1), k, rw (hit, lookup_from, stale, e) refl)
  ]
]

-- arp_lookup always returns, and touches only the table and the clock.
pub arp_lookup-done :
    (ip : ℕ) (s : Sys)
    → (r : Option Mac) × (cache : List ArpEntry) × (k : ℕ) × (arp_lookup ip s
        ≡ done r (looked cache k s))
unfolding arp_lookup
arp_lookup-done ip s =
    let (r, k, e) = lookup_from-done ip s.net.arp_cache s in (r.0, r.1, k, rw e refl)
