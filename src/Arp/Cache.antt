-- ===== src/Arp/Cache.antt =====
-- arp_init, arp_learn and arp_lookup: the table of `arp_cache_size` entries.
use netd_moduos.Common.{
  ℕ, ◌+◌, ◌-◌, ◌%◌, ◌^◌, Bool, true, false, ◌&&◌, List, [], ◌∷◌, Option, none, some, ltb, ◌==◌,
  if◌then◌else◌, set, replicate,
}
use netd_moduos.Wire.Constants.{arp_timeout_ms}
use netd_moduos.State.{Mac, ArpEntry, zero_arp_entry, M, pure, gets, modify, time_ms, ◌>>=◌, ◌>>◌}

-- The table with every byte zero, as `memset` leaves it.
unfoldable pub empty_cache : List ArpEntry
empty_cache = replicate 16 zero_arp_entry

unfoldable pub arp_init : M (Unit {0})
arp_init = modify (λ n. record n { arp_cache = empty_cache })

-- `e.valid && e.ip == ip`.
abbrev pub holds : ℕ → ArpEntry → Bool
holds ip e = e.valid && (e.ip == ip)

-- The first loop of arp_learn: `none` if no entry is for `ip`.
unfoldable pub refresh : ℕ → Mac → ℕ → List ArpEntry → Option (List ArpEntry)
refresh ip mac now [] = none
refresh ip mac now (e ∷ es) =
    let rest = refresh ip mac now es in
    if holds ip e
    then some (record e { mac = mac; ts = now } ∷ es)
    else elim rest [ none ↦ none | some es' ↦ some (e ∷ es') ]

-- The second loop of arp_learn, from index `i` on: the first entry that is not valid, or else the
-- one with the least time below `oldest`.
unfoldable pub find_slot : ℕ → ℕ → ℕ → List ArpEntry → ℕ
find_slot i slot oldest [] = slot
find_slot i slot oldest (e ∷ es) =
    let older = ltb e.ts oldest in
    let rest = find_slot (i + 1) (if older then i else slot) (if older then e.ts else oldest) es in
    if e.valid then rest else i

-- What arp_learn does to the table. Both ways read the clock once, for `now`.
unfoldable pub learn : ℕ → Mac → ℕ → List ArpEntry → List ArpEntry
learn ip mac now cache = elim (refresh ip mac now cache) [
  | some updated ↦ updated
  | none ↦
      set cache (find_slot 0 0 (2 ^ 64 - 1) cache)
        (record { ip = ip; mac = mac; ts = now; valid = true })
]

unfoldable pub arp_learn : ℕ → Mac → M (Unit {0})
arp_learn ip mac = do
  now ← time_ms
  modify (λ n. record n { arp_cache = learn ip mac now n.arp_cache })

-- `time_ms() - e->ts < ARP_TIMEOUT_MS`, in `uint64_t`.
abbrev pub is_fresh : ℕ → ArpEntry → Bool
is_fresh now e = ltb ((now + 2 ^ 64 - e.ts) % 2 ^ 64) arp_timeout_ms

-- The loop of arp_lookup: the address found and the table, where entries that are too old have
-- lost `valid`.
unfoldable pub lookup_from : ℕ → List ArpEntry → M (Option Mac × List ArpEntry)
lookup_from ip [] = pure (none, [])
lookup_from ip (e ∷ es) =
    let later : M (Option Mac × List ArpEntry) = lookup_from ip es in
    if holds ip e
    then (time_ms >>= λ now.
        if is_fresh now e
        then pure (some e.mac, e ∷ es)
        else (later >>= λ r. pure (r.0, record e { valid = false } ∷ r.1)))
    else (later >>= λ r. pure (r.0, e ∷ r.1))

-- arp_lookup; `none` is its -1.
unfoldable pub arp_lookup : ℕ → M (Option Mac)
arp_lookup ip = do
  cache ← gets (λ n. n.arp_cache)
  r ← lookup_from ip cache
  modify (λ n. record n { arp_cache = r.1 })
  pure r.0
