-- ===== src/Examples/Arp.antt =====
-- The neighbour table.
use netd_moduos.Common.{ℕ, ◌≤◌, ◌≡◌, refl, List, [], ◌∷◌, none, some, get_elem?, set, All, arith}
use netd_moduos.State.{ArpEntry, zero_arp_entry, Sys, done, bcast_mac, ◌>>◌}
use netd_moduos.Arp.{arp_frame, arp_rx, learn, arp_learn, arp_lookup}
use netd_moduos.Arp.Entries.{find_entry, holders, IsUnique}
use netd_moduos.Arp.Learn.{learned, find_entry-learn, learn-IsUnique}
use netd_moduos.Arp.Evict.{learn_evicts_oldest, HasFree}
use netd_moduos.Arp.Lookup.{ticked, now_of, with_cache, arp_lookup-arp_learn, arp_lookup_expired}
use netd_moduos.Arp.Handshake.{heard, arp_exchange}
use netd_moduos.Driver.Transmit.{transmitted}
use netd_moduos.Examples.World.{
  oracle-IsPrompt, mac_a, mac_b, ip_a, ip_b, free_cache, entry_b, entry_gw, machine_a, machine_b,
}

find_entry-learn_example :
    find_entry ip_a (learn ip_a mac_a 1000 free_cache) ≡ some (learned ip_a mac_a 1000)
find_entry-learn_example = find_entry-learn ip_a 1000 mac_a free_cache (omega arith)

free_cache-IsUnique : IsUnique free_cache
unfolding holders
free_cache-IsUnique ip = omega arith

learn-IsUnique_example : IsUnique (learn ip_a mac_a 1000 free_cache)
learn-IsUnique_example = learn-IsUnique ip_a 1000 mac_a free_cache free_cache-IsUnique

has_free : HasFree (entry_b ∷ free_cache)
has_free = (1, zero_arp_entry, refl, refl)

no_entry : find_entry ip_a (entry_b ∷ entry_gw ∷ []) ≡ none
unfolding find_entry
no_entry = refl

learn_evicts_oldest_example :
    (k : ℕ) × (victim : ArpEntry) × (get_elem? (entry_b ∷ entry_gw ∷ []) k ≡ some victim)
    × All (λ e. victim.ts ≤ e.ts) (entry_b ∷ entry_gw ∷ [])
    × (learn ip_a mac_a 1000 (entry_b ∷ entry_gw ∷ [])
        ≡ set (entry_b ∷ entry_gw ∷ []) k (learned ip_a mac_a 1000))
learn_evicts_oldest_example =
    learn_evicts_oldest ip_a 1000 mac_a entry_b (entry_gw ∷ []) (refl, (refl, tt))
      (omega arith, (omega arith, tt)) no_entry

arp_lookup-arp_learn_example :
    (arp_learn ip_a mac_a >> arp_lookup ip_a) machine_b
    ≡ done
        (some mac_a)
        (ticked (ticked (with_cache (learn ip_a mac_a (now_of machine_b) free_cache) machine_b)))
arp_lookup-arp_learn_example =
    arp_lookup-arp_learn ip_a mac_a machine_b (omega arith) (omega arith) (omega arith)
      (omega arith)

-- The entry of `machine_a`, long after it was learned.
abbrev machine_late : Sys
machine_late = record machine_a { os = record machine_a.os { clock_calls = 60000 } }

late-IsUnique : IsUnique machine_late.net.arp_cache
unfolding holders
late-IsUnique ip = ground arith

late_entry : find_entry ip_b machine_late.net.arp_cache ≡ some entry_b
unfolding find_entry
late_entry = refl

arp_lookup_expired_example :
    (cache : List ArpEntry) × (arp_lookup ip_b machine_late
      ≡ done none (ticked (with_cache cache machine_late)))
    × (find_entry ip_b cache ≡ none)
arp_lookup_expired_example =
    arp_lookup_expired ip_b entry_b machine_late late-IsUnique late_entry (omega arith)
      (omega arith)

arp_exchange_example :
    let reply = arp_frame mac_b 2 mac_a ip_b ip_a in
    let t' = heard ip_b mac_b machine_a in
    (n : ℕ) × (arp_rx (arp_frame mac_a 1 bcast_mac ip_a ip_b) machine_b
      ≡ done tt (transmitted reply n (heard ip_a mac_a machine_b)))
    × (arp_rx reply machine_a ≡ done tt t')
    × (find_entry ip_b t'.net.arp_cache ≡ some (learned ip_b mac_b (now_of machine_a)))
arp_exchange_example =
    arp_exchange 0 mac_a ip_a machine_b machine_a oracle-IsPrompt oracle-IsPrompt (omega arith)
      (omega arith) (ground arith) (omega arith)
