-- ===== src/Examples/Send.antt =====
-- What the machines hand to their devices.
use netd_moduos.Common.{
  ℕ, ◌/◌, ◌^◌, ◌≡◌, refl, List, [], ◌∷◌, none, some, ℤ, ◌==◌, if◌then◌else◌, replicate, arith,
}
use netd_moduos.State.{done, fault, bcast_mac}
use netd_moduos.Driver.Transmit.{transmitted}
use netd_moduos.Arp.{arp_frame}
use netd_moduos.Arp.Entries.{find_entry}
use netd_moduos.Arp.Lookup.{ticked}
use netd_moduos.Ip.Tx.{next_hop, ip_tx}
use netd_moduos.Ip.Tx.Laws.Route.{next_hop-prefix}
use netd_moduos.Ip.Tx.Laws.Send.{ip_frame, with_next_id, ip_tx-known, ip_tx-unknown}
use netd_moduos.Udp.Tx.{udp_tx}
use netd_moduos.Udp.Tx.Laws.{udp_tx-overruns}
use netd_moduos.Dns.Query.{dns_build_query}
use netd_moduos.Dns.Query.Laws.{Fits, dns_build_query-Fits}
use netd_moduos.Common.{inl, inr}
use netd_moduos.Examples.World.{oracle-IsPrompt, mac_b, ip_a, ip_b, entry_b, machine_a, machine_b}

abbrev hello : List ℕ
hello = 104 ∷ 105 ∷ []

next_hop-prefix_example :
    next_hop machine_a.net ip_b
    ≡ (if ip_b / 2 ^ 8 == machine_a.net.ip / 2 ^ 8 then ip_b else machine_a.net.gateway)
next_hop-prefix_example =
    next_hop-prefix machine_a.net 8 24 ip_b (ground arith) refl (omega arith) (omega arith)

near : next_hop machine_a.net ip_b ≡ ip_b
near = next_hop-prefix machine_a.net 8 24 ip_b (ground arith) refl (omega arith) (omega arith)

has_b : find_entry (next_hop machine_a.net ip_b) machine_a.net.arp_cache ≡ some entry_b
unfolding find_entry
has_b = rw (near) refl

ip_tx-known_example :
    (status : ℤ) × (n : ℕ) × (ip_tx ip_b 17 hello machine_a
      ≡ done status (
          transmitted (ip_frame mac_b ip_b 17 hello machine_a) n (with_next_id (ticked machine_a))))
ip_tx-known_example =
    ip_tx-known 0 ip_b 17 hello entry_b machine_a oracle-IsPrompt (omega arith) (ground arith)
      (rw (near) (ground arith)) has_b refl

near' : next_hop machine_b.net ip_a ≡ ip_a
near' = next_hop-prefix machine_b.net 8 24 ip_a (ground arith) refl (omega arith) (omega arith)

lacks_a : find_entry (next_hop machine_b.net ip_a) machine_b.net.arp_cache ≡ none
unfolding find_entry
lacks_a = refl

ip_tx-unknown_example :
    let request = arp_frame mac_b 1 bcast_mac ip_b (next_hop machine_b.net ip_a) in
    (status : ℤ) × (n n' : ℕ) × (ip_tx ip_a 17 hello machine_b
      ≡ done status (
          transmitted
            (ip_frame bcast_mac ip_a 17 hello machine_b)
            n'
            (with_next_id (transmitted request n machine_b))))
ip_tx-unknown_example =
    ip_tx-unknown 0 ip_a 17 hello machine_b oracle-IsPrompt (omega arith) (ground arith)
      (rw (near') (ground arith)) lacks_a

udp_tx-overruns_example : udp_tx ip_b 4000 4001 (replicate 1460 0) machine_a ≡ fault
udp_tx-overruns_example =
    udp_tx-overruns 0 ip_b 4000 4001 (replicate 1460 0) machine_a oracle-IsPrompt (omega arith)
      (omega arith)

-- "a.b", with the zero at its end.
abbrev a_dot_b : List ℕ
a_dot_b = b'a' ∷ b'.' ∷ b'b' ∷ 0 ∷ []

dns_build_query-Fits_example : Fits 256 (dns_build_query 256 7 a_dot_b)
dns_build_query-Fits_example =
    dns_build_query-Fits 256 7 a_dot_b (inr (inr (inr (inl refl)))) (omega arith)
