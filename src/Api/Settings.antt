-- ===== src/Api/Settings.antt =====
-- What a program that sets addresses, or flushes the neighbour table, reads back.
use netd_moduos.Common.{ℕ, ◌≡◌, ◌≢◌, refl, false, none, pos, ◌==◌, arith}
use netd_moduos.State.{bcast_mac, Sys, done, ◌>>=◌}
use netd_moduos.Driver.Reply.{IsPrompt}
use netd_moduos.Driver.Transmit.{transmitted}
use netd_moduos.Arp.{empty_cache, arp_lookup, arp_frame, arp_announce}
use netd_moduos.Arp.Entries.{find_entry}
use netd_moduos.Arp.Lookup.{lookup_from_absent, with_cache}
use netd_moduos.Arp.Handshake.{arp_send-transmits}
use netd_moduos.Dhcp.Client.React.{with_net}
use netd_moduos.Api.Reply.{reply}
use netd_moduos.Api.Info.{info_bytes, get_info, set_addresses, set_ip_to, arp_flush}

-- On a device that answers, setting an address other than 0 announces it once, and a program that
-- asks for the settings next is given the four that were set beside all others unchanged.
pub get_info-set_ip_to :
    (lag ip netmask gateway dns : ℕ) (s : Sys)
    → IsPrompt lag s.os.oracle
    → ip ≢ 0
    → let n = record s.net { ip = ip; netmask = netmask; gateway = gateway; dns = dns } in
      (k : ℕ) × ((set_ip_to ip netmask gateway dns >>= λ _. get_info) s
        ≡ done
            (reply (pos 0) (info_bytes n))
            (transmitted (arp_frame s.net.mac 1 bcast_mac ip ip) k (with_net n s)))
unfolding set_ip_to get_info set_addresses arp_announce
get_info-set_ip_to lag ip netmask gateway dns s prompt other =
    let n = set_addresses ip netmask gateway dns s.net in
    let zero' : (ip == 0) ≡ false = ground (arith, other) in
    let (k, e) = arp_send-transmits lag 1 bcast_mac ip ip (with_net n s) prompt in
    (k, rw (zero', e) refl)

none_in_empty : (ip : ℕ) → find_entry ip empty_cache ≡ none
unfolding find_entry empty_cache
none_in_empty ip = refl

-- After a flush no address is found, whatever the table held; nothing else has changed.
pub arp_lookup-arp_flush :
    (ip : ℕ) (s : Sys) → (arp_flush >>= λ _. arp_lookup ip) s ≡ done none (with_cache empty_cache s)
unfolding arp_flush arp_lookup
arp_lookup-arp_flush ip s =
    rw (lookup_from_absent ip empty_cache (with_cache empty_cache s) (none_in_empty ip)) refl
