-- ===== src/Main/Start.antt =====
-- md_main of main.c: the start of the daemon, and its loop.
use netd_moduos.Common.{
  ℕ, zero, suc, ◌+◌, ◌%◌, ◌^◌, Bool, true, false, List, [], Option, none, some, ℤ, pos, negsuc,
  is_neg, signed32, ltb, ◌==◌, if◌then◌else◌, replicate,
}
use netd_moduos.Wire.Constants.{net_cmd_get_mac, net_cmd_get_mtu, net_cmd_get_link_up, make_ip}
use netd_moduos.Wire.Memory.{store, load32}
use netd_moduos.State.{
  mac_bytes, zero_udp_bind, Net, M, spin, pure, skip, need, gets, modify, time_ms, ◌>>=◌, ◌>>◌,
  and_then,
}
use netd_moduos.Driver.{driver_open, driver_transact}
use netd_moduos.Arp.{load_mac, arp_init, arp_announce}
use netd_moduos.Dhcp.Client.{or_default, dhcp_start, dhcp_bound}
use netd_moduos.Main.Rx.{rx_once}

abbrev pub dhcp_timeout_ms : ℕ
dhcp_timeout_ms = 10000

-- What driver_transact has stored.
abbrev pub copied : Option (List ℕ) → List ℕ
copied none = []
copied (some bytes) = bytes

abbrev pub is_zero : ℤ → Bool
is_zero (pos n) = n == 0
is_zero (negsuc n) = false

-- GET_MAC stores into `g_net.mac`, whatever its status.
unfoldable pub read_mac : M ℤ
read_mac = do
  answer ← driver_transact net_cmd_get_mac [] (some 6)
  own ← gets (λ n. n.mac)
  mac ← need (load_mac (store (mac_bytes own) 0 (copied answer.1)) 0)
  modify (λ n. record n { mac = mac })
  pure answer.0

-- `val`, which is 0 before; the status is ignored.
unfoldable pub read_val : ℕ → M ℕ
read_val cmd = do
  answer ← driver_transact cmd [] (some 4)
  need (load32 (store (replicate 4 0) 0 (copied answer.1)) 0)

unfoldable pub read_mtu_and_link : M (Unit {0})
read_mtu_and_link = do
  mtu ← read_val net_cmd_get_mtu
  modify (λ n. record n { mtu = or_default mtu 1500 })
  link ← read_val net_cmd_get_link_up
  modify (λ n. record n { link_up = signed32 link })

unfoldable pub clear_tables : M (Unit {0})
clear_tables = arp_init >> modify (λ n. record n { udp_binds = replicate 16 zero_udp_bind })

-- `while (!dhcp_bound() && time_ms() < dhcp_deadline) rx_once();`
unfoldable pub wait_bound : ℕ → ℕ → M (Unit {0})
wait_bound zero deadline = λ s. spin
wait_bound (suc fuel) deadline =
    let again : M (Unit {0}) = rx_once >> wait_bound fuel deadline in
    gets dhcp_bound >>= λ is_bound'.
    if is_bound' then skip else (time_ms >>= λ now. if ltb now deadline then again else skip)

unfoldable pub fall_back : Net → Net
fall_back n = record n {
  ip = make_ip 10 0 2 15;
  netmask = make_ip 255 255 255 0;
  gateway = make_ip 10 0 2 1;
  dns = make_ip 8 8 8 8;
}

unfoldable pub wait_for_lease : M (Unit {0})
wait_for_lease s =
    and_then (time_ms s) λ now. wait_bound s.os.fuel ((now + dhcp_timeout_ms) % 2 ^ 64)

-- The DHCP part: the wait for a lease, and the addresses without one.
unfoldable pub configure : M (Unit {0})
configure = do
  dhcp_start
  wait_for_lease
  is_bound' ← gets dhcp_bound
  if is_bound' then skip else modify fall_back >> arp_announce

-- What follows GET_MAC.
unfoldable pub start_with : Bool → M Bool
start_with false = pure false
start_with true = read_mtu_and_link >> (clear_tables >> (configure >> pure true))

unfoldable pub start_opened : Bool → M Bool
start_opened false = pure false
start_opened true = read_mac >>= λ status. start_with (is_zero status)

-- md_main up to api_init; `false` is its return with 1.
unfoldable pub start : M Bool
start = driver_open >>= λ fd. start_opened (if is_neg fd then false else true)

-- The first rounds of the loop at the end of md_main.
unfoldable pub serve : ℕ → M (Unit {0})
serve zero = skip
serve (suc rounds) = rx_once >> serve rounds
