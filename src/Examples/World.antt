-- ===== src/Examples/World.antt =====
-- Two machines on a device that answers every read at once.
use netd_moduos.Common.{ℕ, ◌+◌, ◌*◌, true, List, [], ◌∷◌, pos, arith}
use netd_moduos.State.{
  Mac, zero_arp_entry, zero_udp_bind, ArpEntry, UdpBind, Net, zero_net, Sys, Os, Oracle, Reading,
  got,
}
use netd_moduos.Driver.Reply.{IsPrompt}
use netd_moduos.Live.Waits.{IsLive}

abbrev pub ok_reply : Reading
ok_reply = got (5 ∷ 0 ∷ 0 ∷ 0 ∷ 0 ∷ 0 ∷ 0 ∷ 0 ∷ 0 ∷ 0 ∷ 0 ∷ 0 ∷ [])

abbrev pub oracle : Oracle
oracle = record {
  clock = λ n. 1000 + n;
  reads = λ i size. ok_reply;
  writes = λ i. true;
  opened = pos 3;
  registered = pos 0;
  fuel = 2000;
}

pub oracle-IsPrompt : IsPrompt 0 oracle
oracle-IsPrompt = record { answers = λ i size. (0, omega arith, λ e. cc); enough = omega arith }

abbrev pub os : Os
os = record { oracle = oracle; clock_calls = 0; read_calls = 0; write_calls = 0; written = [] }

abbrev pub mac_a : Mac
mac_a = record { m0 = 0x52; m1 = 0x54; m2 = 0; m3 = 0; m4 = 0; m5 = 1 }

abbrev pub mac_b : Mac
mac_b = record { m0 = 0x52; m1 = 0x54; m2 = 0; m3 = 0; m4 = 0; m5 = 2 }

-- 10.0.2.15, 10.0.2.16 and the gateway 10.0.2.1.
abbrev pub ip_a : ℕ
ip_a = 0x0a00_020f

abbrev pub ip_b : ℕ
ip_b = 0x0a00_0210

abbrev pub ip_gw : ℕ
ip_gw = 0x0a00_0201

abbrev pub free_cache : List ArpEntry
free_cache = zero_arp_entry ∷ zero_arp_entry ∷ []

abbrev pub entry_b : ArpEntry
entry_b = record { ip = ip_b; mac = mac_b; ts = 900; valid = true }

abbrev pub entry_gw : ArpEntry
entry_gw = record { ip = ip_gw; mac = mac_b; ts = 800; valid = true }

-- Port 4000 is bound.
abbrev pub bound_4000 : UdpBind
bound_4000 = record zero_udp_bind { port = 4000; used = true }

abbrev pub net_a : Net
net_a = record zero_net {
  mac = mac_a;
  ip = ip_a;
  netmask = 0xffff_ff00;
  gateway = ip_gw;
  arp_cache = entry_b ∷ zero_arp_entry ∷ [];
}

abbrev pub net_b : Net
net_b = record zero_net {
  mac = mac_b;
  ip = ip_b;
  netmask = 0xffff_ff00;
  gateway = ip_gw;
  arp_cache = free_cache;
  udp_binds = bound_4000 ∷ [];
}

abbrev pub machine_a : Sys
machine_a = record { net = net_a; ip_id = 1; os = os }

abbrev pub machine_b : Sys
machine_b = record { net = net_b; ip_id = 7; os = os }

-- A kernel whose clock goes on by 70 ms at each reading.
abbrev pub ticking_oracle : Oracle
ticking_oracle = record oracle { clock = λ n. n * 70 }

pub ticking-IsLive : IsLive 0 ticking_oracle
ticking-IsLive = record {
  prompt = record { answers = λ i size. (0, omega arith, λ e. cc); enough = omega arith };
  ticking = record { passes = λ i t j small later. omega (arith, small, later) };
}

abbrev pub live_a : Sys
live_a = record machine_a { os = record os { oracle = ticking_oracle } }
