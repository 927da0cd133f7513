-- ===== src/Examples/Dhcp.antt =====
-- A lease, from the offer to the settings.
use netd_moduos.Common.{ℕ, ◌≡◌, refl, List, [], ◌∷◌, ◌++◌, length, arith}
use netd_moduos.State.{discover, bound, failed, Net, Sys, done}
use netd_moduos.Dhcp.Options.{dhcp_get_opt32}
use netd_moduos.Dhcp.Options.Encoding.{Opt, pad, opt, encode, find_opt}
use netd_moduos.Dhcp.Options.Laws.{opt32_value, dhcp_get_opt32_lem}
use netd_moduos.Dhcp.Client.{Lease, accept_offer, accept_ack}
use netd_moduos.Dhcp.Client.React.{react}
use netd_moduos.Dhcp.Client.Lifecycle.{
  react_all, OfferedAndGranted, react_all-failed, react_all-OfferedAndGranted,
}
use netd_moduos.Examples.World.{ip_a, ip_gw, net_a, machine_a}

abbrev two_options : List Opt
two_options = opt 53 (2 ∷ []) ∷ pad ∷ opt 3 (10 ∷ 0 ∷ 2 ∷ 1 ∷ []) ∷ []

dhcp_get_opt32_example :
    let opts = encode two_options ++ 255 ∷ (9 ∷ []) in
    dhcp_get_opt32 opts (length opts) 3 machine_a
    ≡ done (opt32_value (find_opt 3 4 two_options)) machine_a
dhcp_get_opt32_example = dhcp_get_opt32_lem 3 two_options (9 ∷ []) machine_a (
  (ground arith, ground arith, (omega arith, tt)),
  (
    tt,
    (
      (ground arith, ground arith, (omega arith, (omega arith, (omega arith, (omega arith, tt))))),
      tt,
    ),
  ),
)

abbrev lease : ℕ → Lease
lease msg_type = record {
  msg_type = msg_type;
  your_ip = ip_a;
  server_id = ip_gw;
  subnet = 0;
  router = ip_gw;
  dns = ip_gw;
}

abbrev starting : Net
starting = record net_a { dhcp_state = discover }

abbrev pub machine_starting : Sys
machine_starting = record machine_a { net = starting }

abbrev offer_and_ack : List (ℕ × Lease)
offer_and_ack = (ip_gw, lease 2) ∷ (ip_gw, lease 5) ∷ []

becomes_bound : (react_all offer_and_ack starting).dhcp_state ≡ bound
unfolding react_all react accept_offer accept_ack
becomes_bound = refl

react_all-OfferedAndGranted_example :
    OfferedAndGranted offer_and_ack (react_all offer_and_ack starting)
react_all-OfferedAndGranted_example =
    react_all-OfferedAndGranted offer_and_ack starting refl becomes_bound

react_all-failed_example :
    (react_all offer_and_ack (record net_a { dhcp_state = failed })).dhcp_state ≡ failed
react_all-failed_example =
    react_all-failed offer_and_ack (record net_a { dhcp_state = failed }) refl
