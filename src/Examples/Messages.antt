-- ===== src/Examples/Messages.antt =====
-- Whole messages of servers, and the query of the machine.
use netd_moduos.Common.{
  ℕ, ◌+◌, ◌<◌, ◌≤◌, ◌≡◌, refl, List, [], ◌∷◌, ◌++◌, All, length, replicate, arith,
}
use netd_moduos.Wire.Fields.{be16}
use netd_moduos.State.{bound, zero_net, Sys, done, ◌>>=◌}
use netd_moduos.Dhcp.Options.{opt_subnet, opt_router, opt_dns}
use netd_moduos.Dhcp.Options.Encoding.{Opt, opt, IsOpt, find_opt}
use netd_moduos.Dhcp.Options.Laws.{opt32_value}
use netd_moduos.Dhcp.Client.{or_default, dhcp_rx}
use netd_moduos.Dhcp.Client.Message.{
  Message, IsMessage, message_bytes, lease_of, dhcp_rx-message_bytes,
}
use netd_moduos.Dhcp.Client.React.{react, with_net}
use netd_moduos.Ip.Tx.Laws.Total.{Traffic, after}
use netd_moduos.Dns.Query.{built, dns_build_query}
use netd_moduos.Dns.Query.Labels.{dotted, IsText, header_bytes, dns_build_query-dotted}
use netd_moduos.Dns.Rx.Message.{encode_labels, encode_name, written, pointer}
use netd_moduos.Dns.Rx.Answers.{a_record, other}
use netd_moduos.Dns.Rx.Response.{Response, IsResponse, response_bytes, resolved, first_ip}
use netd_moduos.Dns.Rx.Answers.{encode_answers}
use netd_moduos.Dhcp.Options.Encoding.{encode}
use netd_moduos.Examples.World.{mac_a}
use netd_moduos.Wire.Constants.{ip_bcast, dns_port, ipproto_udp}
use netd_moduos.Ip.Tx.{ip_tx}
use netd_moduos.Ip.Tx.Laws.Send.{ip_frame}
use netd_moduos.Udp.Tx.{udp_tx, datagram}
use netd_moduos.Ip.Rx.{ip_rx, not_for_us}
use netd_moduos.Ip.Rx.Servers.{heard_from, server_frame, dhcp_end_to_end, dns_end_to_end}
use netd_moduos.Main.Rx.{rx_once}
use netd_moduos.Main.Rx.Arrivals.{rx_once-ip_frame}
use netd_moduos.Driver.Deliver.{device_reply, polled}
use netd_moduos.State.{got}
use netd_moduos.Main.Start.{start}
use netd_moduos.Live.Configured.{Starts, start-Starts}
use netd_moduos.Examples.World.{
  oracle-IsPrompt, ticking-IsLive, ip_a, ip_gw, machine_a, machine_b, live_a,
}
use netd_moduos.Examples.Dhcp.{machine_starting}

abbrev message : List Opt → Message
message options = record {
  xid = 0;
  before = replicate 8 0;
  your_ip = ip_a;
  behind = replicate 216 0;
  options = options;
  rest = [];
}

abbrev offer_options : List Opt
offer_options = opt 53 (2 ∷ []) ∷ opt 54 (10 ∷ 0 ∷ 2 ∷ 1 ∷ []) ∷ []

abbrev ack_options : List Opt
ack_options = opt 53 (5 ∷ []) ∷ opt 3 (10 ∷ 0 ∷ 2 ∷ 1 ∷ []) ∷ []

message-IsMessage : (options : List Opt) → All IsOpt options → IsMessage (message options)
message-IsMessage options fit = record {
  xid_fits = omega arith;
  your_ip_fits = omega arith;
  length_before = refl;
  length_behind = refl;
  options_fit = fit;
}

offer_fits : All IsOpt offer_options
offer_fits = ground arith

ack_fits : All IsOpt ack_options
ack_fits = ground arith

offer_size : length (message_bytes (message offer_options)) ≤ 1458
unfolding message_bytes encode
offer_size = omega arith

ack_size : length (message_bytes (message ack_options)) ≤ 1458
unfolding message_bytes encode
ack_size = omega arith

dhcp_end_to_end_example :
    (u : Sys) × ((ip_rx (server_frame mac_a ip_bcast (message offer_options) machine_b) >>= λ _.
    ip_rx (server_frame mac_a ip_bcast (message ack_options) machine_b))
        machine_starting
      ≡ done tt u)
    × (u.net.dhcp_state ≡ bound)
    × (u.net.ip ≡ ip_a)
    × (u.net.netmask ≡ or_default (opt32_value (find_opt opt_subnet 4 ack_options)) 0xffff_ff00)
    × (u.net.gateway ≡ opt32_value (find_opt opt_router 4 ack_options))
    × (u.net.dns ≡ opt32_value (find_opt opt_dns 4 ack_options))
unfolding zero_net find_opt not_for_us
dhcp_end_to_end_example =
    dhcp_end_to_end 0 mac_a mac_a ip_bcast ip_bcast (message offer_options) (message ack_options)
      machine_b machine_b machine_starting oracle-IsPrompt (omega arith) (omega arith) (omega arith)
      (omega arith) (message-IsMessage offer_options offer_fits)
      (message-IsMessage ack_options ack_fits) offer_size ack_size refl refl refl refl refl refl
      refl

-- An alias, and then the address, for "a.b".
abbrev response : Response
response = record {
  txid = 0;
  flags = 0x8180;
  qdcount = 1;
  counts = replicate 4 0;
  question = (b'a' ∷ []) ∷ (b'b' ∷ []) ∷ [];
  asked = 0 ∷ 1 ∷ 0 ∷ 1 ∷ [];
  answers =
      record {
        name = pointer 0xc0 12;
        between = replicate 6 0;
        content = other 5 (1 ∷ b'c' ∷ 0 ∷ []);
      }
      ∷ record {
        name = written ((b'c' ∷ []) ∷ []);
        between = replicate 6 0;
        content = a_record ip_a;
      }
      ∷ [];
  rest = [];
}

response-IsResponse : IsResponse response
response-IsResponse = record {
  txid_fits = omega arith;
  flags_fit = omega arith;
  responds = λ e. ground (arith, e);
  length_counts = refl;
  labels = ground arith;
  length_asked = refl;
  answers_fit = (
    (refl, refl, (omega arith, omega arith, refl)),
    ((((λ e. ground (arith, e), refl), tt), refl, omega arith), tt),
  );
  count_fits = omega arith;
}

response_size : length (response_bytes response) ≤ 1458
unfolding response_bytes encode_labels encode_answers encode_name
response_size = omega arith

dns_end_to_end_example :
    let payload = datagram dns_port 3053 (response_bytes response) in
    let heard = heard_from machine_b machine_a in
    (udp_tx ip_a dns_port 3053 (response_bytes response) machine_b
      ≡ ip_tx ip_a ipproto_udp payload machine_b)
    × (ip_rx (ip_frame mac_a ip_a ipproto_udp payload machine_b) machine_a
        ≡ done tt (record heard { net = resolved (first_ip response.answers) heard.net }))
unfolding zero_net not_for_us
dns_end_to_end_example =
    dns_end_to_end mac_a ip_a 3053 response machine_b machine_a (omega arith) (omega arith)
      (omega arith) (omega arith) response-IsResponse response_size refl refl

abbrev a_and_b : List (List ℕ)
a_and_b = (b'a' ∷ []) ∷ (b'b' ∷ []) ∷ []

texts : All IsText a_and_b
texts = ground arith

short : 12 + length (encode_labels a_and_b) + 4 < 256
unfolding encode_labels
short = omega arith

dns_build_query-dotted_example :
    dns_build_query 256 7 (dotted a_and_b [])
    ≡ built (header_bytes 7 ++ (encode_labels a_and_b ++ (be16 1 ++ be16 1)))
dns_build_query-dotted_example = dns_build_query-dotted 256 7 a_and_b [] (omega arith) texts short

start-Starts_example : Starts (start live_a)
start-Starts_example = start-Starts 0 live_a ticking-IsLive

dhcp_rx-message_bytes_example :
    let offer = message offer_options in
    (t : Traffic) × (dhcp_rx ip_gw
        (message_bytes offer)
        (length (message_bytes offer))
        machine_starting
      ≡ done tt
          (after t (with_net (react ip_gw (lease_of offer) machine_starting.net) machine_starting)))
unfolding zero_net
dhcp_rx-message_bytes_example =
    dhcp_rx-message_bytes 0 ip_gw (message offer_options) machine_starting oracle-IsPrompt
      (message-IsMessage offer_options offer_fits) refl

-- A device that has a frame of the other machine.
abbrev arrival : List ℕ
arrival = device_reply (replicate 8 0) (ip_frame mac_a ip_a ipproto_udp (1 ∷ 2 ∷ []) machine_b)

abbrev receiving : Sys
receiving = record machine_a {
  os = record (machine_a.os) {
    oracle = record (machine_a.os.oracle) { reads = λ i size. got arrival };
  };
}

rx_once-ip_frame_example :
    rx_once receiving
    ≡ ip_rx (ip_frame mac_a ip_a ipproto_udp (1 ∷ 2 ∷ []) machine_b) (polled receiving)
rx_once-ip_frame_example =
    rx_once-ip_frame mac_a ip_a ipproto_udp (1 ∷ 2 ∷ []) (replicate 8 0) machine_b receiving refl
      refl refl (omega arith)
