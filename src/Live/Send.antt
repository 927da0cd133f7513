-- ===== src/Live/Send.antt =====
-- The driver and everything that sends.
use netd_moduos.Common.{ℕ, refl, false, List, [], ◌∷◌, Option, none, some, negsuc, arith}
use netd_moduos.State.{Mac, bcast_mac, ArpEntry, Oracle, done, pure, ◌>>◌}
use netd_moduos.Driver.{Answer, copy_out, parse_reply, transact_reply, driver_transact, driver_tx}
use netd_moduos.Driver.Reply.{IsPrompt, reply_ends, with_reads}
use netd_moduos.Arp.{
  holds, is_fresh, arp_learn, lookup_from, arp_lookup, arp_send, arp_announce, arp_request,
}
use netd_moduos.Ip.Tx.{resolve, next_ip_id, ip_send, ip_tx}
use netd_moduos.Udp.Tx.{udp_tx}
use netd_moduos.Live.Rules.{
  Ends, Finishes-then, Ends-bind, Ends-if, Ends-pure, Ends-time_ms, ends_rules,
}

module _ {P : Oracle → Type 0} (lag : ℕ) (is_prompt : (o : Oracle) → P o → IsPrompt lag o) where
  copy_out-Ends : (rep : List ℕ) (len room : ℕ) → Ends P (copy_out rep len room)
  unfolding copy_out
  copy_out-Ends rep len room = search ends_rules

  parse_reply-Ends : (want : Option ℕ) (rep : List ℕ) → Ends P (parse_reply want rep)
  unfolding parse_reply
  parse_reply-Ends none rep = search ends_rules
  parse_reply-Ends (some room) rep = search (ends_rules, copy_out-Ends)

  finish_reply-Ends :
      (want : Option ℕ) (r : Option (List ℕ))
      → Ends P {A = Answer}
          (elim r [ none ↦ pure (negsuc 1, none) | some bytes ↦ parse_reply want bytes ])
  finish_reply-Ends want none = search ends_rules
  finish_reply-Ends want (some bytes) = parse_reply-Ends want bytes

  transact_reply-Ends : (want : Option ℕ) → Ends P (transact_reply want)
  unfolding transact_reply
  transact_reply-Ends want = record {
    at = λ s live.
        let (r, n, e) = reply_ends lag s (is_prompt s.os.oracle live) in
        rw (e) (
          Finishes-then P s (done r (with_reads n s)) _ live
            (record { same_oracle = refl; clock_on = omega arith }) (finish_reply-Ends want));
  }

  pub driver_transact-Ends :
      (cmd : ℕ) (payload : List ℕ) (want : Option ℕ) → Ends P (driver_transact cmd payload want)
  unfolding driver_transact
  driver_transact-Ends cmd payload want = search (ends_rules, transact_reply-Ends)

  pub driver_tx-Ends : (frame : List ℕ) → Ends P (driver_tx frame)
  unfolding driver_tx
  driver_tx-Ends frame = search (ends_rules, driver_transact-Ends)

  pub arp_learn-Ends : (ip : ℕ) (mac : Mac) → Ends P (arp_learn ip mac)
  unfolding arp_learn
  arp_learn-Ends ip mac = search ends_rules

  lookup_from-Ends : (ip : ℕ) (es : List ArpEntry) → Ends P (lookup_from ip es)
  unfolding lookup_from
  lookup_from-Ends ip [] = search ends_rules
  lookup_from-Ends ip (e ∷ es) =
      let later = lookup_from-Ends ip es in
      Ends-if P (holds ip e) _ _
        (Ends-bind P _ _ (Ends-time_ms P) λ now.
          Ends-if P (is_fresh now e) _ _ (Ends-pure P (some e.mac, e ∷ es))
            (Ends-bind P _ _ later λ r. Ends-pure P (r.0, record e { valid = false } ∷ r.1)))
        (Ends-bind P _ _ later λ r. Ends-pure P (r.0, e ∷ r.1))

  pub arp_lookup-Ends : (ip : ℕ) → Ends P (arp_lookup ip)
  unfolding arp_lookup
  arp_lookup-Ends ip = search (ends_rules, lookup_from-Ends)

  pub arp_send-Ends : (op : ℕ) (mac : Mac) (src dst : ℕ) → Ends P (arp_send op mac src dst)
  unfolding arp_send
  arp_send-Ends op mac src dst = search (ends_rules, driver_tx-Ends)

  pub arp_announce-Ends : Ends P arp_announce
  unfolding arp_announce
  arp_announce-Ends = search (ends_rules, arp_send-Ends)

  pub arp_request-Ends : (ip : ℕ) → Ends P (arp_request ip)
  unfolding arp_request
  arp_request-Ends ip = search (ends_rules, arp_send-Ends)

  use_found-Ends :
      (nexthop : ℕ) (found : Option Mac)
      → Ends P (elim found [ some mac ↦ pure mac | none ↦ arp_request nexthop >> pure bcast_mac ])
  use_found-Ends nexthop none = search (ends_rules, arp_request-Ends)
  use_found-Ends nexthop (some mac) = search ends_rules

  resolve-Ends : (nexthop dst : ℕ) → Ends P (resolve nexthop dst)
  unfolding resolve
  resolve-Ends nexthop dst = search (ends_rules, arp_lookup-Ends, use_found-Ends)

  next_ip_id-Ends : Ends P next_ip_id
  unfolding next_ip_id
  next_ip_id-Ends = record { at = λ s _. record { same_oracle = refl; clock_on = omega arith } }

  ip_send-Ends :
      (mac : Mac) (dst proto : ℕ) (payload : List ℕ) → Ends P (ip_send mac dst proto payload)
  unfolding ip_send
  ip_send-Ends mac dst proto payload = search (ends_rules, next_ip_id-Ends, driver_tx-Ends)

  pub ip_tx-Ends : (dst proto : ℕ) (payload : List ℕ) → Ends P (ip_tx dst proto payload)
  unfolding ip_tx
  ip_tx-Ends dst proto payload = search (ends_rules, resolve-Ends, ip_send-Ends)

  pub udp_tx-Ends :
      (dst src_port dst_port : ℕ) (xs : List ℕ) → Ends P (udp_tx dst src_port dst_port xs)
  unfolding udp_tx
  udp_tx-Ends dst src_port dst_port xs = search (ends_rules, ip_tx-Ends)
