-- ===== src/Ip/Rx/Truncated.antt =====
-- ip_rx on a frame of which only a part was received.
use netd_moduos.Common.{
  ℕ, suc, ◌+◌, ◌^◌, ◌≤◌, ◌<◌, ◌≡◌, refl, ap, ◌∙◌, subst, false, List, [], ◌∷◌, ◌++◌, length,
  length-take, take, arith,
}
use netd_moduos.Wire.Constants.{ipproto_icmp}
use netd_moduos.State.{Mac, Sys, fault}
use netd_moduos.Arp.{learn}
use netd_moduos.Arp.Lookup.{ticked, now_of, with_cache}
use netd_moduos.Ip.Tx.Laws.Send.{ip_frame, length-headers}
use netd_moduos.Icmp.Laws.{icmp_rx-overreads}
use netd_moduos.Ip.Rx.{ip_rx, dispatch, not_for_us}
use netd_moduos.Ip.Rx.Delivery.{headers, ip_rx-headers}

take-into : (xs ys : List ℕ) (j : ℕ) → take (length xs + j) (xs ++ ys) ≡ xs ++ take j ys
take-into [] ys j = let e : 0 + j ≡ j = omega arith in rw e refl
take-into (x ∷ xs) ys j =
    let e : suc (length xs) + j ≡ suc (length xs + j) = omega arith in
    rw e (ap (λ l. x ∷ l) (take-into xs ys j))

take-ip_frame :
    (mac : Mac) (dst proto j : ℕ) (payload : List ℕ) (s : Sys)
    → take (34 + j) (ip_frame mac dst proto payload s)
      ≡ headers mac dst proto (length payload) s ++ take j payload
take-ip_frame mac dst proto j payload s =
    subst
      (λ n.
        take (n + j) (ip_frame mac dst proto payload s)
        ≡ headers mac dst proto (length payload) s ++ take j payload)
      (length-headers mac dst proto (length payload) s)
      (take-into (headers mac dst proto (length payload) s) payload j)

-- The frame in which ip_tx packs an echo request for `t`, cut off behind at least 8 and before the
-- last of the request's bytes, makes ip_rx of `t` read past what was received. The request has at
-- most 1500 bytes, and the addresses are 32-bit numbers.
pub ip_rx-overreads :
    (mac : Mac) (dst j : ℕ) (rest : List ℕ) (s t : Sys)
    → dst < 2 ^ 32
    → s.net.ip < 2 ^ 32
    → 7 ≤ j
    → j < length rest
    → length rest < 1500
    → not_for_us t.net.ip dst ≡ false
    → ip_rx (take (35 + j) (ip_frame mac dst ipproto_icmp (8 ∷ rest) s)) t ≡ fault
unfolding dispatch
ip_rx-overreads mac dst j rest s t hd hs header cut small ours =
    let heard = ticked (with_cache (learn s.net.ip s.net.mac (now_of t) t.net.arp_cache) t) in
    let size : 35 + j ≡ 34 + suc j = omega arith in
    let got : length (take j rest) ≡ j = omega (arith, length-take j rest, cut) in
    ap (λ n. ip_rx (take n (ip_frame mac dst ipproto_icmp (8 ∷ rest) s)) t) size
    ∙ ap (λ l. ip_rx l t) (take-ip_frame mac dst ipproto_icmp (suc j) (8 ∷ rest) s)
    ∙ ip_rx-headers mac dst ipproto_icmp (suc (length rest)) (8 ∷ take j rest) s t hd hs
        (omega arith) (omega arith) ours
    ∙ icmp_rx-overreads s.net.ip (suc (length rest)) (take j rest) heard (omega (arith, got))
        (omega arith) (omega arith) (omega (arith, got))
