-- ===== src/Icmp.antt =====
-- icmp.c: echo requests and replies.
pub mod Echo
pub mod Laws
use netd_moduos.Common.{
  ℕ, ◌+◌, ◌%◌, ◌^◌, Bool, true, false, ◌&&◌, List, [], ◌∷◌, ◌++◌, ℤ, ltb, ◌==◌, if◌then◌else◌,
  length, set, take, replicate, get_elem?,
}
use netd_moduos.Wire.Constants.{ipproto_icmp, icmp_echo_req, icmp_echo_rep}
use netd_moduos.Wire.Endian.{htons, ntohs}
use netd_moduos.Wire.Memory.{store, store16, load16, bytes?}
use netd_moduos.Wire.Cksum.{inet_cksum}
use netd_moduos.State.{Net, M, pure, skip, need, gets, modify, ignore, ◌>>=◌, ◌>>◌, and_then}
use netd_moduos.Ip.Tx.{ip_tx}

-- The reply to an echo request, built in place over a copy of the request.
unfoldable pub echo_reply : List ℕ → List ℕ
echo_reply request =
    let fields = store16 (set (set request 0 icmp_echo_rep) 1 0) 2 0 in
    store16 fields 2 (htons (inet_cksum fields))

-- The echo request branch; `reply` has 1500 bytes, and a longer request is cut.
unfoldable pub answer_echo : ℕ → List ℕ → ℕ → M (Unit {0})
answer_echo src data' len = do
  request ← need (bytes? data' (if ltb 1500 len then 1500 else len))
  ignore (ip_tx src ipproto_icmp (echo_reply request))

-- The echo reply branch.
unfoldable pub note_reply : ℕ → ℕ → ℕ → M (Unit {0})
note_reply src id seq = modify λ n.
    if (id == n.ping_id) && (seq == n.ping_seq)
    then record n { ping_reply_ip = src; ping_replied = true }
    else n

-- icmp_rx; `data'` is what can be read from `data` on, and `len` what the packet claims.
unfoldable pub icmp_rx : ℕ → List ℕ → ℕ → M (Unit {0})
icmp_rx src data' len = if ltb len 8 then skip else (do
  type ← need (get_elem? data' 0)
  id ← need (load16 data' 4)
  seq ← need (load16 data' 6)
  if type == icmp_echo_req
      then answer_echo src data' len
      else if type == icmp_echo_rep
      then note_reply src (ntohs id) (ntohs seq)
      else skip)

-- "NETDPING"
abbrev pub ping_text : List ℕ
ping_text = b'N' ∷ b'E' ∷ b'T' ∷ b'D' ∷ b'P' ∷ b'I' ∷ b'N' ∷ b'G' ∷ []

unfoldable pub echo_request : ℕ → ℕ → List ℕ
echo_request id seq =
    let start : List ℕ = store16 (set (set (replicate 16 0) 0 icmp_echo_req) 1 0) 4 (htons id) in
    let fields : List ℕ = store (store16 start 6 (htons seq)) 8 ping_text in
    store16 fields 2 (htons (inet_cksum fields))

unfoldable pub icmp_ping : ℕ → ℕ → ℕ → M ℤ
icmp_ping dst id seq = do
  modify (λ n. record n { ping_id = id; ping_seq = seq; ping_replied = false })
  ip_tx dst ipproto_icmp (echo_request id seq)
