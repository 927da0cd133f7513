-- ===== src/Api/Bounds.antt =====
-- How long replies are.
use netd_moduos.Common.{
  ℕ, ◌-◌, ◌≤◌, ◌≡◌, Bool, true, false, List, ◌++◌, Option, none, some, pos, negsuc, ltb,
  if◌then◌else◌, length, length-append, length-take, length-replicate, replicate, min, arith,
  Bool-cases, Option-cases, inl, inr, not-ltb→le,
}
use netd_moduos.Wire.Memory.{load32}
use netd_moduos.State.{Mac, Net, Sys, Outcome, done, fault, spin, M, and_then, pure, crash, ◌>>=◌}
use netd_moduos.Udp.Table.{Datagram}
use netd_moduos.Api.Reply.{bytes32, Reply, reply, status_only, reply_bytes, with_size, unsigned32}
use netd_moduos.Api.Info.{info_bytes, get_info, set_ip_to, set_ip, arp_reply, look_up, arp_flush}
use netd_moduos.Api.Ping.{PingReply, ping_reply, ping}
use netd_moduos.Api.Ports.{bind_port, unbind_port, send_data, send, recv_reply, receive}
use netd_moduos.Api.Names.{dns_reply, resolve_name}
use netd_moduos.Api.Invoke.{
  Command, cmd_get_info, cmd_ping, cmd_udp_send, cmd_udp_recv, cmd_udp_bind, cmd_udp_unbind,
  cmd_dns_resolve, cmd_arp_lookup, cmd_arp_flush, cmd_set_ip, cmd_unknown, decode, handle,
  api_invoke,
}

-- `g_rep.data` has 1500 bytes.
abbrev pub IsRoomy : Reply → Type 0
IsRoomy r = length r.data' ≤ 1500

abbrev Yields : Outcome Reply → Type 0
Yields (done r s) = IsRoomy r
Yields fault = Unit {0}
Yields spin = Unit {0}

-- Whatever the handler returns fits the buffer.
record Fits (m : M Reply) : Type 0 where
  at : (s : Sys) → Yields (m s)

Fits-pure : (r : Reply) → IsRoomy r → Fits (pure r)
Fits-pure r h = record { at = λ s. h }

Fits-crash : Fits crash
Fits-crash = record { at = λ s. tt }

Fits-status_only : (status : _) → Fits (pure (status_only status))
Fits-status_only status = Fits-pure (status_only status) (omega arith)

Yields-then :
    {A : Type 0} (o : Outcome A) (k : A → M Reply) → ((a : A) → Fits (k a)) → Yields (and_then o k)
Yields-then (done a s) k fk = (fk a).at s
Yields-then fault k fk = tt
Yields-then spin k fk = tt

Fits-bind : {A : Type 0} (m : M A) (k : A → M Reply) → ((a : A) → Fits (k a)) → Fits (m >>= k)
Fits-bind m k fk = record { at = λ s. Yields-then (m s) k fk }

Fits-if : (b : Bool) (m n : M Reply) → Fits m → Fits n → Fits (if b then m else n)
Fits-if true m n fm fn = fm
Fits-if false m n fm fn = fn

ruleset fits_rules = (Fits-pure, Fits-crash, Fits-status_only, Fits-bind, Fits-if)

with_size-Fits : (size : ℕ) (req : List ℕ) (m : M Reply) → Fits m → Fits (with_size size req m)
unfolding with_size
with_size-Fits size req m fm = search fits_rules

info_bytes-IsRoomy : (n : Net) → IsRoomy (reply (pos 0) (info_bytes n))
unfolding info_bytes
info_bytes-IsRoomy n = omega arith

get_info-Fits : Fits get_info
unfolding get_info
get_info-Fits = record { at = λ s. info_bytes-IsRoomy s.net }

set_ip-Fits : (req : List ℕ) → Fits (set_ip req)
unfolding set_ip set_ip_to
set_ip-Fits req = search (fits_rules, with_size-Fits) depth 12

arp_reply-IsRoomy : (o : Option Mac) → IsRoomy (arp_reply o)
unfolding arp_reply
arp_reply-IsRoomy none = omega arith
arp_reply-IsRoomy (some mac) = omega arith

look_up-Fits : (req : List ℕ) → Fits (look_up req)
unfolding look_up
look_up-Fits req = search (fits_rules, with_size-Fits, arp_reply-IsRoomy) depth 9

arp_flush-Fits : Fits arp_flush
unfolding arp_flush
arp_flush-Fits = search fits_rules

ping_reply-IsRoomy : (rep : PingReply) → IsRoomy (ping_reply rep)
unfolding ping_reply
ping_reply-IsRoomy rep = omega arith

ping-Fits : (yield : M (Unit {0})) (req : List ℕ) → Fits (ping yield req)
unfolding ping
ping-Fits yield req = search (fits_rules, with_size-Fits, ping_reply-IsRoomy) depth 12

bind_port-Fits : (req : List ℕ) → Fits (bind_port req)
unfolding bind_port
bind_port-Fits req = search (fits_rules, with_size-Fits) depth 9

unbind_port-Fits : (req : List ℕ) → Fits (unbind_port req)
unfolding unbind_port
unbind_port-Fits req = search (fits_rules, with_size-Fits) depth 9

send_data-Fits : (ip sp dp len : ℕ) (data' : List ℕ) → Fits (send_data ip sp dp len data')
unfolding send_data
send_data-Fits ip sp dp len data' = search fits_rules depth 9

send-Fits : (req : List ℕ) → Fits (send req)
unfolding send
send-Fits req = search (fits_rules, with_size-Fits, send_data-Fits) depth 9

recv_reply-Fits : (o : Option Datagram) → Fits (recv_reply o)
unfolding recv_reply
recv_reply-Fits none = Fits-pure _ (omega (arith, length-replicate {A = ℕ} 1472 0))
recv_reply-Fits (some d) = elim (Bool-cases (ltb 1472 (length d.bytes))) [
  | inl long ↦ rw (long) Fits-crash
  | inr short ↦
      let tail = d.bytes ++ replicate (1472 - length d.bytes) 0 in
      let size : length tail ≡ 1472 = omega (
        arith,
        length-append d.bytes (replicate {A = ℕ} (1472 - length d.bytes) 0),
        length-replicate {A = ℕ} (1472 - length d.bytes) 0,
        not-ltb→le 1472 (length d.bytes) short,
      ) in
      rw (short) (Fits-pure _ (omega (arith, size)))
]

receive-Fits : (req : List ℕ) → Fits (receive req)
unfolding receive
receive-Fits req = search (fits_rules, with_size-Fits, recv_reply-Fits) depth 9

dns_reply-IsRoomy : (o : Option ℕ) → IsRoomy (dns_reply o)
unfolding dns_reply
dns_reply-IsRoomy none = omega arith
dns_reply-IsRoomy (some ip) = omega arith

resolve_name-Fits : (req : List ℕ) → Fits (resolve_name req)
unfolding resolve_name
resolve_name-Fits req = search (fits_rules, with_size-Fits, dns_reply-IsRoomy) depth 9

handle-Fits : (yield : M (Unit {0})) (c : Command) (req : List ℕ) → Fits (handle yield c req)
unfolding handle
handle-Fits yield cmd_get_info req = get_info-Fits
handle-Fits yield cmd_ping req = ping-Fits yield req
handle-Fits yield cmd_udp_send req = send-Fits req
handle-Fits yield cmd_udp_recv req = receive-Fits req
handle-Fits yield cmd_udp_bind req = bind_port-Fits req
handle-Fits yield cmd_udp_unbind req = unbind_port-Fits req
handle-Fits yield cmd_dns_resolve req = resolve_name-Fits req
handle-Fits yield cmd_arp_lookup req = look_up-Fits req
handle-Fits yield cmd_arp_flush req = arp_flush-Fits
handle-Fits yield cmd_set_ip req = set_ip-Fits req
handle-Fits yield cmd_unknown req = Fits-status_only (negsuc 98)

-- The reply fits `g_rep`, and what is stored fits `out_buf`.
length-reply_bytes-le :
    (out_size : ℕ) (r : Reply) → IsRoomy r → length (reply_bytes out_size r) ≤ min out_size 1508
unfolding reply_bytes
length-reply_bytes-le out_size r h = omega (
  arith,
  length-take out_size (bytes32 (unsigned32 r.status) ++ (bytes32 (length r.data') ++ r.data')),
)

-- The outcome of a request: refused, or a reply that fits.
abbrev pub Answers : ℕ → Outcome (Option (List ℕ)) → Type 0
Answers out_size (done none s) = Unit {0}
Answers out_size (done (some bytes) s) = length bytes ≤ min out_size 1508
Answers out_size fault = Unit {0}
Answers out_size spin = Unit {0}

answered :
    (out_size : ℕ) (o : Outcome Reply)
    → Yields o
    → Answers out_size (and_then o λ rep. pure (some (reply_bytes out_size rep)))
answered out_size (done r s) h = length-reply_bytes-le out_size r h
answered out_size fault h = tt
answered out_size spin h = tt

-- Whatever the request, what api_invoke stores fits the caller's buffer and `g_rep`.
pub api_invoke-Answers :
    (yield : M (Unit {0})) (req : List ℕ) (out_size : ℕ) (s : Sys)
    → Answers out_size (api_invoke yield req out_size s)
unfolding api_invoke
api_invoke-Answers yield req out_size s = elim (Bool-cases (ltb (length req) 4)) [
  | inl short ↦ rw (short) tt
  | inr long ↦ elim (Option-cases (load32 req 0)) [
    | inl none' ↦ rw (long, api_invoke, none') tt
    | inr (cmd, e) ↦
        rw (long, api_invoke, e)
          (answered out_size (handle yield (decode cmd) req s)
            ((handle-Fits yield (decode cmd) req).at s))
  ]
]
