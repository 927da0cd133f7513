-- ===== src/Dhcp/Client/Message.antt =====
-- Whole DHCP messages of a server, and what dhcp_rx makes of them.
use netd_moduos.Common.{
  ℕ, ◌+◌, ◌-◌, ◌^◌, ◌<◌, ◌≡◌, refl, ap, ◌∙◌, subst, true, List, [], ◌∷◌, ◌++◌, some, ◌==◌, length,
  length-append, drop, drop-append, get_elem?, All, le→not-ltb, ==_iff, arith,
}
use mathlib.Core.List.{append_assoc}
use netd_moduos.Wire.Endian.{ntohl}
use netd_moduos.Wire.Memory.{load32}
use netd_moduos.Wire.Fields.{be32, swapped32, load32_field, ntohl-swapped32}
use netd_moduos.State.{Net, Sys, done, discover, request}
use netd_moduos.Driver.Reply.{IsPrompt}
use netd_moduos.Ip.Tx.Laws.Total.{Traffic, after}
use netd_moduos.Dhcp.Options.{opt_msg_type, opt_subnet, opt_router, opt_dns, opt_server_id}
use netd_moduos.Dhcp.Options.Encoding.{Opt, encode, IsOpt, find_opt}
use netd_moduos.Dhcp.Options.Laws.{
  opt32_value, byte_value, dhcp_get_opt32_lem, dhcp_get_msg_type_lem,
}
use netd_moduos.Dhcp.Client.{
  Lease, dhcp_magic, dhcp_offer, dhcp_ack, accept_offer, accept_ack, read_lease, dhcp_rx,
}
use netd_moduos.Dhcp.Client.React.{react, with_net, dhcp_react-react}

-- A message of a server: `before` are the secs, flags and ciaddr fields, and `behind` all from
-- siaddr to file.
pub record Message : Type 0 where
  pub xid : ℕ
  pub before : List ℕ
  pub your_ip : ℕ
  pub behind : List ℕ
  pub options : List Opt
  pub rest : List ℕ

pub record IsMessage (m : Message) : Type 0 where
  pub xid_fits : m.xid < 2 ^ 32
  pub your_ip_fits : m.your_ip < 2 ^ 32
  pub length_before : length m.before ≡ 8
  pub length_behind : length m.behind ≡ 216
  pub options_fit : All IsOpt m.options

abbrev pub options_bytes : Message → List ℕ
options_bytes m = encode m.options ++ 255 ∷ m.rest

-- BOOTREPLY, Ethernet, six bytes of hardware address, no hops.
abbrev pub reply_start : List ℕ
reply_start = 2 ∷ 1 ∷ 6 ∷ 0 ∷ []

unfoldable pub message_bytes : Message → List ℕ
message_bytes m =
    reply_start
    ++ (be32 m.xid
        ++ (m.before ++ (be32 m.your_ip ++ (m.behind ++ (be32 dhcp_magic ++ options_bytes m)))))

-- What the message says.
abbrev pub lease_of : Message → Lease
lease_of m = record {
  msg_type = byte_value (find_opt opt_msg_type 1 m.options);
  your_ip = m.your_ip;
  server_id = opt32_value (find_opt opt_server_id 4 m.options);
  subnet = opt32_value (find_opt opt_subnet 4 m.options);
  router = opt32_value (find_opt opt_router 4 m.options);
  dns = opt32_value (find_opt opt_dns 4 m.options);
}

-- The bytes before the options.
abbrev head_bytes : Message → List ℕ
head_bytes m =
    reply_start ++ (be32 m.xid ++ (m.before ++ (be32 m.your_ip ++ (m.behind ++ be32 dhcp_magic))))

message_bytes-head : (m : Message) → message_bytes m ≡ head_bytes m ++ options_bytes m
unfolding message_bytes
message_bytes-head m = simp append_assoc

length-head_bytes : (m : Message) → IsMessage m → length (head_bytes m) ≡ 240
length-head_bytes m ok = omega (
  arith,
  ok.length_before,
  ok.length_behind,
  length-append m.before (be32 m.your_ip ++ (m.behind ++ be32 dhcp_magic)),
  length-append m.behind (be32 dhcp_magic),
)

pub length-message_bytes :
    (m : Message) → IsMessage m → length (message_bytes m) ≡ 240 + length (options_bytes m)
length-message_bytes m ok = omega (
  arith,
  ap length (message_bytes-head m),
  length-append (head_bytes m) (options_bytes m),
  length-head_bytes m ok,
)

drop-message_bytes : (m : Message) → IsMessage m → drop 240 (message_bytes m) ≡ options_bytes m
drop-message_bytes m ok =
    ap (drop 240) (message_bytes-head m)
    ∙ subst (λ n. drop n (head_bytes m ++ options_bytes m) ≡ options_bytes m)
        (length-head_bytes m ok) (drop-append (head_bytes m) (options_bytes m))

load_op : (m : Message) → get_elem? (message_bytes m) 0 ≡ some 2
unfolding message_bytes
load_op m = refl

load_xid : (m : Message) → load32 (message_bytes m) 4 ≡ some (swapped32 m.xid)
unfolding message_bytes
load_xid m = load32_field _ reply_start _ 4 m.xid refl refl

load_your_ip :
    (m : Message) → IsMessage m → load32 (message_bytes m) 16 ≡ some (swapped32 m.your_ip)
unfolding message_bytes
load_your_ip m ok =
    let front = reply_start ++ (be32 m.xid ++ m.before) in
    load32_field _ front (m.behind ++ (be32 dhcp_magic ++ options_bytes m)) 16 m.your_ip
      (simp append_assoc) (omega (arith, ok.length_before))

load_magic :
    (m : Message) → IsMessage m → load32 (message_bytes m) 236 ≡ some (swapped32 dhcp_magic)
unfolding message_bytes
load_magic m ok =
    let front = reply_start ++ (be32 m.xid ++ (m.before ++ (be32 m.your_ip ++ m.behind))) in
    load32_field _ front (options_bytes m) 236 dhcp_magic (simp append_assoc) (
      omega (
        arith,
        ok.length_before,
        ok.length_behind,
        length-append m.before (be32 m.your_ip ++ m.behind),
      ))

read_lease-lease_of :
    (m : Message) (s : Sys)
    → IsMessage m
    → read_lease (message_bytes m) (length (message_bytes m)) s ≡ done (lease_of m) s
unfolding read_lease
read_lease-lease_of m s ok =
    let opts = options_bytes m in
    let size : length (message_bytes m) - 236 - 4 ≡ length opts =
      omega (arith, length-message_bytes m ok) in
    rw
      (
        drop-message_bytes m ok,
        size,
        dhcp_get_msg_type_lem m.options m.rest s ok.options_fit,
        load_your_ip m ok,
        dhcp_get_opt32_lem opt_server_id m.options m.rest s ok.options_fit,
        dhcp_get_opt32_lem opt_subnet m.options m.rest s ok.options_fit,
        dhcp_get_opt32_lem opt_router m.options m.rest s ok.options_fit,
        dhcp_get_opt32_lem opt_dns m.options m.rest s ok.options_fit,
        ntohl-swapped32 m.your_ip ok.your_ip_fits,
      )
      refl

-- On a device that answers, dhcp_rx returns on the bytes of every well-formed message of a server
-- that has the transaction of the machine, in every state, and the settings become those of
-- `react` on what the message says, but for the neighbour table, which sending may change.
pub dhcp_rx-message_bytes :
    (lag src_ip : ℕ) (m : Message) (s : Sys)
    → IsPrompt lag s.os.oracle
    → IsMessage m
    → m.xid ≡ s.net.dhcp_xid
    → (t : Traffic) × (dhcp_rx src_ip (message_bytes m) (length (message_bytes m)) s
        ≡ done tt (after t (with_net (react src_ip (lease_of m) s.net) s)))
unfolding dhcp_rx
dhcp_rx-message_bytes lag src_ip m s prompt ok ours =
    let size = length-message_bytes m ok in
    let same : (m.xid == s.net.dhcp_xid) ≡ true = (==_iff m.xid s.net.dhcp_xid).1 ours in
    let magic : (ntohl (swapped32 dhcp_magic) == dhcp_magic) ≡ true =
      (==_iff (ntohl (swapped32 dhcp_magic)) dhcp_magic).1
        (ntohl-swapped32 dhcp_magic (omega arith)) in
    let (t, e) = dhcp_react-react lag src_ip (lease_of m) s prompt in
    (
      t,
      rw
          (
            le→not-ltb (length (message_bytes m)) 240 (omega (arith, size)),
            dhcp_rx,
            load_op m,
            load_xid m,
            ntohl-swapped32 m.xid ok.xid_fits,
            same,
            load_magic m ok,
            magic,
            read_lease-lease_of m s ok,
          )
          e,
    )

-- The first byte of option 53.
abbrev pub type_of : Message → ℕ
type_of m = (lease_of m).msg_type

pub react_offer :
    (src_ip : ℕ) (l : Lease) (n : Net)
    → l.msg_type ≡ dhcp_offer
    → n.dhcp_state ≡ discover
    → react src_ip l n ≡ accept_offer src_ip l n
unfolding react
react_offer src_ip l n offers discovers = rw (offers, discovers) refl

pub react_ack :
    (src_ip : ℕ) (l : Lease) (n : Net)
    → l.msg_type ≡ dhcp_ack
    → n.dhcp_state ≡ request
    → react src_ip l n ≡ accept_ack l n
unfolding react
react_ack src_ip l n grants asked = rw (grants, asked) refl
