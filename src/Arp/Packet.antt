-- ===== src/Arp/Packet.antt =====
-- arp_send, arp_announce, arp_request and arp_rx.
use netd_moduos.Common.{
  ℕ, ◌+◌, Bool, not, ◌&&◌, List, Option, some, none, ltb, ◌==◌, if◌then◌else◌, set, get_elem?,
  length, replicate,
}
use netd_moduos.Wire.Constants.{ethertype_arp, arp_op_request, arp_op_reply}
use netd_moduos.Wire.Endian.{htons, htonl, ntohs, ntohl}
use netd_moduos.Wire.Memory.{store, store16, store32, load16, load32}
use netd_moduos.State.{Mac, mac_bytes, bcast_mac, M, skip, need, gets, ignore, ◌>>=◌, ◌>>◌}
use netd_moduos.Driver.{driver_tx}
use netd_moduos.Arp.Cache.{arp_learn}

-- The frame that arp_send builds; `own` is `g_net.mac`.
unfoldable pub arp_frame : Mac → ℕ → Mac → ℕ → ℕ → List ℕ
arp_frame own op dst_mac src_ip dst_ip =
    let blank : List ℕ = replicate 42 0 in
    let ethernet : List ℕ =
      store16 (store (store blank 0 (mac_bytes dst_mac)) 6 (mac_bytes own)) 12
        (htons ethertype_arp) in
    let fixed : List ℕ =
      set (set (store16 (store16 ethernet 14 (htons 1)) 16 (htons 0x0800)) 18 6) 19 4 in
    let sender : List ℕ =
      store32 (store (store16 fixed 20 (htons op)) 22 (mac_bytes own)) 28 (htonl src_ip) in
    store32 (store sender 32 (mac_bytes dst_mac)) 38 (htonl dst_ip)

unfoldable pub arp_send : ℕ → Mac → ℕ → ℕ → M (Unit {0})
arp_send op dst_mac src_ip dst_ip = do
  own ← gets (λ n. n.mac)
  ignore (driver_tx (arp_frame own op dst_mac src_ip dst_ip))

unfoldable pub arp_announce : M (Unit {0})
arp_announce = do ip ← gets (λ n. n.ip); arp_send arp_op_request bcast_mac ip ip

unfoldable pub arp_request : ℕ → M (Unit {0})
arp_request target = do ip ← gets (λ n. n.ip); arp_send arp_op_request bcast_mac ip target

-- Six bytes read as an address.
unfoldable pub load_mac : List ℕ → ℕ → Option Mac
load_mac buf i = elim (get_elem? buf i) [
  | none ↦ none
  | some m0 ↦ elim (get_elem? buf (i + 1)) [
    | none ↦ none
    | some m1 ↦ elim (get_elem? buf (i + 2)) [
      | none ↦ none
      | some m2 ↦ elim (get_elem? buf (i + 3)) [
        | none ↦ none
        | some m3 ↦ elim (get_elem? buf (i + 4)) [
          | none ↦ none
          | some m4 ↦ elim (get_elem? buf (i + 5)) [
            | none ↦ none
            | some m5 ↦ some (record { m0 = m0; m1 = m1; m2 = m2; m3 = m3; m4 = m4; m5 = m5 })
          ]
        ]
      ]
    ]
  ]
]

-- The end of arp_rx: whether the packet asks for the address of this machine.
unfoldable pub asks_for : ℕ → ℕ → ℕ → Bool
asks_for own op dst_ip = (op == arp_op_request) && ((dst_ip == own) && not (own == 0))

-- The two `if`s at the end of arp_rx.
unfoldable pub arp_answer : ℕ → ℕ → ℕ → Mac → M (Unit {0})
arp_answer op src_ip dst_ip src_mac = do
  own ← gets (λ n. n.ip)
  if asks_for own op dst_ip then arp_send arp_op_reply src_mac own src_ip else skip

unfoldable pub arp_hear : ℕ → Mac → M (Unit {0})
arp_hear src_ip src_mac = if src_ip == 0 then skip else arp_learn src_ip src_mac

-- arp_rx, on the `len` bytes of a frame. `arp` of the source is `frame + 14`.
unfoldable pub arp_rx : List ℕ → M (Unit {0})
arp_rx frame = if ltb (length frame) 42 then skip else (do
  op ← need (load16 frame 20)
  src_ip ← need (load32 frame 28)
  dst_ip ← need (load32 frame 38)
  src_mac ← need (load_mac frame 22)
  arp_hear (ntohl src_ip) src_mac
  arp_answer (ntohs op) (ntohl src_ip) (ntohl dst_ip) src_mac)
