-- ===== src/Udp/Table.antt =====
-- udp_bind, udp_unbind, udp_recv and the delivery loop of udp_rx: the table of bound ports.
pub mod Laws
use netd_moduos.Common.{
  ℕ, Bool, true, false, ◌&&◌, List, [], ◌∷◌, Option, none, some, ltb, ◌==◌, if◌then◌else◌, take,
}
use netd_moduos.Wire.Constants.{udp_rxbuf_size}
use netd_moduos.Wire.Memory.{bytes?, overwrite}
use netd_moduos.State.{
  UdpBind, zero_udp_bind, Net, M, pure, need, gets, modify, ◌>>=◌, ◌>>◌, and_then,
}

-- `udp_binds[i].used && udp_binds[i].port == port`.
abbrev pub serves : ℕ → UdpBind → Bool
serves port b = b.used && (b.port == port)

unfoldable pub is_bound : ℕ → List UdpBind → Bool
is_bound port [] = false
is_bound port (b ∷ bs) = let rest = is_bound port bs in if serves port b then true else rest

-- The second loop of udp_bind: `none` if the table is full.
unfoldable pub claim : ℕ → List UdpBind → Option (List UdpBind)
claim port [] = none
claim port (b ∷ bs) =
    let rest = claim port bs in
    if b.used
    then (elim rest [ none ↦ none | some bs' ↦ some (b ∷ bs') ])
    else some (record zero_udp_bind { port = port; used = true } ∷ bs)

-- What udp_bind does to the table: `none` is its -1.
unfoldable pub bind : ℕ → List UdpBind → Option (List UdpBind)
bind port bs = if is_bound port bs then some bs else claim port bs

unfoldable pub udp_bind : ℕ → M Bool
udp_bind port = do
  bs ← gets (λ n. n.udp_binds)
  elim (bind port bs) [
    | none ↦ pure false
    | some bs' ↦ (modify (λ n. record n { udp_binds = bs' }) >> pure true)
  ]

unfoldable pub unbind : ℕ → List UdpBind → List UdpBind
unbind port [] = []
unbind port (b ∷ bs) =
    let rest = unbind port bs in if serves port b then record b { used = false } ∷ bs else b ∷ rest

unfoldable pub udp_unbind : ℕ → M (Unit {0})
udp_unbind port = modify (λ n. record n { udp_binds = unbind port n.udp_binds })

-- `copy` of udp_rx.
abbrev pub clipped : ℕ → ℕ
clipped len = if ltb len udp_rxbuf_size then len else udp_rxbuf_size

-- The delivery loop of udp_rx for the `len` bytes of a payload; `none` is a read or a write
-- outside a buffer.
unfoldable pub deliver : ℕ → ℕ → ℕ → List ℕ → ℕ → List UdpBind → Option (List UdpBind)
deliver port src_ip src_port payload len [] = some []
deliver port src_ip src_port payload len (b ∷ bs) =
    let rest = deliver port src_ip src_port payload len bs in
    if serves port b
    then (elim (bytes? payload (clipped len)) [
      | none ↦ none
      | some copied ↦ elim (overwrite b.buf copied) [
        | none ↦ none
        | some buf' ↦
            some (
              record b { buf = buf'; len = clipped len; src_ip = src_ip; src_port = src_port } ∷ bs)
      ]
    ])
    else (elim rest [ none ↦ none | some bs' ↦ some (b ∷ bs') ])

-- What udp_recv hands out: the bytes, and where they came from.
pub record Datagram : Type 0 where
  pub bytes : List ℕ
  pub src_ip : ℕ
  pub src_port : ℕ

-- The loop of udp_recv. `none` is its 0: no bound port with bytes waiting.
unfoldable pub recv : ℕ → ℕ → List UdpBind → Option Datagram × List UdpBind
recv port max [] = (none, [])
recv port max (b ∷ bs) =
    let rest = recv port max bs in
    if serves port b && ltb 0 b.len
    then (
      some (record {
        bytes = take (if ltb b.len max then b.len else max) b.buf;
        src_ip = b.src_ip;
        src_port = b.src_port;
      }),
      record b { len = 0 } ∷ bs,
    )
    else (rest.0, b ∷ rest.1)

-- udp_recv with a buffer for the bytes and places for the sender.
unfoldable pub udp_recv : ℕ → ℕ → M (Option Datagram)
udp_recv port max = do
  bs ← gets (λ n. n.udp_binds)
  let r = recv port max bs
  modify (λ n. record n { udp_binds = r.1 })
  pure r.0
