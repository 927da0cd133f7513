-- ===== src/Udp/Table/Laws.antt =====
-- The table of bound ports: who is bound, and what a bound port receives.
use netd_moduos.Common.{
  ℕ, zero, suc, ◌+◌, ◌-◌, ◌≤◌, ◌<◌, ◌≡◌, ◌↔◌, refl, ap, sym, ◌∙◌, subst, true, false, List, [], ◌∷◌,
  none, some, ltb, ◌==◌, le→not-ltb, lt→ltb, if◌then◌else◌, arith, length, length-take, take, min,
  All, Bool-cases, Option-cases, inl, inr,
}
use netd_moduos.Wire.Memory.{bytes?, overwrite}
use netd_moduos.State.{UdpBind}
use netd_moduos.Udp.Table.{serves, is_bound, claim, bind, unbind, clipped, deliver, recv, Datagram}

-- How many entries serve a port.
unfoldable pub servers : ℕ → List UdpBind → ℕ
servers port [] = 0
servers port (b ∷ bs) = (if serves port b then 1 else 0) + servers port bs

-- No port is bound twice.
abbrev pub IsDistinct : List UdpBind → Type 0
IsDistinct bs = (port : ℕ) → servers port bs ≤ 1

-- Every receive buffer has its size, and no more bytes are waiting than it holds.
abbrev pub IsSized : List UdpBind → Type 0
IsSized = All (λ b. (length b.buf ≡ 2048) × (b.len ≤ 2048))

is_bound-servers : (port : ℕ) (bs : List UdpBind) → is_bound port bs ≡ false → servers port bs ≡ 0
unfolding is_bound servers
is_bound-servers port [] h = refl
is_bound-servers port (b ∷ bs) h = ground (arith, is_bound-servers port bs)

claim-servers :
    (x port : ℕ) (bs bs' : List UdpBind)
    → claim port bs ≡ some bs'
    → servers x bs' ≡ (if port == x then 1 else 0) + servers x bs
unfolding claim servers
claim-servers x port [] bs' h = cc
claim-servers x port (b ∷ bs) bs' h = elim (Option-cases (claim port bs)) [
  | inl full ↦ ground (arith)
  | inr (rest, e) ↦ ground (arith, claim-servers x port bs rest e)
]

is_bound-one-le : (port : ℕ) (bs : List UdpBind) → is_bound port bs ≡ true → 1 ≤ servers port bs
unfolding is_bound servers
is_bound-one-le port [] h = cc
is_bound-one-le port (b ∷ bs) h = ground (arith, is_bound-one-le port bs)

-- In a table where no port is bound twice, a binding that succeeds leaves its port bound once,
-- and every other port as it was.
pub servers-bind :
    (x port : ℕ) (bs bs' : List UdpBind)
    → IsDistinct bs
    → bind port bs ≡ some bs'
    → servers x bs' ≡ (if x == port then 1 else servers x bs)
unfolding bind
servers-bind x port bs bs' distinct h = elim (Bool-cases (is_bound port bs)) [
  | inl here ↦
      let same : bs ≡ bs' = cc (rw (here, bind) at h) in
      rw (← same) (ground (arith, is_bound-one-le port bs here, distinct port))
  | inr new ↦
      ground
        (arith, claim-servers x port bs bs' (rw (new, bind) at h), is_bound-servers port bs new)
]

claim-none : (port : ℕ) (bs : List UdpBind) → claim port bs ≡ none → All (λ b. b.used ≡ true) bs
unfolding claim
claim-none port [] h = tt
claim-none port (b ∷ bs) h = ground (arith, claim-none port bs)

claim_full : (port : ℕ) (bs : List UdpBind) → All (λ b. b.used ≡ true) bs → claim port bs ≡ none
unfolding claim
claim_full port [] h = refl
claim_full port (b ∷ bs) h = ground (arith, claim_full port bs h.1)

-- Binding fails exactly when the port is not bound and every entry is in use.
pub bind-eq-none_iff :
    (port : ℕ) (bs : List UdpBind)
    → (bind port bs ≡ none) ↔ ((servers port bs ≡ 0) × All (λ b. b.used ≡ true) bs)
unfolding bind
bind-eq-none_iff port bs = elim (Bool-cases (is_bound port bs)) [
  | inl here ↦
      let some' : 1 ≤ servers port bs = is_bound-one-le port bs here in
      rw (here, bind) ((λ e. cc e), (λ h. absurd (omega (arith, h.0, some'))))
  | inr new ↦
      rw (new, bind)
        ((λ e. (is_bound-servers port bs new, claim-none port bs e)), (λ h. claim_full port bs h.1))
]

-- Unbinding a port takes away one binding of it, if there is one, and leaves every other port as
-- it was.
pub servers-unbind :
    (x port : ℕ) (bs : List UdpBind)
    → servers x (unbind port bs) ≡ servers x bs - (if x == port then 1 else 0)
unfolding unbind servers
servers-unbind x port [] = ground arith
servers-unbind x port (b ∷ bs) = ground (arith, servers-unbind x port bs)

overwrite_fits :
    (xs ys : List ℕ)
    → length ys ≤ length xs
    → (zs : List ℕ) × (overwrite xs ys ≡ some zs)
      × (length zs ≡ length xs)
      × (take (length ys) zs ≡ ys)
unfolding overwrite
overwrite_fits xs [] h = (xs, refl, refl, refl)
overwrite_fits [] (y ∷ ys) h = absurd (omega arith)
overwrite_fits (x ∷ xs) (y ∷ ys) h =
    let (zs, e, size, head') = overwrite_fits xs ys (omega arith) in
    (y ∷ zs, rw (e, overwrite) refl, omega (arith, size), ap (λ l. y ∷ l) head')

take-take : (m c : ℕ) (xs : List ℕ) → m ≤ c → take m (take c xs) ≡ take m xs
take-take zero c xs h = refl
take-take (suc m) zero xs h = absurd (omega arith)
take-take (suc m) (suc c) [] h = refl
take-take (suc m) (suc c) (x ∷ xs) h = ap (λ l. x ∷ l) (take-take m c xs (omega arith))

-- What one entry holds after a delivery.
module _ (port src_ip src_port len : ℕ) (payload : List ℕ) (enough : len ≤ length payload) where
  abbrev delivered : UdpBind → List ℕ → UdpBind
  delivered b buf = record b { buf = buf; len = clipped len; src_ip = src_ip; src_port = src_port }

  deliver_here :
      (b : UdpBind) (bs : List UdpBind)
      → serves port b ≡ true
      → length b.buf ≡ 2048
      → (buf : List ℕ) × (deliver port src_ip src_port payload len (b ∷ bs)
          ≡ some (delivered b buf ∷ bs))
        × (length buf ≡ 2048)
        × (take (clipped len) buf ≡ take (clipped len) payload)
  unfolding deliver bytes?
  deliver_here b bs here size =
      let c : ℕ = clipped len in
      let c_len : c ≤ len = ground arith in
      let c_buf : c ≤ 2048 = ground arith in
      let copied : length (take c payload) ≡ c = omega (arith, length-take c payload) in
      let (buf, e, size', same) = overwrite_fits b.buf (take c payload) (omega arith) in
      (
        buf,
        rw (here, deliver, le→not-ltb (length payload) c (omega arith), bytes?, e) refl,
        omega (arith, size'),
        subst (λ n. take n buf ≡ take c payload) copied same,
      )

  -- The datagram that the port's owner reads.
  abbrev pub received : ℕ → Datagram
  received max = record {
    bytes = take (min max (min len 2048)) payload;
    src_ip = src_ip;
    src_port = src_port;
  }

  recv_here :
      (max : ℕ) (b : UdpBind) (buf : List ℕ) (bs : List UdpBind)
      → serves port b ≡ true
      → 0 < len
      → take (clipped len) buf ≡ take (clipped len) payload
      → recv port max (delivered b buf ∷ bs)
        ≡ (some (received max), record (delivered b buf) { len = 0 } ∷ bs)
  unfolding recv
  recv_here max b buf bs here some' same =
      let c : ℕ = clipped len in
      let m : ℕ = min max (min len 2048) in
      let waiting : ltb 0 c ≡ true = lt→ltb 0 c (ground arith) in
      let count : (if ltb c max then c else max) ≡ m = ground arith in
      let small : m ≤ c = ground arith in
      let bytes : take m buf ≡ take m payload =
        sym (take-take m c buf small) ∙ ap (take m) same ∙ take-take m c payload small in
      rw (here, recv, waiting, count, bytes) refl

  -- A datagram for a bound port, received whole, is kept and then handed out once: as many of its
  -- bytes as the receive buffer and the caller's buffer hold, with its sender. All buffers keep
  -- their size.
  pub recv-deliver :
      (max : ℕ) (bs : List UdpBind)
      → IsSized bs
      → 1 ≤ servers port bs
      → 0 < len
      → (bs' bs'' : List UdpBind) × (deliver port src_ip src_port payload len bs ≡ some bs')
        × (recv port max bs' ≡ (some (received max), bs''))
        × IsSized bs'
  unfolding deliver recv servers
  recv-deliver max [] sized bound' some' = absurd (omega arith)
  recv-deliver max (b ∷ bs) sized bound' some' = elim (Bool-cases (serves port b)) [
    | inl here ↦
        let (buf, e, size, same) = deliver_here b bs here sized.0.0 in
        (
          delivered b buf ∷ bs,
          record (delivered b buf) { len = 0 } ∷ bs,
          e,
          recv_here max b buf bs here some' same,
          ((size, ground arith), sized.1),
        )
    | inr other ↦
        let (bs', bs'', e, e', sized') =
          recv-deliver max bs sized.1 (ground (arith, bound', other)) some' in
        (
          b ∷ bs',
          b ∷ bs'',
          rw (other, deliver, e) refl,
          rw (other, recv, e') refl,
          (sized.0, sized'),
        )
  ]
