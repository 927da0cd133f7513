-- ===== src/Dhcp/Client/Lifecycle.antt =====
-- The states of the client over any sequence of messages of one exchange.
use netd_moduos.Common.{
  ℕ, ◌≡◌, ◌⊎◌, refl, ap, ◌∙◌, sym, subst, List, [], ◌∷◌, ◌==◌, if◌then◌else◌, arith, Bool-cases,
  inl, inr,
}
use netd_moduos.State.{DhcpState, discover, request, bound, failed, Net}
use netd_moduos.Dhcp.Client.{
  dhcp_offer, dhcp_ack, dhcp_nak, or_default, Lease, accept_offer, accept_ack,
}
use netd_moduos.Dhcp.Client.React.{react}

-- Messages with their senders, in the order of their arrival.
unfoldable pub react_all : List (ℕ × Lease) → Net → Net
react_all [] n = n
react_all ((src_ip, l) ∷ ls) n = react_all ls (react src_ip l n)

-- The settings that an acknowledgement gives.
abbrev pub Grants : Lease → Net → Type 0
Grants l n =
    (l.msg_type ≡ dhcp_ack)
    × (n.ip ≡ l.your_ip)
    × (n.netmask ≡ or_default l.subnet 0xffff_ff00)
    × (n.gateway ≡ l.router)
    × (n.dns ≡ l.dns)

-- Some message of the sequence gives the settings.
abbrev pub Granted : List (ℕ × Lease) → Net → Type 0
Granted [] n = ⊥
Granted ((src_ip, l) ∷ ls) n = Grants l n ⊎ Granted ls n

-- An offer, and after it a message that gives the settings.
abbrev pub OfferedAndGranted : List (ℕ × Lease) → Net → Type 0
OfferedAndGranted [] n = ⊥
OfferedAndGranted ((src_ip, l) ∷ ls) n =
    ((l.msg_type ≡ dhcp_offer) × Granted ls n) ⊎ OfferedAndGranted ls n

-- A refusal is final: no later message leads out of it.
pub react_all-failed :
    (ls : List (ℕ × Lease)) (n : Net) → n.dhcp_state ≡ failed → (react_all ls n).dhcp_state ≡ failed
unfolding react_all react
react_all-failed [] n h = h
react_all-failed ((src_ip, l) ∷ ls) n h = react_all-failed ls (react src_ip l n) (ground arith)

failed_not_bound : {s : DhcpState} → s ≡ failed → s ≡ bound → ⊥
failed_not_bound is_failed is_bound' = grind arith

react_discover :
    (src_ip : ℕ) (l : Lease) (n : Net)
    → n.dhcp_state ≡ discover
    → react src_ip l n ≡ (
        if l.msg_type == dhcp_offer
        then accept_offer src_ip l n
        else if l.msg_type == dhcp_nak
        then record n { dhcp_state = failed }
        else n)
unfolding react
react_discover src_ip l n h = ground arith

react_request :
    (src_ip : ℕ) (l : Lease) (n : Net)
    → n.dhcp_state ≡ request
    → react src_ip l n ≡ (
        if l.msg_type == dhcp_ack
        then accept_ack l n
        else if l.msg_type == dhcp_nak
        then record n { dhcp_state = failed }
        else n)
unfolding react
react_request src_ip l n h = ground arith

react_bound :
    (src_ip : ℕ) (l : Lease) (n : Net)
    → n.dhcp_state ≡ bound
    → react src_ip l n ≡ (if l.msg_type == dhcp_nak then record n { dhcp_state = failed } else n)
unfolding react
react_bound src_ip l n h = ground arith

grants : (l : Lease) (n : Net) → l.msg_type ≡ dhcp_ack → Grants l (accept_ack l n)
unfolding accept_ack
grants l n h = (h, refl, refl, refl, refl)

-- A client that is bound at the end and was bound at the start has kept its settings.
react_all-bound :
    (ls : List (ℕ × Lease)) (n : Net)
    → n.dhcp_state ≡ bound
    → (react_all ls n).dhcp_state ≡ bound
    → react_all ls n ≡ n
unfolding react_all
react_all-bound [] n h final = refl
react_all-bound ((src_ip, l) ∷ ls) n h final = elim (Bool-cases (l.msg_type == dhcp_nak)) [
  | inl refused ↦ absurd (
      failed_not_bound
        (react_all-failed ls (react src_ip l n) (rw (react_bound src_ip l n h, refused) refl))
        final)
  | inr other ↦
      let same : react src_ip l n ≡ n = rw (react_bound src_ip l n h, other) refl in
      ap (react_all ls) same
      ∙ react_all-bound ls n h (subst (λ m. (react_all ls m).dhcp_state ≡ bound) same final)
]

-- A client that waits for the answer to its request, and is bound at the end, has been granted its
-- settings.
react_all-request :
    (ls : List (ℕ × Lease)) (n : Net)
    → n.dhcp_state ≡ request
    → (react_all ls n).dhcp_state ≡ bound
    → Granted ls (react_all ls n)
unfolding react_all accept_ack
react_all-request [] n h final = grind arith
react_all-request ((src_ip, l) ∷ ls) n h final = elim (Bool-cases (l.msg_type == dhcp_ack)) [
  | inl granted ↦
      let step : react src_ip l n ≡ accept_ack l n =
        rw (react_request src_ip l n h, granted) refl in
      let end' : react_all ls (react src_ip l n) ≡ accept_ack l n =
        react_all-bound ls (react src_ip l n) (ap (λ m. m.dhcp_state) step) final ∙ step in
      inl (subst (Grants l) (sym end') (grants l n (ground (arith, granted))))
  | inr no_grant ↦ elim (Bool-cases (l.msg_type == dhcp_nak)) [
    | inl refused ↦ absurd (
        failed_not_bound
          (react_all-failed ls (react src_ip l n)
            (rw (react_request src_ip l n h, no_grant, refused) refl))
          final)
    | inr other ↦
        let same : react src_ip l n ≡ n = rw (react_request src_ip l n h, no_grant, other) refl in
        inr (react_all-request ls (react src_ip l n) (ap (λ m. m.dhcp_state) same ∙ h) final)
  ]
]

-- A client that starts an exchange is bound at the end of a sequence of its messages only if an
-- offer arrived and, after it, an acknowledgement that gives exactly the settings it ends with.
pub react_all-OfferedAndGranted :
    (ls : List (ℕ × Lease)) (n : Net)
    → n.dhcp_state ≡ discover
    → (react_all ls n).dhcp_state ≡ bound
    → OfferedAndGranted ls (react_all ls n)
unfolding react_all accept_offer
react_all-OfferedAndGranted [] n h final = grind arith
react_all-OfferedAndGranted ((src_ip, l) ∷ ls) n h final =
    elim (Bool-cases (l.msg_type == dhcp_offer)) [
      | inl offered ↦
          let step : react src_ip l n ≡ accept_offer src_ip l n =
            rw (react_discover src_ip l n h, offered) refl in
          inl (
            ground (arith, offered),
            react_all-request ls (react src_ip l n) (ap (λ m. m.dhcp_state) step) final,
          )
      | inr no_offer ↦ elim (Bool-cases (l.msg_type == dhcp_nak)) [
        | inl refused ↦ absurd (
            failed_not_bound
              (react_all-failed ls (react src_ip l n)
                (rw (react_discover src_ip l n h, no_offer, refused) refl))
              final)
        | inr other ↦
            let same : react src_ip l n ≡ n =
              rw (react_discover src_ip l n h, no_offer, other) refl in
            inr (
              react_all-OfferedAndGranted ls (react src_ip l n) (ap (λ m. m.dhcp_state) same ∙ h)
                final)
      ]
    ]
