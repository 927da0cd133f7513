-- ===== src/Ip/Tx/Laws/Route.antt =====
-- The next hop of a packet.
use netd_moduos.Common.{
  ℕ, ◌-◌, ◌*◌, ◌/◌, ◌^◌, ◌≤◌, ◌<◌, ◌≡◌, ◌≢◌, ap, sym, ◌∙◌, Bool-cases, inl, inr, ==_iff, ==-refl,
  ne→not-eq, ◌==◌, if◌then◌else◌, arith, bit_and,
}
use netd_moduos.Common.Bits.{bit_and_above, bit_and_mask}
use native.Mathlib.Nat.{one-le-pow}
use netd_moduos.State.{Net}
use netd_moduos.Ip.Tx.{next_hop}

-- The network part of an address under a mask of `k` ones above `j` zeros.
prefix_part : (j k a : ℕ) → a / 2 ^ j < 2 ^ k → bit_and a ((2 ^ k - 1) * 2 ^ j) ≡ a / 2 ^ j * 2 ^ j
prefix_part j k a fits =
    rw (bit_and_above j a (2 ^ k - 1), bit_and_mask k (a / 2 ^ j))
      (ap (λ (n : ℕ). n * 2 ^ j) (grind arith))

mul_cancel : (a b p : ℕ) → 1 ≤ p → a * p ≡ b * p → a ≡ b
mul_cancel a b p h e = grind arith

scaled : (a b p : ℕ) → 1 ≤ p → (a * p == b * p) ≡ (a == b)
scaled a b p h = elim (Bool-cases (a == b)) [
  | inl same ↦ rw ((==_iff a b).0 same) (==-refl (b * p) ∙ sym (==-refl b))
  | inr other ↦
      rw other (ne→not-eq (a * p) (b * p) (λ e. cc ((==_iff a b).1 (mul_cancel a b p h e), other)))
]

-- With a gateway and a netmask of `k` ones above `j` zeros, and addresses of `k + j` bits, a
-- packet goes straight to its destination exactly when that agrees with the machine's address
-- above the lowest `j` bits, and to the gateway otherwise.
pub next_hop-prefix :
    (n : Net) (j k dst : ℕ)
    → n.gateway ≢ 0
    → n.netmask ≡ (2 ^ k - 1) * 2 ^ j
    → dst / 2 ^ j < 2 ^ k
    → n.ip / 2 ^ j < 2 ^ k
    → next_hop n dst ≡ (if dst / 2 ^ j == n.ip / 2 ^ j then dst else n.gateway)
unfolding next_hop
next_hop-prefix n j k dst gw mask hd hi =
    let same = scaled (dst / 2 ^ j) (n.ip / 2 ^ j) (2 ^ j) (one-le-pow j 2 (omega arith)) in
    rw
      (
        ne→not-eq n.gateway 0 gw,
        next_hop,
        mask,
        prefix_part j k dst hd,
        prefix_part j k n.ip hi,
        same,
      )
      (ground arith)
