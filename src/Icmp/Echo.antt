-- ===== src/Icmp/Echo.antt =====
-- The echo reply that icmp_rx (icmp.c) makes of a request.
use netd_moduos.Common.{
  ℕ, suc, ◌%◌, ◌/◌, ◌≤◌, ◌≡◌, refl, List, [], ◌∷◌, some, le→not-ltb, arith, length, take,
  length-take, length-set, set, All,
}
use netd_moduos.Wire.Endian.{htons}
use netd_moduos.Wire.Memory.{bytes?}
use netd_moduos.Wire.Loads.{load16_inside}
use netd_moduos.Wire.Cksum.{inet_cksum}
use netd_moduos.Wire.Cksum.Laws.{IsByte, inet_cksum-verifies, htons_cksum}
use netd_moduos.State.{Sys}
use netd_moduos.Icmp.{echo_reply, answer_echo, icmp_rx}

-- The reply to a request of four header bytes and at most 1496 bytes behind them is the request
-- with type and code 0 and another checksum, and it checksums to zero.
pub echo_reply_lem :
    (type code k0 k1 : ℕ) (rest : List ℕ)
    → All IsByte rest
    → length rest ≤ 1496
    → (hi lo : ℕ) × (echo_reply (type ∷ code ∷ k0 ∷ k1 ∷ rest) ≡ 0 ∷ 0 ∷ hi ∷ lo ∷ rest)
      × (inet_cksum (0 ∷ 0 ∷ hi ∷ lo ∷ rest) ≡ 0)
unfolding echo_reply
echo_reply_lem type code k0 k1 rest bytes small =
    let c = inet_cksum (0 ∷ 0 ∷ 0 ∷ 0 ∷ rest) in
    let (hi, lo) = htons_cksum (0 ∷ 0 ∷ 0 ∷ 0 ∷ rest) in
    (
      c / 256,
      c % 256,
      rw (hi, lo) refl,
      inet_cksum-verifies (0 ∷ 0 ∷ []) rest (omega arith) bytes (omega arith) (omega arith),
    )

pub bytes?_inside : (src : List ℕ) (n : ℕ) → n ≤ length src → bytes? src n ≡ some (take n src)
unfolding bytes?
bytes?_inside src n h = rw (le→not-ltb (length src) n h) refl

-- The dispatch of icmp_rx, once the header is read.
pub icmp_rx_request :
    (src len : ℕ) (rest : List ℕ) (s : Sys)
    → 8 ≤ len
    → len ≤ suc (length rest)
    → icmp_rx src (8 ∷ rest) len s ≡ answer_echo src (8 ∷ rest) len s
unfolding icmp_rx
icmp_rx_request src len rest s big fits =
    rw
      (
        le→not-ltb len 8 big,
        icmp_rx,
        load16_inside (8 ∷ rest) 4 (omega arith),
        load16_inside (8 ∷ rest) 6 (omega arith),
      )
      refl

length-echo_reply : (xs : List ℕ) → length (echo_reply xs) ≡ length xs
unfolding echo_reply
length-echo_reply xs =
    let a = set xs 0 0 in
    let b = set a 1 0 in
    let c = set b 2 0 in
    let d = set c 3 0 in
    let k = htons (inet_cksum d) in
    omega (
      arith,
      length-set xs 0 0,
      length-set a 1 0,
      length-set b 2 0,
      length-set c 3 0,
      length-set d 2 (k % 256),
      length-set (set d 2 (k % 256)) 3 (k / 256 % 256),
    )

pub length-echo_reply-take :
    (n : ℕ) (xs : List ℕ) → n ≤ length xs → length (echo_reply (take n xs)) ≡ n
length-echo_reply-take n xs h = omega (arith, length-echo_reply (take n xs), length-take n xs)
