-- ===== src/Common/Bits.antt =====
-- `|` of disjoint fields and `&` with a mask, as arithmetic on numbers of every size. Both work on
-- each binary digit apart, and so on the fields of a number.
use Prim.Native.Nat.{digits, bitwise, bit_and-bitwise, bit_or-bitwise, max}
use native.Mathlib.Nat.{pow-suc, one-le-pow}
use Prim.Native.Nat.{ℕ, zero, suc, ◌+◌, ◌-◌, ◌*◌, ◌/◌, ◌%◌, ◌^◌, ◌≤◌, ◌<◌, bit_and, bit_or, min}
use mathlib.Core.Path.{◌≡◌, refl, ap, sym, ◌∙◌}
use native.Mathlib.Omega.{arith}

-- An operation that combines the lowest digits by `f` and goes on with the others.
abbrev Digitwise : (ℕ → ℕ → ℕ) → (ℕ → ℕ → ℕ) → Type 0
Digitwise f g = (x y : ℕ) → g x y ≡ f (x % 2) (y % 2) + 2 * g (x / 2) (y / 2)

-- The native operations are `digits` with the first operand as fuel; more fuel adds nothing.
module _ (z : ℕ → ℕ) (f : ℕ → ℕ → ℕ) where
  digits_zero : (n y : ℕ) → digits z f n 0 y ≡ z y
  digits_zero zero y = refl
  digits_zero (suc n) y = refl

  digits_same : (x y n m : ℕ) → x ≤ min n m → digits z f n x y ≡ digits z f m x y
  digits_same zero y n m le = digits_zero n y ∙ sym (digits_zero m y)
  digits_same (suc x) y zero m le = absurd (omega arith)
  digits_same (suc x) y (suc n) zero le = absurd (omega arith)
  digits_same (suc x) y (suc n) (suc m) le =
      let rest = digits_same (suc x / 2) (y / 2) n m (omega arith) in omega (arith, rest)

  bitwise_next :
      (x y : ℕ)
      → bitwise z f (suc x) y ≡ f (suc x % 2) (y % 2) + 2 * bitwise z f (suc x / 2) (y / 2)
  bitwise_next x y =
      let rest = digits_same (suc x / 2) (y / 2) x (suc x / 2) (omega arith) in omega (arith, rest)

bit_or-Digitwise : Digitwise max bit_or
bit_or-Digitwise zero y = simp bit_or-bitwise (omega arith)
bit_or-Digitwise (suc x) y = simp bit_or-bitwise (bitwise_next (λ b. b) max x y)

bit_and-Digitwise : Digitwise min bit_and
bit_and-Digitwise zero y = simp bit_and-bitwise (omega arith)
bit_and-Digitwise (suc x) y = simp bit_and-bitwise (bitwise_next (λ b. 0) min x y)

double_pow : (q k : ℕ) → q * 2 ^ suc k ≡ q * 2 ^ k + q * 2 ^ k
double_pow q k = grind (arith, pow-suc 2 k)

module _ (f g : ℕ → ℕ → ℕ) (each : Digitwise f g) (none_set : f 0 0 ≡ 0) where
  -- Such an operation works on the digits from `k` on and on those below it apart.
  split_at :
      (k q r m s : ℕ)
      → r < 2 ^ k
      → s < 2 ^ k
      → g (q * 2 ^ k + r) (m * 2 ^ k + s) ≡ g q m * 2 ^ k + g r s
  split_at zero q r m s hr hs =
      let r0 : r ≡ 0 = omega arith in
      let s0 : s ≡ 0 = omega arith in
      let whole : (n : ℕ) → n * 2 ^ 0 + 0 ≡ n = λ n. omega arith in
      let nothing' : g 0 0 ≡ 0 = omega (arith, each 0 0, none_set) in
      rw (r0, s0, whole q, whole m) (omega (arith, nothing'))
  split_at (suc k) q r m s hr hs =
      let ih =
        split_at k q (r / 2) m (s / 2) (omega (arith, pow-suc 2 k)) (omega (arith, pow-suc 2 k)) in
      each (q * 2 ^ suc k + r) (m * 2 ^ suc k + s)
      ∙ ap
          (λ n.
            f n ((m * 2 ^ suc k + s) % 2)
            + 2 * g ((q * 2 ^ suc k + r) / 2) ((m * 2 ^ suc k + s) / 2))
          (low q r)
      ∙ ap (λ n. f (r % 2) n + 2 * g ((q * 2 ^ suc k + r) / 2) ((m * 2 ^ suc k + s) / 2)) (low m s)
      ∙ ap (λ n. f (r % 2) (s % 2) + 2 * g n ((m * 2 ^ suc k + s) / 2)) (high q r)
      ∙ ap (λ n. f (r % 2) (s % 2) + 2 * g (q * 2 ^ k + r / 2) n) (high m s)
      ∙ omega (arith, ih, each r s, double_pow (g q m) k)
    where
      low : (x y : ℕ) → (x * 2 ^ suc k + y) % 2 ≡ y % 2
      low x y = omega (arith, double_pow x k)

      high : (x y : ℕ) → (x * 2 ^ suc k + y) / 2 ≡ x * 2 ^ k + y / 2
      high x y = omega (arith, double_pow x k)

bit_or-left : (y : ℕ) → bit_or 0 y ≡ y
bit_or-left y = simp bit_or-bitwise refl

bit_and-left : (y : ℕ) → bit_and 0 y ≡ 0
bit_and-left y = bit_and-bitwise 0 y

-- With nothing on the right; `n` bounds the number of digits.
bit_or-right : (n x : ℕ) → x ≤ n → bit_or x 0 ≡ x
bit_or-right zero x le = ground (arith, bit_or-left 0)
bit_or-right (suc n) x le =
    omega (arith, bit_or-Digitwise x 0, bit_or-right n (x / 2) (omega arith))

bit_and-right : (n x : ℕ) → x ≤ n → bit_and x 0 ≡ 0
bit_and-right zero x le = ground (arith, bit_and-left 0)
bit_and-right (suc n) x le =
    omega (arith, bit_and-Digitwise x 0, bit_and-right n (x / 2) (omega arith))

pow_positive : (k : ℕ) → 0 < 2 ^ k
pow_positive k = omega (arith, one-le-pow k 2)

-- `(q << k) | r` is a sum when `r` fits `k` bits, and so is `r | (q << k)`.
pub bit_or_fields : (k q r : ℕ) → r < 2 ^ k → bit_or (q * 2 ^ k) r ≡ q * 2 ^ k + r
bit_or_fields k q r small = ground (
  arith,
  split_at max bit_or bit_or-Digitwise refl k q 0 0 r (pow_positive k) small,
  bit_or-right q q (omega arith),
  bit_or-left r,
)

pub bit_or_fields_low : (k q r : ℕ) → r < 2 ^ k → bit_or r (q * 2 ^ k) ≡ q * 2 ^ k + r
bit_or_fields_low k q r small = ground (
  arith,
  split_at max bit_or bit_or-Digitwise refl k 0 r q 0 small (pow_positive k),
  bit_or-left q,
  bit_or-right r r (omega arith),
)

-- `k` ones keep a number of at most `k` digits.
bit_and_ones : (k r : ℕ) → r < 2 ^ k → bit_and r (2 ^ k - 1) ≡ r
bit_and_ones zero r small = ground (arith, bit_and-left 0)
bit_and_ones (suc k) r small =
    let odd : 2 ^ suc k - 1 ≡ 2 * (2 ^ k - 1) + 1 = omega (arith, pow-suc 2 k, one-le-pow k 2) in
    let half : (2 * (2 ^ k - 1) + 1) / 2 ≡ 2 ^ k - 1 = omega arith in
    let ih = bit_and_ones k (r / 2) (omega (arith, pow-suc 2 k)) in
    rw odd (
      omega (
        arith,
        bit_and-Digitwise r (2 * (2 ^ k - 1) + 1),
        ap (λ (n : ℕ). bit_and (r / 2) n) half,
        ih,
      ))

-- A mask that starts at bit `k` keeps the bits above it.
pub bit_and_above : (k a m : ℕ) → bit_and a (m * 2 ^ k) ≡ bit_and (a / 2 ^ k) m * 2 ^ k
bit_and_above k a m = ground (
  arith,
  one-le-pow k 2,
  split_at min bit_and bit_and-Digitwise refl k (a / 2 ^ k) (a % 2 ^ k) m 0,
  bit_and-right (a % 2 ^ k) (a % 2 ^ k),
)

-- A mask of the `k` lowest bits is the remainder by `2 ^ k`.
pub bit_and_mask : (k a : ℕ) → bit_and a (2 ^ k - 1) ≡ a % 2 ^ k
bit_and_mask k a = ground (
  one-le-pow k 2,
  split_at min bit_and bit_and-Digitwise refl k (a / 2 ^ k) (a % 2 ^ k) 0 (2 ^ k - 1),
  bit_and-right (a / 2 ^ k) (a / 2 ^ k),
  bit_and_ones k (a % 2 ^ k),
  arith,
)
