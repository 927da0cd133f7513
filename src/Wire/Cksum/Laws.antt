-- ===== src/Wire/Cksum/Laws.antt =====
-- What `inet_cksum` computes, and that a stored checksum verifies.
use netd_moduos.Common.{
  ℕ, ◌+◌, ◌*◌, ◌/◌, ◌%◌, ◌^◌, ◌<◌, ◌≤◌, bit_and, bit_or, ◌≡◌, ◌⊎◌, arith, List, [], ◌∷◌, ◌++◌,
  length, All,
}
use netd_moduos.Common.Bits.{bit_or_fields, bit_and_mask}
use netd_moduos.Wire.Endian.{htons, htons_bytes}
use netd_moduos.Wire.Cksum.{sum_words, fold_carries, inet_cksum}

abbrev pub IsByte : ℕ → Type 0
IsByte b = b < 256

-- The sum of the big-endian 16-bit words, with no wrap.
pub word_sum : List ℕ → ℕ
word_sum [] = 0
word_sum (last ∷ []) = last * 256
word_sum (hi ∷ lo ∷ rest) = hi * 256 + lo + word_sum rest

word_sum-le : (xs : List ℕ) → All IsByte xs → word_sum xs ≤ 65535 * length xs
unfolding word_sum
word_sum-le [] h = omega arith
word_sum-le (x ∷ []) h = omega arith
word_sum-le (x ∷ y ∷ xs) h = omega (arith, word_sum-le xs h.1.1)

-- Short of a wrap the loop computes the plain sum.
sum_words-eq-word_sum :
    (sum : ℕ) (xs : List ℕ)
    → All IsByte xs
    → sum + word_sum xs < 2 ^ 32
    → sum_words sum xs ≡ sum + word_sum xs
unfolding sum_words word_sum
sum_words-eq-word_sum sum [] h fits = omega arith
sum_words-eq-word_sum sum (x ∷ []) h fits = omega arith
sum_words-eq-word_sum sum (x ∷ y ∷ xs) h fits =
    let word : bit_or (x * 2 ^ 8) y ≡ x * 256 + y = bit_or_fields 8 x y (omega arith) in
    rw (word) (
      let wrap : (sum + (x * 256 + y)) % 2 ^ 32 ≡ sum + (x * 256 + y) = omega arith in
      rw wrap (omega (arith, sum_words-eq-word_sum (sum + (x * 256 + y)) xs h.1.1 (omega arith))))

-- Two rounds end the loop on every `uint32_t`, and keep the sum modulo 65535 and its being zero.
pub fold_carries_lem :
    (s : ℕ)
    → s < 2 ^ 32
    → (fold_carries 2 s < 2 ^ 16)
      × (fold_carries 2 s % 65535 ≡ s % 65535)
      × (((fold_carries 2 s ≡ 0) × (s ≡ 0)) ⊎ ((0 < fold_carries 2 s) × (0 < s)))
unfolding fold_carries
fold_carries_lem s h =
    ground (arith, bit_and_mask 16 s, bit_and_mask 16 (bit_and s 0xffff + s / 2 ^ 16))

inet_cksum_lem :
    (xs : List ℕ)
    → All IsByte xs
    → word_sum xs < 2 ^ 32
    → (inet_cksum xs < 2 ^ 16)
      × ((inet_cksum xs + word_sum xs) % 65535 ≡ 0)
      × (((inet_cksum xs ≡ 65535) × (word_sum xs ≡ 0))
          ⊎ ((inet_cksum xs < 65535) × (0 < word_sum xs)))
unfolding inet_cksum
inet_cksum_lem xs h fits =
    let plain : sum_words 0 xs ≡ word_sum xs =
      omega (arith, sum_words-eq-word_sum 0 xs h (omega arith)) in
    rw plain (ground (arith, fold_carries_lem (word_sum xs) fits))

word_sum-splice :
    (pre rest : List ℕ) (hi lo : ℕ)
    → length pre % 2 ≡ 0
    → word_sum (pre ++ hi ∷ lo ∷ rest) ≡ word_sum pre + (hi * 256 + lo) + word_sum rest
unfolding word_sum
word_sum-splice [] rest hi lo h = omega arith
word_sum-splice (x ∷ []) rest hi lo h = absurd (omega arith)
word_sum-splice (x ∷ y ∷ pre) rest hi lo h =
    omega (arith, word_sum-splice pre rest hi lo (omega arith))

All-splice :
    (pre rest : List ℕ) (hi lo : ℕ)
    → All IsByte pre
    → All IsByte rest
    → hi < 256
    → lo < 256
    → All IsByte (pre ++ hi ∷ lo ∷ rest)
All-splice [] rest hi lo hp hr hh hl = (hh, (hl, hr))
All-splice (x ∷ pre) rest hi lo hp hr hh hl = (hp.0, All-splice pre rest hi lo hp.1 hr hh hl)

splice_fits :
    (pre rest : List ℕ) (hi lo : ℕ)
    → All IsByte pre
    → All IsByte rest
    → hi < 256
    → lo < 256
    → length pre % 2 ≡ 0
    → length pre + length rest ≤ 65000
    → word_sum (pre ++ hi ∷ lo ∷ rest) < 2 ^ 32
splice_fits pre rest hi lo hp hr hh hl even small =
    omega (arith, word_sum-splice pre rest hi lo even, word_sum-le pre hp, word_sum-le rest hr)

-- A header whose checksum field holds the checksum that was computed over it with the field zero
-- checksums to zero, wherever the field stands at an even offset, in packets up to 65000 bytes.
pub inet_cksum-verifies :
    (pre rest : List ℕ)
    → All IsByte pre
    → All IsByte rest
    → length pre % 2 ≡ 0
    → length pre + length rest ≤ 65000
    → let c = inet_cksum (pre ++ 0 ∷ 0 ∷ rest) in
      inet_cksum (pre ++ (c / 256) ∷ (c % 256) ∷ rest) ≡ 0
inet_cksum-verifies pre rest hp hr even small =
    let c = inet_cksum (pre ++ 0 ∷ 0 ∷ rest) in
    let blank =
      inet_cksum_lem (pre ++ 0 ∷ 0 ∷ rest)
        (All-splice pre rest 0 0 hp hr (omega arith) (omega arith))
        (splice_fits pre rest 0 0 hp hr (omega arith) (omega arith) even small) in
    let filled =
      inet_cksum_lem (pre ++ (c / 256) ∷ (c % 256) ∷ rest)
        (All-splice pre rest (c / 256) (c % 256) hp hr (omega arith) (omega arith))
        (splice_fits pre rest (c / 256) (c % 256) hp hr (omega arith) (omega arith) even small) in
    omega
      (arith, word_sum-splice pre rest 0 0 even, word_sum-splice pre rest (c / 256) (c % 256) even)

inet_cksum-lt : (xs : List ℕ) → inet_cksum xs < 2 ^ 16
unfolding inet_cksum
inet_cksum-lt xs = omega arith

-- `htons` of a checksum is stored with its high byte first.
pub htons_cksum :
    (xs : List ℕ)
    → let c = inet_cksum xs in (htons c % 256 ≡ c / 256) × (htons c / 256 % 256 ≡ c % 256)
htons_cksum xs = omega (arith, htons_bytes (inet_cksum xs) (inet_cksum-lt xs), inet_cksum-lt xs)
