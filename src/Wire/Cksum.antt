-- ===== src/Wire/Cksum.antt =====
-- inet_cksum of netd.h. The argument is `data[0 .. len)`.
pub mod Laws
use netd_moduos.Common.{
  ℕ, zero, suc, ◌+◌, ◌-◌, ◌*◌, ◌/◌, ◌%◌, ◌^◌, bit_and, bit_or, List, [], ◌∷◌, ◌==◌, if◌then◌else◌,
}

-- The `for` loop and the odd last byte: `sum` is a `uint32_t`.
pub sum_words : ℕ → List ℕ → ℕ
sum_words sum [] = sum
sum_words sum (last ∷ []) = (sum + last * 2 ^ 8) % 2 ^ 32
sum_words sum (hi ∷ lo ∷ rest) = sum_words ((sum + bit_or (hi * 2 ^ 8) lo) % 2 ^ 32) rest

-- `while (sum>>16) sum = (sum&0xFFFF)+(sum>>16);` with fuel. `Laws.fold_carries_lem` shows that two
-- rounds are enough for a `uint32_t`.
pub fold_carries : ℕ → ℕ → ℕ
fold_carries zero sum = sum
fold_carries (suc fuel) sum =
    let rest = fold_carries fuel (bit_and sum 0xffff + sum / 2 ^ 16) in
    if sum / 2 ^ 16 == 0 then sum else rest

pub inet_cksum : List ℕ → ℕ
inet_cksum bytes = (2 ^ 32 - 1 - fold_carries 2 (sum_words 0 bytes)) % 2 ^ 16
