-- ===== src/Wire/Fields.antt =====
-- Numbers of packets as their bytes, the highest first, and what the loads read of them.
use netd_moduos.Common.{
  ℕ, ◌+◌, ◌*◌, ◌/◌, ◌%◌, ◌^◌, ◌<◌, ◌≡◌, refl, some, List, [], ◌∷◌, ◌++◌, length, get_elem?-after,
  arith,
}
use netd_moduos.Wire.Endian.{ntohs, ntohl, htons_bytes, htonl_bytes}
use netd_moduos.Wire.Memory.{load16, load32}

abbrev pub be16 : ℕ → List ℕ
be16 v = v / 2 ^ 8 ∷ v % 2 ^ 8 ∷ []

abbrev pub be32 : ℕ → List ℕ
be32 v = v / 2 ^ 24 ∷ v / 2 ^ 16 % 2 ^ 8 ∷ v / 2 ^ 8 % 2 ^ 8 ∷ v % 2 ^ 8 ∷ []

-- What a load gives of the bytes of `v`.
abbrev pub swapped16 : ℕ → ℕ
swapped16 v = v / 2 ^ 8 + v % 2 ^ 8 * 2 ^ 8

abbrev pub swapped32 : ℕ → ℕ
swapped32 v =
    v / 2 ^ 24 + v / 2 ^ 16 % 2 ^ 8 * 2 ^ 8 + v / 2 ^ 8 % 2 ^ 8 * 2 ^ 16 + v % 2 ^ 8 * 2 ^ 24

pub ntohs-swapped16 : (v : ℕ) → v < 2 ^ 16 → ntohs (swapped16 v) ≡ v
unfolding ntohs
ntohs-swapped16 v h = omega (arith, htons_bytes (swapped16 v) (omega arith))

pub ntohl-swapped32 : (v : ℕ) → v < 2 ^ 32 → ntohl (swapped32 v) ≡ v
unfolding ntohl
ntohl-swapped32 v h = omega (arith, htonl_bytes (swapped32 v) (omega arith))

-- A field behind `front`.
pub load16_field :
    (whole front back : List ℕ) (i v : ℕ)
    → whole ≡ front ++ (be16 v ++ back)
    → i ≡ length front
    → load16 whole i ≡ some (swapped16 v)
unfolding load16
load16_field whole front back i v e at_i =
    rw
      (
        get_elem?-after whole front (v / 2 ^ 8) (be16 v ++ back) i 0 e (omega (arith, at_i)) refl,
        get_elem?-after whole front (v % 2 ^ 8) (be16 v ++ back) (i + 1) 1 e (omega (arith, at_i))
            refl,
      )
      refl

pub load32_field :
    (whole front back : List ℕ) (i v : ℕ)
    → whole ≡ front ++ (be32 v ++ back)
    → i ≡ length front
    → load32 whole i ≡ some (swapped32 v)
unfolding load32
load32_field whole front back i v e at_i =
    rw
      (
        get_elem?-after whole front (v / 2 ^ 24) (be32 v ++ back) i 0 e (omega (arith, at_i)) refl,
        get_elem?-after whole front (v / 2 ^ 16 % 2 ^ 8) (be32 v ++ back) (i + 1) 1 e
            (omega (arith, at_i)) refl,
        get_elem?-after whole front (v / 2 ^ 8 % 2 ^ 8) (be32 v ++ back) (i + 2) 2 e
            (omega (arith, at_i)) refl,
        get_elem?-after whole front (v % 2 ^ 8) (be32 v ++ back) (i + 3) 3 e (omega (arith, at_i))
            refl,
      )
      refl
