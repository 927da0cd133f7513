-- ===== src/Wire/Loads.antt =====
-- What the loads of Memory.antt give: inside a buffer they succeed, and they read back what the
-- stores have written.
use netd_moduos.Common.{
  ℕ, ◌+◌, ◌*◌, ◌/◌, ◌%◌, ◌^◌, ◌<◌, ◌≡◌, refl, ap, ◌∙◌, some, List, arith, length, get_elem?, get_or,
  set, get_elem?-eq-get_or, get_elem?-set_self, get_elem?-set_ne, length-set,
}
use netd_moduos.Wire.Endian.{htons, htonl, ntohs, ntohl, htonl_bytes, ntohs-htons, ntohl-htonl}
use netd_moduos.Wire.Memory.{load16, load32, store32}

-- The number that the bytes at an index stand for, the low byte first.
abbrev pub word16 : List ℕ → ℕ → ℕ
word16 buf i = get_or buf i 0 + get_or buf (i + 1) 0 * 2 ^ 8

abbrev pub word32 : List ℕ → ℕ → ℕ
word32 buf i =
    get_or buf i 0
    + get_or buf (i + 1) 0 * 2 ^ 8
    + get_or buf (i + 2) 0 * 2 ^ 16
    + get_or buf (i + 3) 0 * 2 ^ 24

pub load16_inside : (buf : List ℕ) (i : ℕ) → i + 1 < length buf → load16 buf i ≡ some (word16 buf i)
unfolding load16
load16_inside buf i h =
    rw (get_elem?-eq-get_or buf i 0 (omega arith), get_elem?-eq-get_or buf (i + 1) 0 (omega arith))
      refl

pub load32_inside : (buf : List ℕ) (i : ℕ) → i + 3 < length buf → load32 buf i ≡ some (word32 buf i)
unfolding load32
load32_inside buf i h =
    rw
      (
        get_elem?-eq-get_or buf i 0 (omega arith),
        get_elem?-eq-get_or buf (i + 1) 0 (omega arith),
        get_elem?-eq-get_or buf (i + 2) 0 (omega arith),
        get_elem?-eq-get_or buf (i + 3) 0 (omega arith),
      )
      refl

htons-lt : (v : ℕ) → htons v < 2 ^ 16
unfolding htons
htons-lt v = omega arith

htonl-lt : (v : ℕ) → v < 2 ^ 32 → htonl v < 2 ^ 32
htonl-lt v h = omega (arith, htonl_bytes v h)

-- The bytes of a 16-bit value in network order, read back.
pub ntohs_stored : (v : ℕ) → v < 2 ^ 16 → ntohs (htons v % 256 + htons v / 256 % 256 * 2 ^ 8) ≡ v
ntohs_stored v h =
    let whole : htons v % 256 + htons v / 256 % 256 * 2 ^ 8 ≡ htons v = omega (arith, htons-lt v) in
    rw whole (ntohs-htons v h)

-- The bytes of a 32-bit value in network order, read back.
pub ntohl_stored :
    (v : ℕ)
    → v < 2 ^ 32
    → ntohl (
        htonl v % 256
        + htonl v / 256 % 256 * 2 ^ 8
        + htonl v / 2 ^ 16 % 256 * 2 ^ 16
        + htonl v / 2 ^ 24 % 256 * 2 ^ 24)
      ≡ v
ntohl_stored v h =
    let whole : htonl v % 256
          + htonl v / 256 % 256 * 2 ^ 8
          + htonl v / 2 ^ 16 % 256 * 2 ^ 16
          + htonl v / 2 ^ 24 % 256 * 2 ^ 24
        ≡ htonl v =
      omega (arith, htonl-lt v h) in
    rw whole (ntohl-htonl v h)

-- Storing `htonl(v)` of a 32-bit `v` inside a buffer puts the bytes of `v` there from the highest
-- to the lowest, and the load with `ntohl` gives `v` back.
pub ntohl-load32-store32 :
    (buf : List ℕ) (i v : ℕ)
    → i + 3 < length buf
    → v < 2 ^ 32
    → let buf' = store32 buf i (htonl v) in
      (get_elem? buf' i ≡ some (v / 2 ^ 24))
      × (get_elem? buf' (i + 1) ≡ some (v / 2 ^ 16 % 256))
      × (get_elem? buf' (i + 2) ≡ some (v / 2 ^ 8 % 256))
      × (get_elem? buf' (i + 3) ≡ some (v % 256))
      × ((w : ℕ) × (load32 buf' i ≡ some w) × (ntohl w ≡ v))
unfolding load32
ntohl-load32-store32 buf i v h word =
    let w = htonl v in
    let b0 = set buf i (w % 256) in
    let b1 = set b0 (i + 1) (w / 256 % 256) in
    let b2 = set b1 (i + 2) (w / 2 ^ 16 % 256) in
    let b3 = set b2 (i + 3) (w / 2 ^ 24 % 256) in
    let e0 : get_elem? b3 i ≡ some (w % 256) =
      get_elem?-set_ne b2 (i + 3) i (w / 2 ^ 24 % 256) (omega arith)
      ∙ get_elem?-set_ne b1 (i + 2) i (w / 2 ^ 16 % 256) (omega arith)
      ∙ get_elem?-set_ne b0 (i + 1) i (w / 256 % 256) (omega arith)
      ∙ get_elem?-set_self buf i (w % 256) (omega arith) in
    let e1 : get_elem? b3 (i + 1) ≡ some (w / 256 % 256) =
      get_elem?-set_ne b2 (i + 3) (i + 1) (w / 2 ^ 24 % 256) (omega arith)
      ∙ get_elem?-set_ne b1 (i + 2) (i + 1) (w / 2 ^ 16 % 256) (omega arith)
      ∙ get_elem?-set_self b0 (i + 1) (w / 256 % 256) (omega (arith, length-set buf i (w % 256))) in
    let e2 : get_elem? b3 (i + 2) ≡ some (w / 2 ^ 16 % 256) =
      get_elem?-set_ne b2 (i + 3) (i + 2) (w / 2 ^ 24 % 256) (omega arith)
      ∙ get_elem?-set_self b1 (i + 2) (w / 2 ^ 16 % 256)
          (omega (arith, length-set buf i (w % 256), length-set b0 (i + 1) (w / 256 % 256))) in
    let e3 : get_elem? b3 (i + 3) ≡ some (w / 2 ^ 24 % 256) =
      get_elem?-set_self b2 (i + 3) (w / 2 ^ 24 % 256) (
        omega (
          arith,
          length-set buf i (w % 256),
          length-set b0 (i + 1) (w / 256 % 256),
          length-set b1 (i + 2) (w / 2 ^ 16 % 256),
        )) in
    let bytes = htonl_bytes v word in
    (
      e0 ∙ ap some (omega (arith, bytes)),
      e1 ∙ ap some (omega (arith, bytes)),
      e2 ∙ ap some (omega (arith, bytes)),
      e3 ∙ ap some (omega (arith, bytes)),
      (_, rw (e0, e1, e2, e3) refl, ntohl_stored v word),
    )
