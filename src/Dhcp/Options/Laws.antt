-- ===== src/Dhcp/Options/Laws.antt =====
-- What dhcp_get_opt32 (dhcp.c) gives on well-formed options.
use netd_moduos.Common.{
  ℕ, zero, suc, ◌+◌, ◌*◌, ◌^◌, ◌≤◌, ◌<◌, ◌≡◌, refl, subst, ◌&&◌, List, [], ◌∷◌, ◌++◌, Option, none,
  some, leb, ◌==◌, arith, length, get_elem?, get_elem?-after, get_or, All, Bool-cases, Option-cases,
  inl, inr,
}
use netd_moduos.Wire.Endian.{ntohl, htonl_bytes}
use netd_moduos.Wire.Memory.{load32}
use netd_moduos.Wire.Loads.{word32}
use netd_moduos.State.{Sys, done}
use netd_moduos.Dhcp.Options.{
  Walk, absent, walk, opt32_at, dhcp_get_opt32, byte_at, dhcp_get_msg_type, opt_msg_type,
}
use netd_moduos.Dhcp.Options.Encoding.{Opt, pad, opt, encode, IsOpt, find_opt, Finds, walk-Finds}

find_opt-length :
    (tag least : ℕ) (os : List Opt) (value : List ℕ)
    → find_opt tag least os ≡ some value
    → least ≤ length value
unfolding find_opt
find_opt-length tag least [] value e = cc
find_opt-length tag least (pad ∷ os) value e = find_opt-length tag least os value e
find_opt-length tag least (opt t v ∷ os) value e =
    ground (arith, find_opt-length tag least os value)

get_or-byte : (xs : List ℕ) → All (λ b. b < 256) xs → (n : ℕ) → get_or xs n 0 < 256
get_or-byte [] h n = omega arith
get_or-byte (x ∷ xs) h zero = h.0
get_or-byte (x ∷ xs) h (suc n) = get_or-byte xs h.1 n

find_opt-bytes :
    (tag least : ℕ) (os : List Opt) (value : List ℕ)
    → All IsOpt os
    → find_opt tag least os ≡ some value
    → (k : ℕ) → get_or value k 0 < 256
unfolding find_opt
find_opt-bytes tag least [] value ok e k = cc
find_opt-bytes tag least (pad ∷ os) value ok e k = find_opt-bytes tag least os value ok.1 e k
find_opt-bytes tag least (opt t v ∷ os) value ok e k =
    elim (Bool-cases ((t == tag) && leb least (length v))) [
      | inr other ↦ find_opt-bytes tag least os value ok.1 (rw (other, find_opt) at e) k
      | inl hit ↦
          let same : v ≡ value = cc (rw (hit, find_opt) at e) in
          subst (λ (x : List ℕ). get_or x k 0 < 256) same (get_or-byte v ok.0.2 k)
    ]

get_elem?-append_left :
    (xs ys : List ℕ) (k : ℕ) → k < length xs → get_elem? (xs ++ ys) k ≡ some (get_or xs k 0)
get_elem?-append_left [] ys k h = absurd (omega arith)
get_elem?-append_left (x ∷ xs) ys zero h = refl
get_elem?-append_left (x ∷ xs) ys (suc k) h = get_elem?-append_left xs ys k (omega arith)

load32_value :
    (whole front value back : List ℕ)
    → whole ≡ front ++ (value ++ back)
    → 4 ≤ length value
    → load32 whole (length front) ≡ some (word32 value 0)
unfolding load32
load32_value whole front value back e h =
    rw
      (
        get_elem?-after whole front (get_or value 0 0) (value ++ back) (length front) 0 e
            (omega arith) (get_elem?-append_left value back 0 (omega arith)),
        get_elem?-after whole front (get_or value 1 0) (value ++ back) (length front + 1) 1 e refl
            (get_elem?-append_left value back 1 (omega arith)),
        get_elem?-after whole front (get_or value 2 0) (value ++ back) (length front + 2) 2 e refl
            (get_elem?-append_left value back 2 (omega arith)),
        get_elem?-after whole front (get_or value 3 0) (value ++ back) (length front + 3) 3 e refl
            (get_elem?-append_left value back 3 (omega arith)),
      )
      refl

-- Four bytes as a number, the highest first.
abbrev pub number32 : List ℕ → ℕ
number32 v = get_or v 0 0 * 2 ^ 24 + get_or v 1 0 * 2 ^ 16 + get_or v 2 0 * 2 ^ 8 + get_or v 3 0

ntohl-word32 : (v : List ℕ) → ((k : ℕ) → get_or v k 0 < 256) → ntohl (word32 v 0) ≡ number32 v
unfolding ntohl
ntohl-word32 v bytes =
    let b0 = bytes 0 in
    let b1 = bytes 1 in
    let b2 = bytes 2 in let b3 = bytes 3 in omega (arith, htonl_bytes (word32 v 0) (omega arith))

-- The result for the value that a search has found.
abbrev pub opt32_value : Option (List ℕ) → ℕ
opt32_value none = 0
opt32_value (some value) = number32 value

-- dhcp_get_opt32 on well-formed options that end in 255, whatever follows: the first option with
-- the tag and at least four bytes gives the first four as a number, the highest first; with no such
-- option the result is 0. No state changes.
pub dhcp_get_opt32_lem :
    (tag : ℕ) (os : List Opt) (rest : List ℕ) (s : Sys)
    → All IsOpt os
    → let opts = encode os ++ 255 ∷ rest in
      dhcp_get_opt32 opts (length opts) tag s ≡ done (opt32_value (find_opt tag 4 os)) s
unfolding dhcp_get_opt32 opt32_at
dhcp_get_opt32_lem tag os rest s ok =
    let opts : List ℕ = encode os ++ 255 ∷ rest in
    let w : Walk = walk (length opts + 1) opts (length opts) tag 4 0 in
    let found : Finds opts (find_opt tag 4 os) w =
      walk-Finds (length opts + 1) tag 4 os [] rest opts 0 ok refl refl (omega arith) in
    elim (Option-cases (find_opt tag 4 os)) [
      | inl no' ↦
          let gone : w ≡ absent = subst (λ o. Finds opts o w) no' found in rw (gone, no') refl
      | inr (value, yes') ↦
          let (front, back, split, place) = subst (λ o. Finds opts o w) yes' found in
          rw
            (
              place,
              yes',
              opt32_at,
              load32_value opts front value back split (find_opt-length tag 4 os value yes'),
              ntohl-word32 value (find_opt-bytes tag 4 os value ok yes'),
            )
            refl
    ]

-- The first byte of the value that a search has found.
abbrev pub byte_value : Option (List ℕ) → ℕ
byte_value none = 0
byte_value (some value) = get_or value 0 0

-- dhcp_get_msg_type on well-formed options that end in 255, whatever follows: the first byte of the
-- first option 53 that has one, or 0. No state changes.
pub dhcp_get_msg_type_lem :
    (os : List Opt) (rest : List ℕ) (s : Sys)
    → All IsOpt os
    → let opts = encode os ++ 255 ∷ rest in
      dhcp_get_msg_type opts (length opts) s ≡ done (byte_value (find_opt opt_msg_type 1 os)) s
unfolding dhcp_get_msg_type byte_at
dhcp_get_msg_type_lem os rest s ok =
    let opts : List ℕ = encode os ++ 255 ∷ rest in
    let w : Walk = walk (length opts + 1) opts (length opts) opt_msg_type 1 0 in
    let found : Finds opts (find_opt opt_msg_type 1 os) w =
      walk-Finds (length opts + 1) opt_msg_type 1 os [] rest opts 0 ok refl refl (omega arith) in
    elim (Option-cases (find_opt opt_msg_type 1 os)) [
      | inl no' ↦
          let gone : w ≡ absent = subst (λ o. Finds opts o w) no' found in rw (gone, no') refl
      | inr (value, yes') ↦
          let (front, back, split, place) = subst (λ o. Finds opts o w) yes' found in
          rw
            (
              place,
              yes',
              byte_at,
              get_elem?-after opts front (get_or value 0 0) (value ++ back) (length front) 0 split
                  (omega arith)
                  (get_elem?-append_left value back 0
                    (omega (arith, find_opt-length opt_msg_type 1 os value yes'))),
            )
            refl
    ]
