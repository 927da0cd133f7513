-- ===== src/Dhcp/Options/Encoding.antt =====
-- The options as the wire has them, and the walk of dhcp_get_opt32 (dhcp.c) over them.
use netd_moduos.Common.{
  ℕ, zero, suc, ◌+◌, ◌≤◌, ◌<◌, ◌≡◌, ◌≢◌, refl, ap, ◌∙◌, false, ◌&&◌, List, [], ◌∷◌, ◌++◌, Option,
  none, some, leb, ◌==◌, ne→not-eq, lt→ltb, if◌then◌else◌, arith, length, length-append, get_elem?,
  get_elem?-after, All, Bool-cases, inl, inr,
}
use mathlib.Core.List.{append_assoc}
use netd_moduos.Dhcp.Options.{Walk, at, absent, take_option, step_length, step_option, walk}

-- An option as the wire has it: padding, or a tag, a length and as many bytes.
pub data Opt : Type 0 where
  pad : Opt
  opt : ℕ → List ℕ → Opt

unfoldable pub encode : List Opt → List ℕ
encode [] = []
encode (pad ∷ os) = 0 ∷ encode os
encode (opt tag value ∷ os) = tag ∷ length value ∷ (value ++ encode os)

-- Tags that stand for neither padding nor the end, and values that are bytes.
abbrev pub IsOpt : Opt → Type 0
IsOpt pad = Unit {0}
IsOpt (opt tag value) = (tag ≢ 0) × (tag ≢ 255) × All (λ b. b < 256) value

-- The value of the first option with the tag and at least `least` bytes.
unfoldable pub find_opt : ℕ → ℕ → List Opt → Option (List ℕ)
find_opt tag least [] = none
find_opt tag least (pad ∷ os) = find_opt tag least os
find_opt tag least (opt t value ∷ os) =
    let rest = find_opt tag least os in
    if (t == tag) && leb least (length value) then some value else rest

-- Where the value stands that a search has found, or that there is none.
abbrev pub Finds : List ℕ → Option (List ℕ) → Walk → Type 0
Finds whole none w = w ≡ absent
Finds whole (some value) w =
    (front back : List ℕ) × (whole ≡ front ++ (value ++ back)) × (w ≡ at (length front))

-- The list before and behind the options, and the room that they leave.
inside :
    (os : List Opt) (front rest whole : List ℕ)
    → whole ≡ front ++ (encode os ++ 255 ∷ rest)
    → length whole ≡ length front + length (encode os) + suc (length rest)
inside os front rest whole e = omega (
  arith,
  ap length e,
  length-append front (encode os ++ 255 ∷ rest),
  length-append (encode os) (255 ∷ rest),
)

not-leb : (a b : ℕ) → b < a → leb a b ≡ false
not-leb a b h = ground arith

-- One round at an option with a tag and a length.
walk_opt :
    (fuel n tag least t l i : ℕ) (whole : List ℕ)
    → suc (suc i) ≤ n
    → t ≢ 0
    → t ≢ 255
    → get_elem? whole i ≡ some t
    → get_elem? whole (i + 1) ≡ some l
    → walk (suc fuel) whole n tag least i
      ≡ take_option (walk fuel whole n tag least) tag least (i + 1 + 1) t l
unfolding walk step_option step_length
walk_opt fuel n tag least t l i whole room z f at_t at_l =
    rw
      (
        lt→ltb i n (omega arith),
        walk,
        at_t,
        step_option,
        ne→not-eq t 255 f,
        ne→not-eq t 0 z,
        step_length,
        not-leb n (i + 1) (omega arith),
        at_l,
      )
      refl

pub walk-Finds :
    (fuel tag least : ℕ) (os : List Opt) (front rest whole : List ℕ) (i : ℕ)
    → All IsOpt os
    → whole ≡ front ++ (encode os ++ 255 ∷ rest)
    → i ≡ length front
    → length whole < fuel + i
    → Finds whole (find_opt tag least os) (walk fuel whole (length whole) tag least i)
unfolding walk encode find_opt step_option step_length take_option
walk-Finds zero tag least os front rest whole i ok e at_i enough =
    absurd (omega (arith, inside os front rest whole e))
walk-Finds (suc fuel) tag least [] front rest whole i ok e at_i enough =
    let size = inside [] front rest whole e in
    rw
      (
        lt→ltb i (length whole) (omega (arith, size)),
        walk,
        get_elem?-after whole front 255 (255 ∷ rest) i 0 e (omega arith) refl,
      )
      refl
walk-Finds (suc fuel) tag least (pad ∷ os) front rest whole i ok e at_i enough =
    let size = inside (pad ∷ os) front rest whole e in
    rw
      (
        lt→ltb i (length whole) (omega (arith, size)),
        walk,
        get_elem?-after whole front 0 _ i 0 e (omega arith) refl,
      )
      (walk-Finds fuel tag least os (front ++ 0 ∷ []) rest whole (i + 1) ok.1
        (e ∙ simp append_assoc) (omega (arith, length-append front (0 ∷ []))) (omega arith))
walk-Finds (suc fuel) tag least (opt t value ∷ os) front rest whole i ok e at_i enough =
    let size = inside (opt t value ∷ os) front rest whole e in
    let n = length value in
    let front' : List ℕ = front ++ t ∷ n ∷ [] in
    let size' = length-append front (t ∷ n ∷ []) in
    let whole' : whole ≡ front' ++ (value ++ (encode os ++ 255 ∷ rest)) = e ∙ simp append_assoc in
    let next : Finds whole (find_opt tag least os)
        (walk fuel whole (length whole) tag least (i + 1 + 1 + n)) =
      walk-Finds fuel tag least os (front' ++ value) rest whole (i + 1 + 1 + n) ok.1
        (whole' ∙ simp append_assoc) (omega (arith, length-append front' value, size'))
        (omega arith) in
    let round =
      walk_opt fuel (length whole) tag least t n i whole (omega (arith, size)) ok.0.0 ok.0.1
        (get_elem?-after whole front t _ i 0 e (omega arith) refl)
        (get_elem?-after whole front n _ (i + 1) 1 e (omega arith) refl) in
    elim (Bool-cases ((t == tag) && leb least n)) [
      | inl hit ↦
          let place : i + 1 + 1 ≡ length front' = omega (arith, size') in
          rw (round, take_option, hit, find_opt)
            (front', encode os ++ 255 ∷ rest, whole', ap at place)
      | inr other ↦ rw (round, take_option, other, find_opt) next
    ]
