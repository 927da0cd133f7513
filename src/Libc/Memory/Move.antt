-- ===== src/Libc/Memory/Move.antt =====
-- memmove of include/libc.h on places that may overlap.
use netd_moduos.Common.{
  ℕ, zero, suc, ◌+◌, ◌-◌, ◌≤◌, ◌<◌, ◌≡◌, ◌⊎◌, inl, inr, refl, ap, sym, ◌==◌, ==_iff, ◌∙◌, false,
  List, Option, some, ltb, leb, ◌&&◌, lt→ltb, ltb→lt, not-ltb→le, if◌then◌else◌, Bool-cases, length,
  length-set, get_elem?, get_elem?-eq-get_or, get_elem?-set_self, get_elem?-set_ne, get_or, set,
  arith,
}
use netd_moduos.Libc.Memory.{place, move_up, move_down, memmove}

-- `moved` has at `d` the `n` bytes that `buf` has at `s`, and elsewhere what `buf` has.
pub record Moved (buf : List ℕ) (d s n : ℕ) (moved : List ℕ) : Type 0 where
  pub same_length : length moved ≡ length buf
  pub copied : (i j : ℕ) → d ≤ i → i < d + n → i + s ≡ j + d → get_elem? moved i ≡ get_elem? buf j
  pub kept : (i : ℕ) → (i < d) ⊎ (d + n ≤ i) → get_elem? moved i ≡ get_elem? buf i

pub place-set : (buf : List ℕ) (i b : ℕ) → i < length buf → place buf i b ≡ some (set buf i b)
unfolding place
place-set buf i b inside = rw (lt→ltb i (length buf) inside) refl

-- The lowest byte is copied, and the others are moved behind it.
lowest-Moved :
    (buf : List ℕ) (d s n b : ℕ) (moved : List ℕ)
    → d < s
    → d < length buf
    → get_elem? buf s ≡ some b
    → Moved (set buf d b) (d + 1) (s + 1) n moved
    → Moved buf d s (suc n) moved
lowest-Moved buf d s n b moved below inside e m = record {
  same_length = m.same_length ∙ length-set buf d b;
  copied = λ i j low high at. elim (Bool-cases (i == d)) [
    | inl same ↦
        let here : i ≡ d = (==_iff i d).0 same in
        let there : j ≡ s = omega arith in
        rw (here, there) (m.kept d (inl (omega arith)) ∙ get_elem?-set_self buf d b inside ∙ sym e)
    | inr other ↦
        m.copied i j (ground (arith, other)) (omega arith) (omega arith)
        ∙ get_elem?-set_ne buf d j b (λ x. omega arith)
  ];
  kept = λ i outside.
      m.kept i (ground (arith, outside)) ∙ get_elem?-set_ne buf d i b (λ x. omega (arith, outside));
}

-- The highest byte is copied, and the others are moved before it.
highest-Moved :
    (buf : List ℕ) (d s n b : ℕ) (moved : List ℕ)
    → s < d
    → d + n < length buf
    → get_elem? buf (s + n) ≡ some b
    → Moved (set buf (d + n) b) d s n moved
    → Moved buf d s (suc n) moved
highest-Moved buf d s n b moved above inside e m = record {
  same_length = m.same_length ∙ length-set buf (d + n) b;
  copied = λ i j low high at. elim (Bool-cases (i == d + n)) [
    | inl same ↦
        let here : i ≡ d + n = (==_iff i (d + n)).0 same in
        let there : j ≡ s + n = omega arith in
        rw (here, there)
          (m.kept (d + n) (inr (omega arith)) ∙ get_elem?-set_self buf (d + n) b inside ∙ sym e)
    | inr other ↦
        m.copied i j low (ground (arith, other)) at
        ∙ get_elem?-set_ne buf (d + n) j b (λ x. omega arith)
  ];
  kept = λ i outside.
      m.kept i (ground (arith, outside))
      ∙ get_elem?-set_ne buf (d + n) i b (λ x. omega (arith, outside));
}

nothing-Moved : (buf : List ℕ) (d s : ℕ) → Moved buf d s 0 buf
nothing-Moved buf d s = record {
  same_length = refl;
  copied = λ i j low high at. absurd (omega arith);
  kept = λ i outside. refl;
}

move_up-Moved :
    (buf : List ℕ) (d s n : ℕ)
    → d < s
    → s + n ≤ length buf
    → (moved : List ℕ) × (move_up buf d s n ≡ some moved) × Moved buf d s n moved
unfolding move_up
move_up-Moved buf d s zero below inside = (buf, refl, nothing-Moved buf d s)
move_up-Moved buf d s (suc n) below inside =
    let b = get_or buf s 0 in
    let e = get_elem?-eq-get_or buf s 0 (omega arith) in
    let (moved, runs, m) =
      move_up-Moved (set buf d b) (d + 1) (s + 1) n (omega arith)
        (omega (arith, length-set buf d b)) in
    (
      moved,
      rw (move_up, e, place-set buf d b (omega arith)) runs,
      lowest-Moved buf d s n b moved below (omega arith) e m,
    )

move_down-Moved :
    (buf : List ℕ) (d s n : ℕ)
    → s < d
    → d + n ≤ length buf
    → (moved : List ℕ) × (move_down buf d s n ≡ some moved) × Moved buf d s n moved
unfolding move_down
move_down-Moved buf d s zero above inside = (buf, refl, nothing-Moved buf d s)
move_down-Moved buf d s (suc n) above inside =
    let b = get_or buf (s + n) 0 in
    let e = get_elem?-eq-get_or buf (s + n) 0 (omega arith) in
    let (moved, runs, m) =
      move_down-Moved (set buf (d + n) b) d s n above (omega (arith, length-set buf (d + n) b)) in
    (
      moved,
      rw (move_down, e, place-set buf (d + n) b (omega arith)) runs,
      highest-Moved buf d s n b moved above (omega arith) e m,
    )

memmove-Moved :
    (buf : List ℕ) (d s n : ℕ)
    → d + n ≤ length buf
    → s + n ≤ length buf
    → (moved : List ℕ) × (memmove buf d s n ≡ some moved) × Moved buf d s n moved
unfolding memmove
memmove-Moved buf d s n to from = elim (Bool-cases (ltb d s)) [
  | inl below ↦ rw below (move_up-Moved buf d s n (ltb→lt d s below) from)
  | inr not_below ↦ elim (Bool-cases (ltb s d)) [
    | inl above ↦ rw (not_below, above) (move_down-Moved buf d s n (ltb→lt s d above) to)
    | inr not_above ↦
        rw (not_below, not_above)
          (
            buf,
            refl,
            record {
              same_length = refl;
              copied = λ i j low high at.
                  ap (get_elem? buf)
                    (omega (arith, not-ltb→le d s not_below, not-ltb→le s d not_above));
              kept = λ i outside. refl;
            },
          )
  ]
]

-- The byte at `i` behind the call.
abbrev pub moved_byte : List ℕ → ℕ → ℕ → ℕ → ℕ → Option ℕ
moved_byte buf d s n i =
    if leb d i && ltb i (d + n) then get_elem? buf (s + (i - d)) else get_elem? buf i

-- With both places inside the buffer memmove returns, and leaves at the destination what the
-- source held before the call, whether or not the two overlap, and every other byte as it was.
pub memmove_lem :
    (buf : List ℕ) (d s n : ℕ)
    → d + n ≤ length buf
    → s + n ≤ length buf
    → (moved : List ℕ) × (memmove buf d s n ≡ some moved)
      × (length moved ≡ length buf)
      × ((i : ℕ) → get_elem? moved i ≡ moved_byte buf d s n i)
memmove_lem buf d s n to from =
    let (moved, runs, m) = memmove-Moved buf d s n to from in
    (
      moved,
      runs,
      m.same_length,
      λ i. elim (Bool-cases (leb d i && ltb i (d + n))) [
        | inl inside ↦ rw inside (
            m.copied i (s + (i - d)) (ground (arith, inside)) (ground (arith, inside))
              (ground (arith, inside)))
        | inr outside ↦ rw outside (m.kept i (side i d n outside))
      ],
    )
  where
    side : (i d n : ℕ) → (leb d i && ltb i (d + n)) ≡ false → (i < d) ⊎ (d + n ≤ i)
    side i d n h = elim (Bool-cases (ltb i d)) [
      | inl low ↦ inl (ltb→lt i d low)
      | inr high ↦ inr (ground (arith, high, h))
    ]
