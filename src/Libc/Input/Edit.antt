-- ===== src/Libc/Input/Edit.antt =====
-- What a key does to the line of input_line_to_buffer, and to the text that it edits.
use netd_moduos.Common.{
  ℕ, suc, ◌+◌, ◌-◌, ◌%◌, ◌≤◌, ◌<◌, ◌≡◌, refl, ap, sym, ◌∙◌, subst, Bool, true, false, ◌&&◌, ◌||◌,
  List, [], ◌∷◌, some, ltb, leb, ◌==◌, lt→ltb, if◌then◌else◌, Bool-cases, inl, inr, length, set,
  arith,
}
use mathlib.Core.List.{reverse_aux}
use netd_moduos.Libc.Memory.{put}
use netd_moduos.Libc.Input.{Line, rub_out, append_key, type_key}

-- '\b' and DEL, and the characters that are typed.
abbrev pub rubs_out : ℕ → Bool
rubs_out c = (c == 8) || (c == 127)

abbrev pub is_printable : ℕ → Bool
is_printable c = leb 32 c && ltb c 127

abbrev pub all_but_last : List ℕ → List ℕ
all_but_last [] = []
all_but_last (x ∷ xs) = xs

-- What a key does to the text, whose last character is first.
unfoldable pub edit : ℕ → ℕ → List ℕ → List ℕ
edit room c text =
    if rubs_out c
    then all_but_last text
    else if is_printable c && ltb (length text) room
    then c ∷ text
    else text

unfoldable pub edit_all : ℕ → List ℕ → List ℕ → List ℕ
edit_all room [] text = text
edit_all room (c ∷ cs) text = edit_all room cs (edit room c text)

length-reverse_aux : (xs ys : List ℕ) → length (reverse_aux xs ys) ≡ length xs + length ys
length-reverse_aux [] ys = omega arith
length-reverse_aux (x ∷ xs) ys = omega (arith, length-reverse_aux xs (x ∷ ys))

set-reverse_aux :
    (xs ys : List ℕ) (k v : ℕ)
    → set (reverse_aux xs ys) (length xs + k) v ≡ reverse_aux xs (set ys k v)
set-reverse_aux [] ys k v = let e : 0 + k ≡ k = omega arith in rw e refl
set-reverse_aux (x ∷ xs) ys k v =
    let e : suc (length xs) + k ≡ length xs + suc k = omega arith in
    rw e (set-reverse_aux xs (x ∷ ys) (suc k) v)

-- A write behind the text.
pub put-behind :
    (xs : List ℕ) (y : ℕ) (ys : List ℕ) (v : ℕ)
    → v < 256
    → put (reverse_aux xs (y ∷ ys)) (length xs) v ≡ some (reverse_aux xs (v ∷ ys))
unfolding put
put-behind xs y ys v small =
    let same : v % 256 ≡ v = omega arith in
    let inside : length xs < length (reverse_aux xs (y ∷ ys)) =
      omega (arith, length-reverse_aux xs (y ∷ ys)) in
    let here : set (reverse_aux xs (y ∷ ys)) (length xs) v ≡ reverse_aux xs (v ∷ ys) =
      ap (λ k. set (reverse_aux xs (y ∷ ys)) k v) (omega arith) ∙ set-reverse_aux xs (y ∷ ys) 0 v in
    rw (lt→ltb (length xs) (length (reverse_aux xs (y ∷ ys))) inside, same, here) refl

-- The buffer begins with the text, and has room for `room` characters and a zero.
pub record Holds (room : ℕ) (text : List ℕ) (l : Line) : Type 0 where
  pub behind : List ℕ
  pub same_buf : l.buf ≡ reverse_aux text behind
  pub same_n : l.n ≡ length text
  pub in_room : length text ≤ room
  pub has_room : room < length text + length behind

rub_out-Holds :
    (room x : ℕ) (xs : List ℕ) (l : Line)
    → Holds room (x ∷ xs) l
    → (l' : Line) × (rub_out l ≡ some l') × Holds room xs l'
unfolding rub_out
rub_out-Holds room x xs l h =
    let at : l.n - 1 ≡ length xs = omega (arith, h.same_n) in
    (
      record { buf = reverse_aux xs (0 ∷ h.behind); n = length xs },
      rw (rub_out, at, h.same_buf, put-behind xs x h.behind 0 (omega arith)) refl,
      record {
        behind = 0 ∷ h.behind;
        same_buf = refl;
        same_n = refl;
        in_room = omega (arith, h.in_room);
        has_room = omega (arith, h.has_room);
      },
    )

append_key-behind :
    (room c : ℕ) (text behind : List ℕ) (l : Line)
    → c < 256
    → length text < room
    → room < length text + length behind
    → l.buf ≡ reverse_aux text behind
    → l.n ≡ length text
    → (l' : Line) × (append_key c l ≡ some l') × Holds room (c ∷ text) l'
unfolding append_key
append_key-behind room c text [] l small below fits same_buf same_n = absurd (omega arith)
append_key-behind room c text (y ∷ []) l small below fits same_buf same_n = absurd (omega arith)
append_key-behind room c text (y ∷ z ∷ ys) l small below fits same_buf same_n =
    let next : l.n + 1 ≡ length (c ∷ text) = omega (arith, same_n) in
    (
      record { buf = reverse_aux (c ∷ text) (0 ∷ ys); n = length (c ∷ text) },
      rw
          (
            append_key,
            same_n,
            same_buf,
            put-behind text y (z ∷ ys) c small,
            next,
            put-behind (c ∷ text) z ys 0 (omega arith),
          )
          refl,
      record {
        behind = 0 ∷ ys;
        same_buf = refl;
        same_n = refl;
        in_room = omega arith;
        has_room = omega arith;
      },
    )

-- A key that changes nothing.
kept_key :
    (room c : ℕ) (text : List ℕ) (l : Line)
    → Holds room text l
    → type_key room c l ≡ some l
    → edit room c text ≡ text
    → (l' : Line) × (type_key room c l ≡ some l') × Holds room (edit room c text) l'
kept_key room c text l h runs same = (l, runs, subst (λ t. Holds room t l) (sym same) h)

rub_key :
    (room c : ℕ) (text : List ℕ) (l : Line)
    → (c == b'\r') ≡ false
    → rubs_out c ≡ true
    → Holds room text l
    → (l' : Line) × (type_key room c l ≡ some l') × Holds room (edit room c text) l'
unfolding type_key edit
rub_key room c [] l other rubs h =
    let empty : ltb 0 l.n ≡ false = ground (arith, h.same_n) in
    let no_print : (ltb l.n room && is_printable c) ≡ false = ground (arith, rubs) in
    kept_key room c [] l h (rw (type_key, other, rubs, empty, no_print) refl) (rw (edit, rubs) refl)
rub_key room c (x ∷ xs) l other rubs h =
    let some' : ltb 0 l.n ≡ true = ground (arith, h.same_n) in
    let (l', runs, h') = rub_out-Holds room x xs l h in
    let same : edit room c (x ∷ xs) ≡ xs = rw (edit, rubs) refl in
    (l', rw (type_key, other, rubs, some') runs, subst (λ t. Holds room t l') (sym same) h')

pub type_key-Holds :
    (room c : ℕ) (text : List ℕ) (l : Line)
    → c < 256
    → Holds room text l
    → (l' : Line) × (type_key room c l ≡ some l') × Holds room (edit room c text) l'
unfolding type_key edit
type_key-Holds room c text l small h = elim (Bool-cases (c == b'\r')) [
  | inl return ↦
      let no_rub : rubs_out c ≡ false = ground (arith, return) in
      let no_print : is_printable c ≡ false = ground (arith, return) in
      kept_key room c text l h (rw (type_key, return) refl) (rw (edit, no_rub, no_print) refl)
  | inr other ↦ elim (Bool-cases (rubs_out c)) [
    | inl rubs ↦ rub_key room c text l other rubs h
    | inr no_rub ↦ elim (Bool-cases (is_printable c && ltb (length text) room)) [
      | inl types ↦
          let typed : (ltb l.n room && is_printable c) ≡ true = ground (arith, types, h.same_n) in
          let (l', runs, h') =
            append_key-behind room c text h.behind l small (ground (arith, types)) h.has_room
              h.same_buf h.same_n in
          let same : edit room c text ≡ c ∷ text = rw (edit, no_rub, types) refl in
          (l', rw (type_key, other, no_rub, typed) runs, subst (λ t. Holds room t l') (sym same) h')
      | inr nothing' ↦
          let not_typed : (ltb l.n room && is_printable c) ≡ false =
            ground (arith, nothing', h.same_n) in
          kept_key room c text l h (rw (type_key, other, no_rub, not_typed) refl)
            (rw (edit, no_rub, nothing') refl)
    ]
  ]
]
