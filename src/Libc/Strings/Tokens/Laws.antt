-- ===== src/Libc/Strings/Tokens/Laws.antt =====
-- One token of strtok.
use netd_moduos.Common.{
  ℕ, ◌+◌, ◌%◌, ◌<◌, ◌≡◌, ◌≢◌, ◌⊎◌, inl, inr, refl, ap, sym, ◌∙◌, Bool, true, false, ◌||◌, List, [],
  ◌∷◌, ◌++◌, Option, none, some, ◌==◌, ==_iff, ne→not-eq, if◌then◌else◌, All, Bool-cases, length,
  length-append, drop, drop-append, get_elem?, get_elem?-after, set, arith,
}
use mathlib.Core.List.{append_assoc}
use netd_moduos.Libc.Strings.{one_on, strchr}
use netd_moduos.Libc.Strings.Search.{IsText}
use netd_moduos.Libc.Strings.Tokens.{
  is_found, is_delim, delims, others, end_token, take_token, next_token, strtok,
}

unfoldable pub member : ℕ → List ℕ → Bool
member c [] = false
member c (x ∷ xs) = (x == c) || member c xs

-- A character that separates tokens, and one that stands in them.
abbrev pub Separates : List ℕ → ℕ → Type 0
Separates ds c = (c ≢ 0) × (c < 256) × (member c ds ≡ true)

abbrev pub Stands : List ℕ → ℕ → Type 0
Stands ds c = (c ≢ 0) × (c < 256) × (member c ds ≡ false)

found-one_on : (o : Option (Option ℕ)) → is_found (one_on o) ≡ is_found o
found-one_on none = refl
found-one_on (some none) = refl
found-one_on (some (some i)) = refl

is_delim-member :
    (ds r : List ℕ) (c : ℕ)
    → IsText ds
    → c ≢ 0
    → c < 256
    → is_delim (ds ++ 0 ∷ r) c ≡ some (member c ds)
unfolding is_delim strchr member
is_delim-member [] r c text more small = rw (ne→not-eq c 0 more) refl
is_delim-member (x ∷ ds) r c text more small =
    let byte : c % 256 ≡ c = omega arith in
    elim (Bool-cases (x == c)) [
      | inl same ↦ rw (is_delim, strchr, ne→not-eq x 0 text.0, byte, same) refl
      | inr other ↦
          rw (is_delim, strchr, ne→not-eq x 0 text.0, byte, other)
            (found-one_on (strchr (ds ++ 0 ∷ r) c) ∙ is_delim-member ds r c text.1 more small)
    ]

delims-length :
    (ds r seps : List ℕ) (c : ℕ) (more : List ℕ)
    → IsText ds
    → All (Separates ds) seps
    → Stands ds c
    → delims (ds ++ 0 ∷ r) (seps ++ c ∷ more) ≡ some (length seps)
unfolding delims
delims-length ds r [] c more text all stands =
    rw (ne→not-eq c 0 stands.0, is_delim-member ds r c text stands.0 stands.1, stands.2) refl
delims-length ds r (x ∷ seps) c more text all stands =
    let (some', small, hit) = all.0 in
    rw
      (
        delims,
        ne→not-eq x 0 some',
        is_delim-member ds r x text some' small,
        hit,
        delims-length ds r seps c more text all.1 stands,
      )
      refl

others-length :
    (ds r tok : List ℕ) (c : ℕ) (more : List ℕ)
    → IsText ds
    → All (Stands ds) tok
    → (c ≡ 0) ⊎ Separates ds c
    → others (ds ++ 0 ∷ r) (tok ++ c ∷ more) ≡ some (length tok)
unfolding others
others-length ds r [] c more text all (inl end) = rw ((==_iff c 0).1 end) refl
others-length ds r [] c more text all (inr (some', small, hit)) =
    rw (ne→not-eq c 0 some', is_delim-member ds r c text some' small, hit) refl
others-length ds r (x ∷ tok) c more text all stop =
    let (some', small, miss) = all.0 in
    rw
      (
        others,
        ne→not-eq x 0 some',
        is_delim-member ds r x text some' small,
        miss,
        others-length ds r tok c more text all.1 stop,
      )
      refl

set-append : (xs : List ℕ) (y z : ℕ) (ys : List ℕ) → set (xs ++ y ∷ ys) (length xs) z ≡ xs ++ z ∷ ys
set-append [] y z ys = refl
set-append (x ∷ xs) y z ys = ap (λ l. x ∷ l) (set-append xs y z ys)

-- What stands behind the first `i` bytes of a string.
entry :
    (buf xs : List ℕ) (y : ℕ) (ys : List ℕ) (i : ℕ)
    → buf ≡ xs ++ y ∷ ys
    → i ≡ length xs
    → (get_elem? buf i ≡ some y) × (drop i buf ≡ y ∷ ys)
entry buf xs y ys i e at_i = (
  get_elem?-after buf xs y (y ∷ ys) i 0 e (omega (arith, at_i)) refl,
  rw (e, at_i) (drop-append xs (y ∷ ys)),
)

-- The call ends the token, and looks from behind its end on.
end_token-append :
    (buf xs : List ℕ) (d : ℕ) (rest : List ℕ) (t e : ℕ)
    → buf ≡ xs ++ d ∷ rest
    → e ≡ length xs
    → end_token buf t e
      ≡ some (record {
        token = some t;
        last = some (if d == 0 then e else e + 1);
        buf = xs ++ 0 ∷ rest;
      })
unfolding end_token
end_token-append buf xs d rest t e whole place' = elim (Bool-cases (d == 0)) [
  | inl end ↦
      let zero' : d ≡ 0 = (==_iff d 0).0 end in
      let same : buf ≡ xs ++ 0 ∷ rest = whole ∙ ap (λ x. xs ++ x ∷ rest) zero' in
      rw (end_token, (entry buf xs d rest e whole place').0, end)
        (ap (λ b. some (record { token = some t; last = some e; buf = b })) same)
  | inr more ↦
      let same : set buf e 0 ≡ xs ++ 0 ∷ rest = rw (whole, place') (set-append xs d 0 rest) in
      rw (end_token, (entry buf xs d rest e whole place').0, more)
        (ap (λ b. some (record { token = some t; last = some (e + 1); buf = b })) same)
]

module _ (ds r : List ℕ) (text : IsText ds) where
  take_token-append :
      (buf xs : List ℕ) (c : ℕ) (tok : List ℕ) (d : ℕ) (rest : List ℕ) (t : ℕ)
      → buf ≡ xs ++ (c ∷ tok ++ d ∷ rest)
      → t ≡ length xs
      → All (Stands ds) (c ∷ tok)
      → (d ≡ 0) ⊎ Separates ds d
      → take_token buf t (ds ++ 0 ∷ r) ≡ end_token buf t (t + length (c ∷ tok))
  unfolding take_token
  take_token-append buf xs c tok d rest t whole place' stands stop =
      let (here, behind) = entry buf xs c (tok ++ d ∷ rest) t whole place' in
      rw
        (
          take_token,
          here,
          ne→not-eq c 0 stands.0.0,
          behind,
          others-length ds r (c ∷ tok) d rest text stands stop,
        )
        refl

  next_token-append :
      (buf pre seps : List ℕ) (c : ℕ) (more : List ℕ) (last : ℕ)
      → buf ≡ pre ++ (seps ++ c ∷ more)
      → last ≡ length pre
      → All (Separates ds) seps
      → Stands ds c
      → next_token buf last (ds ++ 0 ∷ r) ≡ take_token buf (last + length seps) (ds ++ 0 ∷ r)
  unfolding next_token
  next_token-append buf pre [] c more last whole place' all stands =
      let (here, behind) = entry buf pre c more last whole place' in
      rw
        (
          next_token,
          here,
          ne→not-eq c 0 stands.0,
          behind,
          delims-length ds r [] c more text all stands,
        )
        refl
  next_token-append buf pre (s ∷ seps) c more last whole place' all stands =
      let (here, behind) = entry buf pre s (seps ++ c ∷ more) last whole place' in
      rw
        (
          next_token,
          here,
          ne→not-eq s 0 all.0.0,
          behind,
          delims-length ds r (s ∷ seps) c more text all stands,
        )
        refl

-- Where any number of delimiters, one or more characters that are none, and a delimiter or the
-- zero stand behind `last`, strtok(NULL, delim) gives a pointer to those characters, ends them
-- with a zero and changes nothing else, and looks from behind that zero on in the next call, or at
-- the string's own zero. The delimiters are a string, and characters are bytes.
pub strtok-append :
    (pre seps : List ℕ) (c : ℕ) (tok : List ℕ) (d : ℕ) (rest ds r : List ℕ)
    → IsText ds
    → All (Separates ds) seps
    → All (Stands ds) (c ∷ tok)
    → (d ≡ 0) ⊎ Separates ds d
    → let t = length pre + length seps in
      let e = t + length (c ∷ tok) in
      strtok none
        (record {
          token = none;
          last = some (length pre);
          buf = pre ++ (seps ++ (c ∷ tok ++ d ∷ rest));
        })
        (ds ++ 0 ∷ r)
      ≡ some (record {
        token = some t;
        last = some (if d == 0 then e else e + 1);
        buf = pre ++ (seps ++ (c ∷ tok ++ 0 ∷ rest));
      })
unfolding strtok
strtok-append pre seps c tok d rest ds r text seps' stands stop =
    let buf = pre ++ (seps ++ (c ∷ tok ++ d ∷ rest)) in
    let t = length pre + length seps in
    let regroup : (x : ℕ)
        → pre ++ (seps ++ (c ∷ tok ++ x ∷ rest)) ≡ (pre ++ (seps ++ c ∷ tok)) ++ x ∷ rest =
      λ x. simp append_assoc in
    next_token-append ds r text buf pre seps c (tok ++ d ∷ rest) (length pre) refl refl seps'
      stands.0
    ∙ take_token-append ds r text buf (pre ++ seps) c tok d rest t (simp append_assoc)
        (omega (arith, length-append pre seps)) stands stop
    ∙ end_token-append buf (pre ++ (seps ++ c ∷ tok)) d rest t (t + length (c ∷ tok)) (regroup d)
        (omega (arith, length-append pre (seps ++ c ∷ tok), length-append seps (c ∷ tok)))
    ∙ ap
        (λ b. some (record {
          token = some t;
          last = some (if d == 0 then t + length (c ∷ tok) else t + length (c ∷ tok) + 1);
          buf = b;
        }))
        (sym (regroup 0))
