-- ===== src/Libc/Strings/Tokens.antt =====
-- strtok of include/libc.h, on one string, which it changes. Its static pointer `last` is an index
-- into the string, or `none` for NULL. The outer `none` is a read outside the string.
pub mod Laws
use netd_moduos.Common.{
  ℕ, suc, ◌+◌, Bool, true, false, List, [], ◌∷◌, Option, none, some, ◌==◌, if◌then◌else◌, get_elem?,
  set, drop,
}
use netd_moduos.Libc.Strings.{strchr}

pub record Tok : Type 0 where
  pub token : Option ℕ
  pub last : Option ℕ
  pub buf : List ℕ

abbrev pub is_found : Option (Option ℕ) → Option Bool
is_found none = none
is_found (some none) = some false
is_found (some (some i)) = some true

-- Whether `strchr(delim, c)` is a pointer, for a character that is not 0.
unfoldable pub is_delim : List ℕ → ℕ → Option Bool
is_delim delim c = is_found (strchr delim c)

abbrev pub step_on : Option ℕ → Option ℕ
step_on none = none
step_on (some k) = some (suc k)

-- `while (*last && strchr(delim, *last)) last++`: by how much.
unfoldable pub delims : List ℕ → List ℕ → Option ℕ
delims delim [] = none
delims delim (c ∷ cs) =
    let rest = step_on (delims delim cs) in
    if c == 0
    then some 0
    else elim (is_delim delim c) [ none ↦ none | some hit ↦ if hit then rest else some 0 ]

-- `while (*last && !strchr(delim, *last)) last++`: by how much.
unfoldable pub others : List ℕ → List ℕ → Option ℕ
others delim [] = none
others delim (c ∷ cs) =
    let rest = step_on (others delim cs) in
    if c == 0
    then some 0
    else elim (is_delim delim c) [ none ↦ none | some hit ↦ if hit then some 0 else rest ]

-- The end of a token at `e`, which began at `t`.
unfoldable pub end_token : List ℕ → ℕ → ℕ → Option Tok
end_token buf t e = elim (get_elem? buf e) [
  | none ↦ none
  | some c ↦
      if c == 0
      then some (record { token = some t; last = some e; buf = buf })
      else some (record { token = some t; last = some (e + 1); buf = set buf e 0 })
]

-- From the first character that is no delimiter on, at `t`.
unfoldable pub take_token : List ℕ → ℕ → List ℕ → Option Tok
take_token buf t delim = elim (get_elem? buf t) [
  | none ↦ none
  | some c ↦
      if c == 0
      then some (record { token = none; last = some t; buf = buf })
      else elim (others delim (drop t buf)) [ none ↦ none | some n ↦ end_token buf t (t + n) ]
]

-- With `last` where the call looks from on.
unfoldable pub next_token : List ℕ → ℕ → List ℕ → Option Tok
next_token buf last delim = elim (get_elem? buf last) [
  | none ↦ none
  | some c ↦
      if c == 0
      then some (record { token = none; last = some last; buf = buf })
      else elim (delims delim (drop last buf)) [
        | none ↦ none
        | some n ↦ take_token buf (last + n) delim
      ]
]

-- `str` is NULL or an index into the string.
unfoldable pub strtok : Option ℕ → Tok → List ℕ → Option Tok
strtok (some p) s delim = next_token s.buf p delim
strtok none s delim = elim (s.last) [
  | none ↦ some (record { token = none; last = none; buf = s.buf })
  | some p ↦ next_token s.buf p delim
]
