-- ===== src/Libc/Strings/Search.antt =====
-- strstr against a description of occurrences.
use netd_moduos.Common.{
  ℕ, zero, suc, ◌≡◌, ◌≢◌, ◌⊎◌, inl, inr, refl, true, false, List, [], ◌∷◌, ◌++◌, Option, none, some,
  ◌==◌, ==_iff, ne→not-eq, All, Bool-cases, length, drop,
}
use netd_moduos.Libc.Strings.{matches, search, strstr}

-- The characters of a string.
abbrev pub IsText : List ℕ → Type 0
IsText cs = All (λ c. c ≢ 0) cs

abbrev pub IsPrefix : List ℕ → List ℕ → Type 0
IsPrefix ns hs = (t : List ℕ) × (hs ≡ ns ++ t)

-- The text from each of the first places on.
abbrev pub suffixes : ℕ → List ℕ → List (List ℕ)
suffixes zero hs = []
suffixes (suc i) [] = []
suffixes (suc i) (h ∷ hs) = (h ∷ hs) ∷ suffixes i hs

abbrev Misses : List ℕ → List (List ℕ) → Type 0
Misses ns hs = All (λ h. ¬ (IsPrefix ns h)) hs

-- `some i` is the first place where `ns` stands in `hs`, and `none` says that there is no such place.
abbrev pub First : List ℕ → List ℕ → Option ℕ → Type 0
First ns hs none = Misses ns (suffixes (length hs) hs)
First ns hs (some i) = Misses ns (suffixes i hs) × IsPrefix ns (drop i hs)

matches-IsPrefix :
    (ns hs r r' : List ℕ)
    → IsText ns
    → IsText hs
    → ((matches (hs ++ 0 ∷ r) (ns ++ 0 ∷ r') ≡ some true) × IsPrefix ns hs)
      ⊎ ((matches (hs ++ 0 ∷ r) (ns ++ 0 ∷ r') ≡ some false) × ¬ (IsPrefix ns hs))
unfolding matches
matches-IsPrefix [] [] r r' tn th = inl (refl, ([], refl))
matches-IsPrefix [] (h ∷ hs) r r' tn th = inl (rw (ne→not-eq h 0 th.0) refl, (h ∷ hs, refl))
matches-IsPrefix (n ∷ ns) [] r r' tn th = inr (rw (ne→not-eq n 0 tn.0) refl, λ p. cc (p.1))
matches-IsPrefix (n ∷ ns) (h ∷ hs) r r' tn th = elim (Bool-cases (h == n)) [
  | inr other ↦ inr (
    rw (matches, ne→not-eq h 0 th.0, ne→not-eq n 0 tn.0, other) refl,
    λ p. let same : h ≡ n = cc (p.1) in cc (other, (==_iff h n).1 same),
  )
  | inl same ↦
      let here : h ≡ n = (==_iff h n).0 same in
      elim (matches-IsPrefix ns hs r r' tn.1 th.1) [
        | inl (runs, (t, e)) ↦
            inl (rw (matches, ne→not-eq h 0 th.0, ne→not-eq n 0 tn.0, same) runs, (t, cc (here, e)))
        | inr (runs, miss) ↦ inr (
          rw (matches, ne→not-eq h 0 th.0, ne→not-eq n 0 tn.0, same) runs,
          λ p. miss (p.0, cc (p.1)),
        )
      ]
]

search-First :
    (n : ℕ) (ns hs r r' : List ℕ)
    → IsText (n ∷ ns)
    → IsText hs
    → (found : Option ℕ) × (search (hs ++ 0 ∷ r) (n ∷ ns ++ 0 ∷ r') ≡ some found)
      × First (n ∷ ns) hs found
unfolding search
search-First n ns [] r r' tn th = (none, refl, tt)
search-First n ns (h ∷ hs) r r' tn th =
    let (found, runs, first) = search-First n ns hs r r' tn th.1 in
    elim (matches-IsPrefix (n ∷ ns) (h ∷ hs) r r' tn th) [
      | inl (hit, p) ↦ (some 0, rw (search, ne→not-eq h 0 th.0, hit) refl, (tt, p))
      | inr (miss, no') ↦ later n ns h hs r r' found runs first th.0 miss no'
    ]
  where
    later :
        (n : ℕ) (ns : List ℕ) (h : ℕ) (hs r r' : List ℕ) (found : Option ℕ)
        → search (hs ++ 0 ∷ r) (n ∷ ns ++ 0 ∷ r') ≡ some found
        → First (n ∷ ns) hs found
        → h ≢ 0
        → matches (h ∷ hs ++ 0 ∷ r) (n ∷ ns ++ 0 ∷ r') ≡ some false
        → ¬ (IsPrefix (n ∷ ns) (h ∷ hs))
        → (found' : Option ℕ) × (search (h ∷ hs ++ 0 ∷ r) (n ∷ ns ++ 0 ∷ r') ≡ some found')
          × First (n ∷ ns) (h ∷ hs) found'
    later n ns h hs r r' none runs first more miss no' =
        (none, rw (search, ne→not-eq h 0 more, miss, runs) refl, (no', first))
    later n ns h hs r r' (some i) runs first more miss no' =
        (some (suc i), rw (search, ne→not-eq h 0 more, miss, runs) refl, ((no', first.0), first.1))

-- For all strings strstr returns, with the first place where the needle stands in the other
-- string, or with NULL where it stands nowhere.
pub strstr-First :
    (ns hs r r' : List ℕ)
    → IsText ns
    → IsText hs
    → (found : Option ℕ) × (strstr (hs ++ 0 ∷ r) (ns ++ 0 ∷ r') ≡ some found) × First ns hs found
unfolding strstr
strstr-First [] hs r r' tn th = (some 0, refl, (tt, (hs, refl)))
strstr-First (n ∷ ns) hs r r' tn th =
    let (found, runs, first) = search-First n ns hs r r' tn th in
    (found, rw (strstr, ne→not-eq n 0 tn.0) runs, first)
