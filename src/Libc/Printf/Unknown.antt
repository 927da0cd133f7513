-- ===== src/Libc/Printf/Unknown.antt =====
-- Directives that printf does not know, as `%02x`, at any place of a format.
use netd_moduos.Common.{
  ℕ, zero, suc, ◌+◌, ◌≤◌, ◌<◌, ◌≡◌, ◌≢◌, refl, ap, ◌∙◌, List, [], ◌∷◌, ◌++◌, none, some, ◌==◌,
  ne→not-eq, length, All, arith, Bool-cases, inl, inr,
}
use mathlib.Core.List.{append_assoc}
use netd_moduos.Libc.Printf.{
  Arg, Printed, printed, undefined, unfinished, plain, read_width, Step, directive, emit,
  after_directive, printf_loop, printf,
}
use netd_moduos.Libc.Printf.Laws.{NotBack, directive-Onward, length-tail-le, read_width-le}
use netd_moduos.Libc.Printf.{tail}

-- A character that ends no directive and is no modifier.
abbrev pub IsUnknown : ℕ → Type 0
IsUnknown c =
    (c ≢ b'c')
    × (c ≢ b's')
    × (c ≢ b'd')
    × (c ≢ b'i')
    × (c ≢ b'u')
    × (c ≢ b'x')
    × (c ≢ b'X')
    × (c ≢ b'%')
    × (c ≢ b'l')

after_directive-same :
    (next next' : List ℕ → List Arg → Printed) (fmt : List ℕ) (step : Step)
    → NotBack fmt step
    → ((fmt' : List ℕ) (args : List Arg)
        → length fmt' ≤ length fmt
        → next fmt' args ≡ next' fmt' args)
    → after_directive next step ≡ after_directive next' step
unfolding after_directive
after_directive-same next next' fmt none back same = refl
after_directive-same next next' fmt (some (out, fmt', args)) back same =
    ap (emit out) (same (tail fmt') args (omega (arith, length-tail-le fmt')))

-- More fuel than characters makes no difference.
printf_loop_fuel :
    (f g : ℕ) (fmt : List ℕ) (args : List Arg)
    → length fmt < f
    → length fmt < g
    → printf_loop f fmt args ≡ printf_loop g fmt args
unfolding printf_loop
printf_loop_fuel zero g fmt args hf hg = absurd (omega arith)
printf_loop_fuel (suc f) zero fmt args hf hg = absurd (omega arith)
printf_loop_fuel (suc f) (suc g) [] args hf hg = refl
printf_loop_fuel (suc f) (suc g) (c ∷ cs) args hf hg = elim (Bool-cases (c == b'%')) [
  | inl per ↦
      let at = (read_width cs).1 in
      let step = directive ((read_width cs).0) at args in
      rw per (
        after_directive-same (λ fmt' args'. printf_loop f fmt' args')
          (λ fmt' args'. printf_loop g fmt' args') at step
          ((directive-Onward ((read_width cs).0) at args).le)
          λ fmt' args' le.
            printf_loop_fuel f g fmt' args' (omega (arith, hf, le, read_width-le cs))
              (omega (arith, hg, le, read_width-le cs)))
  | inr other ↦
      rw other (ap (emit (c ∷ [])) (printf_loop_fuel f g cs args (omega arith) (omega arith)))
]

emit-emit : (xs ys : List ℕ) (p : Printed) → emit xs (emit ys p) ≡ emit (xs ++ ys) p
emit-emit xs ys (printed rest) = ap printed (simp append_assoc)
emit-emit xs ys undefined = refl
emit-emit xs ys unfinished = refl

directive-unknown :
    (c : ℕ) (rest : List ℕ) (args : List Arg)
    → IsUnknown c
    → directive plain (c ∷ rest) args ≡ some (b'%' ∷ c ∷ [], c ∷ rest, args)
unfolding directive
directive-unknown c rest args (is_c, is_s, is_d, is_i, is_u, is_x, is_X, is_per, is_l) =
    rw
      (
        directive,
        ne→not-eq c b'c' is_c,
        ne→not-eq c b's' is_s,
        ne→not-eq c b'd' is_d,
        ne→not-eq c b'i' is_i,
        ne→not-eq c b'u' is_u,
        ne→not-eq c b'x' is_x,
        ne→not-eq c b'X' is_X,
        ne→not-eq c b'%' is_per,
      )
      refl

read_width-unknown :
    (c : ℕ) (rest : List ℕ) → IsUnknown c → read_width (c ∷ rest) ≡ (plain, c ∷ rest)
unfolding read_width
read_width-unknown c rest unknown = rw (ne→not-eq c b'l' unknown.8) refl

-- At the beginning of a format.
printf-unknown_first :
    (c : ℕ) (rest : List ℕ) (args : List Arg)
    → IsUnknown c
    → printf (b'%' ∷ c ∷ rest) args ≡ emit (b'%' ∷ c ∷ []) (printf rest args)
unfolding printf printf_loop after_directive
printf-unknown_first c rest args unknown =
    let size : length (b'%' ∷ c ∷ rest) + 1 ≡ suc (length rest + 2) = omega arith in
    rw
      (
        printf,
        size,
        printf_loop,
        read_width-unknown c rest unknown,
        directive-unknown c rest args unknown,
      )
      (ap (emit (b'%' ∷ c ∷ [])) (
        printf_loop_fuel (length rest + 2) (length rest + 1) rest args (omega arith) (omega arith)))

printf-other_first :
    (x : ℕ) (xs : List ℕ) (args : List Arg)
    → x ≢ b'%'
    → printf (x ∷ xs) args ≡ emit (x ∷ []) (printf xs args)
unfolding printf printf_loop
printf-other_first x xs args other =
    let size : length (x ∷ xs) + 1 ≡ suc (length xs + 1) = omega arith in
    rw (printf, size, printf_loop, ne→not-eq x b'%' other) refl

-- printf writes a % and a character that it does not know behind it as they stand, takes no
-- argument for them, and goes on behind that character, whatever the rest of the format and the
-- arguments are. The text in front has no %, and the character is none of c, s, d, i, u, x, X, %
-- and l; a digit is such a character, so that a width in front of the letter is not read as one.
pub printf-unknown :
    (front : List ℕ) (c : ℕ) (rest : List ℕ) (args : List Arg)
    → All (λ x. x ≢ b'%') front
    → IsUnknown c
    → printf (front ++ b'%' ∷ c ∷ rest) args ≡ emit (front ++ b'%' ∷ c ∷ []) (printf rest args)
printf-unknown [] c rest args plain' unknown = printf-unknown_first c rest args unknown
printf-unknown (x ∷ front) c rest args plain' unknown =
    printf-other_first x (front ++ b'%' ∷ c ∷ rest) args plain'.0
    ∙ ap (emit (x ∷ [])) (printf-unknown front c rest args plain'.1 unknown)
    ∙ emit-emit (x ∷ []) (front ++ b'%' ∷ c ∷ []) (printf rest args)
