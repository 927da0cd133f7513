-- ===== src/Libc/Sprintf/Laws.antt =====
-- That sprintf writes what printf prints, on formats without modifiers.
use netd_moduos.Common.{
  ℕ, zero, suc, ◌+◌, ◌-◌, ◌%◌, ◌^◌, ◌≡◌, ◌≢◌, refl, ap, sym, ◌∙◌, Bool, true, false, List, [], ◌∷◌,
  Option, none, some, negsuc, signed32, ◌==◌, ==_iff, if◌then◌else◌, length, All, ne→not-eq,
  Bool-cases, inl, inr,
}
use netd_moduos.Libc.Print.{print_uint, print_uint_padded, print_int}
use netd_moduos.Libc.Printf.{
  Arg, num, text, Width, plain, Printed, unfinished, head, tail, read_width, print_signed,
  print_unsigned, Step, number, string, is_digit, hex, directive, emit, after_directive,
  printf_loop, printf, characters,
}
use netd_moduos.Libc.Printf.Laws.{printf_ends}
use netd_moduos.Libc.Sprintf.{signed_text, unsigned_text, sprintf_directive, sprintf_loop, sprintf}
use netd_moduos.Libc.Sprintf.Digits.{signed_text-print_int, unsigned_text-print_uint, padded}

-- Not the least `int`.
abbrev pub HasNegative : Arg → Type 0
HasNegative (num v) = signed32 (v % 2 ^ 32) ≢ negsuc (2 ^ 31 - 1)
HasNegative (text s) = Unit {0}

number_same :
    (f g : ℕ → List ℕ) (fmt : List ℕ) (args : List Arg)
    → ((v : ℕ) → HasNegative (num v) → f v ≡ g v)
    → All HasNegative args
    → number f fmt args ≡ number g fmt args
unfolding number
number_same f g fmt (num v ∷ args) same (fits, rest) = rw (same v fits) refl
number_same f g fmt (text s ∷ args) same fits = refl
number_same f g fmt [] same fits = refl

hex_here :
    (fmt : List ℕ) (args : List Arg)
    → head fmt ≡ b'x'
    → hex fmt args ≡ number (λ v. print_uint_padded (v % 2 ^ 32) 16 false 0 b' ') fmt args
unfolding hex
hex_here fmt args here =
    let no_zero : (head fmt == b'0') ≡ false = rw here refl in
    let no_digit : is_digit (head fmt) ≡ false = rw here refl in rw (no_zero, no_digit) refl

sprintf_directive-directive :
    (fmt : List ℕ) (args : List Arg)
    → All HasNegative args
    → sprintf_directive plain fmt args ≡ directive plain fmt args
unfolding sprintf_directive directive print_signed print_unsigned
sprintf_directive-directive fmt args fits =
    let signed =
      number_same (λ v. signed_text (signed32 (v % 2 ^ 32)))
        (λ v. print_int (signed32 (v % 2 ^ 32))) fmt args
        (λ v h. signed_text-print_int (signed32 (v % 2 ^ 32)) h) fits in
    let same = λ (base : ℕ) (upper : Bool).
      number_same (λ v. unsigned_text base upper (v % 2 ^ 32))
        (λ v. print_uint (v % 2 ^ 32) base upper) fmt args
        (λ v h. unsigned_text-print_uint base (v % 2 ^ 32) upper) fits in
    let unpadded =
      number_same (λ v. print_uint_padded (v % 2 ^ 32) 16 false 0 b' ')
        (λ v. print_uint (v % 2 ^ 32) 16 false) fmt args (λ v h. padded (v % 2 ^ 32)) fits in
    elim (Bool-cases (head fmt == b'x')) [
      | inl here ↦
          rw
            (
              signed,
              same 10 false,
              same 16 false,
              same 16 true,
              hex_here fmt args ((==_iff (head fmt) b'x').0 here),
              unpadded,
            )
            refl
      | inr other ↦ rw (other, signed, same 10 false, same 16 true) refl
    ]

-- The format stays where it is, and the arguments that are left have negatives.
abbrev LeftAt : List ℕ → Step → Type 0
LeftAt fmt none = Unit {0}
LeftAt fmt (some (out, fmt', args)) = (fmt' ≡ fmt) × All HasNegative args

record Stays (fmt : List ℕ) (step : Step) : Type 0 where
  left : LeftAt fmt step

number_left :
    (f : ℕ → List ℕ) (fmt : List ℕ) (args : List Arg)
    → All HasNegative args
    → LeftAt fmt (number f fmt args)
unfolding number
number_left f fmt (num v ∷ args) (fits, rest) = (refl, rest)
number_left f fmt (text s ∷ args) fits = tt
number_left f fmt [] fits = tt

string_left : (fmt : List ℕ) (args : List Arg) → All HasNegative args → LeftAt fmt (string fmt args)
unfolding string
string_left fmt (text s ∷ args) (fits, rest) = go (characters s)
  where
    go :
        (o : Option (List ℕ)) → LeftAt fmt (elim o [ none ↦ none | some cs ↦ some (cs, fmt, args) ])
    go none = tt
    go (some cs) = (refl, rest)
string_left fmt (num v ∷ args) fits = tt
string_left fmt [] fits = tt

Stays-if :
    (b : Bool) (fmt : List ℕ) (x y : Step)
    → Stays fmt x
    → Stays fmt y
    → Stays fmt (if b then x else y)
Stays-if true fmt x y sx sy = sx
Stays-if false fmt x y sx sy = sy

number-Stays :
    (f : ℕ → List ℕ) (fmt : List ℕ) (args : List Arg)
    → All HasNegative args
    → Stays fmt (number f fmt args)
number-Stays f fmt args fits = record { left = number_left f fmt args fits }

string-Stays : (fmt : List ℕ) (args : List Arg) → All HasNegative args → Stays fmt (string fmt args)
string-Stays fmt args fits = record { left = string_left fmt args fits }

Stays-some :
    (out fmt : List ℕ) (args : List Arg) → All HasNegative args → Stays fmt (some (out, fmt, args))
Stays-some out fmt args fits = record { left = (refl, fits) }

ruleset stays_rules = (Stays-if, Stays-some, number-Stays, string-Stays)

sprintf_directive-Stays :
    (w : Width) (fmt : List ℕ) (args : List Arg)
    → All HasNegative args
    → Stays fmt (sprintf_directive w fmt args)
unfolding sprintf_directive
sprintf_directive-Stays w fmt args fits = search (stays_rules) depth 12

after_same :
    (f g : List ℕ → List Arg → Printed) (fmt : List ℕ) (step : Step)
    → LeftAt fmt step
    → ((args : List Arg) → All HasNegative args → f (tail fmt) args ≡ g (tail fmt) args)
    → after_directive f step ≡ after_directive g step
unfolding after_directive
after_same f g fmt none left same = refl
after_same f g fmt (some (out, fmt', args)) (here, fits) same =
    rw here (ap (emit out) (same args fits))

read_width-plain : (fmt : List ℕ) → All (λ c. c ≢ b'l') fmt → read_width fmt ≡ (plain, fmt)
unfolding read_width
read_width-plain [] no_l = refl
read_width-plain (c ∷ cs) (other, no_l) = rw (ne→not-eq c b'l' other) refl

no_l-tail : (fmt : List ℕ) → All (λ c. c ≢ b'l') fmt → All (λ c. c ≢ b'l') (tail fmt)
no_l-tail [] no_l = tt
no_l-tail (c ∷ cs) (other, no_l) = no_l

sprintf_loop-printf_loop :
    (fuel : ℕ) (fmt : List ℕ) (args : List Arg)
    → All (λ c. c ≢ b'l') fmt
    → All HasNegative args
    → sprintf_loop fuel fmt args ≡ printf_loop fuel fmt args
unfolding sprintf_loop printf_loop
sprintf_loop-printf_loop zero fmt args no_l fits = refl
sprintf_loop-printf_loop (suc fuel) [] args no_l fits = refl
sprintf_loop-printf_loop (suc fuel) (c ∷ cs) args (first, no_l) fits =
    elim (Bool-cases (c == b'%')) [
      | inl per ↦
          rw (per, read_width-plain cs no_l)
            (after_same (λ fmt' args'. sprintf_loop fuel fmt' args')
                (λ fmt' args'. printf_loop fuel fmt' args') cs (sprintf_directive plain cs args)
                (sprintf_directive-Stays plain cs args fits).left
                (λ args' fits'.
                  sprintf_loop-printf_loop fuel (tail cs) args' (no_l-tail cs no_l) fits')
              ∙ ap (after_directive (λ fmt' args'. printf_loop fuel fmt' args'))
                  (sprintf_directive-directive cs args fits))
      | inr other ↦ rw other (ap (emit (c ∷ [])) (sprintf_loop-printf_loop fuel cs args no_l fits))
    ]

-- On a format without the letter `l`, and with arguments of which none is the least `int`, sprintf
-- writes what printf prints, and comes to the end of the format or to a directive whose argument
-- is missing, of another kind, or a string without an end.
pub sprintf-printf :
    (fmt : List ℕ) (args : List Arg)
    → All (λ c. c ≢ b'l') fmt
    → All HasNegative args
    → (sprintf fmt args ≡ printf fmt args) × (sprintf fmt args ≢ unfinished)
unfolding sprintf printf
sprintf-printf fmt args no_l fits =
    let same = sprintf_loop-printf_loop (length fmt + 1) fmt args no_l fits in
    (same, λ e. printf_ends fmt args (sym same ∙ e))
