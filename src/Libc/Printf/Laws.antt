-- ===== src/Libc/Printf/Laws.antt =====
-- That printf comes to an end, and what md_main prints.
use Prim.Native.String.{String}
use Prim.Native.Char.{code}
use netd_moduos.Common.{
  ℕ, zero, suc, ◌+◌, ◌%◌, ◌^◌, ◌≤◌, ◌<◌, ◌≡◌, ◌≢◌, refl, Bool, true, false, List, [], ◌∷◌, ◌++◌,
  Option, none, some, ◌==◌, if◌then◌else◌, length, arith, Bool-cases, inl, inr,
}
use netd_moduos.Libc.Print.{print_uint}
use netd_moduos.Libc.Printf.{
  Arg, num, text, Printed, printed, undefined, unfinished, Width, long, long_long, head, tail,
  read_width, print_unsigned, Step, number, characters, string, hex, is_digit, directive, emit,
  after_directive, printf_loop, printf,
}

-- The characters of a literal.
abbrev pub codes : String → List ℕ
codes String.[] = []
codes (String.◌∷◌ c s) = code c ∷ codes s

-- A step never goes back in the format.
abbrev pub NotBack : List ℕ → Step → Type 0
NotBack fmt none = Unit {0}
NotBack fmt (some (out, fmt', args)) = length fmt' ≤ length fmt

pub record Onward (fmt : List ℕ) (step : Step) : Type 0 where
  pub le : NotBack fmt step

pub length-tail-le : (fmt : List ℕ) → length (tail fmt) ≤ length fmt
length-tail-le [] = omega arith
length-tail-le (c ∷ cs) = omega arith

Onward-some : (fmt out : List ℕ) (args : List Arg) → Onward fmt (some (out, fmt, args))
Onward-some fmt out args = record { le = omega arith }

number_back :
    (show' : ℕ → List ℕ) (fmt fmt' : List ℕ) (args : List Arg)
    → length fmt' ≤ length fmt
    → NotBack fmt (number show' fmt' args)
unfolding number
number_back show' fmt fmt' (num v ∷ args) le = le
number_back show' fmt fmt' (text s ∷ args) le = tt
number_back show' fmt fmt' [] le = tt

number-Onward :
    (show' : ℕ → List ℕ) (fmt : List ℕ) (args : List Arg) → Onward fmt (number show' fmt args)
number-Onward show' fmt args = record { le = number_back show' fmt fmt args (omega arith) }

string_back : (fmt : List ℕ) (args : List Arg) → NotBack fmt (string fmt args)
unfolding string
string_back fmt (text s ∷ args) = go (characters s)
  where
    go :
        (o : Option (List ℕ))
        → NotBack fmt (elim o [ none ↦ none | some cs ↦ some (cs, fmt, args) ])
    go none = tt
    go (some cs) = omega arith
string_back fmt (num v ∷ args) = tt
string_back fmt [] = tt

string-Onward : (fmt : List ℕ) (args : List Arg) → Onward fmt (string fmt args)
string-Onward fmt args = record { le = string_back fmt args }

skip_le : (b : Bool) (fmt : List ℕ) → length (if b then tail fmt else fmt) ≤ length fmt
skip_le true fmt = length-tail-le fmt
skip_le false fmt = omega arith

hex-Onward : (fmt : List ℕ) (args : List Arg) → Onward fmt (hex fmt args)
unfolding hex
hex-Onward fmt args =
    let fmt' = if head fmt == b'0' then tail fmt else fmt in
    record {
      le =
          number_back _ fmt _ args
            (omega (arith, skip_le (head fmt == b'0') fmt, skip_le (is_digit (head fmt')) fmt'));
    }

Onward-if :
    (b : Bool) (fmt : List ℕ) (x y : Step)
    → Onward fmt x
    → Onward fmt y
    → Onward fmt (if b then x else y)
Onward-if true fmt x y hx hy = hx
Onward-if false fmt x y hx hy = hy

ruleset onward_rules = (Onward-if, Onward-some, number-Onward, string-Onward, hex-Onward)

pub directive-Onward :
    (w : Width) (fmt : List ℕ) (args : List Arg) → Onward fmt (directive w fmt args)
unfolding directive
directive-Onward w fmt args = search (onward_rules) depth 12

skip_l :
    (b : Bool) (w w' : Width) (fmt fmt' : List ℕ)
    → length fmt' ≤ length fmt
    → length ((if◌then◌else◌ {A = Width × List ℕ} b (w, fmt') (w', fmt)).1) ≤ length fmt
skip_l true w w' fmt fmt' h = h
skip_l false w w' fmt fmt' h = omega arith

pub read_width-le : (fmt : List ℕ) → length ((read_width fmt).1) ≤ length fmt
unfolding read_width
read_width-le fmt = elim (Bool-cases (head fmt == b'l')) [
  | inl l ↦ rw l (
      omega (
        arith,
        length-tail-le fmt,
        skip_l (head (tail fmt) == b'l') long_long long (tail fmt) (tail (tail fmt))
            (length-tail-le (tail fmt)),
      ))
  | inr other ↦ rw other (omega arith)
]

emit_ends : (out : List ℕ) (p : Printed) → p ≢ unfinished → emit out p ≢ unfinished
emit_ends out (printed rest) h = λ e. cc
emit_ends out undefined h = λ e. cc
emit_ends out unfinished h = h

after_directive_ends :
    (next : List ℕ → List Arg → Printed) (fmt : List ℕ) (step : Step)
    → NotBack fmt step
    → ((fmt' : List ℕ) (args : List Arg) → length fmt' ≤ length fmt → next fmt' args ≢ unfinished)
    → after_directive next step ≢ unfinished
unfolding after_directive
after_directive_ends next fmt none back ends = λ e. cc
after_directive_ends next fmt (some (out, fmt', args)) back ends =
    emit_ends out (next (tail fmt') args)
      (ends (tail fmt') args (omega (arith, length-tail-le fmt')))

printf_loop_ends :
    (fuel : ℕ) (fmt : List ℕ) (args : List Arg)
    → length fmt < fuel
    → printf_loop fuel fmt args ≢ unfinished
unfolding printf_loop
printf_loop_ends zero fmt args h = absurd (omega arith)
printf_loop_ends (suc fuel) [] args h = λ e. cc
printf_loop_ends (suc fuel) (c ∷ cs) args h = elim (Bool-cases (c == b'%')) [
  | inl per ↦
      let at = (read_width cs).1 in
      let on : NotBack at (directive ((read_width cs).0) at args) =
        (directive-Onward ((read_width cs).0) at args).le in
      rw per (
        after_directive_ends (λ fmt' args'. printf_loop fuel fmt' args') at
          (directive ((read_width cs).0) at args) on
          (λ fmt' args' le.
            printf_loop_ends fuel fmt' args' (omega (arith, h, le, read_width-le cs))))
  | inr other ↦ rw other (
      emit_ends (c ∷ []) (printf_loop fuel cs args)
        (printf_loop_ends fuel cs args (omega (arith, h))))
]

-- For every format and all arguments printf comes to the end of the format, or to a directive
-- whose argument is missing, of another kind, or a string without an end.
pub printf_ends : (fmt : List ℕ) (args : List Arg) → printf fmt args ≢ unfinished
unfolding printf
printf_ends fmt args = printf_loop_ends (length fmt + 1) fmt args (omega arith)

-- What `%u` prints.
abbrev pub decimal : ℕ → List ℕ
decimal n = print_uint (n % 2 ^ 32) 10 false

-- The format with which md_main prints an address prints its four numbers, separated by dots.
pub printf_address :
    (a b c d : ℕ)
    → printf (codes "%u.%u.%u.%u") (num a ∷ num b ∷ num c ∷ num d ∷ [])
      ≡ printed
          (decimal a ++ (b'.' ∷ (decimal b ++ (b'.' ∷ (decimal c ++ (b'.' ∷ (decimal d ++ [])))))))
unfolding printf printf_loop after_directive directive read_width number print_unsigned
printf_address a b c d = refl
