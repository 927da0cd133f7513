-- ===== src/Examples/Libc.antt =====
-- The routines of include/libc.h on concrete input.
use netd_moduos.Common.{ℕ, ◌+◌, ◌≡◌, ◌≢◌, All, List, [], ◌∷◌, ◌++◌, arith, refl, negsuc}
use netd_moduos.Libc.Print.{digits_of, print_int, print_uint}
use netd_moduos.Libc.Printf.{
  num, emit, printf, printed, unfinished, printf_loop, after_directive, directive, read_width,
  number, print_signed,
}
use netd_moduos.Libc.Snprintf.{Filled, unfinished as unended, map_filled, snprintf}
use netd_moduos.Libc.Snprintf.Laws.{shown, snprintf_cuts}
use netd_moduos.Libc.Sprintf.{sprintf}
use netd_moduos.Api.Init.{init_message}
use netd_moduos.Libc.Sprintf.Laws.{HasNegative, sprintf-printf}
use netd_moduos.Libc.Printf.Laws.{codes}
use netd_moduos.Libc.Printf.Unknown.{printf-unknown}

abbrev abcd : List ℕ
abcd = b'a' ∷ b'b' ∷ b'c' ∷ b'd' ∷ []

-- "%u ms%", with an argument of 30.
arg_fits : All HasNegative (num 30 ∷ [])
arg_fits = (λ e. cc, tt)

no_modifier : All (λ c. c ≢ b'l') (codes "%u ms%")
no_modifier = ground arith

sprintf-printf_example :
    (sprintf (codes "%u ms%") (num 30 ∷ []) ≡ printf (codes "%u ms%") (num 30 ∷ []))
    × (sprintf (codes "%u ms%") (num 30 ∷ []) ≢ unfinished)
sprintf-printf_example = sprintf-printf (codes "%u ms%") (num 30 ∷ []) no_modifier arg_fits

-- The line that md_main prints: `%02x` holds an unknown directive, whose `2x` stays text.
printf-unknown_example :
    printf (codes "MAC: " ++ b'%' ∷ b'0' ∷ codes "2x:%u") (num 82 ∷ [])
    ≡ emit (codes "MAC: " ++ b'%' ∷ b'0' ∷ []) (printf (codes "2x:%u") (num 82 ∷ []))
printf-unknown_example =
    printf-unknown (codes "MAC: ") b'0' (codes "2x:%u") (num 82 ∷ []) (ground arith) (ground arith)

snprintf_cuts_example :
    (o : Filled (List ℕ)) × (o ≢ unended)
    × ((room : ℕ) → snprintf (room + 1) (codes "%u ms") (num 30 ∷ []) ≡ map_filled (shown room) o)
snprintf_cuts_example = snprintf_cuts (codes "%u ms") (num 30 ∷ [])

-- A registration that fails with -17.
failed_registration : init_message (negsuc 16) ≡ printed (codes "[netd] API register failed: -17\n")
unfolding init_message printf printf_loop after_directive directive read_width number print_signed
    print_int print_uint digits_of
failed_registration = refl
