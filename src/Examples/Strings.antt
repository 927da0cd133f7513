-- ===== src/Examples/Strings.antt =====
-- Strings and memory of include/libc.h on concrete input.
use netd_moduos.Common.{
  ℕ, ◌≡◌, inr, refl, List, [], ◌∷◌, ◌++◌, Option, none, some, All, length, get_elem?, pos, negsuc,
  replicate, arith,
}
use netd_moduos.Libc.Memory.{memmove, move_up, move_down, place}
use netd_moduos.Libc.Memory.Move.{moved_byte, memmove_lem}
use netd_moduos.Libc.Strings.{strcasecmp, strstr}
use netd_moduos.Libc.Strings.Search.{First, strstr-First}
use netd_moduos.Libc.Strings.Tokens.{strtok}
use netd_moduos.Libc.Strings.Tokens.Laws.{Separates, Stands, member, strtok-append}
use netd_moduos.Libc.Input.{input_line_to_buffer, entered}
use netd_moduos.Libc.Input.Edit.{edit, edit_all}
use netd_moduos.Libc.Input.Lines.{input_line_to_buffer-edit_all}
use netd_moduos.Libc.Snprintf.{signed_digits}
use netd_moduos.Libc.Numbers.{
  strtol, sscanf, count_ints, scan_ints, before_number, skip_blanks, take_sign, decimal,
}
use netd_moduos.Libc.Numbers.Long.{strtol-signed_digits}

abbrev one_to_six : List ℕ
one_to_six = 1 ∷ 2 ∷ 3 ∷ 4 ∷ 5 ∷ 6 ∷ []

-- Both places overlap.
memmove_example :
    (moved : List ℕ) × (memmove one_to_six 2 0 4 ≡ some moved)
    × (length moved ≡ length one_to_six)
    × ((i : ℕ) → get_elem? moved i ≡ moved_byte one_to_six 2 0 4 i)
memmove_example = memmove_lem one_to_six 2 0 4 (omega arith) (omega arith)

memmove_run : memmove one_to_six 2 0 4 ≡ some (1 ∷ 2 ∷ 1 ∷ 2 ∷ 3 ∷ 4 ∷ [])
unfolding memmove move_up move_down place
memmove_run = refl

abbrev hay : List ℕ
hay = b'a' ∷ b'a' ∷ b'b' ∷ b'a' ∷ b'b' ∷ []

abbrev needle : List ℕ
needle = b'a' ∷ b'b' ∷ []

strstr-First_example :
    (found : Option ℕ) × (strstr (hay ++ 0 ∷ []) (needle ++ 0 ∷ []) ≡ some found)
    × First needle hay found
strstr-First_example = strstr-First needle hay [] [] (ground arith) (ground arith)

-- ", b;c" behind "a", with the delimiters of ", ;".
abbrev separators : List ℕ
separators = b',' ∷ b' ' ∷ b';' ∷ []

separate : All (Separates separators) (b',' ∷ b' ' ∷ [])
unfolding member
separate =
    ((λ e. omega (arith, e), omega arith, refl), ((λ e. omega (arith, e), omega arith, refl), tt))

stands : All (Stands separators) (b'b' ∷ [])
unfolding member
stands = ((λ e. omega (arith, e), omega arith, refl), tt)

separates : Separates separators b';'
unfolding member
separates = (λ e. omega (arith, e), omega arith, refl)

strtok-append_example :
    strtok none
      (record {
        token = none;
        last = some 1;
        buf = b'a' ∷ b',' ∷ b' ' ∷ b'b' ∷ b';' ∷ b'c' ∷ 0 ∷ [];
      })
      (separators ++ 0 ∷ [])
    ≡ some (record {
      token = some 3;
      last = some 5;
      buf = b'a' ∷ b',' ∷ b' ' ∷ b'b' ∷ 0 ∷ b'c' ∷ 0 ∷ [];
    })
strtok-append_example =
    strtok-append (b'a' ∷ []) (b',' ∷ b' ' ∷ []) b'b' [] b';' (b'c' ∷ 0 ∷ []) separators []
      (ground arith) separate stands (inr separates)

strtol-signed_digits_example :
    strtol (signed_digits (negsuc 1517) ++ 0 ∷ []) 10 ≡ some (negsuc 1517, 0 ∷ [])
strtol-signed_digits_example = strtol-signed_digits (negsuc 1517) [] (omega arith)

-- "ab", '\\b', "c".
abbrev keys : List ℕ
keys = b'a' ∷ b'b' ∷ 8 ∷ b'c' ∷ []

input_line_to_buffer-edit_all_example :
    (behind : List ℕ) × (input_line_to_buffer (pos 3) (keys ++ b'\n' ∷ []) (replicate 8 0) 8
      ≡ some (entered (record { buf = b'a' ∷ b'c' ∷ 0 ∷ behind; n = 2 })))
unfolding edit edit_all
input_line_to_buffer-edit_all_example =
    input_line_to_buffer-edit_all (pos 3) 7 keys [] (replicate 8 0) refl (omega arith) (omega arith)
      (ground arith)

sscanf_run :
    sscanf (b'1' ∷ b'2' ∷ b' ' ∷ b'-' ∷ b'3' ∷ 0 ∷ []) (b'%' ∷ b'd' ∷ b' ' ∷ b'%' ∷ b'd' ∷ 0 ∷ [])
    ≡ some (pos 12 ∷ negsuc 2 ∷ [])
unfolding sscanf count_ints scan_ints before_number skip_blanks take_sign decimal
sscanf_run = refl

strcasecmp_run : strcasecmp (b'A' ∷ b'b' ∷ 0 ∷ []) (b'a' ∷ b'C' ∷ 0 ∷ []) ≡ some (negsuc 0)
unfolding strcasecmp
strcasecmp_run = refl
