-- ===== src/Libc/Input.antt =====
-- input_line_to_buffer of include/libc.h. The keys are the characters that its reads of the keyboard
-- give one after the other, without the reads that give nothing. The outer `none` is a write outside
-- the buffer; what is printed is not modelled.
pub mod Edit
pub mod Lines
use netd_moduos.Common.{
  ℕ, zero, suc, ◌+◌, ◌-◌, ◌^◌, Bool, ◌&&◌, ◌||◌, not, List, [], ◌∷◌, Option, none, some, ltb, leb,
  ◌==◌, if◌then◌else◌, ℤ, is_neg,
}
use netd_moduos.Libc.Memory.{put}

-- `buf` and `n`.
pub record Line : Type 0 where
  pub buf : List ℕ
  pub n : ℕ

abbrev pub at_length : ℕ → Option (List ℕ) → Option Line
at_length n none = none
at_length n (some buf) = some (record { buf = buf; n = n })

-- `n--; buf[n] = 0;`
unfoldable pub rub_out : Line → Option Line
rub_out l = at_length (l.n - 1) (put l.buf (l.n - 1) 0)

-- `buf[n++] = c; buf[n] = 0;`
unfoldable pub append_key : ℕ → Line → Option Line
append_key c l = elim (put l.buf l.n c) [
  | none ↦ none
  | some buf ↦ at_length (l.n + 1) (put buf (l.n + 1) 0)
]

-- A round of the loop on a key other than '\n'.
unfoldable pub type_key : ℕ → ℕ → Line → Option Line
type_key safe_max c l =
    if c == b'\r'
    then some l
    else if ((c == 8) || (c == 127)) && ltb 0 l.n
    then rub_out l
    else if ltb l.n safe_max && (leb 32 c && ltb c 127)
    then append_key c l
    else some l

-- How the call ends: with -1, or with a line; `waiting` if it reads on behind the keys.
pub data Input : Type 0 where
  refused : List ℕ → Input
  entered : Line → Input
  waiting : Line → Input

abbrev pub end_line : Option Line → Option Input
end_line none = none
end_line (some l) = some (entered l)

unfoldable pub read_keys : ℕ → List ℕ → Line → Option Input
read_keys safe_max [] l = some (waiting l)
read_keys safe_max (c ∷ cs) l =
    let on : Line → Option Input = read_keys safe_max cs in
    if c == b'\n'
    then end_line (at_length l.n (put l.buf l.n 0))
    else elim (type_key safe_max c l) [ none ↦ none | some l' ↦ on l' ]

-- input_line_to_buffer on a buffer that is not NULL; `fd` is the result of `open`.
unfoldable pub input_line_to_buffer : ℤ → List ℕ → List ℕ → ℕ → Option Input
input_line_to_buffer fd keys buf maxlen =
    if (maxlen == 0) || ltb 0x7fff_ffff maxlen
    then some (refused buf)
    else if is_neg fd
    then (elim (put buf 0 0) [ none ↦ none | some buf' ↦ some (refused buf') ])
    else read_keys (maxlen - 1) keys (record { buf = buf; n = 0 })
