-- ===== src/Libc/Input/Lines.antt =====
-- The line that input_line_to_buffer leaves, and the text that the keys edit.
use netd_moduos.Common.{
  ℕ, ◌+◌, ◌-◌, ◌^◌, ◌≤◌, ◌<◌, ◌≡◌, ◌≢◌, refl, ap, ◌∙◌, false, ◌||◌, List, [], ◌∷◌, ◌++◌, some, ltb,
  ◌==◌, ne→not-eq, All, length, ℤ, is_neg, arith,
}
use mathlib.Core.List.{reverse, reverse_aux, reverse_aux-eq}
use netd_moduos.Libc.Memory.{put}
use netd_moduos.Libc.Input.{Line, at_length, entered, end_line, read_keys, input_line_to_buffer}
use netd_moduos.Libc.Input.Edit.{edit, edit_all, put-behind, Holds, type_key-Holds}

read_keys-edit_all :
    (room : ℕ) (keys later text : List ℕ) (l : Line)
    → All (λ c. (c ≢ b'\n') × (c < 256)) keys
    → Holds room text l
    → (behind : List ℕ) × (read_keys room (keys ++ b'\n' ∷ later) l
        ≡ some (
            entered (record {
              buf = reverse_aux (edit_all room keys text) (0 ∷ behind);
              n = length (edit_all room keys text);
            })))
unfolding read_keys edit_all
read_keys-edit_all room [] later text l keys h =
    ended room text h.behind l h.in_room h.has_room h.same_buf h.same_n
  where
    ended :
        (room : ℕ) (text behind : List ℕ) (l : Line)
        → length text ≤ room
        → room < length text + length behind
        → l.buf ≡ reverse_aux text behind
        → l.n ≡ length text
        → (behind : List ℕ) × (end_line (at_length l.n (put l.buf l.n 0))
            ≡ some (entered (record { buf = reverse_aux text (0 ∷ behind); n = length text })))
    ended room text [] l fits has same_buf same_n = absurd (omega arith)
    ended room text (y ∷ ys) l fits has same_buf same_n =
        (ys, rw (same_n, same_buf, put-behind text y ys 0 (omega arith)) refl)
read_keys-edit_all room (c ∷ cs) later text l keys h =
    let (l', runs, h') = type_key-Holds room c text l keys.0.1 h in
    let (behind, ends) = read_keys-edit_all room cs later (edit room c text) l' keys.1 h' in
    (behind, rw (read_keys, ne→not-eq c b'\n' keys.0.0, runs) ends)

-- If the keyboard opens and the buffer has `room + 1` bytes, less than 2^31, input_line_to_buffer
-- with that size reads the keys up to '\n', ends with the text that they edit by typing and
-- rubbing out, a zero behind it, returns its length and writes nothing outside the buffer.
pub input_line_to_buffer-edit_all :
    (fd : ℤ) (room : ℕ) (keys later buf : List ℕ)
    → is_neg fd ≡ false
    → room < 2 ^ 31 - 1
    → room < length buf
    → All (λ c. (c ≢ b'\n') × (c < 256)) keys
    → (behind : List ℕ) × (input_line_to_buffer fd (keys ++ b'\n' ∷ later) buf (room + 1)
        ≡ some (
            entered (record {
              buf = reverse (edit_all room keys []) ++ 0 ∷ behind;
              n = length (edit_all room keys []);
            })))
unfolding input_line_to_buffer
input_line_to_buffer-edit_all fd room keys later buf opened small inside typed =
    let start : Holds room [] (record { buf = buf; n = 0 }) = record {
      behind = buf;
      same_buf = refl;
      same_n = refl;
      in_room = omega arith;
      has_room = omega (arith, inside);
    } in
    let (behind, ends) =
      read_keys-edit_all room keys later [] (record { buf = buf; n = 0 }) typed start in
    let size : ((room + 1 == 0) || ltb 0x7fff_ffff (room + 1)) ≡ false = ground (arith, small) in
    let last : room + 1 - 1 ≡ room = omega arith in
    let text = edit_all room keys [] in
    (
      behind,
      rw (input_line_to_buffer, size, opened, last) ends
          ∙ ap (λ b. some (entered (record { buf = b; n = length text })))
              (reverse_aux-eq text (0 ∷ behind)),
    )
