-- ===== src/Libc/Snprintf/Laws.antt =====
-- That snprintf cuts one text to the size of the buffer.
use netd_moduos.Common.{
  ℕ, zero, suc, ◌+◌, ◌-◌, ◌%◌, ◌^◌, ◌≤◌, ◌<◌, ◌≡◌, ◌≢◌, refl, ap, sym, ◌∙◌, false, ◌&&◌, List, [],
  ◌∷◌, ◌++◌, none, some, ℤ, signed32, ltb, ◌==◌, length, length-append, take, take_all, arith,
  Bool-cases, inl, inr, ltb→lt, not-ltb→le,
}
use mathlib.Core.List.{append-nil, append_assoc}
use netd_moduos.Libc.Printf.{Arg, head, read_width}
use netd_moduos.Libc.Printf.Laws.{read_width-le}
use netd_moduos.Libc.Snprintf.{
  Conversion, conversion, Out, add, add_all, Filled, filled, undefined, past_end, unfinished,
  after_conversion, snprintf_loop, end_text, map_filled, snprintf,
}

-- What stands in a buffer with room for `size` characters when the text so far is `f`.
abbrev cut : ℕ → List ℕ → Out
cut size f = record { text' = take size f; rem = size - length f; total = length f }

take_within : {A : Type 0} (n : ℕ) (xs ys : List A) → n ≤ length xs → take n (xs ++ ys) ≡ take n xs
take_within zero xs ys h = refl
take_within (suc n) [] ys h = absurd (omega arith)
take_within (suc n) (x ∷ xs) ys h = ap (λ zs. x ∷ zs) (take_within n xs ys (omega arith))

Out-path :
    (t t' : List ℕ) (r r' n n' : ℕ)
    → t ≡ t'
    → r ≡ r'
    → n ≡ n'
    → Path Out
        (record { text' = t; rem = r; total = n })
        (record { text' = t'; rem = r'; total = n' })
Out-path t t' r r' n n' a b c = λ i. record { text' = a i; rem = b i; total = c i }

add-cut : (size : ℕ) (f : List ℕ) (c : ℕ) → add (cut size f) c ≡ cut size (f ++ c ∷ [])
unfolding add
add-cut size f c =
    let longer = length-append f (c ∷ []) in
    elim (Bool-cases (ltb 0 (size - length f))) [
      | inl room ↦
          let lt = ltb→lt 0 (size - length f) room in
          rw room (
            Out-path _ _ _ _ _ _
              (ap (λ t. t ++ c ∷ []) (take_all size f (omega (arith, lt)))
                ∙ sym (take_all size (f ++ c ∷ []) (omega (arith, lt, longer))))
              (omega (arith, lt, longer)) (omega (arith, longer)))
      | inr full ↦
          let le = not-ltb→le 0 (size - length f) full in
          rw full (
            Out-path _ _ _ _ _ _ (sym (take_within size f (c ∷ []) (omega (arith, le))))
              (omega (arith, le, longer)) (omega (arith, longer)))
    ]

add_all-cut : (size : ℕ) (f cs : List ℕ) → add_all (cut size f) cs ≡ cut size (f ++ cs)
unfolding add_all
add_all-cut size f [] = sym (ap (cut size) (append-nil f))
add_all-cut size f (c ∷ cs) =
    ap (λ o. add_all o cs) (add-cut size f c)
    ∙ add_all-cut size (f ++ c ∷ []) cs
    ∙ ap (cut size) (append_assoc f (c ∷ []) cs)

cut-nil : (size : ℕ) → Path Out (record { text' = []; rem = size; total = 0 }) (cut size [])
cut-nil size = Out-path _ _ _ _ _ _ (sym (take_all size [] (omega arith))) (omega arith) refl

-- One outcome for all sizes.
record Settled (run : ℕ → Filled Out) : Type 0 where
  outcome : Filled (List ℕ)
  ends : outcome ≢ unfinished
  same : (size : ℕ) → run size ≡ map_filled (cut size) outcome

conversion-Settled :
    (next : List ℕ → List Arg → Out → Filled Out) (at f : List ℕ) (conv : Conversion)
    → ((p : List ℕ) (args : List Arg) (g : List ℕ)
        → length p ≤ length at
        → Settled (λ size. next p args (cut size g)))
    → Settled (λ size. after_conversion next at (cut size f) conv)
unfolding after_conversion
conversion-Settled next at f none goes = record {
  outcome = undefined;
  ends = λ e. cc;
  same = λ size. refl;
}
conversion-Settled next [] f (some (chars, args)) goes = record {
  outcome = past_end;
  ends = λ e. cc;
  same = λ size. refl;
}
conversion-Settled next (c ∷ cs) f (some (chars, args)) goes =
    let r = goes cs args (f ++ chars) (omega arith) in
    record {
      outcome = r.outcome;
      ends = r.ends;
      same = λ size. ap (λ o. next cs args o) (add_all-cut size f chars) ∙ r.same size;
    }

loop-Settled :
    (fuel : ℕ) (p : List ℕ) (args : List Arg) (f : List ℕ)
    → length p < fuel
    → Settled (λ size. snprintf_loop fuel p args (cut size f))
unfolding snprintf_loop
loop-Settled zero p args f h = absurd (omega arith)
loop-Settled (suc fuel) [] args f h = record {
  outcome = filled f;
  ends = λ e. cc;
  same = λ size. refl;
}
loop-Settled (suc fuel) (c ∷ cs) args f h = elim (Bool-cases ((c == b'%') && ltb 0 (length cs))) [
  | inl per ↦
      let r =
        conversion-Settled (λ p' args' o'. snprintf_loop fuel p' args' o') ((read_width cs).1) f
          (conversion ((read_width cs).0) (head ((read_width cs).1)) args)
          (λ p' args' g le.
            loop-Settled fuel p' args' g (omega (arith, h, le, read_width-le cs))) in
      record { outcome = r.outcome; ends = r.ends; same = λ size. rw per (r.same size) }
  | inr plain' ↦
      let r = loop-Settled fuel cs args (f ++ c ∷ []) (omega (arith, h)) in
      record {
        outcome = r.outcome;
        ends = r.ends;
        same = λ size.
            rw plain' (ap (λ o. snprintf_loop fuel cs args o) (add-cut size f c) ∙ r.same size);
      }
]

map_filled-map_filled :
    {A B C : Type 0} (g : B → C) (h : A → B) (o : Filled A)
    → map_filled g (map_filled h o) ≡ map_filled (λ a. g (h a)) o
map_filled-map_filled g h (filled a) = refl
map_filled-map_filled g h undefined = refl
map_filled-map_filled g h past_end = refl
map_filled-map_filled g h unfinished = refl

-- What a buffer with room for `room` characters and the zero holds of a text, and the result.
abbrev pub shown : ℕ → List ℕ → List ℕ × ℤ
shown room f = (take room f ++ 0 ∷ [], signed32 (length f % 2 ^ 32))

-- Every format and arguments have one outcome for all buffers: undefined behaviour for each of
-- them, or a text of which a buffer with room for `room` characters and a zero gets the first
-- `room`, with a zero behind them, and whose length, as an `int`, is the result.
pub snprintf_cuts :
    (fmt : List ℕ) (args : List Arg)
    → (o : Filled (List ℕ)) × (o ≢ unfinished)
      × ((room : ℕ) → snprintf (room + 1) fmt args ≡ map_filled (shown room) o)
unfolding snprintf end_text
snprintf_cuts fmt args =
    let r = loop-Settled (length fmt + 1) fmt args [] (omega arith) in
    (
      r.outcome,
      r.ends,
      λ room.
          let some_size : (room + 1 == 0) ≡ false = ground arith in
          let less : room + 1 - 1 ≡ room = omega arith in
          rw (some_size, less)
            (ap (map_filled end_text)
                (ap (snprintf_loop (length fmt + 1) fmt args) (cut-nil room) ∙ r.same room)
              ∙ map_filled-map_filled end_text (cut room) r.outcome),
    )
