-- ===== src/Driver/Reply.antt =====
-- The reply loop of driver_transact ends, on a device that answers.
use netd_moduos.Common.{
  ℕ, zero, suc, ◌+◌, ◌-◌, ◌*◌, ◌≤◌, ◌<◌, ◌≡◌, refl, ◌≢◌, ◌⊎◌, inl, inr, List, [], ◌∷◌, ◌++◌, Option,
  none, some, arith, ltb, length, Bool-cases, length-append, ltb→lt,
}
use netd_moduos.State.{Sys, done, Oracle, Reading, failed, got, at_most}
use netd_moduos.Driver.{read_reply, store_piece, ends_in_zero, rep_size}

-- The n-th `read` after `i` stores something.
abbrev pub AnswersIn : ℕ → (ℕ → ℕ → Reading) → ℕ → ℕ → Type 0
AnswersIn zero reads size i = reads i size ≢ got []
AnswersIn (suc n) reads size i = AnswersIn n reads size (suc i)

-- Of any `lag + 1` reads in a row one stores something or fails, and the fuel covers that delay
-- for each byte of a reply.
pub record IsPrompt (lag : ℕ) (o : Oracle) : Type 0 where
  pub answers : (i size : ℕ) → (n : ℕ) × (n ≤ lag) × AnswersIn n o.reads size i
  pub enough : (rep_size - 1) * (lag + 1) + lag < o.fuel

-- The state after the device was read up to its `n`-th read.
abbrev pub with_reads : ℕ → Sys → Sys
with_reads n s = record s { os = record (s.os) { read_calls = n } }

at_most-empty : (size : ℕ) (r : Reading) → 0 < size → at_most size r ≡ got [] → r ≡ got []
at_most-empty size failed h e = cc
at_most-empty zero (got bytes) h e = absurd (omega arith)
at_most-empty (suc n) (got []) h e = refl
at_most-empty (suc n) (got (x ∷ xs)) h e = cc

-- After an empty read the answer is nearer.
AnswersIn-next :
    (n size i : ℕ) (reads : ℕ → ℕ → Reading)
    → AnswersIn n reads size i
    → reads i size ≡ got []
    → (m : ℕ) × (n ≡ suc m) × AnswersIn m reads size (suc i)
AnswersIn-next zero size i reads soon e = absurd (soon e)
AnswersIn-next (suc m) size i reads soon e = (m, refl, soon)

pub Reading-cases :
    (r : Reading) → (r ≡ failed) ⊎ ((r ≡ got []) ⊎ ((x : ℕ) × (xs : List ℕ) × (r ≡ got (x ∷ xs))))
Reading-cases failed = inl refl
Reading-cases (got []) = inr (inl refl)
Reading-cases (got (x ∷ xs)) = inr (inr (x, xs, refl))

budget :
    (left left' lag gap gap' f : ℕ)
    → suc left' ≤ left
    → gap' ≤ lag
    → left * (lag + 1) + gap < suc f
    → left' * (lag + 1) + gap' < f
budget left left' lag gap gap' f less small room = grind arith

abbrev Ends : ℕ → List ℕ → Sys → Type 0
Ends f rep s = (r : Option (List ℕ)) × (n : ℕ) × (read_reply f rep s ≡ done r (with_reads n s))

-- The loop ends: an empty read uses up delay, any other fills the buffer.
read_reply-Ends :
    (lag f gap : ℕ) (rep : List ℕ) (s : Sys)
    → IsPrompt lag s.os.oracle
    → gap ≤ lag
    → AnswersIn gap s.os.reads (rep_size - 1 - length rep) s.os.read_calls
    → (rep_size - 1 - length rep) * (lag + 1) + gap < f
    → Ends f rep s
unfolding read_reply store_piece
read_reply-Ends lag zero gap rep s prompt small soon room = absurd (omega arith)
read_reply-Ends lag (suc f) gap rep s prompt small soon room =
    elim (Bool-cases (ltb (length rep) (rep_size - 1))) [
      | inr full ↦ rw (full, read_reply) (some rep, s.os.read_calls, refl)
      | inl more ↦
          let size : ℕ = rep_size - 1 - length rep in
          let fits : length rep < rep_size - 1 = ltb→lt (length rep) (rep_size - 1) more in
          elim (Reading-cases (at_most size (s.os.reads s.os.read_calls size))) [
            | inl e ↦ rw (more, read_reply, e) (none, suc s.os.read_calls, refl)
            | inr (inl e) ↦
                let (m, less, nearer) =
                  AnswersIn-next gap size s.os.read_calls s.os.reads soon
                    (at_most-empty size _ (omega arith) e) in
                rw (more, read_reply, e)
                  (read_reply-Ends lag f m rep (with_reads (suc s.os.read_calls) s) prompt
                    (omega arith) nearer (omega arith))
            | inr (inr (x, xs, e)) ↦
                let rest =
                  prompt.answers (suc s.os.read_calls) (rep_size - 1 - length (rep ++ x ∷ xs)) in
                elim (Bool-cases (ends_in_zero (x ∷ xs))) [
                  | inl last ↦
                      rw (more, read_reply, e, store_piece, last)
                        (some (rep ++ x ∷ xs), suc s.os.read_calls, refl)
                  | inr on ↦
                      rw (more, read_reply, e, store_piece, on)
                        (read_reply-Ends lag f rest.0 (rep ++ x ∷ xs)
                          (with_reads (suc s.os.read_calls) s) prompt rest.1 rest.2
                          (budget size (rep_size - 1 - length (rep ++ x ∷ xs)) lag gap rest.0 f
                            (omega (arith, length-append rep (x ∷ xs))) rest.1 room))
                ]
          ]
    ]

-- On a device of which one of any `lag + 1` reads in a row stores something or fails, and with fuel
-- for `lag + 1` reads for each byte of a reply, the loop of driver_transact ends, and only the count
-- of reads has changed.
pub reply_ends :
    (lag : ℕ) (s : Sys)
    → IsPrompt lag s.os.oracle
    → (r : Option (List ℕ)) × (n : ℕ) × (read_reply s.os.fuel [] s ≡ done r (with_reads n s))
reply_ends lag s prompt =
    let first = prompt.answers s.os.read_calls (rep_size - 1) in
    read_reply-Ends lag s.os.fuel first.0 [] s prompt first.1 first.2
      (grind (arith, prompt.enough, first.1))
