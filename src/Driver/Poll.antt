-- ===== src/Driver/Poll.antt =====
-- The loop of driver_rx ends on every device.
use netd_moduos.Common.{
  ℕ, zero, suc, ◌+◌, ◌-◌, ◌≤◌, ◌<◌, ◌≢◌, inl, inr, List, [], ◌∷◌, ◌++◌, ltb, arith, length,
  length-append, Bool-cases, Option-cases, ltb→lt,
}
use netd_moduos.Wire.Memory.{load32}
use netd_moduos.State.{Sys, done, spin, at_most}
use netd_moduos.Driver.{
  rx_error, nothing, ends_in_zero, store_piece, poll_reply, copy_out, parse_frame, rep_size,
  driver_rx,
}
use netd_moduos.Driver.Reply.{Reading-cases, with_reads}

parse_frame_ends : (room : ℕ) (rep : List ℕ) (s : Sys) → parse_frame room rep s ≢ spin
unfolding parse_frame copy_out
parse_frame_ends room rep s = elim (Option-cases (load32 rep 8)) [
  | inl e ↦ ground arith
  | inr (flen, e) ↦ ground arith
]

done-not-spin : {A : Type 0} (a : A) (s : Sys) → done a s ≢ spin
done-not-spin a s e = cc

-- A read that is not empty fills the buffer by a byte or more.
poll_reply_ends :
    (room rounds : ℕ) (rep : List ℕ) (s : Sys)
    → 0 < rounds
    → rep_size ≤ rounds + length rep
    → poll_reply rounds rep (parse_frame room) s ≢ spin
unfolding poll_reply store_piece
poll_reply_ends room zero rep s pos h = absurd (omega arith)
poll_reply_ends room (suc rounds) rep s pos h =
    let size = rep_size - 1 - length rep in
    let r = at_most size (s.os.reads s.os.read_calls size) in
    elim (Bool-cases (ltb (length rep) (rep_size - 1))) [
      | inr full ↦ rw (full) (parse_frame_ends room rep s)
      | inl open' ↦
          let more : length rep < rep_size - 1 = ltb→lt (length rep) (rep_size - 1) open' in
          elim (Reading-cases r) [
            | inl e ↦
                rw (open', poll_reply, e)
                  (done-not-spin rx_error (with_reads (suc s.os.read_calls) s))
            | inr (inl e) ↦
                rw (open', poll_reply, e)
                  (done-not-spin nothing (with_reads (suc s.os.read_calls) s))
            | inr (inr (x, xs, e)) ↦ elim (Bool-cases (ends_in_zero (x ∷ xs))) [
              | inl last ↦
                  rw (open', poll_reply, e, last)
                    (parse_frame_ends room (rep ++ (x ∷ xs)) (with_reads (suc s.os.read_calls) s))
              | inr on ↦
                  rw (open', poll_reply, e, on)
                    (poll_reply_ends room rounds (rep ++ (x ∷ xs))
                      (with_reads (suc s.os.read_calls) s) (omega arith)
                      (omega (arith, length-append rep (x ∷ xs))))
            ]
          ]
    ]

-- driver_rx comes to an end on every device and in every state: it never waits.
pub driver_rx_ends : (room : ℕ) (s : Sys) → driver_rx room s ≢ spin
unfolding driver_rx
driver_rx_ends room s = elim (Bool-cases (s.os.writes s.os.write_calls)) [
  | inl sent ↦ rw (driver_rx, sent) (poll_reply_ends room rep_size [] _ (omega arith) (omega arith))
  | inr refused ↦ rw (driver_rx, refused) (λ e. cc)
]
