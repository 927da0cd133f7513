-- ===== src/Live/Loops.antt =====
-- The loops that wait, and what runs them.
use netd_moduos.Common.{
  ℕ, zero, suc, ◌+◌, ◌-◌, ◌<◌, ◌≤◌, List, [], ◌∷◌, ◌++◌, ltb, length, length-append, arith,
  Bool-cases, inl, inr, ltb→lt,
}
use netd_moduos.State.{Oracle, M, pure, Reading, failed, got}
use netd_moduos.Wire.Memory.{store32}
use netd_moduos.Driver.{
  Received, rx_error, nothing, rep_size, ends_in_zero, store_piece, poll_reply, copy_out,
  parse_frame, driver_rx,
}
use netd_moduos.Driver.Reply.{IsPrompt}
use netd_moduos.Main.Rx.{rx_once}
use netd_moduos.Live.Rules.{Ends, Ends-bind, Ends-if, Ends-read, Ends-write, Ends-pure, ends_rules}
use netd_moduos.Live.Receive.{on_received-Ends}

module _ {P : Oracle → Type 0} where
  parse_frame-Ends : (room : ℕ) (rep : List ℕ) → Ends P (parse_frame room rep)
  unfolding parse_frame copy_out
  parse_frame-Ends room rep = search ends_rules depth 9

  store_piece-Ends :
      (again finish : List ℕ → M Received) (rep : List ℕ) (r : Reading)
      → ((bytes : List ℕ) → 0 < length bytes → Ends P (again (rep ++ bytes)))
      → ((full : List ℕ) → Ends P (finish full))
      → Ends P (store_piece again finish rx_error (pure nothing) rep r)
  unfolding store_piece
  store_piece-Ends again finish rep failed go_on stop = Ends-pure P rx_error
  store_piece-Ends again finish rep (got []) go_on stop = Ends-pure P nothing
  store_piece-Ends again finish rep (got (x ∷ xs)) go_on stop =
      Ends-if P (ends_in_zero (x ∷ xs)) _ _ (stop (rep ++ (x ∷ xs))) (go_on (x ∷ xs) (omega arith))

  -- Every read that is not empty fills the buffer by a byte or more, and an empty one ends the loop.
  poll_reply-Ends :
      (room rounds : ℕ) (rep : List ℕ)
      → 0 < rounds
      → rep_size ≤ rounds + length rep
      → Ends P (poll_reply rounds rep (parse_frame room))
  unfolding poll_reply
  poll_reply-Ends room zero rep pos h = absurd (omega arith)
  poll_reply-Ends room (suc rounds) rep pos h =
      elim (Bool-cases (ltb (length rep) (rep_size - 1))) [
        | inr full ↦ rw (poll_reply, full) (parse_frame-Ends room rep)
        | inl open' ↦
            let more : length rep < rep_size - 1 = ltb→lt (length rep) (rep_size - 1) open' in
            let again : List ℕ → M Received = λ more'. poll_reply rounds more' (parse_frame room) in
            rw (poll_reply, open')
              (Ends-bind P _ _ (Ends-read P (rep_size - 1 - length rep)) λ r.
                store_piece-Ends again (parse_frame room) rep r
                  (λ bytes some'.
                    poll_reply-Ends room rounds (rep ++ bytes) (omega arith)
                      (omega (arith, length-append rep bytes)))
                  (parse_frame-Ends room))
      ]

  pub driver_rx-Ends : (room : ℕ) → Ends P (driver_rx room)
  unfolding driver_rx
  driver_rx-Ends room =
      Ends-bind P _ _ (Ends-write P (store32 (0 ∷ 0 ∷ 0 ∷ 0 ∷ 0 ∷ 0 ∷ 0 ∷ 0 ∷ []) 0 6)) λ sent.
        Ends-if P sent _ _ (poll_reply-Ends room rep_size [] (omega arith) (omega arith))
          (Ends-pure P rx_error)

module _ {P : Oracle → Type 0} (lag : ℕ) (is_prompt : (o : Oracle) → P o → IsPrompt lag o) where
  -- On a device that answers, the receive step comes to an end on every frame.
  pub rx_once-Ends : Ends P rx_once
  unfolding rx_once
  rx_once-Ends = Ends-bind P _ _ (driver_rx-Ends 1518) (on_received-Ends lag is_prompt)
