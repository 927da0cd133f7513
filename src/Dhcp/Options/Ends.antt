-- ===== src/Dhcp/Options/Ends.antt =====
-- The walk over the options ends, and the model gives it enough rounds.
use netd_moduos.Common.{
  ℕ, zero, suc, ◌+◌, ◌≤◌, ◌<◌, ◌≢◌, List, ltb, ltb→lt, arith, get_elem?, Bool-cases, Option-cases,
  inl, inr,
}
use netd_moduos.Dhcp.Options.{Walk, unfinished, take_option, step_length, step_option, walk}

step_length_ends :
    (on : ℕ → Walk) (opts : List ℕ) (n tag least j t : ℕ)
    → ((i : ℕ) → j ≤ i → on i ≢ unfinished)
    → step_length on opts n tag least j t ≢ unfinished
unfolding step_length take_option
step_length_ends on opts n tag least j t ends = elim (Option-cases (get_elem? opts j)) [
  | inl e ↦ ground arith
  | inr (l, e) ↦ ground (arith, ends (j + 1 + l))
]

step_option_ends :
    (on : ℕ → Walk) (opts : List ℕ) (n tag least j t : ℕ)
    → ((i : ℕ) → j ≤ i → on i ≢ unfinished)
    → step_option on opts n tag least j t ≢ unfinished
unfolding step_option
step_option_ends on opts n tag least j t ends =
    ground (arith, ends j, step_length_ends on opts n tag least j t ends)

-- The fuel of the model is enough: the loop ends on every packet.
pub walk_ends :
    (fuel : ℕ) (opts : List ℕ) (n tag least i : ℕ)
    → 0 < fuel
    → n < fuel + i
    → walk fuel opts n tag least i ≢ unfinished
unfolding walk
walk_ends zero opts n tag least i pos h = absurd (omega arith)
walk_ends (suc fuel) opts n tag least i pos h = elim (Bool-cases (ltb i n)) [
  | inr out ↦ ground arith
  | inl in' ↦ elim (Option-cases (get_elem? opts i)) [
    | inl e ↦ ground arith
    | inr (t, e) ↦
        let more : i < n = ltb→lt i n in' in
        rw (in', walk, e)
          (step_option_ends (walk fuel opts n tag least) opts n tag least (i + 1) t
            (λ j le. walk_ends fuel opts n tag least j (omega arith) (omega arith)))
  ]
]
