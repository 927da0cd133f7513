-- ===== src/Live/Waits.antt =====
-- The waits for a time: for a lease, for the answer of a name server, and for an echo reply.
use netd_moduos.Common.{
  ℕ, zero, suc, ◌+◌, ◌%◌, ◌^◌, ◌<◌, ◌≤◌, ◌≡◌, refl, subst, sym, true, ltb, arith, Bool-cases, inl,
  inr, ltb→lt, not-ltb→le,
}
use netd_moduos.State.{M, ◌>>◌, Sys, Oracle, and_then, skip}
use netd_moduos.Driver.{driver_rx}
use netd_moduos.Driver.Reply.{IsPrompt}
use netd_moduos.Arp.Lookup.{ticked, now_of}
use netd_moduos.Dhcp.Client.{dhcp_bound}
use netd_moduos.Dns.Resolve.{is_pending, wait_answer}
use netd_moduos.Main.Rx.{on_received, rx_once}
use netd_moduos.Main.Start.{wait_bound}
use netd_moduos.Api.Ping.{wait_reply}
use netd_moduos.Live.Rules.{
  Later, Later-refl, Finishes, Finishes-Later, Finishes-if, Finishes-seq, Ends,
}
use netd_moduos.Live.Loops.{rx_once-Ends}

-- Within as many readings of the clock as there is fuel, every deadline of less than 2^16 ms that
-- is set at a reading passes.
pub record IsTicking (o : Oracle) : Type 0 where
  pub passes : (i t j : ℕ) → t < 2 ^ 16 → i + o.fuel ≤ j → (o.clock i + t) % 2 ^ 64 ≤ o.clock j

-- A kernel whose device answers and whose clock goes on.
pub record IsLive (lag : ℕ) (o : Oracle) : Type 0 where
  pub prompt : IsPrompt lag o
  pub ticking : IsTicking o

pub live-IsPrompt : (lag : ℕ) (o : Oracle) → IsLive lag o → IsPrompt lag o
live-IsPrompt lag o live = live.prompt

-- From the reading `k` on the clock is past the deadline.
abbrev pub Past : ℕ → ℕ → Oracle → Type 0
Past k deadline o = (j : ℕ) → k ≤ j → deadline ≤ o.clock j

Later-ticked : (s : Sys) → Later s (ticked s)
Later-ticked s = record { same_oracle = refl; clock_on = omega arith }

-- A reading before the deadline is one of the first `k`.
pub not-Past :
    (k deadline : ℕ) (s : Sys)
    → ltb (now_of s) deadline ≡ true
    → Past k deadline s.os.oracle
    → s.os.clock_calls < k
not-Past k deadline s early past = elim (Bool-cases (ltb s.os.clock_calls k)) [
  | inl before ↦ ltb→lt s.os.clock_calls k before
  | inr after ↦ absurd (
      omega (
        arith,
        ltb→lt (now_of s) deadline early,
        past s.os.clock_calls (not-ltb→le s.os.clock_calls k after),
      ))
]

module _ (lag k deadline : ℕ) where
  pub wait_bound-Finishes :
      (fuel : ℕ) (s : Sys)
      → 0 < fuel
      → k < fuel + s.os.clock_calls
      → IsLive lag s.os.oracle
      → Past k deadline s.os.oracle
      → Finishes s (wait_bound fuel deadline s)
  unfolding wait_bound
  wait_bound-Finishes zero s pos h live past = absurd (omega arith)
  wait_bound-Finishes (suc fuel) s pos h live past = elim (Bool-cases (dhcp_bound s.net)) [
    | inl bound' ↦ rw (wait_bound, bound') (Later-refl s)
    | inr unbound ↦ elim (Bool-cases (ltb (now_of s) deadline)) [
      | inr late ↦ rw (wait_bound, unbound, late) (Later-ticked s)
      | inl early ↦
          let before : s.os.clock_calls < k = not-Past k deadline s early past in
          rw (wait_bound, unbound, early)
            (Finishes-Later s (ticked s) _ (Later-ticked s) (
              Finishes-seq (ticked s) (rx_once (ticked s)) _
                ((rx_once-Ends lag (live-IsPrompt lag)).at (ticked s) live)
                λ _ t later.
                  wait_bound-Finishes fuel t (omega arith) (omega (arith, later.clock_on))
                    (subst (IsLive lag) (sym later.same_oracle) live)
                    (subst (Past k deadline) (sym later.same_oracle) past)))
    ]
  ]

  pub wait_answer-Finishes :
      (fuel : ℕ) (s : Sys)
      → 0 < fuel
      → k < fuel + s.os.clock_calls
      → IsLive lag s.os.oracle
      → Past k deadline s.os.oracle
      → Finishes s (wait_answer fuel deadline s)
  unfolding wait_answer rx_once
  wait_answer-Finishes zero s pos h live past = absurd (omega arith)
  wait_answer-Finishes (suc fuel) s pos h live past = elim (Bool-cases (ltb (now_of s) deadline)) [
    | inr late ↦ rw (wait_answer, late) (Later-ticked s)
    | inl early ↦
        let before : s.os.clock_calls < k = not-Past k deadline s early past in
        rw (wait_answer, early)
          (Finishes-Later s (ticked s) _ (Later-ticked s) (
            Finishes-seq (ticked s) (and_then (driver_rx 1518 (ticked s)) on_received) _
              ((rx_once-Ends lag (live-IsPrompt lag)).at (ticked s) live)
              λ _ t later.
                Finishes-if (is_pending t.net.dns_done) (wait_answer fuel deadline) skip t
                  (wait_answer-Finishes fuel t (omega arith) (omega (arith, later.clock_on))
                    (subst (IsLive lag) (sym later.same_oracle) live)
                    (subst (Past k deadline) (sym later.same_oracle) past))
                  (Later-refl t)))
  ]

module _ (lag k deadline : ℕ) (yield : M (Unit {0})) (ends : Ends (IsLive lag) yield) where
  pub wait_reply-Finishes :
      (fuel : ℕ) (s : Sys)
      → 0 < fuel
      → k < fuel + s.os.clock_calls
      → IsLive lag s.os.oracle
      → Past k deadline s.os.oracle
      → Finishes s (wait_reply yield fuel deadline s)
  unfolding wait_reply
  wait_reply-Finishes zero s pos h live past = absurd (omega arith)
  wait_reply-Finishes (suc fuel) s pos h live past = elim (Bool-cases (ltb (now_of s) deadline)) [
    | inr late ↦ rw (wait_reply, late) (Later-ticked s)
    | inl early ↦
        let before : s.os.clock_calls < k = not-Past k deadline s early past in
        rw (wait_reply, early)
          (Finishes-Later s (ticked s) _ (Later-ticked s) (
            Finishes-if s.net.ping_replied skip (yield >> wait_reply yield fuel deadline) (ticked s)
              (Later-refl (ticked s))
              (Finishes-seq (ticked s) (yield (ticked s)) _ (ends.at (ticked s) live) λ _ t later.
                wait_reply-Finishes fuel t (omega arith) (omega (arith, later.clock_on))
                  (subst (IsLive lag) (sym later.same_oracle) live)
                  (subst (Past k deadline) (sym later.same_oracle) past))))
  ]
