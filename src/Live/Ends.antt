-- ===== src/Live/Ends.antt =====
-- That the receive step, the start, the loop and the requests come to an end.
use netd_moduos.Common.{ℕ, ◌≢◌, List, All}
use netd_moduos.State.{Sys, M, Outcome, done, fault, spin}
use netd_moduos.Wire.Cksum.Laws.{IsByte}
use netd_moduos.Driver.Reply.{IsPrompt}
use netd_moduos.Dns.Resolve.{dns_resolve}
use netd_moduos.Main.Rx.{rx_once}
use netd_moduos.Main.Start.{start, serve}
use netd_moduos.Api.Invoke.{api_invoke}
use netd_moduos.Api.Bounds.{Answers, api_invoke-Answers}
use netd_moduos.Live.Rules.{Finishes, Ends}
use netd_moduos.Live.Loops.{rx_once-Ends}
use netd_moduos.Live.Waits.{IsLive}
use netd_moduos.Live.Daemon.{dns_resolve-Ends, start-Ends, serve-Ends}
use netd_moduos.Live.Requests.{api_invoke-Ends}

not_spin : {A : Type 0} (s : Sys) (o : Outcome A) → Finishes s o → o ≢ spin
not_spin s (done a t) h = λ e. cc
not_spin s fault h = λ e. cc
not_spin s spin h = absurd h

-- On a device that answers, the receive step comes to an end in every state, whatever the frame:
-- it returns, or it faults by leaving a buffer.
pub rx_once_ends : (lag : ℕ) (s : Sys) → IsPrompt lag s.os.oracle → rx_once s ≢ spin
rx_once_ends lag s prompt =
    not_spin s (rx_once s) ((rx_once-Ends {P = IsPrompt lag} lag (λ o h. h)).at s prompt)

-- On a kernel whose device answers and whose clock goes on, dns_resolve comes to an end for every
-- string and in every state, whatever is received while it waits: it returns, or it faults.
pub dns_resolve_ends :
    (lag : ℕ) (name : List ℕ) (s : Sys) → IsLive lag s.os.oracle → dns_resolve name s ≢ spin
dns_resolve_ends lag name s live =
    not_spin s (dns_resolve name s) ((dns_resolve-Ends lag name).at s live)

-- On a kernel whose device answers and whose clock goes on, the start of the daemon comes to an
-- end, and so does any number of rounds of its loop, in every state: they return, or they fault.
pub start-serve_ends :
    (lag rounds : ℕ) (s : Sys) → IsLive lag s.os.oracle → (start s ≢ spin) × (serve rounds s ≢ spin)
start-serve_ends lag rounds s live = (
  not_spin s (start s) ((start-Ends lag).at s live),
  not_spin s (serve rounds s) ((serve-Ends lag rounds).at s live),
)

-- Code that comes to an end on such a kernel, in every state, and does not set the clock back.
abbrev pub Terminates : ℕ → M (Unit {0}) → Type 0
Terminates lag yield = Ends (IsLive lag) yield

-- On a kernel whose device answers and whose clock goes on, every request of bytes comes to an end
-- in every state, if what the kernel runs while a ping waits comes to an end itself: it faults, or
-- it is refused, or it stores a reply that is longer neither than the caller's buffer nor than the
-- daemon's of 1508 bytes.
pub api_invoke_ends :
    (lag : ℕ) (yield : M (Unit {0})) (req : List ℕ) (out_size : ℕ) (s : Sys)
    → Terminates lag yield
    → IsLive lag s.os.oracle
    → All IsByte req
    → (api_invoke yield req out_size s ≢ spin) × Answers out_size (api_invoke yield req out_size s)
api_invoke_ends lag yield req out_size s ends live bytes = (
  not_spin s (api_invoke yield req out_size s)
      ((api_invoke-Ends lag yield ends req out_size bytes).at s live),
  api_invoke-Answers yield req out_size s,
)
