-- ===== src/Driver/Transmit.antt =====
-- driver_transact and driver_tx: what they hand to the device and what they change.
use netd_moduos.Common.{
  ℕ, suc, ◌≤◌, ◌<◌, ◌≡◌, refl, inl, inr, false, List, ◌∷◌, none, ℤ, negsuc, signed32, arith, ltb,
  length, Bool-cases, Option-cases, le→not-ltb, not-ltb→le, lt→ltb,
}
use netd_moduos.Wire.Constants.{net_cmd_tx_frame}
use netd_moduos.Wire.Loads.{word32, load32_inside}
use netd_moduos.State.{Sys, done, fault}
use netd_moduos.Driver.{command, driver_transact, driver_tx, transact_reply, parse_reply, Answer}
use netd_moduos.Driver.Reply.{IsPrompt, with_reads, reply_ends}

-- The state after `frame` was handed to the device and its reply read up to the `n`-th read.
abbrev pub transmitted : List ℕ → ℕ → Sys → Sys
transmitted frame n s = record s {
  os = record (s.os) {
    read_calls = n;
    write_calls = suc s.os.write_calls;
    written = command net_cmd_tx_frame frame ∷ s.os.written;
  };
}

-- With no buffer for the reply's data nothing is copied: every reply gives a status.
parse_status : (rep : List ℕ) (s : Sys) → (a : Answer) × (parse_reply none rep s ≡ done a s)
unfolding parse_reply
parse_status rep s = elim (Bool-cases (ltb (length rep) 12)) [
  | inl short ↦ rw (short, parse_reply) ((negsuc 2, none), refl)
  | inr long ↦
      let n : 12 ≤ length rep = not-ltb→le (length rep) 12 long in
      rw (long, parse_reply, load32_inside rep 4 (omega arith), load32_inside rep 8 (omega arith))
        ((signed32 (word32 rep 4), none), refl)
]

transact_reply_done :
    (lag : ℕ) (s : Sys)
    → IsPrompt lag s.os.oracle
    → (a : Answer) × (n : ℕ) × (transact_reply none s ≡ done a (with_reads n s))
unfolding transact_reply
transact_reply_done lag s prompt =
    let (r, n, e) = reply_ends lag s prompt in
    elim (Option-cases r) [
      | inl lost ↦ rw (e, lost) ((negsuc 1, none), n, refl)
      | inr (rep, read') ↦
          let (a, e') = parse_status rep (with_reads n s) in rw (e, read') (a, n, e')
    ]

-- On a device that answers, sending a frame of at most 1500 bytes returns a status. The device
-- has been handed the frame behind the command's header, once; beside the device's counters
-- nothing has changed.
pub driver_tx-transmits :
    (lag : ℕ) (frame : List ℕ) (s : Sys)
    → IsPrompt lag s.os.oracle
    → length frame ≤ 1500
    → (status : ℤ) × (n : ℕ) × (driver_tx frame s ≡ done status (transmitted frame n s))
unfolding driver_tx driver_transact
driver_tx-transmits lag frame s prompt short =
    let fits : ltb 1500 (length frame) ≡ false = le→not-ltb 1500 (length frame) short in
    elim (Bool-cases (s.os.writes s.os.write_calls)) [
      | inr lost ↦ rw (fits, driver_tx, driver_transact, lost) (negsuc 0, s.os.read_calls, refl)
      | inl sent ↦
          let t = transmitted frame s.os.read_calls s in
          let (a, n, e) = transact_reply_done lag t prompt in
          rw (fits, driver_tx, driver_transact, sent, e) (a.0, n, refl)
    ]

-- A frame of more than 1500 bytes overruns the command packet, whatever the device does.
pub driver_tx-overruns :
    (frame : List ℕ) (s : Sys) → 1500 < length frame → driver_tx frame s ≡ fault
unfolding driver_tx driver_transact
driver_tx-overruns frame s long = rw (lt→ltb 1500 (length frame) long)
