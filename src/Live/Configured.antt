-- ===== src/Live/Configured.antt =====
-- What the start of md_main leaves behind.
use netd_moduos.Common.{
  ℕ, ◌≡◌, ◌⊎◌, inl, inr, refl, sym, subst, Bool, true, false, if◌then◌else◌, is_neg, Bool-cases,
}
use netd_moduos.Wire.Constants.{make_ip}
use netd_moduos.State.{
  Net, Sys, Outcome, done, fault, spin, M, and_then, and_then_assoc, pure, skip, gets, modify,
  bcast_mac, ◌>>=◌, ◌>>◌,
}
use netd_moduos.Arp.{arp_announce}
use netd_moduos.Arp.Handshake.{arp_send-transmits}
use netd_moduos.Dhcp.Client.{dhcp_start, dhcp_bound}
use netd_moduos.Dhcp.Client.React.{with_net}
use netd_moduos.Main.Start.{
  is_zero, read_mac, read_mtu_and_link, clear_tables, fall_back, wait_for_lease, configure,
  start_with, start_opened, start,
}
use netd_moduos.Live.Rules.{Later, Finishes, Ends}
use netd_moduos.Live.Waits.{IsLive}
use netd_moduos.Live.Daemon.{
  driver_open-Ends, read_mac-Ends, read_mtu_and_link-Ends, clear_tables-Ends, dhcp_start-Ends,
  wait_for_lease-Ends,
}

-- A lease, or the addresses that md_main falls back to.
abbrev pub HasAddresses : Net → Type 0
HasAddresses n =
    (dhcp_bound n ≡ true)
    ⊎ ((n.ip ≡ make_ip 10 0 2 15)
        × (n.netmask ≡ make_ip 255 255 255 0)
        × (n.gateway ≡ make_ip 10 0 2 1)
        × (n.dns ≡ make_ip 8 8 8 8))

-- How the start can come to its end: it gives up, or the machine has addresses, or it faults.
abbrev pub Starts : Outcome Bool → Type 0
Starts (done false t) = Unit {0}
Starts (done true t) = HasAddresses t.net
Starts fault = Unit {0}
Starts spin = ⊥

-- A first part that ends, and then one that starts the daemon from every later state.
Starts-seq :
    {A : Type 0} (s : Sys) (o : Outcome A) (k : A → M Bool)
    → Finishes s o
    → ((a : A) (t : Sys) → Later s t → Starts (k a t))
    → Starts (and_then o k)
Starts-seq s spin k h next = h
Starts-seq s fault k h next = tt
Starts-seq s (done a t) k h next = next a t h

module _ (lag : ℕ) where
  abbrev Starting : M Bool → Type 0
  Starting m = (s : Sys) → IsLive lag s.os.oracle → Starts (m s)

  IsLive-Later : (s t : Sys) → Later s t → IsLive lag s.os.oracle → IsLive lag t.os.oracle
  IsLive-Later s t later live = subst (IsLive lag) (sym later.same_oracle) live

  Starting-seq :
      {A : Type 0} (m : M A) (k : A → M Bool)
      → Ends (IsLive lag) m
      → ((a : A) → Starting (k a))
      → Starting (m >>= k)
  Starting-seq m k ends next s live =
      Starts-seq s (m s) k (ends.at s live) λ a t later. next a t (IsLive-Later s t later live)

  Starting-assoc :
      {A B : Type 0} (m : M A) (k : A → M B) (l : B → M Bool)
      → Starting (m >>= λ a. (k a >>= l))
      → Starting ((m >>= k) >>= l)
  Starting-assoc m k l h s live = subst Starts (sym (and_then_assoc (m s) k l)) (h s live)

  -- The addresses without a lease.
  addresses : Starting (
      gets dhcp_bound >>= λ is_bound'.
      (if is_bound' then skip else modify fall_back >> arp_announce) >> pure true)
  unfolding arp_announce fall_back
  addresses s live = elim (Bool-cases (dhcp_bound s.net)) [
    | inl leased ↦ rw leased (inl leased)
    | inr none' ↦
        let s' = with_net (fall_back s.net) s in
        let (k, e) = arp_send-transmits lag 1 bcast_mac s'.net.ip s'.net.ip s' live.prompt in
        rw (none', e) (inr (refl, refl, refl, refl))
  ]

  configure-Starting : Starting (configure >> pure true)
  unfolding configure
  configure-Starting = Starting-assoc dhcp_start _ _ (
      Starting-seq dhcp_start _ (dhcp_start-Ends lag) λ _.
        Starting-assoc wait_for_lease _ _
          (Starting-seq wait_for_lease _ (wait_for_lease-Ends lag) λ _. addresses))

  start_with-Starting : (go_on : Bool) → Starting (start_with go_on)
  unfolding start_with
  start_with-Starting false = λ s live. tt
  start_with-Starting true =
      Starting-seq read_mtu_and_link _ (read_mtu_and_link-Ends lag)
        λ _. Starting-seq clear_tables _ (clear_tables-Ends lag) λ _. configure-Starting

  start_opened-Starting : (go_on : Bool) → Starting (start_opened go_on)
  unfolding start_opened
  start_opened-Starting false = λ s live. tt
  start_opened-Starting true =
      Starting-seq read_mac _ (read_mac-Ends lag) λ status. start_with-Starting (is_zero status)

-- On a kernel whose device answers and whose clock goes on, the start of the daemon ends in every
-- state: it gives up, or it goes on with a lease or with the addresses 10.0.2.15, 255.255.255.0,
-- 10.0.2.1 and 8.8.8.8, or it faults by leaving a buffer.
pub start-Starts : (lag : ℕ) (s : Sys) → IsLive lag s.os.oracle → Starts (start s)
unfolding start
start-Starts lag s live =
    Starting-seq lag _ _ (driver_open-Ends lag)
      (λ fd. start_opened-Starting lag (if is_neg fd then false else true)) s live
