-- ===== src/Driver.antt =====
-- driver.c: commands to the NIC's device file. A command is one `write`, its reply is read in
-- pieces until a piece ends in a zero byte.
pub mod Reply
pub mod Transmit
pub mod Poll
pub mod Deliver
use netd_moduos.Common.{
  ℕ, zero, suc, ◌+◌, ◌-◌, ◌^◌, Bool, true, false, List, [], ◌∷◌, ◌++◌, Option, none, some, ℤ, pos,
  negsuc, ltb, leb, ◌==◌, if◌then◌else◌, signed32, length, get_elem?, get_or, take, drop, replicate,
}
use netd_moduos.Wire.Constants.{net_cmd_tx_frame, net_cmd_rx_poll}
use netd_moduos.Wire.Memory.{store32, load32}
use netd_moduos.State.{
  Net, Sys, M, Outcome, spin, fault, pure, crash, need, gets, modify, write, read, ◌>>=◌, ◌>>◌,
  Reading, failed, got, and_then,
}

-- driver_open.
unfoldable pub driver_open : M ℤ
driver_open s = let fd = s.os.opened in pure fd (record s { net = record (s.net) { fd = fd } })

-- cmd(4) + len(4) + payload; `pkt` has room for 1500 bytes of payload.
unfoldable pub command : ℕ → List ℕ → List ℕ
command cmd payload = store32 (store32 (replicate 8 0) 0 cmd) 4 (length payload) ++ payload

abbrev pub pkt_room : ℕ
pkt_room = 1500

abbrev pub rep_size : ℕ
rep_size = 1520

-- `rep[got-1] == 0`, right after a piece that is not empty.
unfoldable pub ends_in_zero : List ℕ → Bool
ends_in_zero piece = get_or piece (length piece - 1) 1 == 0

-- One round of a reply loop, on what `read` returned: `again` is the next round and `finish` the
-- way out with the bytes of `rep` that are filled.
unfoldable pub store_piece :
    {A : Type 0} → (List ℕ → M A) → (List ℕ → M A) → A → M A → List ℕ → Reading → M A
store_piece again finish error empty rep failed = pure error
store_piece again finish error empty rep (got []) = empty
store_piece again finish error empty rep (got (x ∷ xs)) =
    if ends_in_zero (x ∷ xs) then finish (rep ++ (x ∷ xs)) else again (rep ++ (x ∷ xs))

-- The loop of driver_transact: `none` when `read` fails. An empty read yields the processor and
-- tries again.
unfoldable pub read_reply : ℕ → List ℕ → M (Option (List ℕ))
read_reply zero rep = λ s. spin
read_reply (suc fuel) rep =
    let again = read_reply fuel in
    if ltb (length rep) (rep_size - 1)
    then read (rep_size - 1 - length rep)
      >>= store_piece again (λ full. pure (some full)) none (again rep) rep
    else pure (some rep)

-- `rep` as the memory holds it: it was zeroed before the loop.
unfoldable pub rep_bytes : List ℕ → List ℕ
rep_bytes rep = rep ++ replicate (rep_size - length rep) 0

-- `memcpy(out, rep+12, min(len, cap))`, which must stay inside `rep`.
unfoldable pub copy_out : List ℕ → ℕ → ℕ → M (List ℕ)
copy_out rep len room =
    let copy = if ltb len room then len else room in
    if ltb rep_size (12 + copy) then crash else pure (take copy (drop 12 (rep_bytes rep)))

-- The status, and what was copied to `rep_data` (`none` where it is left alone).
abbrev pub Answer : Type 0
Answer = ℤ × Option (List ℕ)

-- What driver_transact does with the bytes that it has read. `want` is `*rep_len`, or `none` where
-- the caller passes NULL.
unfoldable pub parse_reply : Option ℕ → List ℕ → M Answer
parse_reply want rep = if ltb (length rep) 12 then pure (negsuc 2, none) else (do
  status ← need (load32 rep 4)
  len ← need (load32 rep 8)
  elim want [
    | none ↦ pure (signed32 status, none)
    | some room ↦ copy_out rep len room >>= λ data'. pure (signed32 status, some data')
  ])

-- The second half of driver_transact, once the command is written.
unfoldable pub transact_reply : Option ℕ → M Answer
transact_reply want s =
    and_then (read_reply s.os.fuel [] s)
      λ rep. elim rep [ none ↦ pure (negsuc 1, none) | some bytes ↦ parse_reply want bytes ]

-- driver_transact. A NULL payload is the empty list.
unfoldable pub driver_transact : ℕ → List ℕ → Option ℕ → M Answer
driver_transact cmd payload want = if ltb pkt_room (length payload) then crash else (do
  sent ← write (command cmd payload)
  if sent then transact_reply want else pure (negsuc 0, none))

unfoldable pub driver_tx : List ℕ → M ℤ
driver_tx frame = driver_transact net_cmd_tx_frame frame none >>= λ answer. pure answer.0

-- What driver_rx returns: a negative number, 0, or the length with the frame stored.
pub data Received : Type 0 where
  rx_error nothing : Received
  frame : List ℕ → Received

-- The loop of driver_rx, which gives up at the first empty read. Each round reads at least a byte,
-- so that `rep_size` rounds are never used up.
unfoldable pub poll_reply : ℕ → List ℕ → (List ℕ → M Received) → M Received
poll_reply zero rep finish = λ s. spin
poll_reply (suc rounds) rep finish =
    let again : List ℕ → M Received = λ more. poll_reply rounds more finish in
    if ltb (length rep) (rep_size - 1)
    then read (rep_size - 1 - length rep) >>= store_piece again finish rx_error (pure nothing) rep
    else finish rep

-- The rest of driver_rx: `room` is `*len`, the size of the caller's frame buffer.
unfoldable pub parse_frame : ℕ → List ℕ → M Received
parse_frame room rep = if ltb (length rep) 12 then pure rx_error else (do
  flen ← need (load32 rep 8)
  if flen == 0 then pure nothing else copy_out rep flen room >>= λ data'. pure (frame data'))

-- driver_rx.
unfoldable pub driver_rx : ℕ → M Received
driver_rx room = do
  sent ← write (store32 (replicate 8 0) 0 net_cmd_rx_poll)
  if sent then poll_reply rep_size [] (parse_frame room) else pure rx_error
