-- ===== src/Dhcp/Options.antt =====
-- dhcp_get_opt32 and dhcp_get_msg_type of dhcp.c: the walk over the options.
pub mod Ends
pub mod Encoding
pub mod Laws
use netd_moduos.Common.{
  ℕ, zero, suc, ◌+◌, Bool, ◌&&◌, not, List, [], ◌∷◌, Option, none, some, ltb, leb, ◌==◌,
  if◌then◌else◌, length, drop, get_elem?,
}
use netd_moduos.Wire.Endian.{ntohl}
use netd_moduos.Wire.Memory.{load32}
use netd_moduos.State.{M, Outcome, done, fault, spin, pure, need, ◌>>=◌, and_then}

abbrev pub opt_end : ℕ
opt_end = 255

abbrev pub opt_msg_type : ℕ
opt_msg_type = 53

abbrev pub opt_subnet : ℕ
opt_subnet = 1

abbrev pub opt_router : ℕ
opt_router = 3

abbrev pub opt_dns : ℕ
opt_dns = 6

abbrev pub opt_server_id : ℕ
opt_server_id = 54

abbrev pub opt_req_ip : ℕ
opt_req_ip = 50

-- Where a walk stops: at an option with the tag and at least `least` bytes, given by the index of
-- its value, or nowhere. `outside` is a read past what can be read from `opts` on.
pub data Walk : Type 0 where
  at : ℕ → Walk
  absent outside unfinished : Walk

-- One round, from the tag `t` on, which stood at `j - 1`; `on` is the next round.
unfoldable pub take_option : (ℕ → Walk) → ℕ → ℕ → ℕ → ℕ → ℕ → Walk
take_option on tag least j t l = if (t == tag) && leb least l then at j else on (j + l)

unfoldable pub step_length : (ℕ → Walk) → List ℕ → ℕ → ℕ → ℕ → ℕ → ℕ → Walk
step_length on opts opts_len tag least j t =
    if leb opts_len j then absent else (elim (get_elem? opts j) [
      | none ↦ outside
      | some l ↦ take_option on tag least (j + 1) t l
    ])

unfoldable pub step_option : (ℕ → Walk) → List ℕ → ℕ → ℕ → ℕ → ℕ → ℕ → Walk
step_option on opts opts_len tag least j t =
    if t == opt_end
    then absent
    else if t == 0
    then on j
    else step_length on opts opts_len tag least j t

-- The loop that both functions share, from index `i` on. Each round moves `i` on, so that
-- `opts_len` rounds and one more are enough (`Ends.walk_ends`).
unfoldable pub walk : ℕ → List ℕ → ℕ → ℕ → ℕ → ℕ → Walk
walk zero opts opts_len tag least i = unfinished
walk (suc fuel) opts opts_len tag least i =
    let on : ℕ → Walk = walk fuel opts opts_len tag least in
    if ltb i opts_len
    then (elim (get_elem? opts i) [
      | none ↦ outside
      | some t ↦ step_option on opts opts_len tag least (i + 1) t
    ])
    else absent

-- The 32-bit value that a walk has found, or 0.
unfoldable pub opt32_at : List ℕ → Walk → M ℕ
opt32_at opts (at j) = need (load32 opts j) >>= λ w. pure (ntohl w)
opt32_at opts absent = pure 0
opt32_at opts outside = λ s. fault
opt32_at opts unfinished = λ s. spin

unfoldable pub dhcp_get_opt32 : List ℕ → ℕ → ℕ → M ℕ
dhcp_get_opt32 opts opts_len tag = opt32_at opts (walk (opts_len + 1) opts opts_len tag 4 0)

-- The byte that a walk has found, or 0.
unfoldable pub byte_at : List ℕ → Walk → M ℕ
byte_at opts (at j) = need (get_elem? opts j)
byte_at opts absent = pure 0
byte_at opts outside = λ s. fault
byte_at opts unfinished = λ s. spin

unfoldable pub dhcp_get_msg_type : List ℕ → ℕ → M ℕ
dhcp_get_msg_type opts opts_len = byte_at opts (walk (opts_len + 1) opts opts_len opt_msg_type 1 0)
