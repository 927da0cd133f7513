-- ===== src/Api/Reply.antt =====
-- netd_rep_t, and the bytes of packed structs.
use netd_moduos.Common.{
  ℕ, ◌+◌, ◌-◌, ◌%◌, ◌^◌, List, [], ◌++◌, ℤ, pos, negsuc, ltb, if◌then◌else◌, length, take,
  replicate,
}
use netd_moduos.Wire.Memory.{store16, store32}
use netd_moduos.State.{M, pure}

-- The bytes of a `uint16_t` and of a `uint32_t` field.
abbrev pub bytes16 : ℕ → List ℕ
bytes16 v = store16 (replicate 2 0) 0 v

abbrev pub bytes32 : ℕ → List ℕ
bytes32 v = store32 (replicate 4 0) 0 v

-- The bit pattern of an `int32_t`.
abbrev pub unsigned32 : ℤ → ℕ
unsigned32 (pos n) = n % 2 ^ 32
unsigned32 (negsuc n) = 2 ^ 32 - 1 - n % 2 ^ 32

-- `g_rep` as a case leaves it: the status, and the first `len` bytes of `data`. It is zeroed at the
-- start of every request.
pub record Reply : Type 0 where
  pub status : ℤ
  pub data' : List ℕ

abbrev pub status_only : ℤ → Reply
status_only status = record { status = status; data' = [] }

abbrev pub reply : ℤ → List ℕ → Reply
reply status data' = record { status = status; data' = data' }

-- The end of api_invoke: what `memcpy(out_buf, &g_rep, out_len)` stores.
unfoldable pub reply_bytes : ℕ → Reply → List ℕ
reply_bytes out_size r =
    take out_size (bytes32 (unsigned32 r.status) ++ (bytes32 (length r.data') ++ r.data'))

-- `if (in_size < sizeof(netd_req_hdr_t) + sizeof(*req)) { g_rep.status = -1; break; }`
unfoldable pub with_size : ℕ → List ℕ → M Reply → M Reply
with_size size req handle =
    if ltb (length req) (4 + size) then pure (status_only (negsuc 0)) else handle
