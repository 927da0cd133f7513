-- ===== src/Dhcp/Client/Options.antt =====
-- The options that dhcp_send writes are read back by dhcp_get_opt32.
use netd_moduos.Common.{
  ℕ, ◌/◌, ◌%◌, ◌^◌, ◌<◌, ◌≡◌, refl, ap, ◌∙◌, List, [], ◌∷◌, ◌++◌, ◌==◌, if◌then◌else◌, arith,
  length, All, Bool-cases, inl, inr,
}
use netd_moduos.Wire.Endian.{htonl, htonl_bytes}
use netd_moduos.State.{Sys, done}
use netd_moduos.Dhcp.Options.{opt_msg_type, opt_req_ip, opt_server_id, dhcp_get_opt32}
use netd_moduos.Dhcp.Options.Encoding.{Opt, opt, encode, IsOpt, find_opt}
use netd_moduos.Dhcp.Options.Laws.{opt32_value, number32, dhcp_get_opt32_lem}
use netd_moduos.Dhcp.Client.{long_bytes, opt32, dhcp_options, dhcp_request}

-- The bytes of a number, the highest first.
abbrev wire_bytes : ℕ → List ℕ
wire_bytes v = (v / 2 ^ 24) ∷ (v / 2 ^ 16 % 256) ∷ (v / 2 ^ 8 % 256) ∷ (v % 256) ∷ []

long_bytes-wire_bytes : (v : ℕ) → v < 2 ^ 32 → long_bytes v ≡ wire_bytes v
long_bytes-wire_bytes v h =
    let e0 : htonl v % 256 ≡ v / 2 ^ 24 = omega (arith, htonl_bytes v h) in
    let e1 : htonl v / 256 % 256 ≡ v / 2 ^ 16 % 256 = omega (arith, htonl_bytes v h) in
    let e2 : htonl v / 2 ^ 16 % 256 ≡ v / 2 ^ 8 % 256 = omega (arith, htonl_bytes v h) in
    let e3 : htonl v / 2 ^ 24 % 256 ≡ v % 256 = omega (arith, htonl_bytes v h) in
    rw (e0, e1, e2, e3) refl

-- The option for an address, which is left out if the address is 0.
choice : ℕ → ℕ → List Opt
choice tag v = if v == 0 then [] else opt tag (wire_bytes v) ∷ []

-- What a request announces.
asked : ℕ → ℕ → List Opt
asked req_ip server_id =
    opt opt_msg_type (dhcp_request ∷ [])
    ∷ (choice opt_req_ip req_ip ++ choice opt_server_id server_id)

dhcp_options-encode :
    (req_ip server_id : ℕ)
    → req_ip < 2 ^ 32
    → server_id < 2 ^ 32
    → dhcp_options dhcp_request req_ip server_id ≡ encode (asked req_ip server_id) ++ 255 ∷ []
unfolding dhcp_options opt32 encode asked choice
dhcp_options-encode r v hr hv =
    let e_r = long_bytes-wire_bytes r hr in
    let e_v = long_bytes-wire_bytes v hv in
    elim (Bool-cases (r == 0)) [
      | inl r0 ↦ elim (Bool-cases (v == 0)) [
        | inl v0 ↦ rw (r0, v0) refl
        | inr v1 ↦ rw (r0, v1) (ap (λ (t : List ℕ). 53 ∷ 1 ∷ 3 ∷ 54 ∷ 4 ∷ (t ++ 255 ∷ [])) e_v)
      ]
      | inr r1 ↦ elim (Bool-cases (v == 0)) [
        | inl v0 ↦ rw (r1, v0) (ap (λ (t : List ℕ). 53 ∷ 1 ∷ 3 ∷ 50 ∷ 4 ∷ (t ++ 255 ∷ [])) e_r)
        | inr v1 ↦
            rw (r1, v1)
              (ap (λ (t : List ℕ). 53 ∷ 1 ∷ 3 ∷ 50 ∷ 4 ∷ (t ++ 54 ∷ 4 ∷ (long_bytes v ++ 255 ∷ [])))
                  e_r
                ∙ ap
                    (λ (t : List ℕ).
                      53 ∷ 1 ∷ 3 ∷ 50 ∷ 4 ∷ (wire_bytes r ++ 54 ∷ 4 ∷ (t ++ 255 ∷ [])))
                    e_v)
      ]
    ]

wire_bytes-small : (v : ℕ) → v < 2 ^ 32 → All (λ b. b < 256) (wire_bytes v)
wire_bytes-small v h = (omega arith, (omega arith, (omega arith, (omega arith, tt))))

asked-IsOpt :
    (req_ip server_id : ℕ)
    → req_ip < 2 ^ 32
    → server_id < 2 ^ 32
    → All IsOpt (asked req_ip server_id)
unfolding asked choice
asked-IsOpt r v hr hv =
    let head : IsOpt (opt opt_msg_type (dhcp_request ∷ [])) =
      (ground arith, ground arith, (omega arith, tt)) in
    let first : IsOpt (opt opt_req_ip (wire_bytes r)) =
      (ground arith, ground arith, wire_bytes-small r hr) in
    let second : IsOpt (opt opt_server_id (wire_bytes v)) =
      (ground arith, ground arith, wire_bytes-small v hv) in
    elim (Bool-cases (r == 0)) [
      | inl r0 ↦ elim (Bool-cases (v == 0)) [
        | inl v0 ↦ rw (r0, v0) (head, tt)
        | inr v1 ↦ rw (r0, v1) (head, (second, tt))
      ]
      | inr r1 ↦ elim (Bool-cases (v == 0)) [
        | inl v0 ↦ rw (r1, v0) (head, (first, tt))
        | inr v1 ↦ rw (r1, v1) (head, (first, (second, tt)))
      ]
    ]

number32-wire_bytes : (v : ℕ) → v < 2 ^ 32 → number32 (wire_bytes v) ≡ v
number32-wire_bytes v h = omega arith

asked_values :
    (req_ip server_id : ℕ)
    → req_ip < 2 ^ 32
    → server_id < 2 ^ 32
    → (opt32_value (find_opt opt_req_ip 4 (asked req_ip server_id)) ≡ req_ip)
      × (opt32_value (find_opt opt_server_id 4 (asked req_ip server_id)) ≡ server_id)
unfolding asked choice find_opt
asked_values r v hr hv =
    let e_r = number32-wire_bytes r hr in
    let e_v = number32-wire_bytes v hv in
    elim (Bool-cases (r == 0)) [
      | inl r0 ↦ elim (Bool-cases (v == 0)) [
        | inl v0 ↦ rw (r0, v0) (ground (arith, r0), ground (arith, v0))
        | inr v1 ↦ rw (r0, v1) (ground (arith, r0), e_v)
      ]
      | inr r1 ↦ elim (Bool-cases (v == 0)) [
        | inl v0 ↦ rw (r1, v0) (e_r, ground (arith, v0))
        | inr v1 ↦ rw (r1, v1) (e_r, e_v)
      ]
    ]

-- The options of a request for 32-bit addresses give back, through dhcp_get_opt32, the requested
-- address and the server's, which are 0 where the option is left out.
pub dhcp_get_opt32-dhcp_options :
    (req_ip server_id : ℕ) (s : Sys)
    → req_ip < 2 ^ 32
    → server_id < 2 ^ 32
    → let opts = dhcp_options dhcp_request req_ip server_id in
      (dhcp_get_opt32 opts (length opts) opt_req_ip s ≡ done req_ip s)
      × (dhcp_get_opt32 opts (length opts) opt_server_id s ≡ done server_id s)
dhcp_get_opt32-dhcp_options r v s hr hv =
    let os = asked r v in
    let e = asked_values r v hr hv in
    let all = asked-IsOpt r v hr hv in
    rw (dhcp_options-encode r v hr hv) (
      dhcp_get_opt32_lem opt_req_ip os [] s all ∙ ap (λ (n : ℕ). done n s) e.0,
      dhcp_get_opt32_lem opt_server_id os [] s all ∙ ap (λ (n : ℕ). done n s) e.1,
    )
