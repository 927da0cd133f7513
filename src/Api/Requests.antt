-- ===== src/Api/Requests.antt =====
-- The requests NETD_CMD_UDP_SEND and NETD_CMD_UDP_RECV of api.c as bytes, and how they are answered.
use netd_moduos.Common.{
  ℕ, ◌+◌, ◌-◌, ◌*◌, ◌/◌, ◌%◌, ◌^◌, ◌≤◌, ◌<◌, ◌≡◌, refl, ap, ◌∙◌, false, List, ◌++◌, Option, some, ℤ,
  pos, ◌==◌, length, length-append, length-replicate, take-append, replicate, arith, le→not-ltb,
  lt→ltb,
}
use netd_moduos.Wire.Memory.{load16, load32, bytes?}
use netd_moduos.State.{and_then_assoc, UdpBind, Sys, M, done, pure, ◌>>=◌, and_then}
use netd_moduos.Udp.Table.{recv, udp_recv}
use netd_moduos.Udp.Tx.{udp_tx}
use netd_moduos.Api.Reply.{bytes16, bytes32, reply, status_only, reply_bytes, with_size}
use netd_moduos.Api.Ports.{send_data, send, recv_reply, receive}
use netd_moduos.Ip.Rx.Delivery.{with_binds}
use netd_moduos.Api.Invoke.{decode, handle, api_invoke}

-- The bytes of a NETD_CMD_UDP_SEND request, whose structure always holds 1472 bytes of data.
abbrev pub send_request : ℕ → ℕ → ℕ → List ℕ → List ℕ
send_request dst_ip src_port dst_port xs =
    bytes32 3
    ++ (bytes32 dst_ip
        ++ (bytes16 src_port
            ++ (bytes16 dst_port
                ++ (bytes16 (length xs) ++ (xs ++ replicate (1472 - length xs) 0)))))

-- The bytes of a NETD_CMD_UDP_RECV request.
abbrev pub receive_request : ℕ → ℕ → List ℕ
receive_request port max = bytes32 4 ++ (bytes16 port ++ bytes16 max)

word16_back : (v : ℕ) → v < 2 ^ 16 → v % 256 + v / 256 % 256 * 2 ^ 8 ≡ v
word16_back v h = omega arith

word32_back :
    (v : ℕ)
    → v < 2 ^ 32
    → v % 256 + v / 256 % 256 * 2 ^ 8 + v / 2 ^ 16 % 256 * 2 ^ 16 + v / 2 ^ 24 % 256 * 2 ^ 24 ≡ v
word32_back v h = omega arith

bytes?-append : (xs ys : List ℕ) → bytes? (xs ++ ys) (length xs) ≡ some xs
unfolding bytes?
bytes?-append xs ys =
    rw
      (
        le→not-ltb (length (xs ++ ys)) (length xs) (omega (arith, length-append xs ys)),
        take-append xs ys,
      )
      refl

send-send_request :
    (dst_ip src_port dst_port : ℕ) (xs : List ℕ) (s : Sys)
    → dst_ip < 2 ^ 32
    → src_port < 2 ^ 16
    → dst_port < 2 ^ 16
    → length xs ≤ 1472
    → send (send_request dst_ip src_port dst_port xs) s
      ≡ (udp_tx dst_ip src_port dst_port xs >>= λ status. pure (status_only status)) s
unfolding send send_data with_size load16 load32
send-send_request dst_ip src_port dst_port xs s hd hs hp small =
    let padding = replicate (1472 - length xs) 0 in
    let size : length (xs ++ padding) ≡ 1472 =
      omega
        (arith, small, length-append xs padding, length-replicate {A = ℕ} (1472 - length xs) 0) in
    rw
      (
        le→not-ltb (length (send_request dst_ip src_port dst_port xs)) 1486 (omega (arith, size)),
        word32_back dst_ip hd,
        word16_back src_port hs,
        word16_back dst_port hp,
        word16_back (length xs) (omega (arith, small)),
        le→not-ltb 1472 (length xs) small,
        bytes?-append xs padding,
      )
      refl

-- netd_udp_recv_rep_t with the bytes that udp_recv has handed out.
abbrev pub received_data : ℕ → ℕ → List ℕ → List ℕ
received_data src_ip src_port got =
    bytes32 src_ip
    ++ (bytes16 src_port ++ (bytes16 (length got) ++ (got ++ replicate (1472 - length got) 0)))

receive-receive_request :
    (port max src_ip src_port : ℕ) (got : List ℕ) (bs bs' : List UdpBind) (s : Sys)
    → port < 2 ^ 16
    → 0 < max
    → max < 2 ^ 16
    → 0 < length got
    → length got ≤ 1472
    → recv port max bs ≡ (some (record { bytes = got; src_ip = src_ip; src_port = src_port }), bs')
    → receive (receive_request port max) (with_binds bs s)
      ≡ done (reply (pos 0) (received_data src_ip src_port got)) (with_binds bs' s)
unfolding receive recv_reply with_size load16 udp_recv
receive-receive_request port max src_ip src_port got bs bs' s hp some' hm some'' small handed =
    let given : (max == 0) ≡ false = ground (arith, some') in
    rw
      (
        word16_back port hp,
        word16_back max hm,
        given,
        handed,
        le→not-ltb 1472 (length got) small,
        lt→ltb 0 (length got) some'',
      )
      refl

-- What api_invoke stores when `m` gives the status.
abbrev pub answer_status : ℕ → M ℤ → M (Option (List ℕ))
answer_status out_size m = m >>= λ status. pure (some (reply_bytes out_size (status_only status)))

pub api_invoke-send_request :
    (yield : M (Unit {0})) (dst_ip src_port dst_port out_size : ℕ) (xs : List ℕ) (s : Sys)
    → dst_ip < 2 ^ 32
    → src_port < 2 ^ 16
    → dst_port < 2 ^ 16
    → length xs ≤ 1472
    → api_invoke yield (send_request dst_ip src_port dst_port xs) out_size s
      ≡ answer_status out_size (udp_tx dst_ip src_port dst_port xs) s
unfolding api_invoke decode handle load32
api_invoke-send_request yield dst_ip src_port dst_port out_size xs s hd hs hp small =
    let req = send_request dst_ip src_port dst_port xs in
    rw (le→not-ltb (length req) 4 (omega arith)) (
      ap (λ o. and_then o λ rep. pure (some (reply_bytes out_size rep)))
        (send-send_request dst_ip src_port dst_port xs s hd hs hp small)
      ∙ and_then_assoc (udp_tx dst_ip src_port dst_port xs s) (λ status. pure (status_only status))
          λ rep. pure (some (reply_bytes out_size rep)))

pub api_invoke-receive_request :
    (yield : M (Unit {0})) (port max out_size src_ip src_port : ℕ) (got : List ℕ)
    (bs bs' : List UdpBind) (s : Sys)
    → port < 2 ^ 16
    → 0 < max
    → max < 2 ^ 16
    → 0 < length got
    → length got ≤ 1472
    → recv port max bs ≡ (some (record { bytes = got; src_ip = src_ip; src_port = src_port }), bs')
    → api_invoke yield (receive_request port max) out_size (with_binds bs s)
      ≡ done
          (some (reply_bytes out_size (reply (pos 0) (received_data src_ip src_port got))))
          (with_binds bs' s)
unfolding api_invoke decode handle load32
api_invoke-receive_request yield port max out_size src_ip src_port got bs bs' s hp some' hm some''
      small handed =
    ap (λ o. and_then o λ rep. pure (some (reply_bytes out_size rep)))
      (receive-receive_request port max src_ip src_port got bs bs' s hp some' hm some'' small
        handed)
