-- ===== src/Driver/Deliver.antt =====
-- driver_rx on a device that gives a frame in one piece.
use netd_moduos.Common.{
  ℕ, suc, ◌+◌, ◌-◌, ◌/◌, ◌%◌, ◌^◌, ◌≤◌, ◌<◌, ◌≡◌, refl, ap, ◌∙◌, subst, true, false, List, [], ◌∷◌,
  ◌++◌, some, ltb, ◌==◌, le→not-ltb, if◌then◌else◌, length, length-append, get_elem?-after, get_or,
  take, take_all, take-append, drop, drop-append, replicate, arith,
}
use mathlib.Core.List.{append_assoc}
use netd_moduos.Wire.Constants.{net_cmd_rx_poll}
use netd_moduos.Wire.Memory.{load32, store32}
use netd_moduos.State.{Sys, M, done, got, at_most, pure}
use netd_moduos.Driver.Reply.{with_reads}
use netd_moduos.Driver.{
  Received, rx_error, nothing, frame, ends_in_zero, store_piece, poll_reply, rep_size, rep_bytes,
  copy_out, parse_frame, driver_rx,
}

-- A number as the machine's memory holds it.
abbrev pub le32 : ℕ → List ℕ
le32 v = v % 2 ^ 8 ∷ v / 2 ^ 8 % 2 ^ 8 ∷ v / 2 ^ 16 % 2 ^ 8 ∷ v / 2 ^ 24 ∷ []

-- The reply of the device: eight bytes, the length of the frame, the frame, and a zero.
abbrev pub device_reply : List ℕ → List ℕ → List ℕ
device_reply head bytes = head ++ (le32 (length bytes) ++ (bytes ++ 0 ∷ []))

load32-le32 :
    (whole front back : List ℕ) (v : ℕ)
    → whole ≡ front ++ (le32 v ++ back)
    → load32 whole (length front) ≡ some v
unfolding load32
load32-le32 whole front back v e =
    rw
      (
        get_elem?-after whole front (v % 2 ^ 8) (le32 v ++ back) (length front) 0 e (omega arith)
            refl,
        get_elem?-after whole front (v / 2 ^ 8 % 2 ^ 8) (le32 v ++ back) (length front + 1) 1 e refl
            refl,
        get_elem?-after whole front (v / 2 ^ 16 % 2 ^ 8) (le32 v ++ back) (length front + 2) 2 e
            refl refl,
        get_elem?-after whole front (v / 2 ^ 24) (le32 v ++ back) (length front + 3) 3 e refl refl,
      )
      (ap some (omega arith))

get_or_last : (xs : List ℕ) (y d : ℕ) → get_or (xs ++ y ∷ []) (length xs) d ≡ y
get_or_last [] y d = refl
get_or_last (x ∷ xs) y d = get_or_last xs y d

length-device_reply :
    (head bytes : List ℕ) → length (device_reply head bytes) ≡ length head + 4 + length bytes + 1
length-device_reply head bytes = omega (
  arith,
  length-append head (le32 (length bytes) ++ (bytes ++ 0 ∷ [])),
  length-append bytes (0 ∷ []),
)

ends_in_zero-device_reply : (head bytes : List ℕ) → ends_in_zero (device_reply head bytes) ≡ true
unfolding ends_in_zero
ends_in_zero-device_reply head bytes =
    let front = head ++ (le32 (length bytes) ++ bytes) in
    let same : device_reply head bytes ≡ front ++ 0 ∷ [] = simp append_assoc in
    let last : length (front ++ 0 ∷ []) - 1 ≡ length front =
      omega (arith, length-append front (0 ∷ [])) in
    rw (same, last, get_or_last front 0 1) refl

-- The frame stands behind the twelve bytes of the reply's header.
frame_of-device_reply :
    (head bytes zeros : List ℕ)
    → length head ≡ 8
    → take (length bytes) (drop 12 (device_reply head bytes ++ zeros)) ≡ bytes
frame_of-device_reply head bytes zeros eight =
    let front = head ++ le32 (length bytes) in
    let size : 12 ≡ length front = omega (arith, eight, length-append head (le32 (length bytes))) in
    let same : device_reply head bytes ++ zeros ≡ front ++ (bytes ++ 0 ∷ zeros) =
      simp append_assoc in
    ap (λ l. take (length bytes) (drop 12 l)) same
    ∙ ap (λ n. take (length bytes) (drop n (front ++ (bytes ++ 0 ∷ zeros)))) size
    ∙ ap (take (length bytes)) (drop-append front (bytes ++ 0 ∷ zeros))
    ∙ take-append bytes (0 ∷ zeros)

copy_out-frame :
    (head bytes : List ℕ) (room : ℕ) (s : Sys)
    → length head ≡ 8
    → length bytes ≤ 1506
    → length bytes ≤ room
    → copy_out (device_reply head bytes) (length bytes) room s ≡ done bytes s
unfolding copy_out rep_bytes
copy_out-frame head bytes room s eight small fits =
    let copy : (if ltb (length bytes) room then length bytes else room) ≡ length bytes =
      ground (arith, fits) in
    let reply = device_reply head bytes in
    rw
      (
        copy_out,
        copy,
        le→not-ltb rep_size (12 + length bytes) (omega (arith, small)),
        rep_bytes,
        frame_of-device_reply head bytes (replicate (rep_size - length reply) 0) eight,
      )
      refl

parse_frame-frame :
    (head bytes : List ℕ) (room : ℕ) (s : Sys)
    → length head ≡ 8
    → 0 < length bytes
    → length bytes ≤ 1506
    → length bytes ≤ room
    → parse_frame room (device_reply head bytes) s ≡ done (frame bytes) s
unfolding parse_frame
parse_frame-frame head bytes room s eight some' small fits =
    let flen : load32 (device_reply head bytes) 8 ≡ some (length bytes) =
      subst (λ n. load32 (device_reply head bytes) n ≡ some (length bytes)) eight
        (load32-le32 (device_reply head bytes) head (bytes ++ 0 ∷ []) (length bytes) refl) in
    let more : (length bytes == 0) ≡ false = ground (arith, some') in
    rw
      (
        parse_frame,
        le→not-ltb (length (device_reply head bytes)) 12
            (omega (arith, eight, length-device_reply head bytes)),
        flen,
        more,
        copy_out-frame head bytes room s eight small fits,
      )
      refl

-- The state after a poll that the device answers in one piece.
abbrev pub polled : Sys → Sys
polled s = record s {
  os = record (s.os) {
    read_calls = suc s.os.read_calls;
    write_calls = suc s.os.write_calls;
    written = store32 (replicate 8 0) 0 net_cmd_rx_poll ∷ s.os.written;
  };
}

last_piece :
    {A : Type 0} (again finish : List ℕ → M A) (error : A) (empty : M A) (piece : List ℕ)
    → ends_in_zero piece ≡ true
    → store_piece again finish error empty [] (got piece) ≡ finish piece
unfolding store_piece ends_in_zero
last_piece again finish error empty [] last = cc
last_piece again finish error empty (x ∷ xs) last = rw (store_piece, ends_in_zero, last) refl

poll_reply-last :
    (rounds : ℕ) (finish : List ℕ → M Received) (piece : List ℕ) (s : Sys)
    → s.os.reads s.os.read_calls 1519 ≡ got piece
    → length piece ≤ 1519
    → ends_in_zero piece ≡ true
    → poll_reply (suc rounds) [] finish s ≡ finish piece (with_reads (suc s.os.read_calls) s)
unfolding poll_reply
poll_reply-last rounds finish piece s answers fits last =
    let all : at_most 1519 (got piece) ≡ got piece = ap got (take_all 1519 piece fits) in
    rw
      (
        poll_reply,
        answers,
        all,
        last_piece (λ more. poll_reply rounds more finish) finish rx_error (pure nothing) piece
            last,
      )
      refl

-- On a device that takes the poll and gives in one piece a reply with a frame of 1 to 1506 bytes,
-- eight bytes and its length before it and a zero behind it, driver_rx returns the frame, if it
-- fits the caller's buffer, after one write and one read.
pub driver_rx-device_reply :
    (room : ℕ) (head bytes : List ℕ) (s : Sys)
    → s.os.writes s.os.write_calls ≡ true
    → s.os.reads s.os.read_calls 1519 ≡ got (device_reply head bytes)
    → length head ≡ 8
    → 0 < length bytes
    → length bytes ≤ 1506
    → length bytes ≤ room
    → driver_rx room s ≡ done (frame bytes) (polled s)
unfolding driver_rx
driver_rx-device_reply room head bytes s sent answers eight some' small fits =
    let reply = device_reply head bytes in
    let s' = record s {
      os = record (s.os) {
        write_calls = suc s.os.write_calls;
        written = store32 (replicate 8 0) 0 net_cmd_rx_poll ∷ s.os.written;
      };
    } in
    let whole : length reply ≤ 1519 = omega (arith, length-device_reply head bytes, eight, small) in
    rw (driver_rx, sent)
      (poll_reply-last 1519 (parse_frame room) reply s' answers whole
          (ends_in_zero-device_reply head bytes)
        ∙ parse_frame-frame head bytes room (polled s) eight some' small fits)
