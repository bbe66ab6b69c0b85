-- ===== src/Speedtest/RoundTrip.antt =====
-- What is read back of the messages of extras/outbounds/speedtest/protocol.go.
use libya_link.Common.{
  ℕ, ◌*◌, ◌/◌, ◌%◌, ◌^◌, ◌≤◌, ◌<◌, ◌≡◌, refl, sym, ap, ◌∙◌, inl, inr, Bool, true, false, List, [],
  ◌∷◌, ◌++◌, append_assoc, arith, ◌==◌, if◌then◌else◌, Bool-cases, length, take, drop,
  take-append-drop, length-take,
}
use libya_link.Common.Result.{ok}
use libya_link.Protocol.Reader.{read_full}
use libya_link.Protocol.Udp.{be32, be16}
use libya_link.Protocol.Udp.RoundTrip.{read_be32, read_be16}
use libya_link.Protocol.Reader.{read_full-append}
use libya_link.Speedtest.{
  read_response, write_response, millisecond, read_upload_summary, write_upload_summary,
}

-- A part of the front of a list is read in full.
read_full-front :
    (n : ℕ) (xs rest : List ℕ)
    → n ≤ length xs
    → read_full n (xs ++ rest) ≡ ok (take n xs, drop n xs ++ rest)
read_full-front n xs rest h =
    let whole : take n xs ++ (drop n xs ++ rest) ≡ xs ++ rest =
      sym (append_assoc (take n xs) (drop n xs) rest)
      ∙ ap (λ ys. ys ++ rest) (take-append-drop n xs) in
    let size : length (take n xs) ≡ n = length-take n xs ∙ ground arith in
    ap (read_full n) (sym whole)
    ∙ ap (λ k. read_full k (take n xs ++ (drop n xs ++ rest))) (sym size)
    ∙ read_full-append (take n xs) (drop n xs ++ rest)

read_response_lem :
    (b n : ℕ) (msg rest : List ℕ)
    → n < 2 ^ 16
    → n ≤ length msg
    → read_response ((b ∷ []) ++ (be16 n ++ (msg ++ rest)))
      ≡ ok (b == 0, take n msg, drop n msg ++ rest)
unfolding read_response
read_response_lem b n msg rest small h = elim (Bool-cases (n == 0)) [
  | inl t ↦
      let nothing : n ≡ 0 = ground arith in
      rw
        (
          read_full-append (b ∷ []) (be16 n ++ (msg ++ rest)),
          read_be16 n (msg ++ rest) small,
          t,
          nothing,
        )
        refl
  | inr t ↦
      rw
        (
          read_full-append (b ∷ []) (be16 n ++ (msg ++ rest)),
          read_be16 n (msg ++ rest) small,
          t,
          read_full-front n msg rest h,
        )
        refl
]

status-byte : (success : Bool) → ((if success then 0 else 1) == 0) ≡ success
status-byte true = refl
status-byte false = refl

-- A response is read back with its status and as many bytes of its message as the length modulo 2 ^ 16
-- says, and the others stay in the stream: a message of fewer than 2 ^ 16 bytes is read back whole.
pub read-write_response :
    (success : Bool) (msg rest : List ℕ)
    → read_response (write_response success msg ++ rest)
      ≡ ok (success, take (length msg % 2 ^ 16) msg, drop (length msg % 2 ^ 16) msg ++ rest)
unfolding write_response
read-write_response success msg rest =
    let n = length msg % 2 ^ 16 in
    read_response_lem (if success then 0 else 1) n msg rest (omega arith) (omega arith)
    ∙ ap (λ b. ok (b, take n msg, drop n msg ++ rest)) (status-byte success)

-- A summary is read back with its bytes and its duration in whole milliseconds, where these are less
-- than 2 ^ 32.
pub read-write_upload_summary :
    (duration l : ℕ) (rest : List ℕ)
    → duration < 2 ^ 32 * millisecond
    → l < 2 ^ 32
    → read_upload_summary (write_upload_summary duration l ++ rest)
      ≡ ok (duration / millisecond * millisecond, l, rest)
unfolding read_upload_summary write_upload_summary
read-write_upload_summary duration l rest short few =
    let in_word : duration / millisecond % 2 ^ 32 ≡ duration / millisecond = omega arith in
    let small : duration / millisecond % 2 ^ 32 < 2 ^ 32 = omega arith in
    rw
      (
        append_assoc (be32 (duration / millisecond % 2 ^ 32)) (be32 l) rest,
        read_be32 (duration / millisecond % 2 ^ 32) (be32 l ++ rest) small,
        read_be32 l rest few,
        in_word,
      )
      refl
