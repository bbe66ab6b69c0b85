-- ===== src/Obfs/Conn.antt =====
-- obfsPacketConn of extras/obfs/conn.go: what ReadFrom makes of the packets that its connection
-- gives, and what WriteTo sends. What the connection answers is an argument; the address of a
-- packet is passed on as it is, and left out.
use libya_link.Common.{
  ℕ, Bool, true, false, ◌||◌, Option, none, some, List, [], ◌∷◌, ltb, ◌==◌, if◌then◌else◌, length,
  take,
}
use libya_link.Obfs.{Obfuscator, obfuscate, deobfuscate}

abbrev pub udp_buffer_size : ℕ
udp_buffer_size = 2048

abbrev is_some : {E : Type 0} → Option E → Bool
is_some none = false
is_some (some e) = true

-- What is left of the incoming packets, the caller's buffer, and the two results.
abbrev pub Outcome : Type 0 → Type 0
Outcome E = List (List ℕ × Option E) × List ℕ × ℕ × Option E

module _ {E : Type 0} (o : Obfuscator) where
  -- ReadFrom over the packets that its connection gives, each with an error or none; the result is
  -- none while it waits for more.
  unfoldable pub read_from : List ℕ → List (List ℕ × Option E) → Option (Outcome E)
  read_from p [] = none
  read_from p ((bytes, e) ∷ incoming) =
      let done = deobfuscate o bytes p in
      let again = read_from done.0 incoming in
      if length bytes == 0
      then some (incoming, p, 0, e)
      else if ltb 0 done.1 || is_some e
      then some (incoming, done.0, done.1, e)
      else again

  -- The datagram that is sent from `write_buf`, and the number that is returned for `answer`.
  unfoldable pub write_to : List ℕ → List ℕ → List ℕ → Option E → List ℕ × ℕ
  write_to salt write_buf p answer =
      let sent = obfuscate o salt p write_buf in
      (take sent.1 sent.0, if is_some answer then 0 else length p)
