-- ===== src/Session/Client/Drain.antt =====
-- Receive of a session that is closed: it never waits, gives what the channel still completes, and
-- then io.EOF.
use libya_link.Common.{ℕ, ◌<◌, ◌≡◌, refl, true, Option, none, some, List, [], ◌∷◌, All}
use libya_link.Common.Result.{Result, ok}
use libya_link.Protocol.Udp.{UdpMessage}
use libya_link.Frag.Defragger.{Defragger, feed, feed_all}
use libya_link.Frag.Defragger.Total.{IsCounted, feed-IsCounted}
use libya_link.Session.Client.{UdpConn, receive, receive_loop, received, Received, message, eof}

-- Calling Receive again and again gives exactly these messages, in order, and then io.EOF.
pub data Delivers : UdpConn → List (List ℕ × List ℕ) → Type 0 where
  ends : (c c' : UdpConn) → receive c ≡ ok (c', eof) → Delivers c []
  gives :
      (c c' : UdpConn) (bytes addr : List ℕ) (xs : List (List ℕ × List ℕ))
      → receive c ≡ ok (c', message bytes addr)
      → Delivers c' xs
      → Delivers c ((bytes, addr) ∷ xs)

-- Fragment counts are uint8.
abbrev pub AreTyped : List UdpMessage → Type 0
AreTyped = All (λ m. m.frag_count < 256)

-- The data and the address of each message that came out of the defragger.
abbrev pub completed : List (Option UdpMessage) → List (List ℕ × List ℕ)
completed [] = []
completed (none ∷ outs) = completed outs
completed (some m ∷ outs) = (m.body, m.addr) ∷ completed outs

-- An answer of Receive that is the first of these messages, with the others still to come.
abbrev Begins : Result (Unit {0}) (UdpConn × Received) → List (List ℕ × List ℕ) → Type 0
Begins r [] = (c' : UdpConn) × (r ≡ ok (c', eof))
Begins r (x ∷ xs) = (c' : UdpConn) × (r ≡ ok (c', message x.0 x.1)) × Delivers c' xs

receive-Delivers :
    (c : UdpConn) (xs : List (List ℕ × List ℕ)) → Begins (receive c) xs → Delivers c xs
receive-Delivers c [] (c', e) = ends c c' e
receive-Delivers c (x ∷ xs) (c', e, rest) = gives c c' x.0 x.1 xs e rest

-- What the defragger makes of a queue, and the answer that this begins.
abbrev Drained : List UdpMessage → UdpConn → Defragger → Type 0
Drained queue c d =
    (d' : Defragger) × (outs : List (Option UdpMessage)) × (feed_all d queue ≡ ok (d', outs))
    × Begins (receive_loop queue c) (completed outs)

receive_loop-suc :
    (msg : UdpMessage) (queue : List UdpMessage) (c : UdpConn) (d : Defragger)
    (out : Option UdpMessage)
    → feed c.d msg ≡ ok (d, out)
    → receive_loop (msg ∷ queue) c
      ≡ received queue c d out (receive_loop queue (record c { d = d }))
unfolding receive_loop received
receive_loop-suc msg queue c d out f = rw (f, receive_loop) refl

feed_all-suc :
    (d d' d'' : Defragger) (msg : UdpMessage) (queue : List UdpMessage) (out : Option UdpMessage)
    (outs : List (Option UdpMessage))
    → feed d msg ≡ ok (d', out)
    → feed_all d' queue ≡ ok (d'', outs)
    → feed_all d (msg ∷ queue) ≡ ok (d'', out ∷ outs)
unfolding feed_all
feed_all-suc d d' d'' msg queue out outs f fs = rw (f, fs) refl

receive_loop-Drained :
    (queue : List UdpMessage) (c : UdpConn)
    → c.closed ≡ true
    → IsCounted c.d
    → AreTyped queue
    → Drained queue c c.d
unfolding receive_loop received feed_all receive
receive_loop-Drained [] c shut v t = (c.d, [], refl, (record c { receive_ch = [] }, rw shut refl))
receive_loop-Drained (msg ∷ queue) c shut v t =
    let (d, out, f, w) = feed-IsCounted c.d msg v t.0 in
    let skip : Drained queue (record c { d = d }) d =
      receive_loop-Drained queue (record c { d = d }) shut w t.1 in
    let later : Drained queue (record c { d = d; receive_ch = queue }) d =
      receive_loop-Drained queue (record c { d = d; receive_ch = queue }) shut w t.1 in
    after d out f skip later
  where
    after :
        (d : Defragger) (out : Option UdpMessage)
        → feed c.d msg ≡ ok (d, out)
        → Drained queue (record c { d = d }) d
        → Drained queue (record c { d = d; receive_ch = queue }) d
        → Drained (msg ∷ queue) c c.d
    after d none f (d', outs, e, b) later = (
      d',
      none ∷ outs,
      feed_all-suc c.d d d' msg queue none outs f e,
      rw (receive_loop-suc msg queue c d none f) b,
    )
    after d (some whole) f skip (d', outs, e, b) = (
      d',
      some whole ∷ outs,
      feed_all-suc c.d d d' msg queue (some whole) outs f e,
      (
        record c { d = d; receive_ch = queue },
        rw (receive_loop-suc msg queue c d (some whole) f) refl,
        receive-Delivers (record c { d = d; receive_ch = queue }) (completed outs) b,
      ),
    )

-- Once a session is closed its Receive never waits: call after call gives, in order, every message
-- that its defragger completes from what the channel still holds, and then io.EOF. The fragment
-- counts are uint8, and the defragger is one that Feed leaves.
pub closed-Delivers :
    (c : UdpConn)
    → c.closed ≡ true
    → IsCounted c.d
    → AreTyped c.receive_ch
    → (d' : Defragger) × (outs : List (Option UdpMessage)) × (feed_all c.d c.receive_ch
        ≡ ok (d', outs))
      × Delivers c (completed outs)
unfolding receive
closed-Delivers c shut v t =
    let (d', outs, e, b) = receive_loop-Drained c.receive_ch c shut v t in
    (d', outs, e, receive-Delivers c (completed outs) b)
