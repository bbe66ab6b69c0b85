-- ===== src/Frag/RoundTrip.antt =====
-- A message that is split and put together again.
use libya_link.Common.{
  ℕ, zero, suc, ◌+◌, ◌-◌, ◌*◌, ◌≤◌, ◌<◌, ◌≡◌, refl, sym, ap, ◌∙◌, ◌≢◌, inl, none, some, List, [],
  ◌∷◌, ◌++◌, map, arith, length, get_or, replicate, All, Distinct, tabulate,
}
use mathlib.Core.Path.{ap₂}
use libya_link.Common.Result.{ok}
use libya_link.Protocol.Quic.{QuicVarint}
use libya_link.Protocol.Udp.{UdpMessage, header_size, size}
use libya_link.Frag.Split.{zero_message, frag_udp_message}
use libya_link.Frag.Split.Pieces.{piece, pieces_needed, joined, round_up, frag_udp_message-tabulate}
use libya_link.Frag.Split.Cover.{joined_whole}
use libya_link.Frag.Defragger.{Defragger, feed_all}
use libya_link.Frag.Defragger.AnyOrder.{feed_all_any_order}

-- The fragments in the order in which they arrive.
abbrev pub arriving : List UdpMessage → List ℕ → List UdpMessage
arriving fs js = map (λ j. get_or fs j zero_message) js

get_or-tabulate :
    (f : ℕ → UdpMessage) (i k j x : ℕ)
    → j < k
    → x ≡ i + j
    → get_or (tabulate f i k) j zero_message ≡ f x
get_or-tabulate f i zero j x h e = elim h [ ]
get_or-tabulate f i (suc k) zero x h e = ap f (omega arith)
get_or-tabulate f i (suc k) (suc j) x h e =
    get_or-tabulate f (suc i) k j x (omega arith) (omega arith)

arriving-tabulate :
    (f : ℕ → UdpMessage) (n : ℕ) (js : List ℕ)
    → All (λ j. j < n) js
    → arriving (tabulate f 0 n) js ≡ map f js
arriving-tabulate f n [] h = refl
arriving-tabulate f n (j ∷ js) h =
    rw (get_or-tabulate f 0 n j j h.0 (omega arith), arriving-tabulate f n js h.1)

more_than_one : (c r n : ℕ) → n ≤ c * r → r < n → 1 < c
more_than_one zero r n h k = absurd (omega arith)
more_than_one (suc zero) r n h k = absurd (omega arith)
more_than_one (suc (suc c)) r n h k = omega arith

as_sent :
    (m : UdpMessage) {b : List ℕ}
    → m.frag_id ≡ 0
    → m.frag_count ≡ 1
    → b ≡ m.body
    → record m { frag_id = 0; frag_count = 1; body = b } ≡ m
as_sent m hi hc hb = λ i. record m { frag_id = sym hi i; frag_count = sym hc i; body = hb i }

module _ (q : QuicVarint) (m : UdpMessage) (max_size : ℕ) where
  several :
      header_size q m < max_size
      → max_size < size q m
      → 1 < pieces_needed m (max_size - header_size q m)
  unfolding size
  several left over =
      more_than_one (pieces_needed m (max_size - header_size q m)) (max_size - header_size q m)
        (length m.body) (round_up (length m.body) (max_size - header_size q m) (omega arith)).0
        (omega arith)

  -- A message as the senders build it (fragment 0 of 1) that is over the size limit, whose header
  -- leaves room for data and whose data needs fewer than 256 fragments, is split; a defragger whose
  -- packet is another one, fed with the fragments in any order and each once, answers nothing until
  -- the last of them arrives, and then the message itself.
  pub feed_all-frag_udp_message :
      (d : Defragger) (js : List ℕ)
      → m.frag_id ≡ 0
      → m.frag_count ≡ 1
      → header_size q m < max_size
      → max_size < size q m
      → pieces_needed m (max_size - header_size q m) < 256
      → d.pkt_id ≢ m.packet_id
      → All (λ j. j < pieces_needed m (max_size - header_size q m)) js
      → Distinct js
      → length js ≡ pieces_needed m (max_size - header_size q m)
      → (fs : List UdpMessage) × (d' : Defragger) × (frag_udp_message q m max_size ≡ ok fs)
        × (feed_all d (arriving fs js) ≡ ok (d', replicate (length js - 1) none ++ (some m ∷ [])))
  feed_all-frag_udp_message d js hi hc left over few fresh in_range distinct all =
      let room : ℕ = max_size - header_size q m in
      let n : ℕ = pieces_needed m room in
      let (d', e) =
        feed_all_any_order m room n (several left over) few d js (inl fresh) in_range distinct
          all in
      (
        tabulate (piece m room n) 0 n,
        d',
        frag_udp_message-tabulate q m max_size left over few,
        rw (arriving-tabulate (piece m room n) n js in_range) (e ∙ ap (λ o. ok (d', o)) outputs),
      )
    where
      whole :
          record m {
            frag_id = 0;
            frag_count = 1;
            body = joined (
                tabulate
                  (piece m
                    (max_size - header_size q m)
                    (pieces_needed m (max_size - header_size q m)))
                  0
                  (pieces_needed m (max_size - header_size q m)));
          }
          ≡ m
      whole = as_sent m hi hc (
          joined_whole m (max_size - header_size q m) (pieces_needed m (max_size - header_size q m))
            (round_up (length m.body) (max_size - header_size q m) (omega arith)).0)

      outputs :
          replicate (pieces_needed m (max_size - header_size q m) - 1) none
            ++ (some (record m {
              frag_id = 0;
              frag_count = 1;
              body = joined (
                  tabulate
                    (piece m
                      (max_size - header_size q m)
                      (pieces_needed m (max_size - header_size q m)))
                    0
                    (pieces_needed m (max_size - header_size q m)));
            })
                ∷ [])
          ≡ replicate (length js - 1) none ++ (some m ∷ [])
      outputs =
          ap₂ (λ (k : ℕ) (w : UdpMessage). replicate (k - 1) none ++ (some w ∷ [])) (sym all) whole
