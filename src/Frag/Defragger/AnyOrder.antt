-- ===== src/Frag/Defragger/AnyOrder.antt =====
-- The fragments of a message, in whatever order they arrive.
use libya_link.Common.{
  ℕ, suc, ◌+◌, ◌-◌, ◌%◌, ◌^◌, ◌<◌, ◌≡◌, refl, ap, ◌∙◌, ◌≢◌, ◌⊎◌, inl, inr, true, false, not, ◌||◌,
  Option, none, some, List, [], ◌∷◌, ◌++◌, map, arith, leb, ◌==◌, length, get_elem?, set,
  length-set, get_elem?-set_ne, replicate, length-replicate, All, Distinct, tabulate,
}
use libya_link.Common.Result.{ok}
use libya_link.Protocol.Udp.{UdpMessage}
use libya_link.Frag.Split.Pieces.{piece, joined}
use libya_link.Frag.Defragger.{Defragger, assemble, restart, add_frag, feed, feed_all}
use libya_link.Frag.Defragger.Slots.{
  Slot, filled, total, Slots, filled-set, total-set, filled-replicate, total-replicate,
  get_elem?-replicate, replicate-Slots, set-Slots, Slots-full, total-joined, assemble-joined,
}

feed_all-cons :
    (d d' d'' : Defragger) (m : UdpMessage) (ms : List UdpMessage) (out : Option UdpMessage)
    (outs : List (Option UdpMessage))
    → feed d m ≡ ok (d', out)
    → feed_all d' ms ≡ ok (d'', outs)
    → feed_all d (m ∷ ms) ≡ ok (d'', out ∷ outs)
unfolding feed_all
feed_all-cons d d' d'' m ms out outs e es = rw (e, es)

module _ (m : UdpMessage) (room n : ℕ) (more_than_one : 1 < n) (fits : n < 256) where
  -- The defragger is collecting the fragments of `m`.
  record Collecting (d : Defragger) : Type 0 where
    pkt : d.pkt_id ≡ m.packet_id
    len : length d.frags ≡ n
    slots : Slots (piece m room n) 0 d.frags
    counted : d.count ≡ filled d.frags
    sized : d.size ≡ total d.frags

  -- The message, with its data put together.
  abbrev whole : UdpMessage
  whole = record m { frag_id = 0; frag_count = 1; body = joined (tabulate (piece m room n) 0 n) }

  -- The state after a fragment for an empty slot, short of completion.
  abbrev with_frag : Defragger → ℕ → Defragger
  with_frag d j = record d {
    frags = set d.frags j (some (piece m room n j));
    count = d.count + 1;
    size = d.size + length (piece m room n j).body;
  }

  with_frag-Collecting :
      (d : Defragger) (j : ℕ)
      → Collecting d
      → get_elem? d.frags j ≡ some none
      → Collecting (with_frag d j)
  with_frag-Collecting d j c e = record {
    pkt = c.pkt;
    len = length-set d.frags j _ ∙ c.len;
    slots = set-Slots (piece m room n) 0 d.frags j j c.slots (omega arith);
    counted = omega (arith, c.counted, filled-set d.frags j (piece m room n j) e);
    sized = omega (arith, c.sized, total-set d.frags j (piece m room n j) e);
  }

  feed-add_frag :
      (d : Defragger) (j : ℕ)
      → Collecting d
      → j < n
      → get_elem? d.frags j ≡ some none
      → feed d (piece m room n j) ≡ add_frag d (piece m room n j)
  unfolding feed
  feed-add_frag d j c hj e = rw (several, in_range, same, e)
    where
      several : leb n 1 ≡ false
      several = ground arith

      in_range : leb n j ≡ false
      in_range = ground arith

      same : (not (m.packet_id == d.pkt_id) || not (n == length d.frags % 256)) ≡ false
      same = ground (arith, c.pkt, c.len)

  no_wrap :
      (d : Defragger) → Collecting d → filled d.frags < n → (d.count + 1) % 2 ^ 8 ≡ d.count + 1
  no_wrap d c h = omega (arith, c.counted)

  feed_collects :
      (d : Defragger) (j : ℕ)
      → Collecting d
      → j < n
      → get_elem? d.frags j ≡ some none
      → suc (filled d.frags) < n
      → feed d (piece m room n j) ≡ ok (with_frag d j, none)
  feed_collects d j c hj e h =
      feed-add_frag d j c hj e ∙ (unfold add_frag in rw (no_wrap d c (omega arith), missing))
    where
      missing : (d.count + 1 == length (set d.frags j (some (piece m room n j)))) ≡ false
      missing = ground (arith, c.counted, c.len, length-set d.frags j (some (piece m room n j)))

  all_slots :
      (d : Defragger) (j : ℕ)
      → Collecting d
      → get_elem? d.frags j ≡ some none
      → suc (filled d.frags) ≡ n
      → set d.frags j (some (piece m room n j)) ≡ map some (tabulate (piece m room n) 0 n)
  all_slots d j c e h =
      let c' = with_frag-Collecting d j c e in
      Slots-full (piece m room n) 0 (set d.frags j (some (piece m room n j))) c'.slots
        (omega (arith, filled-set d.frags j (piece m room n j) e, c'.len))
      ∙ ap (λ k. map some (tabulate (piece m room n) 0 k)) c'.len

  assembled :
      (d : Defragger) (j : ℕ)
      → Collecting d
      → get_elem? d.frags j ≡ some none
      → suc (filled d.frags) ≡ n
      → assemble
          (replicate (d.size + length (piece m room n j).body) 0)
          0
          (set d.frags j (some (piece m room n j)))
        ≡ ok (joined (tabulate (piece m room n) 0 n))
  assembled d j c e h =
      let c' = with_frag-Collecting d j c e in
      let bytes : ℕ = d.size + length (piece m room n j).body in
      rw (all_slots d j c e h) (
        assemble-joined (tabulate (piece m room n) 0 n) [] (replicate bytes 0) 0 refl (
          length-replicate bytes 0
          ∙ c'.sized
          ∙ ap total (all_slots d j c e h)
          ∙ total-joined (tabulate (piece m room n) 0 n)))

  feed_completes :
      (d : Defragger) (j : ℕ)
      → Collecting d
      → j < n
      → get_elem? d.frags j ≡ some none
      → suc (filled d.frags) ≡ n
      → (d' : Defragger) × (feed d (piece m room n j) ≡ ok (d', some whole))
  feed_completes d j c hj e h = (
    record (with_frag d j) { frags = set (set d.frags j (some (piece m room n j))) j (some whole) },
    feed-add_frag d j c hj e
        ∙ (unfold add_frag in rw (no_wrap d c (omega arith), complete, assembled d j c e h)),
  )
    where
      complete : (d.count + 1 == length (set d.frags j (some (piece m room n j)))) ≡ true
      complete = ground (arith, c.counted, c.len, length-set d.frags j (some (piece m room n j)))

  -- The fragments that are still to come, each for an empty slot.
  abbrev Awaits : Defragger → List ℕ → Type 0
  Awaits d js = All (λ j. (j < n) × (get_elem? d.frags j ≡ some none)) js

  Awaits-with_frag :
      (d : Defragger) (j : ℕ) (js : List ℕ)
      → All (λ k. j ≢ k) js
      → Awaits d js
      → Awaits (with_frag d j) js
  Awaits-with_frag d j [] ne h = tt
  Awaits-with_frag d j (k ∷ js) ne h =
      ((h.0.0, get_elem?-set_ne d.frags _ ne.0 ∙ h.0.1), Awaits-with_frag d j js ne.1 h.1)

  feed_all_rest :
      (js : List ℕ) (j : ℕ) (d : Defragger)
      → Collecting d
      → Awaits d (j ∷ js)
      → Distinct (j ∷ js)
      → filled d.frags + suc (length js) ≡ n
      → (d' : Defragger) × (feed_all d (map (piece m room n) (j ∷ js))
          ≡ ok (d', replicate (length js) none ++ (some whole ∷ [])))
  feed_all_rest [] j d c w nd k =
      let (d', e) = feed_completes d j c w.0.0 w.0.1 (omega arith) in
      (d', feed_all-cons d d' d' (piece m room n j) [] (some whole) [] e (unfold feed_all in refl))
  feed_all_rest (i ∷ js) j d c w nd k =
      let added = filled-set d.frags j (piece m room n j) w.0.1 in
      let (d', e) =
        feed_all_rest js i (with_frag d j) (with_frag-Collecting d j c w.0.1)
          (Awaits-with_frag d j (i ∷ js) nd.0 w.1) nd.1 (omega (arith, added)) in
      (
        d',
        feed_all-cons d (with_frag d j) d' (piece m room n j) (map (piece m room n) (i ∷ js)) none _
            (feed_collects d j c w.0.0 w.0.1 (omega arith)) e,
      )

  restart-Collecting : (d : Defragger) (j : ℕ) → j < n → Collecting (restart d (piece m room n j))
  unfolding restart
  restart-Collecting d j h =
      let empty : get_elem? (replicate {A = Slot} n none) j ≡ some none =
        get_elem?-replicate none n j h in
      record {
        pkt = refl;
        len = length-set (replicate n none) j _ ∙ length-replicate n none;
        slots =
            set-Slots (piece m room n) 0 (replicate n none) j j
              (replicate-Slots (piece m room n) 0 n) (omega arith);
        counted =
            omega
              (arith, filled-set (replicate n none) j (piece m room n j) empty, filled-replicate n);
        sized =
            omega
              (arith, total-set (replicate n none) j (piece m room n j) empty, total-replicate n);
      }

  filled-restart : (d : Defragger) (j : ℕ) → j < n → filled (restart d (piece m room n j)).frags ≡ 1
  unfolding restart
  filled-restart d j h =
      filled-set (replicate n none) j (piece m room n j) (get_elem?-replicate none n j h)
      ∙ ap suc (filled-replicate n)

  -- The defragger holds nothing of this message: another packet, or another number of fragments.
  abbrev pub IsFresh : Defragger → Type 0
  IsFresh d = (d.pkt_id ≢ m.packet_id) ⊎ (length d.frags % 256 ≢ n)

  feed_first :
      (d : Defragger) (j : ℕ)
      → IsFresh d
      → j < n
      → feed d (piece m room n j) ≡ ok (restart d (piece m room n j), none)
  unfolding feed
  feed_first d j (inl h) hj = ground arith
  feed_first d j (inr h) hj = ground arith

  Awaits-restart :
      (d : Defragger) (j : ℕ) (js : List ℕ)
      → All (λ k. j ≢ k) js
      → All (λ k. k < n) js
      → Awaits (restart d (piece m room n j)) js
  unfolding restart
  Awaits-restart d j [] ne h = tt
  Awaits-restart d j (k ∷ js) ne h = (
    (h.0, get_elem?-set_ne (replicate n none) _ ne.0 ∙ get_elem?-replicate none n k h.0),
    Awaits-restart d j js ne.1 h.1,
  )

  -- The fragments of a message of 2 to 255 fragments, in any order and each once, make a defragger
  -- that holds none of them answer nothing until the last of them arrives, and then the message,
  -- with its data put together in the order of the fragment numbers.
  pub feed_all_any_order :
      (d : Defragger) (js : List ℕ)
      → IsFresh d
      → All (λ j. j < n) js
      → Distinct js
      → length js ≡ n
      → (d' : Defragger) × (feed_all d (map (piece m room n) js)
          ≡ ok (d', replicate (n - 1) none ++ (some whole ∷ [])))
  feed_all_any_order d [] fresh h nd k = absurd (omega arith)
  feed_all_any_order d (j ∷ []) fresh h nd k = absurd (omega arith)
  feed_all_any_order d (j ∷ i ∷ js) fresh h nd k =
      let (d', e) =
        feed_all_rest js i (restart d (piece m room n j)) (restart-Collecting d j h.0)
          (Awaits-restart d j (i ∷ js) nd.0 h.1) nd.1 (omega (arith, filled-restart d j h.0)) in
      let last : suc (length js) ≡ n - 1 = omega arith in
      (
        d',
        feed_all-cons d (restart d (piece m room n j)) d' (piece m room n j)
              (map (piece m room n) (i ∷ js)) none (replicate (length js) none ++ (some whole ∷ []))
              (feed_first d j fresh h.0) e
            ∙ ap (λ t. ok (d', replicate t none ++ (some whole ∷ []))) last,
      )
