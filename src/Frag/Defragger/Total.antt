-- ===== src/Frag/Defragger/Total.antt =====
-- Feed of the defragger never panics: what holds of its slots and of the count of those in use.
use libya_link.Common.{
  ℕ, zero, suc, ◌+◌, ◌-◌, ◌%◌, ◌^◌, ◌<◌, min, ◌≡◌, refl, sym, ap, ◌∙◌, inl, inr, not, ◌||◌, Option,
  none, some, List, [], ◌∷◌, arith, leb, ◌==◌, Bool-cases, length, get_elem?, set, length-set,
  get_elem?-set_self, replicate, length-replicate,
}
use libya_link.Common.Result.{ok}
use libya_link.Common.Buffer.{overwrite_at}
use libya_link.Protocol.Udp.{UdpMessage}
use libya_link.Frag.Defragger.Slots.{
  filled, filled-le-length, filled-set, filled-replicate, get_elem?-replicate,
}
use libya_link.Frag.Defragger.{Defragger, Step, assemble, restart, add_frag, feed}

-- At most 255 slots, and the count is of those in use.
pub record IsCounted (d : Defragger) : Type 0 where
  pub few : length d.frags < 256
  pub counted : d.count ≡ filled d.frags

filled-set_again :
    (fs : List (Option UdpMessage)) (i : ℕ) (f m : UdpMessage)
    → get_elem? fs i ≡ some (some f)
    → filled (set fs i (some m)) ≡ filled fs
filled-set_again [] i f m h = cc
filled-set_again (none ∷ fs) zero f m h = cc
filled-set_again (some g ∷ fs) zero f m h = refl
filled-set_again (none ∷ fs) (suc i) f m h = filled-set_again fs i f m h
filled-set_again (some g ∷ fs) (suc i) f m h = ap suc (filled-set_again fs i f m h)

slot_inside :
    (fs : List (Option UdpMessage)) (i : ℕ)
    → i < length fs
    → (slot : Option UdpMessage) × (get_elem? fs i ≡ some slot)
slot_inside [] i h = absurd (omega arith)
slot_inside (f ∷ fs) zero h = (f, refl)
slot_inside (f ∷ fs) (suc i) h = slot_inside fs i (omega arith)

inside :
    (fs : List (Option UdpMessage)) (i : ℕ) (slot : Option UdpMessage)
    → get_elem? fs i ≡ some slot
    → i < length fs
inside [] i slot h = cc
inside (f ∷ fs) zero slot h = omega arith
inside (f ∷ fs) (suc i) slot h = omega (arith, inside fs i slot h)

assemble-full :
    (fs : List (Option UdpMessage)) (buf : List ℕ) (off : ℕ)
    → filled fs ≡ length fs
    → (bytes : List ℕ) × (assemble buf off fs ≡ ok bytes)
unfolding assemble
assemble-full [] buf off h = (buf, refl)
assemble-full (none ∷ fs) buf off h = absurd (omega (arith, filled-le-length fs))
assemble-full (some f ∷ fs) buf off h =
    assemble-full fs (overwrite_at off buf f.body) (off + min (length f.body) (length buf - off))
      (omega arith)

-- What a call of Feed leaves, and that it returns.
abbrev Returns : Step (Defragger × Option UdpMessage) → Type 0
Returns r = (d' : Defragger) × (out : Option UdpMessage) × (r ≡ ok (d', out)) × IsCounted d'

restart-IsCounted :
    (d : Defragger) (m : UdpMessage)
    → m.frag_id < m.frag_count
    → m.frag_count < 256
    → IsCounted (restart d m)
unfolding restart
restart-IsCounted d m below small =
    let slots : List (Option UdpMessage) = replicate m.frag_count none in
    record {
      few = rw (length-set slots m.frag_id (some m), length-replicate) small;
      counted = sym (
          filled-set slots m.frag_id m (get_elem?-replicate none m.frag_count m.frag_id below)
          ∙ ap suc (filled-replicate m.frag_count));
    }

add_frag-Returns :
    (d : Defragger) (m : UdpMessage)
    → IsCounted d
    → get_elem? d.frags m.frag_id ≡ some none
    → Returns (add_frag d m)
unfolding add_frag
add_frag-Returns d m v free =
    let frags : List (Option UdpMessage) = set d.frags m.frag_id (some m) in
    let more : filled frags ≡ suc (filled d.frags) = filled-set d.frags m.frag_id m free in
    let same : length frags ≡ length d.frags = length-set d.frags m.frag_id (some m) in
    let small : (d.count + 1) % 2 ^ 8 ≡ filled frags =
      omega (arith, v.counted, v.few, more, same, filled-le-length frags) in
    elim (Bool-cases ((d.count + 1) % 2 ^ 8 == length frags)) [
      | inl t ↦
          let full : filled frags ≡ length frags = ground (arith, small) in
          let (bytes, e) = assemble-full frags (replicate (d.size + length m.body) 0) 0 full in
          let whole : UdpMessage = record m { body = bytes; frag_id = 0; frag_count = 1 } in
          let there : get_elem? frags m.frag_id ≡ some (some m) =
            get_elem?-set_self d.frags m.frag_id (some m) (inside d.frags m.frag_id none free) in
          (
            record d {
              frags = set frags m.frag_id (some whole);
              count = (d.count + 1) % 2 ^ 8;
              size = d.size + length m.body;
            },
            some whole,
            rw (t, e) refl,
            record {
              few = rw (length-set frags m.frag_id (some whole), same) v.few;
              counted = small ∙ sym (filled-set_again frags m.frag_id m whole there);
            },
          )
      | inr t ↦ (
        record d { frags = frags; count = (d.count + 1) % 2 ^ 8; size = d.size + length m.body },
        none,
        rw t refl,
        record { few = rw same v.few; counted = small },
      )
    ]

-- Feed returns, for every message whose fragment count is a uint8, and keeps the count of the slots
-- in use right.
pub feed-IsCounted :
    (d : Defragger) (m : UdpMessage)
    → IsCounted d
    → m.frag_count < 256
    → (d' : Defragger) × (out : Option UdpMessage) × (feed d m ≡ ok (d', out)) × IsCounted d'
unfolding feed
feed-IsCounted d m v small = elim (Bool-cases (leb m.frag_count 1)) [
  | inl t ↦ (d, some m, rw t refl, v)
  | inr t ↦ elim (Bool-cases (leb m.frag_count m.frag_id)) [
    | inl u ↦ (d, none, rw (t, u) refl, v)
    | inr u ↦
        elim (Bool-cases
          (not (m.packet_id == d.pkt_id) || not (m.frag_count == length d.frags % 2 ^ 8))) [
            | inl w ↦
                (restart d m, none, rw (t, u, w) refl, restart-IsCounted d m (ground arith) small)
            | inr w ↦
                let (slot, e) = slot_inside d.frags m.frag_id (ground (arith, v.few)) in
                after slot e (rw (t, u, w, e) refl)
          ]
  ]
]
  where
    after :
        (slot : Option UdpMessage)
        → get_elem? d.frags m.frag_id ≡ some slot
        → feed d m ≡ (elim slot [ none ↦ add_frag d m | some old ↦ ok (d, none) ])
        → Returns (feed d m)
    after none e f = rw f (add_frag-Returns d m v e)
    after (some old) e f = (d, none, f, v)
