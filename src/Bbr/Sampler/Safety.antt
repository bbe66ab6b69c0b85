-- ===== src/Bbr/Sampler/Safety.antt =====
-- The calls that core/internal/congestion/bbr/bandwidth_sampler.go takes, in any order.
use libya_link.Common.{
  ℕ, ◌+◌, ◌*◌, ◌/◌, ◌^◌, ◌<◌, min, ◌≡◌, refl, inl, inr, true, false, ◌||◌, Option, none, some, List,
  [], ◌∷◌, arith, ◌==◌, if◌then◌else◌, Bool-cases,
}
use libya_link.Common.Word.{wrap64, lt64, sub64, is_negative}
use libya_link.Common.Result.{Result, ok}
use libya_link.Bbr.Ring.Items.{IsValid}
use libya_link.Bbr.Queue.Map.{IsQueue, entry_at, get_entry-entry_at}
use libya_link.Bbr.Queue.Removal.{remove-entry_at}
use libya_link.Bbr.Queue.Cutting.{remove_up_to-entry_at}
use libya_link.Bbr.AckPoints.{AckPoint, after, elapsed}
use libya_link.Bbr.AckPoints.Choice.{choose_a0_point-Chosen}
use libya_link.Bbr.Sampler.{
  SendTimeState, ConnectionState, no_connection_state, inf_bandwidth, bandwidth_from_delta, Sampler,
  on_packet_lost, on_packet_neutered, remove_obsolete_packets, size_of, state_of,
  new_bandwidth_sample, sent_packet_to_send_time_state,
}
use libya_link.Bbr.Sampler.Acks.{
  acknowledged, send_rate_of, a0_or, a0_of, slope, acknowledge_found, on_packet_acknowledged,
  EventSample, with_sample, acknowledge_each, lose_each,
}

-- The map of the packets and the candidates are well formed.
pub record IsSafe (b : Sampler) : Type 0 where
  pub tracked : IsQueue no_connection_state b.connection_state_map
  pub candidates : IsValid b.a0_candidates

-- A call returns, and leaves a sampler that is well formed.
abbrev pub Ends : {A : Type 0} → Result (Unit {0}) (A × Sampler) → Type 0
Ends {A = A} res = (x : A) × (b : Sampler) × (res ≡ ok (x, b)) × IsSafe b

elapsed_positive : (t u : ℕ) → after t u ≡ true → (elapsed t u == 0) ≡ false
unfolding after elapsed lt64 sub64
elapsed_positive t u h = words (wrap64 t) (wrap64 u) (omega arith) (omega arith) h
  where
    words : (x y : ℕ) → x < 2 ^ 64 → y < 2 ^ 64 → lt64 y x ≡ true → (sub64 x y == 0) ≡ false
    words x y hx hy h = ground arith

bandwidth-Ends :
    (bytes delta : ℕ)
    → (delta == 0) ≡ false
    → (rate : ℕ) × (bandwidth_from_delta bytes delta ≡ ok rate)
unfolding bandwidth_from_delta
bandwidth-Ends bytes delta h = (wrap64 (wrap64 (bytes * 1000000000) / delta * 8), rw h refl)

rate-Ends : (c : ConnectionState) → (rate : ℕ) × (send_rate_of c ≡ ok rate)
unfolding send_rate_of
rate-Ends c = elim (Bool-cases (after c.sent_time c.last_acked_packet_sent_time)) [
  | inl t ↦
      let (rate, e) =
        bandwidth-Ends
          (sub64 c.send_time_state.total_bytes_sent c.total_bytes_sent_at_last_acked_packet)
          (elapsed c.sent_time c.last_acked_packet_sent_time)
          (elapsed_positive c.sent_time c.last_acked_packet_sent_time t) in
      (rate, rw t e)
  | inr t ↦ (inf_bandwidth, rw t refl)
]

a0_of-Ends : (c : ConnectionState) (b : Sampler) → IsSafe b → Ends (a0_of c b)
unfolding a0_of
a0_of-Ends c b v = elim (Bool-cases b.overestimate_avoidance) [
  | inl t ↦
      elim (choose_a0_point-Chosen c.send_time_state.total_bytes_acked b.a0_candidates
        v.candidates) [
          | inl (e, q) ↦ (a0_or c none, b, rw (t, q) refl, v)
          | inr (a, r, q, (j, w, g, low, rest)) ↦ (
            a,
            record b { a0_candidates = r },
            rw (t, q) refl,
            record { tracked = v.tracked; candidates = w },
          )
        ]
  | inr t ↦ (a0_or c none, b, rw t refl, v)
]

slope-Ends :
    (ack_time rate : ℕ) (c : ConnectionState) (a0 : AckPoint) (b : Sampler)
    → IsSafe b
    → Ends (slope ack_time rate c a0 b)
unfolding slope
slope-Ends ack_time rate c a0 b v =
    let delta = elapsed ack_time a0.ack_time in
    elim (Bool-cases (is_negative delta || delta == 0)) [
      | inl t ↦ (new_bandwidth_sample, b, rw t refl, v)
      | inr t ↦
          let (ack_rate, e) =
            bandwidth-Ends (sub64 b.total_bytes_acked a0.total_bytes_acked) delta (ground arith) in
          (
            record {
              bandwidth = min rate ack_rate;
              rtt = elapsed ack_time c.sent_time;
              send_rate = rate;
              state_at_send = sent_packet_to_send_time_state c;
            },
            b,
            rw (t, e) refl,
            v,
          )
    ]

acknowledge_found-Ends :
    (ack_time n : ℕ) (o : Option ConnectionState) (b : Sampler)
    → IsSafe b
    → Ends (acknowledge_found ack_time n o b)
unfolding acknowledge_found acknowledged
acknowledge_found-Ends ack_time n none b v = (new_bandwidth_sample, b, refl, v)
acknowledge_found-Ends ack_time n (some c) b v =
    let b1 = acknowledged ack_time n c b in
    let v1 : IsSafe b1 = record { tracked = v.tracked; candidates = v.candidates } in
    elim (Bool-cases (c.last_acked_packet_sent_time == 0)) [
      | inl t ↦ (new_bandwidth_sample, b1, rw t refl, v1)
      | inr t ↦
          let (rate, e) = rate-Ends c in
          let (a0, b2, f, v2) = a0_of-Ends c b1 v1 in
          let (x, b3, g, v3) = slope-Ends ack_time rate c a0 b2 v2 in (x, b3, rw (t, e, f) g, v3)
    ]

on_packet_acknowledged-Ends :
    (ack_time n : ℕ) (b : Sampler) → IsSafe b → Ends (on_packet_acknowledged ack_time n b)
unfolding on_packet_acknowledged
on_packet_acknowledged-Ends ack_time n b v =
    let b0 : Sampler = record b { last_acked_packet = n } in
    let found = entry_at no_connection_state b.connection_state_map n in
    let (x, b1, e, w) =
      acknowledge_found-Ends ack_time n found b0
        (record { tracked = v.tracked; candidates = v.candidates }) in
    (x, b1, rw (get_entry-entry_at no_connection_state b.connection_state_map n v.tracked) e, w)

pub acknowledge_each-Ends :
    (ack_time : ℕ) (ns : List ℕ) (e : EventSample) (b : Sampler)
    → IsSafe b
    → Ends (acknowledge_each ack_time ns e b)
unfolding acknowledge_each
acknowledge_each-Ends ack_time [] e b v = (e, b, refl, v)
acknowledge_each-Ends ack_time (n ∷ ns) e b v =
    let (s, b1, f, w) = on_packet_acknowledged-Ends ack_time n b v in
    let (x, b2, g, u) = acknowledge_each-Ends ack_time ns (with_sample b1 s e) b1 w in
    (x, b2, rw f g, u)

pub lose_each-Ends :
    (ps : List (ℕ × ℕ)) (state : SendTimeState) (b : Sampler)
    → IsSafe b
    → Ends (lose_each ps state b)
unfolding lose_each on_packet_lost
lose_each-Ends [] state b v = (state, b, refl, v)
lose_each-Ends ((n, bytes) ∷ ps) state b v =
    let s = state_of (entry_at no_connection_state b.connection_state_map n) in
    let b1 : Sampler = record b { total_bytes_lost = wrap64 (b.total_bytes_lost + bytes) } in
    let (x, b2, g, u) =
      lose_each-Ends ps (if s.is_valid then s else state) b1
        (record { tracked = v.tracked; candidates = v.candidates }) in
    (x, b2, rw (get_entry-entry_at no_connection_state b.connection_state_map n v.tracked) g, u)

pub on_packet_lost-Ends :
    (n bytes : ℕ) (b : Sampler)
    → IsSafe b
    → (b' : Sampler) × (s : SendTimeState) × (on_packet_lost n bytes b ≡ ok (b', s)) × IsSafe b'
unfolding on_packet_lost
on_packet_lost-Ends n bytes b v = (
  record b { total_bytes_lost = wrap64 (b.total_bytes_lost + bytes) },
  state_of (entry_at no_connection_state b.connection_state_map n),
  rw (get_entry-entry_at no_connection_state b.connection_state_map n v.tracked) refl,
  record { tracked = v.tracked; candidates = v.candidates },
)

pub on_packet_neutered-Ends :
    (n : ℕ) (b : Sampler) → IsSafe b → (b' : Sampler) × (on_packet_neutered n b ≡ ok b') × IsSafe b'
unfolding on_packet_neutered
on_packet_neutered-Ends n b v =
    let (q, e, w, same) = remove-entry_at no_connection_state b.connection_state_map n v.tracked in
    let found = entry_at no_connection_state b.connection_state_map n in
    (
      record b {
        connection_state_map = q;
        total_bytes_neutered = wrap64 (b.total_bytes_neutered + size_of found);
      },
      rw e refl,
      record { tracked = w; candidates = v.candidates },
    )

pub remove_obsolete-Ends :
    (n : ℕ) (b : Sampler)
    → IsSafe b
    → (b' : Sampler) × (remove_obsolete_packets n b ≡ ok b') × IsSafe b'
unfolding remove_obsolete_packets
remove_obsolete-Ends n b v =
    let (q, e, w, same) =
      remove_up_to-entry_at no_connection_state b.connection_state_map n v.tracked in
    (
      record b { connection_state_map = q },
      rw e refl,
      record { tracked = w; candidates = v.candidates },
    )
