-- ===== src/Bbr/Sampler/Reach.antt =====
-- Every sequence of calls of core/internal/congestion/bbr/bandwidth_sampler.go, from a new sampler.
use libya_link.Common.{
  ℕ, ◌+◌, ◌≡◌, refl, sym, ap, inl, inr, Bool, true, false, ◌&&◌, some, List, [], ◌∷◌, ◌==◌,
  Bool-cases, length,
}
use mathlib.Core.Path.{subst}
use libya_link.Common.Word.{wrap64, sub64}
use libya_link.Common.Result.{Result, ok, ◌>>=◌}
use libya_link.Bbr.Ring.{clear}
use libya_link.Bbr.Ring.Laws.{init-IsValid, push_back-IsValid, clear-IsValid}
use libya_link.Bbr.Queue.{Queue, emplace}
use libya_link.Bbr.Queue.Map.{IsQueue}
use libya_link.Bbr.Queue.Insertion.{emplace-entry_at, new_queue-IsQueue}
use libya_link.Bbr.AckPoints.{zero_point, no_points, update_points, less_recent_point}
use libya_link.Bbr.AckHeight.{update_height}
use libya_link.Bbr.Sampler.{
  no_state, ConnectionState, no_connection_state, Sampler, new_bandwidth_sampler,
  new_connection_state, enable_overestimate_avoidance, restart_points, open_transmission,
  on_packet_sent, on_packet_lost, on_packet_neutered, on_app_limited, remove_obsolete_packets,
}
use libya_link.Bbr.Sampler.Acks.{
  new_congestion_event_sample, on_ack_event_end, finish_event, on_congestion_event,
}
use libya_link.Bbr.Sampler.{
  set_max_ack_height_tracker_window_length, reset_max_ack_height_tracker,
  set_start_new_aggregation_epoch_after_full_round, set_limit_max_ack_height_tracker_by_send_rate,
  set_reduce_extra_acked_on_bandwidth_increase,
}
use libya_link.Bbr.Sampler.Safety.{
  IsSafe, Ends, acknowledge_each-Ends, lose_each-Ends, on_packet_lost-Ends, on_packet_neutered-Ends,
  remove_obsolete-Ends,
}

emplace-IsQueue :
    (q : Queue ConnectionState) (n : ℕ) (c : ConnectionState)
    → IsQueue no_connection_state q
    → IsQueue no_connection_state (emplace no_connection_state n (some c) q).0
emplace-IsQueue q n c v = elim (emplace-entry_at no_connection_state q n c v) [
  | inl (above, (q', e, w, same)) ↦
      subst (IsQueue no_connection_state) (sym (ap (λ (p : Queue ConnectionState × Bool). p.0) e)) w
  | inr (beyond, e) ↦
      subst (IsQueue no_connection_state) (sym (ap (λ (p : Queue ConnectionState × Bool). p.0) e)) v
]

open_transmission-IsSafe : (t : ℕ) (b : Sampler) → IsSafe b → IsSafe (open_transmission t b)
unfolding open_transmission restart_points
open_transmission-IsSafe t b v = elim (Bool-cases b.overestimate_avoidance) [
  | inl on ↦
      let (w, e) = clear-IsValid zero_point b.a0_candidates v.candidates in
      let p = update_points t b.total_bytes_acked no_points in
      rw on (record {
        tracked = v.tracked;
        candidates = (push_back-IsValid zero_point p.latest (clear zero_point b.a0_candidates) w).0;
      })
  | inr off ↦ rw off (record { tracked = v.tracked; candidates = v.candidates })
]

on_packet_sent-IsSafe :
    (t n bytes in_flight : ℕ) (retransmittable : Bool) (b : Sampler)
    → IsSafe b
    → IsSafe (on_packet_sent t n bytes in_flight retransmittable b)
unfolding on_packet_sent
on_packet_sent-IsSafe t n bytes in_flight false b v = record {
  tracked = v.tracked;
  candidates = v.candidates;
}
on_packet_sent-IsSafe t n bytes in_flight true b v =
    let counted : Sampler = record b {
      last_sent_packet = n;
      total_bytes_sent = wrap64 (b.total_bytes_sent + bytes);
    } in
    let u : IsSafe counted = record { tracked = v.tracked; candidates = v.candidates } in
    elim (Bool-cases (in_flight == 0)) [
      | inl none_in_flight ↦
          rw none_in_flight
            (with_state (open_transmission t counted) (open_transmission-IsSafe t counted u))
      | inr some_in_flight ↦ rw some_in_flight (with_state counted u)
    ]
  where
    with_state :
        (b1 : Sampler)
        → IsSafe b1
        → IsSafe (record b1 {
          connection_state_map =
              (emplace no_connection_state n
                (some (new_connection_state t bytes (wrap64 (in_flight + bytes)) b1))
                b1.connection_state_map).0;
        })
    with_state b1 w = record {
      tracked = emplace-IsQueue b1.connection_state_map n _ w.tracked;
      candidates = w.candidates;
    }

enable-IsSafe : (b : Sampler) → IsSafe b → IsSafe (enable_overestimate_avoidance b)
unfolding enable_overestimate_avoidance
enable-IsSafe b v = elim (Bool-cases b.overestimate_avoidance) [
  | inl t ↦ rw t (record { tracked = v.tracked; candidates = v.candidates })
  | inr t ↦ rw t (record { tracked = v.tracked; candidates = v.candidates })
]

module _ (float : ℕ → ℕ) where
  on_ack_event_end-IsSafe :
      (bandwidth : ℕ) (is_new_max : Bool) (round : ℕ) (b : Sampler)
      → IsSafe b
      → IsSafe (on_ack_event_end float bandwidth is_new_max round b).1
  unfolding on_ack_event_end
  on_ack_event_end-IsSafe bandwidth is_new_max round b v =
      let newly = sub64 b.total_bytes_acked b.total_bytes_acked_after_last_ack_event in
      let (m, extra) =
        update_height float bandwidth is_new_max round b.last_sent_packet b.last_acked_packet
          b.last_acked_packet_ack_time newly b.max_ack_height_tracker in
      elim (Bool-cases (newly == 0)) [
        | inl t ↦ rw t v
        | inr t ↦ elim (Bool-cases (b.overestimate_avoidance && extra == 0)) [
          | inl u ↦
              rw (t, u)
                (record {
                  tracked = v.tracked;
                  candidates =
                      (push_back-IsValid zero_point (less_recent_point b.recent_ack_points)
                        b.a0_candidates v.candidates).0;
                })
          | inr u ↦ rw (t, u) (record { tracked = v.tracked; candidates = v.candidates })
        ]
      ]

  on_congestion_event-Ends :
      (ack_time : ℕ) (acked : List ℕ) (lost : List (ℕ × ℕ)) (max_bandwidth upper round : ℕ)
      (b : Sampler)
      → IsSafe b
      → Ends (on_congestion_event float ack_time acked lost max_bandwidth upper round b)
  unfolding on_congestion_event finish_event
  on_congestion_event-Ends ack_time acked lost max_bandwidth upper round b v =
      let (state, b1, e, w) = lose_each-Ends lost no_state b v in
      elim (Bool-cases (length acked == 0)) [
        | inl t ↦ (
          record new_congestion_event_sample { last_packet_send_state = state },
          b1,
          rw (e, t) refl,
          w,
        )
        | inr t ↦
            let (x, b2, f, u) =
              acknowledge_each-Ends ack_time acked new_congestion_event_sample b1 w in
            (
              (finish_event float lost acked state max_bandwidth upper round x b2).0,
              (finish_event float lost acked state max_bandwidth upper round x b2).1,
              rw (e, t, f) refl,
              on_ack_event_end-IsSafe _ _ round b2 u,
            )
      ]

-- All calls of the sampler that change its state.
pub data Call : Type 0 where
  sent : ℕ → ℕ → ℕ → ℕ → Bool → Call
  congestion : ℕ → List ℕ → List (ℕ × ℕ) → ℕ → ℕ → ℕ → Call
  lost : ℕ → ℕ → Call
  neutered : ℕ → Call
  app_limited : Call
  obsolete : ℕ → Call
  avoid_overestimates : Call
  height_window : ℕ → Call
  height_reset : ℕ → ℕ → Call
  epoch_each_round : Bool → Call
  limit_by_send_rate : Bool → Call
  reduce_on_increase : Bool → Call

unfoldable pub call : (ℕ → ℕ) → Call → Sampler → Result (Unit {0}) Sampler
call float (sent t n bytes in_flight r) b = ok (on_packet_sent t n bytes in_flight r b)
call float (congestion t acked lost_packets most upper round) b = do
  (_, b) ← on_congestion_event float t acked lost_packets most upper round b
  ok b
call float (lost n bytes) b = do (b, _) ← on_packet_lost n bytes b; ok b
call float (neutered n) b = on_packet_neutered n b
call float app_limited b = ok (on_app_limited b)
call float (obsolete n) b = remove_obsolete_packets n b
call float avoid_overestimates b = ok (enable_overestimate_avoidance b)
call float (height_window n) b = ok (set_max_ack_height_tracker_window_length n b)
call float (height_reset height time) b = ok (reset_max_ack_height_tracker height time b)
call float (epoch_each_round value) b =
    ok (set_start_new_aggregation_epoch_after_full_round value b)
call float (limit_by_send_rate value) b = ok (set_limit_max_ack_height_tracker_by_send_rate value b)
call float (reduce_on_increase value) b = ok (set_reduce_extra_acked_on_bandwidth_increase value b)

unfoldable pub call_each : (ℕ → ℕ) → List Call → Sampler → Result (Unit {0}) Sampler
unfolding call
call_each float [] b = ok b
call_each float (c ∷ cs) b = do b ← call float c b; call_each float cs b

call-IsSafe :
    (float : ℕ → ℕ) (c : Call) (b : Sampler)
    → IsSafe b
    → (b' : Sampler) × (call float c b ≡ ok b') × IsSafe b'
unfolding call on_app_limited
call-IsSafe float (sent t n bytes in_flight r) b v =
    (on_packet_sent t n bytes in_flight r b, refl, on_packet_sent-IsSafe t n bytes in_flight r b v)
call-IsSafe float (congestion t acked lost_packets most upper round) b v =
    let (x, b', e, w) = on_congestion_event-Ends float t acked lost_packets most upper round b v in
    (b', rw e refl, w)
call-IsSafe float (lost n bytes) b v =
    let (b', s, e, w) = on_packet_lost-Ends n bytes b v in (b', rw e refl, w)
call-IsSafe float (neutered n) b v = on_packet_neutered-Ends n b v
call-IsSafe float app_limited b v =
    (on_app_limited b, refl, record { tracked = v.tracked; candidates = v.candidates })
call-IsSafe float (obsolete n) b v = remove_obsolete-Ends n b v
call-IsSafe float avoid_overestimates b v =
    (enable_overestimate_avoidance b, refl, enable-IsSafe b v)
call-IsSafe float (height_window n) b v = (
  set_max_ack_height_tracker_window_length n b,
  refl,
  record { tracked = v.tracked; candidates = v.candidates },
)
call-IsSafe float (height_reset height time) b v = (
  reset_max_ack_height_tracker height time b,
  refl,
  record { tracked = v.tracked; candidates = v.candidates },
)
call-IsSafe float (epoch_each_round value) b v = (
  set_start_new_aggregation_epoch_after_full_round value b,
  refl,
  record { tracked = v.tracked; candidates = v.candidates },
)
call-IsSafe float (limit_by_send_rate value) b v = (
  set_limit_max_ack_height_tracker_by_send_rate value b,
  refl,
  record { tracked = v.tracked; candidates = v.candidates },
)
call-IsSafe float (reduce_on_increase value) b v = (
  set_reduce_extra_acked_on_bandwidth_increase value b,
  refl,
  record { tracked = v.tracked; candidates = v.candidates },
)

call_each-IsSafe :
    (float : ℕ → ℕ) (cs : List Call) (b : Sampler)
    → IsSafe b
    → (b' : Sampler) × (call_each float cs b ≡ ok b') × IsSafe b'
unfolding call_each
call_each-IsSafe float [] b v = (b, refl, v)
call_each-IsSafe float (c ∷ cs) b v =
    let (m, e, w) = call-IsSafe float c b v in
    let (b', f, u) = call_each-IsSafe float cs m w in (b', rw e f, u)

new_bandwidth_sampler-IsSafe : (n : ℕ) → IsSafe (new_bandwidth_sampler n)
unfolding new_bandwidth_sampler
new_bandwidth_sampler-IsSafe n = record {
  tracked = new_queue-IsQueue no_connection_state 256;
  candidates = init-IsValid zero_point 256;
}

-- With memory enough for the rings, no sequence of the calls that change a sampler, from a new one
-- on, panics, whatever their numbers and times are: no ring is read beyond its items and no bandwidth
-- is divided by a time of 0. The map of the packets and the candidates stay well formed.
pub sampler_calls-IsSafe :
    (float : ℕ → ℕ) (window_length : ℕ) (cs : List Call)
    → (b : Sampler) × (call_each float cs (new_bandwidth_sampler window_length) ≡ ok b) × IsSafe b
sampler_calls-IsSafe float window_length cs =
    call_each-IsSafe float cs (new_bandwidth_sampler window_length)
      (new_bandwidth_sampler-IsSafe window_length)
