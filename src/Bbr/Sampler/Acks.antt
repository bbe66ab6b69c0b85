-- ===== src/Bbr/Sampler/Acks.antt =====
-- onPacketAcknowledged, onAckEventEnd and OnCongestionEvent of
-- core/internal/congestion/bbr/bandwidth_sampler.go.
use libya_link.Common.{
  ℕ, ◌+◌, ◌-◌, ◌^◌, min, max, Bool, false, not, ◌&&◌, ◌||◌, Option, none, some, List, [], ◌∷◌, map,
  ltb, ◌==◌, if◌then◌else◌, length,
}
use libya_link.Common.Word.{wrap64, lt64, min64, sub64, is_negative}
use libya_link.Common.Result.{Result, ok, ◌>>=◌}
use libya_link.Bbr.Ring.{push_back}
use libya_link.Bbr.Queue.{get_entry, invalid_packet_number}
use libya_link.Bbr.AckPoints.{
  AckPoint, zero_point, after, elapsed, update_points, less_recent_point, choose_a0_point,
}
use libya_link.Bbr.AckHeight.{update_height}
use libya_link.Bbr.Sampler.{
  SendTimeState, no_state, ConnectionState, no_connection_state, BandwidthSample, inf_bandwidth,
  new_bandwidth_sample, bandwidth_from_delta, Sampler, sent_packet_to_send_time_state,
  on_packet_lost,
}

-- The state of the connection that an acknowledgement changes, up to the samples.
unfoldable pub acknowledged : ℕ → ℕ → ConnectionState → Sampler → Sampler
acknowledged ack_time packet_number c b =
    let acked = wrap64 (b.total_bytes_acked + c.size) in
    record b {
      total_bytes_acked = acked;
      total_bytes_sent_at_last_acked_packet = c.send_time_state.total_bytes_sent;
      last_acked_packet_sent_time = c.sent_time;
      last_acked_packet_ack_time = ack_time;
      recent_ack_points =
          if b.overestimate_avoidance
          then update_points ack_time acked b.recent_ack_points
          else b.recent_ack_points;
      is_app_limited =
          b.is_app_limited
          && not (
              b.end_of_app_limited_phase == invalid_packet_number
              || ltb b.end_of_app_limited_phase packet_number);
    }

unfoldable pub send_rate_of : ConnectionState → Result (Unit {0}) ℕ
send_rate_of c =
    if after c.sent_time c.last_acked_packet_sent_time
    then bandwidth_from_delta
        (sub64 c.send_time_state.total_bytes_sent c.total_bytes_sent_at_last_acked_packet)
        (elapsed c.sent_time c.last_acked_packet_sent_time)
    else ok inf_bandwidth

-- The A_0 point of the state of the packet, where no candidate is chosen.
abbrev pub a0_or : ConnectionState → Option AckPoint → AckPoint
a0_or c none = record {
  ack_time = c.last_acked_packet_ack_time;
  total_bytes_acked = c.send_time_state.total_bytes_acked;
}
a0_or c (some a) = a

unfoldable pub a0_of : ConnectionState → Sampler → Result (Unit {0}) (AckPoint × Sampler)
a0_of c b =
    if b.overestimate_avoidance
    then (do
      (a, r) ← choose_a0_point c.send_time_state.total_bytes_acked b.a0_candidates
      ok (a0_or c a, record b { a0_candidates = r }))
    else ok (a0_or c none, b)

-- The sample between two points on each line.
unfoldable pub slope :
    ℕ → ℕ → ConnectionState → AckPoint → Sampler → Result (Unit {0}) (BandwidthSample × Sampler)
slope ack_time send_rate c a0 b =
    let delta = elapsed ack_time a0.ack_time in
    let sampled = (do
      ack_rate ← bandwidth_from_delta (sub64 b.total_bytes_acked a0.total_bytes_acked) delta
      ok (
        record {
          bandwidth = min send_rate ack_rate;
          rtt = elapsed ack_time c.sent_time;
          send_rate = send_rate;
          state_at_send = sent_packet_to_send_time_state c;
        },
        b,
      )) in
    if is_negative delta || delta == 0 then ok (new_bandwidth_sample, b) else sampled

-- Behind the lookup of the packet, for the state that it finds.
unfoldable pub acknowledge_found :
    ℕ → ℕ → Option ConnectionState → Sampler → Result (Unit {0}) (BandwidthSample × Sampler)
unfolding acknowledged send_rate_of a0_of slope
acknowledge_found ack_time packet_number none b = ok (new_bandwidth_sample, b)
acknowledge_found ack_time packet_number (some c) b =
    let b1 = acknowledged ack_time packet_number c b in
    let sampled = (do
      send_rate ← send_rate_of c
      (a0, b2) ← a0_of c b1
      slope ack_time send_rate c a0 b2) in
    if c.last_acked_packet_sent_time == 0 then ok (new_bandwidth_sample, b1) else sampled

unfoldable pub on_packet_acknowledged :
    ℕ → ℕ → Sampler → Result (Unit {0}) (BandwidthSample × Sampler)
unfolding acknowledge_found
on_packet_acknowledged ack_time packet_number b = do
  c ← get_entry no_connection_state packet_number b.connection_state_map
  acknowledge_found ack_time packet_number c (record b { last_acked_packet = packet_number })

-- congestionEventSample, and with it maxSendRate and the last states of the two loops.
pub record EventSample : Type 0 where
  pub sample_max_bandwidth : ℕ
  pub sample_is_app_limited : Bool
  pub sample_rtt : ℕ
  pub sample_max_inflight : ℕ
  pub last_packet_send_state : SendTimeState
  pub extra_acked : ℕ
  pub max_send_rate : ℕ

abbrev pub inf_rtt : ℕ
inf_rtt = 2 ^ 63 - 1

abbrev pub new_congestion_event_sample : EventSample
new_congestion_event_sample = record {
  sample_max_bandwidth = 0;
  sample_is_app_limited = false;
  sample_rtt = inf_rtt;
  sample_max_inflight = 0;
  last_packet_send_state = no_state;
  extra_acked = 0;
  max_send_rate = 0;
}

-- One round of the loop over the acknowledged packets; the last state of them is kept in
-- `last_packet_send_state` for the time being.
unfoldable pub with_sample : Sampler → BandwidthSample → EventSample → EventSample
with_sample b s e =
    let inflight = sub64 b.total_bytes_acked s.state_at_send.total_bytes_acked in
    if not s.state_at_send.is_valid then e else record e {
      last_packet_send_state = s.state_at_send;
      sample_rtt = if s.rtt == 0 then e.sample_rtt else min64 e.sample_rtt s.rtt;
      sample_max_bandwidth = max e.sample_max_bandwidth s.bandwidth;
      sample_is_app_limited =
          if ltb e.sample_max_bandwidth s.bandwidth
          then s.state_at_send.is_app_limited
          else e.sample_is_app_limited;
      max_send_rate =
          if s.send_rate == inf_bandwidth then e.max_send_rate else max e.max_send_rate s.send_rate;
      sample_max_inflight =
          if lt64 e.sample_max_inflight inflight then inflight else e.sample_max_inflight;
    }

unfoldable pub acknowledge_each :
    ℕ → List ℕ → EventSample → Sampler → Result (Unit {0}) (EventSample × Sampler)
unfolding on_packet_acknowledged with_sample
acknowledge_each ack_time [] e b = ok (e, b)
acknowledge_each ack_time (n ∷ ns) e b = do
  (s, b) ← on_packet_acknowledged ack_time n b
  acknowledge_each ack_time ns (with_sample b s e) b

-- The packets that were lost, with their bytes; the answer is the last valid state.
unfoldable pub lose_each :
    List (ℕ × ℕ) → SendTimeState → Sampler → Result (Unit {0}) (SendTimeState × Sampler)
unfolding on_packet_lost
lose_each [] state b = ok (state, b)
lose_each ((n, bytes) ∷ ps) state b = do
  (b, s) ← on_packet_lost n bytes b
  lose_each ps (if s.is_valid then s else state) b

-- The number of the last packet of a list, which is not empty where it is read.
abbrev pub last_number : ℕ → List ℕ → ℕ
last_number n [] = n
last_number n (m ∷ ms) = last_number m ms

unfoldable pub last_state : List (ℕ × ℕ) → List ℕ → SendTimeState → SendTimeState → SendTimeState
last_state lost acked lost_state acked_state =
    if not lost_state.is_valid
    then acked_state
    else if not acked_state.is_valid
    then lost_state
    else if ltb (last_number 0 acked) (last_number 0 (map (λ p. p.0) lost))
    then lost_state
    else acked_state

module _ (float : ℕ → ℕ) where
  unfoldable pub on_ack_event_end : ℕ → Bool → ℕ → Sampler → ℕ × Sampler
  on_ack_event_end bandwidth is_new_max round b =
      let newly = sub64 b.total_bytes_acked b.total_bytes_acked_after_last_ack_event in
      let (m, extra) =
        update_height float bandwidth is_new_max round b.last_sent_packet b.last_acked_packet
          b.last_acked_packet_ack_time newly b.max_ack_height_tracker in
      if newly == 0 then (0, b) else (
        extra,
        record b {
          total_bytes_acked_after_last_ack_event = b.total_bytes_acked;
          max_ack_height_tracker = m;
          a0_candidates =
              if b.overestimate_avoidance && extra == 0
              then push_back zero_point (less_recent_point b.recent_ack_points) b.a0_candidates
              else b.a0_candidates;
        },
      )

  -- OnCongestionEvent behind its two loops.
  unfoldable pub finish_event :
      List (ℕ × ℕ)
      → List ℕ
      → SendTimeState
      → ℕ
      → ℕ
      → ℕ
      → EventSample
      → Sampler
      → EventSample × Sampler
  unfolding on_ack_event_end last_state
  finish_event lost acked lost_state max_bandwidth upper_bound round e b =
      let most = max max_bandwidth e.sample_max_bandwidth in
      let limit =
        if b.limit_max_ack_height_tracker_by_send_rate then max most e.max_send_rate else most in
      let (extra, b) =
        on_ack_event_end (min upper_bound limit) (ltb max_bandwidth e.sample_max_bandwidth) round
          b in
      (
        record e {
          last_packet_send_state = last_state lost acked lost_state e.last_packet_send_state;
          extra_acked = extra;
        },
        b,
      )

  unfoldable pub on_congestion_event :
      ℕ → List ℕ → List (ℕ × ℕ) → ℕ → ℕ → ℕ → Sampler → Result (Unit {0}) (EventSample × Sampler)
  unfolding lose_each acknowledge_each finish_event
  on_congestion_event ack_time acked lost max_bandwidth upper_bound round b = do
    (lost_state, b) ← lose_each lost no_state b
    (if length acked == 0
        then ok (record new_congestion_event_sample { last_packet_send_state = lost_state }, b)
        else (do
          (e, b) ← acknowledge_each ack_time acked new_congestion_event_sample b
          ok (finish_event lost acked lost_state max_bandwidth upper_bound round e b)))
