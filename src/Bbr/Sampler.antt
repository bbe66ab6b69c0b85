-- ===== src/Bbr/Sampler.antt =====
-- bandwidthSampler of core/internal/congestion/bbr/bandwidth_sampler.go and BandwidthFromDelta of
-- bandwidth.go. A Time, a Duration and a ByteCount are int64, a Bandwidth is a uint64; a packet
-- number is stored with 1 added, as in the queue. The conversion to float64 is a parameter.
pub mod Acks
pub mod Safety
pub mod Reach
mod Runs
use libya_link.Common.{
  ℕ, ◌+◌, ◌-◌, ◌*◌, ◌/◌, ◌^◌, Bool, true, false, not, Option, none, some, ◌==◌, if◌then◌else◌,
}
use libya_link.Common.Word.{wrap64, lt64, min64, sub64, is_negative}
use libya_link.Common.Result.{Result, ok, err, panic, ◌>>=◌}
use libya_link.Bbr.Ring.{Ring, init, push_back, clear}
use libya_link.Bbr.Queue.{
  Queue, new_queue, emplace, get_entry, remove, remove_up_to, invalid_packet_number,
}
use libya_link.Bbr.AckPoints.{
  AckPoint, zero_point, RecentAckPoints, no_points, after, elapsed, update_points,
  less_recent_point, choose_a0_point,
}
use libya_link.Bbr.AckHeight.{
  MaxAckHeightTracker, new_max_ack_height_tracker, update_height, reset_height,
  set_filter_window_length,
}

pub record SendTimeState : Type 0 where
  pub is_valid : Bool
  pub is_app_limited : Bool
  pub total_bytes_sent : ℕ
  pub total_bytes_acked : ℕ
  pub total_bytes_lost : ℕ
  pub bytes_in_flight : ℕ

abbrev pub no_state : SendTimeState
no_state = record {
  is_valid = false;
  is_app_limited = false;
  total_bytes_sent = 0;
  total_bytes_acked = 0;
  total_bytes_lost = 0;
  bytes_in_flight = 0;
}

pub record ConnectionState : Type 0 where
  pub sent_time : ℕ
  pub size : ℕ
  pub total_bytes_sent_at_last_acked_packet : ℕ
  pub last_acked_packet_sent_time : ℕ
  pub last_acked_packet_ack_time : ℕ
  pub send_time_state : SendTimeState

abbrev pub no_connection_state : ConnectionState
no_connection_state = record {
  sent_time = 0;
  size = 0;
  total_bytes_sent_at_last_acked_packet = 0;
  last_acked_packet_sent_time = 0;
  last_acked_packet_ack_time = 0;
  send_time_state = no_state;
}

pub record BandwidthSample : Type 0 where
  pub bandwidth : ℕ
  pub rtt : ℕ
  pub send_rate : ℕ
  pub state_at_send : SendTimeState

abbrev pub inf_bandwidth : ℕ
inf_bandwidth = 2 ^ 64 - 1

abbrev pub new_bandwidth_sample : BandwidthSample
new_bandwidth_sample = record {
  bandwidth = 0;
  rtt = 0;
  send_rate = inf_bandwidth;
  state_at_send = no_state;
}

-- The panic is the division by 0.
unfoldable pub bandwidth_from_delta : ℕ → ℕ → Result (Unit {0}) ℕ
bandwidth_from_delta bytes delta =
    if delta == 0 then panic else ok (wrap64 (wrap64 (bytes * 1000000000) / delta * 8))

pub record Sampler : Type 0 where
  pub total_bytes_sent : ℕ
  pub total_bytes_acked : ℕ
  pub total_bytes_lost : ℕ
  pub total_bytes_neutered : ℕ
  pub total_bytes_sent_at_last_acked_packet : ℕ
  pub last_acked_packet_sent_time : ℕ
  pub last_acked_packet_ack_time : ℕ
  pub last_sent_packet : ℕ
  pub last_acked_packet : ℕ
  pub is_app_limited : Bool
  pub end_of_app_limited_phase : ℕ
  pub connection_state_map : Queue ConnectionState
  pub recent_ack_points : RecentAckPoints
  pub a0_candidates : Ring AckPoint
  pub max_ack_height_tracker : MaxAckHeightTracker
  pub total_bytes_acked_after_last_ack_event : ℕ
  pub overestimate_avoidance : Bool
  pub limit_max_ack_height_tracker_by_send_rate : Bool

unfoldable pub new_bandwidth_sampler : ℕ → Sampler
new_bandwidth_sampler window_length = record {
  total_bytes_sent = 0;
  total_bytes_acked = 0;
  total_bytes_lost = 0;
  total_bytes_neutered = 0;
  total_bytes_sent_at_last_acked_packet = 0;
  last_acked_packet_sent_time = 0;
  last_acked_packet_ack_time = 0;
  last_sent_packet = invalid_packet_number;
  last_acked_packet = invalid_packet_number;
  is_app_limited = false;
  end_of_app_limited_phase = invalid_packet_number;
  connection_state_map = new_queue no_connection_state 256;
  recent_ack_points = no_points;
  a0_candidates = init zero_point 256;
  max_ack_height_tracker = new_max_ack_height_tracker window_length;
  total_bytes_acked_after_last_ack_event = 0;
  overestimate_avoidance = false;
  limit_max_ack_height_tracker_by_send_rate = false;
}

unfoldable pub enable_overestimate_avoidance : Sampler → Sampler
enable_overestimate_avoidance b = if b.overestimate_avoidance then b else record b {
  overestimate_avoidance = true;
  max_ack_height_tracker = record (b.max_ack_height_tracker) {
    ack_aggregation_bandwidth_threshold = 2;
  };
}

-- newConnectionStateOnSentPacket
abbrev pub new_connection_state : ℕ → ℕ → ℕ → Sampler → ConnectionState
new_connection_state sent_time size bytes_in_flight b = record {
  sent_time = sent_time;
  size = size;
  total_bytes_sent_at_last_acked_packet = b.total_bytes_sent_at_last_acked_packet;
  last_acked_packet_sent_time = b.last_acked_packet_sent_time;
  last_acked_packet_ack_time = b.last_acked_packet_ack_time;
  send_time_state = record {
    is_valid = true;
    is_app_limited = b.is_app_limited;
    total_bytes_sent = b.total_bytes_sent;
    total_bytes_acked = b.total_bytes_acked;
    total_bytes_lost = b.total_bytes_lost;
    bytes_in_flight = bytes_in_flight;
  };
}

-- The first packet in flight is an A_0 point.
unfoldable pub restart_points : ℕ → Sampler → Sampler
restart_points sent_time b =
    let p = update_points sent_time b.total_bytes_acked no_points in
    if b.overestimate_avoidance
    then record b {
      recent_ack_points = p;
      a0_candidates = push_back zero_point p.latest (clear zero_point b.a0_candidates);
    }
    else b

unfoldable pub open_transmission : ℕ → Sampler → Sampler
unfolding restart_points
open_transmission sent_time b =
    record (restart_points sent_time (record b { last_acked_packet_ack_time = sent_time })) {
      total_bytes_sent_at_last_acked_packet = b.total_bytes_sent;
      last_acked_packet_sent_time = sent_time;
    }

unfoldable pub on_packet_sent : ℕ → ℕ → ℕ → ℕ → Bool → Sampler → Sampler
unfolding open_transmission
on_packet_sent sent_time packet_number bytes bytes_in_flight is_retransmittable b =
    let b0 = record b { last_sent_packet = packet_number } in
    let counted = record b0 { total_bytes_sent = wrap64 (b0.total_bytes_sent + bytes) } in
    let b1 = if bytes_in_flight == 0 then open_transmission sent_time counted else counted in
    let state = new_connection_state sent_time bytes (wrap64 (bytes_in_flight + bytes)) b1 in
    if not is_retransmittable then b0 else record b1 {
      connection_state_map =
          (emplace no_connection_state packet_number (some state) b1.connection_state_map).0;
    }

-- sentPacketToSendTimeState
abbrev pub sent_packet_to_send_time_state : ConnectionState → SendTimeState
sent_packet_to_send_time_state c = record (c.send_time_state) { is_valid = true }

abbrev pub state_of : Option ConnectionState → SendTimeState
state_of none = no_state
state_of (some c) = sent_packet_to_send_time_state c

unfoldable pub on_packet_lost : ℕ → ℕ → Sampler → Result (Unit {0}) (Sampler × SendTimeState)
on_packet_lost packet_number bytes_lost b = do
  c ← get_entry no_connection_state packet_number b.connection_state_map
  ok (record b { total_bytes_lost = wrap64 (b.total_bytes_lost + bytes_lost) }, state_of c)

-- What the callback adds.
abbrev pub size_of : Option ConnectionState → ℕ
size_of none = 0
size_of (some c) = c.size

unfoldable pub on_packet_neutered : ℕ → Sampler → Result (Unit {0}) Sampler
on_packet_neutered packet_number b = do
  (q, c) ← remove no_connection_state packet_number b.connection_state_map
  ok (record b {
    connection_state_map = q;
    total_bytes_neutered = wrap64 (b.total_bytes_neutered + size_of c);
  })

abbrev pub set_max_ack_height_tracker_window_length : ℕ → Sampler → Sampler
set_max_ack_height_tracker_window_length n b = record b {
  max_ack_height_tracker = set_filter_window_length n b.max_ack_height_tracker;
}

abbrev pub reset_max_ack_height_tracker : ℕ → ℕ → Sampler → Sampler
reset_max_ack_height_tracker new_height new_time b = record b {
  max_ack_height_tracker = reset_height new_height new_time b.max_ack_height_tracker;
}

abbrev pub set_start_new_aggregation_epoch_after_full_round : Bool → Sampler → Sampler
set_start_new_aggregation_epoch_after_full_round value b = record b {
  max_ack_height_tracker = record (b.max_ack_height_tracker) {
    start_new_aggregation_epoch_after_full_round = value;
  };
}

abbrev pub set_limit_max_ack_height_tracker_by_send_rate : Bool → Sampler → Sampler
set_limit_max_ack_height_tracker_by_send_rate value b = record b {
  limit_max_ack_height_tracker_by_send_rate = value;
}

abbrev pub set_reduce_extra_acked_on_bandwidth_increase : Bool → Sampler → Sampler
set_reduce_extra_acked_on_bandwidth_increase value b = record b {
  max_ack_height_tracker = record (b.max_ack_height_tracker) {
    reduce_extra_acked_on_bandwidth_increase = value;
  };
}

unfoldable pub on_app_limited : Sampler → Sampler
on_app_limited b = record b { is_app_limited = true; end_of_app_limited_phase = b.last_sent_packet }

unfoldable pub remove_obsolete_packets : ℕ → Sampler → Result (Unit {0}) Sampler
remove_obsolete_packets least_unacked b = do
  q ← remove_up_to no_connection_state least_unacked b.connection_state_map
  ok (record b { connection_state_map = q })
