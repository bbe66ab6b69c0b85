-- ===== src/Bbr/AckHeight.antt =====
-- maxAckHeightTracker of core/internal/congestion/bbr/bandwidth_sampler.go, over the windowed
-- filter. A Bandwidth is a uint64; a packet number is stored with 1 added, as in the queue.
use libya_link.Common.{ℕ, ◌+◌, ◌*◌, Bool, false, not, ◌&&◌, ◌||◌, ltb, ◌==◌, if◌then◌else◌}
use libya_link.Common.Word.{wrap64, lt64, sub64, div64}
use libya_link.Bbr.Filter.{
  Sign, above, same, below, Filter, new_windowed_filter, set_window_length, get_best,
  get_second_best, get_third_best, clear, reset, update,
}
use libya_link.Bbr.Queue.{invalid_packet_number}
use libya_link.Bbr.AckPoints.{elapsed}

pub record ExtraAckedEvent : Type 0 where
  pub extra_acked : ℕ
  pub bytes_acked : ℕ
  pub time_delta : ℕ
  pub round : ℕ

abbrev pub no_event : ExtraAckedEvent
no_event = record { extra_acked = 0; bytes_acked = 0; time_delta = 0; round = 0 }

abbrev pub max_extra_acked_event_func : ExtraAckedEvent → ExtraAckedEvent → Sign
max_extra_acked_event_func a b =
    if lt64 b.extra_acked a.extra_acked
    then above
    else if lt64 a.extra_acked b.extra_acked
    then below
    else same

-- The threshold, a float64, is one of 1 and 2, and so is a natural number here.
pub record MaxAckHeightTracker : Type 0 where
  pub max_ack_height_filter : Filter ExtraAckedEvent
  pub aggregation_epoch_start_time : ℕ
  pub aggregation_epoch_bytes : ℕ
  pub last_sent_packet_number_before_epoch : ℕ
  pub num_ack_aggregation_epochs : ℕ
  pub ack_aggregation_bandwidth_threshold : ℕ
  pub start_new_aggregation_epoch_after_full_round : Bool
  pub reduce_extra_acked_on_bandwidth_increase : Bool

abbrev pub new_max_ack_height_tracker : ℕ → MaxAckHeightTracker
new_max_ack_height_tracker window_length = record {
  max_ack_height_filter = new_windowed_filter no_event max_extra_acked_event_func window_length;
  aggregation_epoch_start_time = 0;
  aggregation_epoch_bytes = 0;
  last_sent_packet_number_before_epoch = invalid_packet_number;
  num_ack_aggregation_epochs = 0;
  ack_aggregation_bandwidth_threshold = 1;
  start_new_aggregation_epoch_after_full_round = false;
  reduce_extra_acked_on_bandwidth_increase = false;
}

abbrev pub get : MaxAckHeightTracker → ℕ
get m = (get_best m.max_ack_height_filter).extra_acked

unfoldable pub bytes_from_bandwidth_and_time_delta : ℕ → ℕ → ℕ
bytes_from_bandwidth_and_time_delta bandwidth delta =
    div64 (wrap64 (bandwidth * delta)) (1000000000 * 8)

-- An estimate comes back into the filter with what it exceeds the new bandwidth by.
unfoldable pub reinsert : ℕ → ExtraAckedEvent → Filter ExtraAckedEvent → Filter ExtraAckedEvent
unfolding bytes_from_bandwidth_and_time_delta
reinsert bandwidth e f =
    let expected = bytes_from_bandwidth_and_time_delta bandwidth e.time_delta in
    if lt64 expected e.bytes_acked
    then update no_event max_extra_acked_event_func
        (record {
          sample = record e { extra_acked = sub64 e.bytes_acked expected };
          time = e.round;
        })
        f
    else f

unfoldable pub recalculated : ℕ → Filter ExtraAckedEvent → Filter ExtraAckedEvent
unfolding reinsert
recalculated bandwidth f = reinsert bandwidth (get_third_best f) (
    reinsert bandwidth (get_second_best f)
      (reinsert bandwidth (get_best f) (clear no_event max_extra_acked_event_func f)))

-- `float` is the int64 that a conversion to float64 and back gives.
module _ (float : ℕ → ℕ) where
  -- A new epoch.
  abbrev pub new_epoch : ℕ → ℕ → ℕ → MaxAckHeightTracker → MaxAckHeightTracker
  new_epoch last_sent ack_time bytes_acked m = record m {
    aggregation_epoch_bytes = bytes_acked;
    aggregation_epoch_start_time = ack_time;
    last_sent_packet_number_before_epoch = last_sent;
    num_ack_aggregation_epochs = wrap64 (m.num_ack_aggregation_epochs + 1);
  }

  -- Update, behind the recalculation: the answer is extra_acked.
  unfoldable pub update_epoch :
      ℕ → ℕ → ℕ → ℕ → ℕ → ℕ → MaxAckHeightTracker → MaxAckHeightTracker × ℕ
  update_epoch bandwidth round last_sent last_acked ack_time bytes_acked m =
      let force_new_epoch =
        m.start_new_aggregation_epoch_after_full_round
        && (not (m.last_sent_packet_number_before_epoch == invalid_packet_number)
            && (not (last_acked == invalid_packet_number)
                && ltb m.last_sent_packet_number_before_epoch last_acked)) in
      let aggregation_delta = elapsed ack_time m.aggregation_epoch_start_time in
      let expected = bytes_from_bandwidth_and_time_delta bandwidth aggregation_delta in
      let epoch_bytes = wrap64 (m.aggregation_epoch_bytes + bytes_acked) in
      let extra = sub64 epoch_bytes expected in
      if m.aggregation_epoch_start_time == 0 || force_new_epoch
      then (new_epoch last_sent ack_time bytes_acked m, 0)
      else if not (
          lt64 (wrap64 (m.ack_aggregation_bandwidth_threshold * float expected))
            m.aggregation_epoch_bytes)
      then (new_epoch last_sent ack_time bytes_acked m, 0)
      else (
        record m {
          aggregation_epoch_bytes = epoch_bytes;
          max_ack_height_filter =
              update no_event max_extra_acked_event_func
                (record {
                  sample = record {
                    extra_acked = extra;
                    bytes_acked = epoch_bytes;
                    time_delta = aggregation_delta;
                    round = 0;
                  };
                  time = round;
                })
                m.max_ack_height_filter;
        },
        extra,
      )

  unfoldable pub update_height :
      ℕ → Bool → ℕ → ℕ → ℕ → ℕ → ℕ → MaxAckHeightTracker → MaxAckHeightTracker × ℕ
  unfolding update_epoch recalculated
  update_height bandwidth is_new_max round last_sent last_acked ack_time bytes_acked m =
      update_epoch bandwidth round last_sent last_acked ack_time bytes_acked (
        if m.reduce_extra_acked_on_bandwidth_increase && is_new_max
        then record m { max_ack_height_filter = recalculated bandwidth m.max_ack_height_filter }
        else m)

abbrev pub set_filter_window_length : ℕ → MaxAckHeightTracker → MaxAckHeightTracker
set_filter_window_length n m = record m {
  max_ack_height_filter = set_window_length n m.max_ack_height_filter;
}

abbrev pub reset_height : ℕ → ℕ → MaxAckHeightTracker → MaxAckHeightTracker
reset_height new_height new_time m = record m {
  max_ack_height_filter =
      reset no_event max_extra_acked_event_func
        (record {
          sample = record {
            extra_acked = new_height;
            bytes_acked = 0;
            time_delta = 0;
            round = new_time;
          };
          time = new_time;
        })
        m.max_ack_height_filter;
}
