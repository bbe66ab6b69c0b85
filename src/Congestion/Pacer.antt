-- ===== src/Congestion/Pacer.antt =====
-- Pacer of core/internal/congestion/common/pacer.go. ByteCount and Duration are int64, and a Time is
-- a number of nanoseconds, 0 for the zero value. The bandwidth that getBandwidth gives at a call is
-- an argument, and so are the constants of quic-go.
pub mod Timer
use libya_link.Common.{ℕ, ◌+◌, ◌-◌, ◌*◌, ◌/◌, ◌%◌, ◌^◌, not, ltb, ◌==◌, if◌then◌else◌}
use libya_link.Common.Result.{Result, ok, err, panic}
use libya_link.Common.Word.{wrap64, is_negative, sub64, lt64, max64, min64, div64}

abbrev pub max_burst_packets : ℕ
max_burst_packets = 10

abbrev pub max_burst_pacing_delay_multiplier : ℕ
max_burst_pacing_delay_multiplier = 4

abbrev pub second : ℕ
second = 1000000000

-- congestion.InitialPacketSize and congestion.MinPacingDelay.
pub record Constants : Type 0 where
  pub initial_packet_size : ℕ
  pub min_pacing_delay : ℕ

pub record Pacer : Type 0 where
  pub budget_at_last_sent : ℕ
  pub max_datagram_size : ℕ
  pub last_sent_time : ℕ

module _ (k : Constants) where
  unfoldable pub new_pacer : Pacer
  new_pacer = record {
    budget_at_last_sent = wrap64 (max_burst_packets * k.initial_packet_size);
    max_datagram_size = k.initial_packet_size;
    last_sent_time = 0;
  }

  unfoldable pub max_burst_size : Pacer → ℕ → ℕ
  max_burst_size p bandwidth =
      max64
        (div64
          (wrap64 (wrap64 (max_burst_pacing_delay_multiplier * k.min_pacing_delay) * bandwidth))
          second)
        (wrap64 (max_burst_packets * p.max_datagram_size))

  -- Before the maximum: what has come in since the last packet, with the protection against overflow.
  unfoldable pub filled_budget : Pacer → ℕ → ℕ → ℕ
  filled_budget p bandwidth now =
      let budget =
        wrap64 (
          p.budget_at_last_sent + div64 (wrap64 (bandwidth * sub64 now p.last_sent_time)) second) in
      if is_negative budget then 2 ^ 62 - 1 else budget

  unfoldable pub budget : Pacer → ℕ → ℕ → ℕ
  unfolding max_burst_size filled_budget
  budget p bandwidth now =
      if p.last_sent_time == 0
      then max_burst_size p bandwidth
      else min64 (max_burst_size p bandwidth) (filled_budget p bandwidth now)

  unfoldable pub sent_packet : ℕ → ℕ → ℕ → Pacer → Pacer
  unfolding budget
  sent_packet bandwidth send_time size p =
      let b = budget p bandwidth send_time in
      record p {
        budget_at_last_sent = if lt64 b size then 0 else sub64 b size;
        last_sent_time = send_time;
      }

  -- `diff / bw`, rounded up.
  unfoldable pub round_up : ℕ → ℕ → ℕ
  round_up diff bw = if ltb 0 (diff % bw) then diff / bw + 1 else diff / bw

  -- The delay behind the last packet.
  unfoldable pub delay : Pacer → ℕ → ℕ
  unfolding round_up
  delay p bw =
      let diff = wrap64 (second * sub64 p.max_datagram_size p.budget_at_last_sent) in
      max64 k.min_pacing_delay (round_up diff bw)

  -- 0 is the zero value of Time, and the panic is the division by a bandwidth of 0.
  unfoldable pub time_until_send : Pacer → ℕ → Result (Unit {0}) ℕ
  unfolding delay
  time_until_send p bw =
      if not (lt64 p.budget_at_last_sent p.max_datagram_size)
      then ok 0
      else if bw == 0
      then panic
      else ok (wrap64 (p.last_sent_time + delay p bw))

  abbrev pub set_max_datagram_size : ℕ → Pacer → Pacer
  set_max_datagram_size size p = record p { max_datagram_size = size }
