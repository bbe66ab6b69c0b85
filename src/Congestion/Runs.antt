-- ===== src/Congestion/Runs.antt =====
-- Runs of the pacer, and the theorem at a concrete input.
use libya_link.Common.{ℕ, ◌^◌, ◌≤◌, ◌<◌, ◌≡◌, refl, arith}
use libya_link.Common.Result.{ok, panic}
use libya_link.Common.Word.{sub64, lt64, max64, div64}
use libya_link.Congestion.Pacer.{
  Constants, Pacer, new_pacer, max_burst_size, budget, sent_packet, round_up, delay,
  time_until_send,
}
use libya_link.Congestion.Pacer.Timer.{time_until_send-budget}

abbrev constants : Constants
constants = record { initial_packet_size = 1280; min_pacing_delay = 1000000 }

-- The burst of ten packets is spent.
abbrev spent : Pacer
spent = record { budget_at_last_sent = 100; max_datagram_size = 1280; last_sent_time = 5000000000 }

sent_first : sent_packet constants 125000 5000000000 12700 (new_pacer constants) ≡ spent
unfolding sent_packet budget new_pacer max_burst_size max64 lt64 sub64 div64
sent_first = refl

-- 1180 bytes at 125000 bytes a second.
delay-spent : delay constants spent 125000 ≡ 9440000
unfolding delay round_up max64 lt64 sub64
delay-spent = refl

no_bandwidth : time_until_send constants spent 0 ≡ panic
unfolding time_until_send lt64
no_bandwidth = refl

time_until_send-budget_example :
    (t : ℕ) × (time_until_send constants spent 125000 ≡ ok t)
    × (5000000000 < t)
    × (1280 ≤ budget constants spent 125000 t)
    × (budget constants spent 125000 t < 2 ^ 63)
time_until_send-budget_example =
    time_until_send-budget constants spent 125000 (omega arith) (omega arith) (omega arith)
      (omega arith) (omega arith) (rw delay-spent (omega arith)) (rw delay-spent (omega arith))
