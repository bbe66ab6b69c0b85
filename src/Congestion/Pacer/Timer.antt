-- ===== src/Congestion/Pacer/Timer.antt =====
-- When the pacer's timer fires there is budget for a packet.
use libya_link.Common.{
  ℕ, ◌+◌, ◌-◌, ◌*◌, ◌/◌, ◌%◌, ◌^◌, ◌≤◌, ◌<◌, ◌≡◌, ap, inl, inr, false, not, arith, ltb, ◌==◌,
  Bool-cases,
}
use native.Mathlib.Nat.{mod-lt, div-add-mod, mul-le-mul_left, mul-le-mul_right}
use libya_link.Common.Result.{ok}
use libya_link.Common.Word.{wrap64, sub64, lt64, max64, div64, sub64-add, min64-max64, max64-least}
use libya_link.Congestion.Pacer.{
  Constants, Pacer, max_burst_size, filled_budget, budget, round_up, delay, time_until_send, second,
}

-- Rounded up, the time is enough for the bytes.
round_up-covers :
    (k : Constants) (diff bw : ℕ)
    → 0 < bw
    → (diff ≤ bw * round_up k diff bw) × (round_up k diff bw ≤ diff)
unfolding round_up
round_up-covers k diff bw h =
    let whole = div-add-mod diff bw in
    let part = mod-lt diff h in
    let one : 1 * (diff / bw) ≤ bw * (diff / bw) = mul-le-mul_right (diff / bw) h in
    elim (Bool-cases (ltb 0 (diff % bw))) [
      | inl t ↦ rw t (ground (arith, whole, part, one))
      | inr t ↦ rw t (ground (arith, whole, part, one))
    ]

module _ (k : Constants) (p : Pacer) (bw : ℕ) (some_bandwidth : 0 < bw)
    (short : p.budget_at_last_sent < p.max_datagram_size) (sized : p.max_datagram_size ≤ 2 ^ 32)
    (sent : 0 < p.last_sent_time) (delay_small : k.min_pacing_delay < 2 ^ 63)
    (no_late : p.last_sent_time + delay k p bw < 2 ^ 63)
    (no_overflow : bw * delay k p bw < 2 ^ 62) where
  needed :
      wrap64 (second * sub64 p.max_datagram_size p.budget_at_last_sent)
      ≡ second * (p.max_datagram_size - p.budget_at_last_sent)
  unfolding sub64
  needed = omega arith

  enough : second * (p.max_datagram_size - p.budget_at_last_sent) ≤ bw * delay k p bw
  unfolding delay
  enough =
      let diff = second * (p.max_datagram_size - p.budget_at_last_sent) in
      let (covers, small) = round_up-covers k diff bw some_bandwidth in
      let least : round_up k diff bw ≤ max64 k.min_pacing_delay (round_up k diff bw) =
        (max64-least k.min_pacing_delay (round_up k diff bw) delay_small (omega arith)).1 in
      rw needed (omega (arith, covers, mul-le-mul_left bw least))

  some_delay : 0 < delay k p bw
  some_delay = elim (Bool-cases (delay k p bw == 0)) [
    | inl t ↦
        let none_left : delay k p bw ≡ 0 = ground arith in
        absurd (omega (arith, short, enough, ap (λ d. bw * d) none_left))
    | inr t ↦ ground arith
  ]

  filled :
      (p.max_datagram_size ≤ filled_budget k p bw (p.last_sent_time + delay k p bw))
      × (filled_budget k p bw (p.last_sent_time + delay k p bw) < 2 ^ 63)
  unfolding filled_budget div64
  filled = rw (sub64-add p.last_sent_time (delay k p bw) no_late) (ground (arith, enough))

  -- With a bandwidth that is not 0 and no overflow, a sender that is short of budget is told a time,
  -- and at that time the budget is enough for a packet.
  pub time_until_send-budget :
      (t : ℕ) × (time_until_send k p bw ≡ ok t)
      × (p.last_sent_time < t)
      × (p.max_datagram_size ≤ budget k p bw t)
      × (budget k p bw t < 2 ^ 63)
  unfolding time_until_send budget max_burst_size
  time_until_send-budget =
      let t = p.last_sent_time + delay k p bw in
      let waits : not (lt64 p.budget_at_last_sent p.max_datagram_size) ≡ false =
        unfold lt64 in ground arith in
      let runs : (bw == 0) ≡ false = ground arith in
      let in_word : wrap64 (p.last_sent_time + delay k p bw) ≡ p.last_sent_time + delay k p bw =
        omega (arith, no_late) in
      let later : (p.last_sent_time == 0) ≡ false = ground arith in
      (
        t,
        rw (waits, runs) (ap (λ n. ok n) in_word),
        omega (arith, some_delay),
        rw later
            (min64-max64 _ (wrap64 (10 * p.max_datagram_size)) (filled_budget k p bw t)
              p.max_datagram_size (omega arith) filled.1 (omega arith) filled.0).0,
        rw later
            (min64-max64 _ (wrap64 (10 * p.max_datagram_size)) (filled_budget k p bw t)
              p.max_datagram_size (omega arith) filled.1 (omega arith) filled.0).1,
      )
