-- ===== src/Bbr/Sampler/Runs.antt =====
-- Runs of the bandwidth sampler, and its theorems at concrete inputs.
use libya_link.Common.{ℕ, ◌-◌, ◌*◌, ◌≡◌, refl, ◌⊎◌, true, false, none, some, List, [], ◌∷◌, arith}
use libya_link.Common.Result.{ok}
use libya_link.Bbr.Ring.{Ring, len, is_empty, position, offset, back, pop_front}
use libya_link.Bbr.Ring.Items.{IsValid, items}
use libya_link.Bbr.AckPoints.{AckPoint, zero_point, after, choose_a0_point, scan, pop_rest}
use libya_link.Bbr.AckPoints.Choice.{Chosen, choose_a0_point-Chosen}
use libya_link.Bbr.Sampler.{Sampler, new_bandwidth_sampler}
use libya_link.Bbr.Sampler.Safety.{IsSafe}
use libya_link.Bbr.Sampler.Reach.{
  Call, sent, congestion, app_limited, obsolete, avoid_overestimates, height_reset, call_each,
  sampler_calls-IsSafe,
}

abbrev point : ℕ → AckPoint
point n = record { ack_time = n; total_bytes_acked = 100 * n }

-- Four points, in a ring of five.
abbrev four : Ring AckPoint
four = record {
  ring = point 1 ∷ point 2 ∷ point 3 ∷ point 4 ∷ zero_point ∷ [];
  head_pos = 0;
  tail_pos = 4;
  full = false;
}

four-IsValid : IsValid four
four-IsValid = record { head_inside = omega arith; tail_inside = omega arith; full_meets = λ h. cc }

-- The last point is the answer, and two older ones stay before it.
half_taken :
    (r : Ring AckPoint) × (choose_a0_point 1000 four ≡ ok (some (point 4), r))
    × (items zero_point r ≡ point 3 ∷ point 4 ∷ [])
unfolding choose_a0_point scan pop_rest pop_front back offset position len is_empty after
    libya_link.Common.Word.lt64
half_taken = (_, refl, refl)

choose_a0_point-Chosen_example :
    ((items zero_point four ≡ []) × (choose_a0_point 250 four ≡ ok (none, four)))
    ⊎ ((a : AckPoint) × (r' : Ring AckPoint) × (choose_a0_point 250 four ≡ ok (some a, r'))
        × Chosen 250 four a r')
choose_a0_point-Chosen_example = choose_a0_point-Chosen 250 four four-IsValid

-- Two packets, the first of which is acknowledged and the second lost.
abbrev calls : List Call
calls =
    avoid_overestimates
    ∷ sent 1000 1 1200 0 true
    ∷ sent 2000 2 1200 1200 true
    ∷ app_limited
    ∷ congestion 9000 (1 ∷ []) ((2, 1200) ∷ []) 0 800 1
    ∷ obsolete 3
    ∷ height_reset 0 2
    ∷ []

sampler_calls-IsSafe_example :
    (b : Sampler) × (call_each (λ n. n) calls (new_bandwidth_sampler 10) ≡ ok b) × IsSafe b
sampler_calls-IsSafe_example = sampler_calls-IsSafe (λ n. n) 10 calls
