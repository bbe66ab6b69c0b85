-- ===== src/Bbr/Runs.antt =====
-- Runs of the ring buffer and of the windowed filter, and the theorems at concrete inputs.
use libya_link.Common.{ℕ, ◌-◌, ◌≤◌, ◌≡◌, refl, true, false, [], ◌∷◌, arith}
use libya_link.Bbr.Ring.{Ring, grow, place, push_back}
use libya_link.Bbr.Filter.{Filter, max_filter, since, replace, promote, expire, update}
use libya_link.Bbr.Filter.Laws.{IsOrdered, update-IsOrdered}

-- A full ring whose front is in the middle.
abbrev wrapped : Ring ℕ
wrapped = record { ring = 30 ∷ 10 ∷ 20 ∷ []; head_pos = 1; tail_pos = 1; full = true }

push_wrapped :
    push_back 0 40 wrapped
    ≡ record { ring = 10 ∷ 20 ∷ 30 ∷ 40 ∷ 0 ∷ 0 ∷ []; head_pos = 0; tail_pos = 4; full = false }
unfolding push_back grow place libya_link.Common.Buffer.overwrite_at
    libya_link.Common.Buffer.overwrite
push_wrapped = refl

abbrev estimates : Filter ℕ
estimates = record {
  window_length = 10;
  best = record { sample = 9; time = 1 };
  second = record { sample = 7; time = 5 };
  third = record { sample = 4; time = 8 };
}

estimates-IsOrdered : IsOrdered 12 estimates
estimates-IsOrdered = record {
  second_older = omega arith;
  third_older = omega arith;
  present = omega arith;
  second_smaller = omega arith;
  third_smaller = omega arith;
}

-- The best estimate is older than the window, and goes.
update-estimates :
    update 0 max_filter (record { sample = 5; time = 12 }) estimates ≡ record estimates {
      best = record { sample = 7; time = 5 };
      second = record { sample = 5; time = 12 };
      third = record { sample = 5; time = 12 };
    }
unfolding update replace expire promote since
update-estimates = refl

update-IsOrdered_example :
    IsOrdered 12 (update 0 max_filter (record { sample = 5; time = 12 }) estimates)
    × (5 ≤ (update 0 max_filter (record { sample = 5; time = 12 }) estimates).third.sample)
    × (12 - (update 0 max_filter (record { sample = 5; time = 12 }) estimates).best.time
        ≤ (update 0 max_filter (record { sample = 5; time = 12 }) estimates).window_length)
update-IsOrdered_example =
    update-IsOrdered (record { sample = 5; time = 12 }) (omega arith) estimates estimates-IsOrdered
