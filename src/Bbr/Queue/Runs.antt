-- ===== src/Bbr/Queue/Runs.antt =====
-- Runs of the packet number queue, and its theorems at a queue with a gap.
use libya_link.Common.{ℕ, ◌≤◌, ◌<◌, ◌≡◌, refl, ◌⊎◌, true, false, some, [], ◌∷◌, arith}
use libya_link.Common.Result.{ok}
use libya_link.Bbr.Ring.{len, position, is_empty}
use libya_link.Bbr.Ring.Items.{IsValid}
use libya_link.Bbr.Queue.{
  Queue, last_packet, queue_is_empty, get_entry_wrapper, get_entry, emplace, remove, remove_up_to,
}
use libya_link.Bbr.Queue.Map.{entry_at, IsQueue, get_entry-entry_at}
use libya_link.Bbr.Queue.Removal.{without, remove-entry_at}
use libya_link.Bbr.Queue.Cutting.{from, remove_up_to-entry_at}
use libya_link.Bbr.Queue.Insertion.{with_entry, emplace-entry_at}

-- The packets 3 and 5, stored as 4 and 6, in a ring that wraps around.
abbrev gapped : Queue ℕ
gapped = record {
  entries = record {
    ring =
        record { present = true; entry = 70 }
        ∷ record { present = false; entry = 0 }
        ∷ record { present = true; entry = 50 }
        ∷ record { present = false; entry = 0 }
        ∷ [];
    head_pos = 2;
    tail_pos = 1;
    full = false;
  };
  number_of_present_entries = 2;
  first_packet = 4;
}

gapped-IsValid : IsValid gapped.entries
gapped-IsValid = record {
  head_inside = omega arith;
  tail_inside = omega arith;
  full_meets = λ h. cc;
}

gapped-IsQueue : IsQueue 0 gapped
unfolding len
gapped-IsQueue = record { ring = gapped-IsValid; counted = refl; starts = (refl, omega arith) }

get_gapped : get_entry 0 6 gapped ≡ ok (some 70)
unfolding get_entry get_entry_wrapper position len queue_is_empty is_empty
get_gapped = refl

get_entry-entry_at_example : get_entry 0 6 gapped ≡ ok (entry_at 0 gapped 6)
get_entry-entry_at_example = get_entry-entry_at 0 gapped 6 gapped-IsQueue

emplace-entry_at_example :
    ((last_packet gapped < 8)
      × ((q' : Queue ℕ) × (emplace 0 8 (some 90) gapped ≡ (q', true))
          × IsQueue 0 q'
          × ((k : ℕ) → entry_at 0 q' k ≡ with_entry 0 8 90 (entry_at 0 gapped) k)))
    ⊎ ((8 ≤ last_packet gapped) × (emplace 0 8 (some 90) gapped ≡ (gapped, false)))
emplace-entry_at_example = emplace-entry_at 0 gapped 8 90 gapped-IsQueue

remove-entry_at_example :
    (q' : Queue ℕ) × (remove 0 4 gapped ≡ ok (q', entry_at 0 gapped 4))
    × IsQueue 0 q'
    × ((k : ℕ) → entry_at 0 q' k ≡ without 0 4 (entry_at 0 gapped) k)
remove-entry_at_example = remove-entry_at 0 gapped 4 gapped-IsQueue

remove_up_to-entry_at_example :
    (q' : Queue ℕ) × (remove_up_to 0 5 gapped ≡ ok q')
    × IsQueue 0 q'
    × ((k : ℕ) → entry_at 0 q' k ≡ from 0 5 (entry_at 0 gapped) k)
remove_up_to-entry_at_example = remove_up_to-entry_at 0 gapped 5 gapped-IsQueue
