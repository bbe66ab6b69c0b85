-- ===== src/Session/Reconnect/Runs.antt =====
-- Runs of the reconnecting client, and the theorems at concrete inputs.
use libya_link.Common.{ℕ, ◌≡◌, refl, true, false, none, some, [], ◌∷◌}
use libya_link.Common.Result.{ok, err}
use libya_link.Session.Reconnect.{
  created, connected, closed_client, closed_error, new_client, Reconnectable, attempt, reconnect,
  begin_do, forget, Run, done, step, begins, forgets, creations, Run-count, Run-closed,
}

abbrev start : Reconnectable
start = record { notifies = true; client = none; count = 0; is_closed = false; calls = [] }

abbrev online : Reconnectable
online = record {
  notifies = true;
  client = some 3;
  count = 1;
  is_closed = false;
  calls = connected 1 ∷ created 3 ∷ [];
}

abbrev offline : Reconnectable
offline = record online { is_closed = true; calls = closed_client 3 ∷ connected 1 ∷ created 3 ∷ [] }

first_do : begin_do {E = ℕ} (new_client 3) start ≡ (online, ok (some 3))
unfolding begin_do reconnect attempt
first_do = refl

first_do-Run : Run ℕ start online
unfolding begin_do reconnect attempt
first_do-Run = step start start online (done start) (begins (new_client 3) start)

closing-Run : Run ℕ offline (forget 3 offline)
closing-Run = step offline offline (forget 3 offline) (done offline) (forgets 3 offline)

Run-count_example : online.count ≡ creations online.calls
Run-count_example = Run-count {E = ℕ} start online first_do-Run refl

Run-closed_example :
    ((forget 3 offline).is_closed ≡ true)
    × (creations (forget 3 offline).calls ≡ creations offline.calls)
    × (begin_do {E = ℕ} (new_client 8) (forget 3 offline) ≡ (forget 3 offline, err closed_error))
Run-closed_example = Run-closed offline (forget 3 offline) (new_client 8) closing-Run refl
