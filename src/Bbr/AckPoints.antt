-- ===== src/Bbr/AckPoints.antt =====
-- ackPoint, recentAckPoints and chooseA0Point of core/internal/congestion/bbr/bandwidth_sampler.go.
-- A Time and a ByteCount are int64, as the numbers modulo 2 ^ 64 that their bits are.
pub mod Choice
use libya_link.Common.{ℕ, zero, suc, ◌-◌, Bool, Option, none, some, ltb, ◌==◌, if◌then◌else◌}
use libya_link.Common.Word.{wrap64, lt64, sub64}
use libya_link.Common.Result.{Result, ok, err, panic, ◌>>=◌}
use libya_link.Bbr.Ring.{Ring, len, is_empty, front, back, offset, pop_front}

pub record AckPoint : Type 0 where
  pub ack_time : ℕ
  pub total_bytes_acked : ℕ

abbrev pub zero_point : AckPoint
zero_point = record { ack_time = 0; total_bytes_acked = 0 }

-- `t.After(u)`, which is `u.Before(t)`, and `t.Sub(u)`.
unfoldable pub after : ℕ → ℕ → Bool
after t u = lt64 (wrap64 u) (wrap64 t)

unfoldable pub elapsed : ℕ → ℕ → ℕ
elapsed t u = sub64 (wrap64 t) (wrap64 u)

-- The array of two points.
pub record RecentAckPoints : Type 0 where
  pub earlier : AckPoint
  pub latest : AckPoint

abbrev pub no_points : RecentAckPoints
no_points = record { earlier = zero_point; latest = zero_point }

unfoldable pub update_points : ℕ → ℕ → RecentAckPoints → RecentAckPoints
unfolding after
update_points ack_time bytes p =
    let point : AckPoint = record { ack_time = ack_time; total_bytes_acked = bytes } in
    if after p.latest.ack_time ack_time
    then record p { latest = point }
    else if after ack_time p.latest.ack_time
    then record { earlier = p.latest; latest = point }
    else record p { latest = record (p.latest) { total_bytes_acked = bytes } }

abbrev pub less_recent_point : RecentAckPoints → AckPoint
less_recent_point p = if p.earlier.total_bytes_acked == 0 then p.latest else p.earlier

-- `for j := 0; j < n; j++ { b.a0Candidates.PopFront() }`
unfoldable pub pop_many : ℕ → Ring AckPoint → Result (Unit {0}) (Ring AckPoint)
pop_many zero r = ok r
pop_many (suc n) r = do (_, r) ← pop_front zero_point r; pop_many n r

-- The last loop, whose bound is read again in each round; as many rounds as there are items are
-- enough.
unfoldable pub pop_rest : ℕ → ℕ → Ring AckPoint → Result (Unit {0}) (Ring AckPoint)
pop_rest zero k r = ok r
pop_rest (suc fuel) k r =
    let more = (do (_, r) ← pop_front zero_point r; pop_rest fuel (suc k) r) in
    if ltb k (len r - 1) then more else ok r

-- The loop over the candidates from `i` on, of which `n` are left.
unfoldable pub scan : ℕ → ℕ → ℕ → Ring AckPoint → Result (Unit {0}) (AckPoint × Ring AckPoint)
unfolding pop_many pop_rest
scan total zero i r = do a ← back zero_point r; r ← pop_rest (len r) 0 r; ok (a, r)
scan total (suc n) i r =
    let later = scan total n (suc i) r in
    let found = (do a ← offset zero_point r (i - 1); r ← pop_many (i - 1) r; ok (a, r)) in
    (do p ← offset zero_point r i; if after p.total_bytes_acked total then found else later)

-- `none` where the answer is false.
unfoldable pub choose_a0_point :
    ℕ → Ring AckPoint → Result (Unit {0}) (Option AckPoint × Ring AckPoint)
unfolding scan
choose_a0_point total r =
    if is_empty r
    then ok (none, r)
    else if len r == 1
    then (do a ← front zero_point r; ok (some a, r))
    else (do (a, r) ← scan total (len r - 1) 1 r; ok (some a, r))
