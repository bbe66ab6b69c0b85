-- ===== src/Bbr/Filter/Laws.antt =====
-- What the filter of the largest sample keeps, where time does not go back.
use libya_link.Common.{
  ℕ, ◌-◌, ◌/◌, ◌^◌, ◌≤◌, ◌<◌, ◌≡◌, refl, inl, inr, Bool, true, false, ◌&&◌, ◌||◌, arith, ltb, leb,
  Bool-cases,
}
use libya_link.Bbr.Filter.{
  max_filter, is_zero, at_least_zero, since, Entry, Filter, reset, replace, promote, refresh,
  expire, update,
}

-- The estimates get older and larger towards the best one, and none is of the future.
pub record IsOrdered (now : ℕ) (f : Filter ℕ) : Type 0 where
  pub second_older : f.best.time ≤ f.second.time
  pub third_older : f.second.time ≤ f.third.time
  pub present : f.third.time ≤ now
  pub second_smaller : f.second.sample ≤ f.best.sample
  pub third_smaller : f.third.sample ≤ f.second.sample

since_difference : (new old : ℕ) → old ≤ new → new < 2 ^ 64 → since new old ≡ new - old
unfolding since
since_difference new old h w = omega arith

at_least : (a b : ℕ) → at_least_zero (max_filter a b) ≡ leb b a
at_least a b = ground arith

both_false : (a b c : Bool) → (a || b || c) ≡ false → (b ≡ false) × (c ≡ false)
both_false true b c h = cc
both_false false true c h = cc
both_false false false c h = (refl, h)

module _ (e : Entry ℕ) (small : e.time < 2 ^ 64) where
  -- The estimates are in order, and none is below the new sample.
  abbrev Above : Filter ℕ → Type 0
  Above f = IsOrdered e.time f × (e.sample ≤ f.third.sample)

  replaced_both :
      (f : Filter ℕ)
      → IsOrdered e.time f
      → e.sample ≤ f.best.sample
      → Above (record f { second = e; third = e })
  replaced_both f o s = (
    record {
      second_older = omega (arith, o.second_older, o.third_older, o.present);
      third_older = omega arith;
      present = omega arith;
      second_smaller = s;
      third_smaller = omega arith;
    },
    omega arith,
  )

  replaced_third :
      (f : Filter ℕ)
      → IsOrdered e.time f
      → e.sample ≤ f.second.sample
      → Above (record f { third = e })
  replaced_third f o s = (
    record {
      second_older = o.second_older;
      third_older = omega (arith, o.third_older, o.present);
      present = omega arith;
      second_smaller = o.second_smaller;
      third_smaller = s;
    },
    omega arith,
  )

  replace-Above :
      (f : Filter ℕ)
      → IsOrdered e.time f
      → e.sample ≤ f.best.sample
      → Above (replace 0 max_filter e f)
  unfolding replace
  replace-Above f o s = elim (Bool-cases (at_least_zero (max_filter e.sample f.second.sample))) [
    | inl t ↦ rw t (replaced_both f o s)
    | inr t ↦
        let low : e.sample ≤ f.second.sample = ground (arith, at_least e.sample f.second.sample) in
        elim (Bool-cases (at_least_zero (max_filter e.sample f.third.sample))) [
          | inl u ↦ rw (t, u) (replaced_third f o low)
          | inr u ↦ rw (t, u) (o, ground (arith, at_least e.sample f.third.sample))
        ]
  ]

  replace_young :
      (f : Filter ℕ)
      → e.time - f.third.time ≤ f.window_length
      → e.time - (replace 0 max_filter e f).third.time ≤ (replace 0 max_filter e f).window_length
  unfolding replace
  replace_young f w = elim (Bool-cases (at_least_zero (max_filter e.sample f.second.sample))) [
    | inl t ↦ rw t (omega arith)
    | inr t ↦ elim (Bool-cases (at_least_zero (max_filter e.sample f.third.sample))) [
      | inl u ↦ rw (t, u) (omega arith)
      | inr u ↦ rw (t, u) w
    ]
  ]

  -- The best estimate is within the window, seen from the new sample.
  abbrev Within : Filter ℕ → Type 0
  Within f = e.time - f.best.time ≤ f.window_length

  promoted_once :
      (f : Filter ℕ) → Above f → Above (record f { best = f.second; second = f.third; third = e })
  promoted_once f (o, s) = (
    record {
      second_older = o.third_older;
      third_older = o.present;
      present = omega arith;
      second_smaller = o.third_smaller;
      third_smaller = s;
    },
    omega arith,
  )

  promoted_twice :
      (f : Filter ℕ) → Above f → Above (record f { best = f.third; second = e; third = e })
  promoted_twice f (o, s) = (
    record {
      second_older = o.present;
      third_older = omega arith;
      present = omega arith;
      second_smaller = s;
      third_smaller = omega arith;
    },
    omega arith,
  )

  promote-Above :
      (f : Filter ℕ)
      → Above f
      → e.time - f.third.time ≤ f.window_length
      → Above (promote 0 max_filter e f) × Within (promote 0 max_filter e f)
  unfolding promote
  promote-Above f a young = elim (Bool-cases (ltb f.window_length (since e.time f.second.time))) [
    | inl t ↦ rw t (promoted_twice f a, young)
    | inr t ↦ rw t (
      promoted_once f a,
      ground (
        arith,
        since_difference e.time f.second.time (omega (arith, a.0.third_older, a.0.present)) small,
      ),
    )
  ]

  refresh-Above :
      (f : Filter ℕ)
      → Above f
      → Within f
      → Above (refresh 0 max_filter e f) × Within (refresh 0 max_filter e f)
  unfolding refresh
  refresh-Above f (o, s) w =
      elim (Bool-cases (
        is_zero (max_filter f.second.sample f.best.sample)
        && ltb (f.window_length / 4) (since e.time f.second.time))) [
          | inl t ↦
              rw t (replaced_both f o (omega (arith, s, o.second_smaller, o.third_smaller)), w)
          | inr t ↦
              elim (Bool-cases (
                is_zero (max_filter f.third.sample f.second.sample)
                && ltb (f.window_length / 2) (since e.time f.third.time))) [
                  | inl u ↦ rw (t, u) (replaced_third f o (omega (arith, s, o.third_smaller)), w)
                  | inr u ↦ rw (t, u) ((o, s), w)
                ]
        ]

  expire-Above :
      (f : Filter ℕ)
      → Above f
      → e.time - f.third.time ≤ f.window_length
      → Above (expire 0 max_filter e f) × Within (expire 0 max_filter e f)
  unfolding expire
  expire-Above f a young = elim (Bool-cases (ltb f.window_length (since e.time f.best.time))) [
    | inl t ↦ rw t (promote-Above f a young)
    | inr t ↦ rw t (
        refresh-Above f a (
          ground (
            arith,
            since_difference e.time f.best.time
                (omega (arith, a.0.second_older, a.0.third_older, a.0.present)) small,
          )))
  ]

  reset_all : (f : Filter ℕ) → Above (reset 0 max_filter e f) × Within (reset 0 max_filter e f)
  unfolding reset
  reset_all f = (
    (
      record {
        second_older = omega arith;
        third_older = omega arith;
        present = omega arith;
        second_smaller = omega arith;
        third_smaller = omega arith;
      },
      omega arith,
    ),
    omega arith,
  )

  -- Update at a uint64 time, not older than the estimates, keeps the filter of the largest sample in
  -- order, from the oldest and largest estimate to the newest and smallest; no estimate is below
  -- the new sample, and the best estimate is not older than the window.
  pub update-IsOrdered :
      (f : Filter ℕ)
      → IsOrdered e.time f
      → IsOrdered e.time (update 0 max_filter e f)
        × (e.sample ≤ (update 0 max_filter e f).third.sample)
        × (e.time - (update 0 max_filter e f).best.time ≤ (update 0 max_filter e f).window_length)
  unfolding update
  update-IsOrdered f o =
      elim (Bool-cases (
        is_zero (max_filter f.best.sample 0)
        || at_least_zero (max_filter e.sample f.best.sample)
        || ltb f.window_length (since e.time f.third.time))) [
          | inl t ↦ let (a, w) = reset_all f in rw t (a.0, a.1, w)
          | inr t ↦
              let kept =
                both_false (is_zero (max_filter f.best.sample 0))
                  (at_least_zero (max_filter e.sample f.best.sample))
                  (ltb f.window_length (since e.time f.third.time)) t in
              let low : e.sample ≤ f.best.sample =
                ground (arith, at_least e.sample f.best.sample, kept.0) in
              let young : e.time - f.third.time ≤ f.window_length =
                ground (arith, since_difference e.time f.third.time o.present small, kept.1) in
              let (a, w) =
                expire-Above (replace 0 max_filter e f) (replace-Above f o low)
                  (replace_young f young) in
              rw t (a.0, a.1, w)
        ]
