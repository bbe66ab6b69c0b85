-- ===== src/Bbr/Filter.antt =====
-- core/internal/congestion/bbr/windowed_filter.go, at times that are uint64 (roundTripCount). The
-- slice of three estimates is three fields; the comparator's sign is a value of its own.
pub mod Laws
use libya_link.Common.{
  ℕ, ◌+◌, ◌-◌, ◌/◌, ◌%◌, ◌^◌, Bool, true, false, ◌&&◌, ◌||◌, ltb, if◌then◌else◌,
}

-- A positive, zero or negative result of a comparator.
pub data Sign : Type 0 where
  above same below : Sign

-- MaxFilter and MinFilter
abbrev pub max_filter : ℕ → ℕ → Sign
max_filter a b = if ltb b a then above else if ltb a b then below else same

abbrev pub min_filter : ℕ → ℕ → Sign
min_filter a b = if ltb a b then above else if ltb b a then below else same

abbrev pub is_zero : Sign → Bool
is_zero same = true
is_zero above = false
is_zero below = false

abbrev pub at_least_zero : Sign → Bool
at_least_zero same = true
at_least_zero above = true
at_least_zero below = false

-- `newTime - time`, which wraps.
unfoldable pub since : ℕ → ℕ → ℕ
since new_time time = (new_time + 2 ^ 64 - time) % 2 ^ 64

pub record Entry (V : Type 0) : Type 0 where
  pub sample : V
  pub time : ℕ

pub record Filter (V : Type 0) : Type 0 where
  pub window_length : ℕ
  pub best : Entry V
  pub second : Entry V
  pub third : Entry V

module _ {V : Type 0} where
  abbrev pub set_window_length : ℕ → Filter V → Filter V
  set_window_length window_length f = record f { window_length = window_length }

  abbrev pub get_best : Filter V → V
  get_best f = f.best.sample

  abbrev pub get_second_best : Filter V → V
  get_second_best f = f.second.sample

  abbrev pub get_third_best : Filter V → V
  get_third_best f = f.third.sample

module _ {V : Type 0} (zero_value : V) (comparator : V → V → Sign) where
  abbrev pub blank : Entry V
  blank = record { sample = zero_value; time = 0 }

  abbrev pub new_windowed_filter : ℕ → Filter V
  new_windowed_filter window_length = record {
    window_length = window_length;
    best = blank;
    second = blank;
    third = blank;
  }

  abbrev pub clear : Filter V → Filter V
  clear f = new_windowed_filter f.window_length

  unfoldable pub reset : Entry V → Filter V → Filter V
  reset e f = record f { best = e; second = e; third = e }

  -- A sample that is better than the second or the third estimate takes its place.
  unfoldable pub replace : Entry V → Filter V → Filter V
  replace e f =
      if at_least_zero (comparator e.sample f.second.sample)
      then record f { second = e; third = e }
      else if at_least_zero (comparator e.sample f.third.sample)
      then record f { third = e }
      else f

  -- The best estimate is older than the window: the others move up.
  unfoldable pub promote : Entry V → Filter V → Filter V
  promote e f =
      let moved = record f { best = f.second; second = f.third; third = e } in
      if ltb f.window_length (since e.time moved.best.time)
      then record moved { best = moved.second; second = moved.third }
      else moved

  -- Parts of the window have passed without a better sample.
  unfoldable pub refresh : Entry V → Filter V → Filter V
  refresh e f =
      if is_zero (comparator f.second.sample f.best.sample)
        && ltb (f.window_length / 4) (since e.time f.second.time)
      then record f { second = e; third = e }
      else if is_zero (comparator f.third.sample f.second.sample)
          && ltb (f.window_length / 2) (since e.time f.third.time)
      then record f { third = e }
      else f

  unfoldable pub expire : Entry V → Filter V → Filter V
  unfolding promote refresh
  expire e f = if ltb f.window_length (since e.time f.best.time) then promote e f else refresh e f

  unfoldable pub update : Entry V → Filter V → Filter V
  unfolding reset replace expire
  update e f =
      if is_zero (comparator f.best.sample zero_value)
        || at_least_zero (comparator e.sample f.best.sample)
        || ltb f.window_length (since e.time f.third.time)
      then reset e f
      else expire e (replace e f)
