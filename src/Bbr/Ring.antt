-- ===== src/Bbr/Ring.antt =====
-- RingBuffer of core/internal/congestion/bbr/ringbuffer.go. `zero_value` is Go's zero value of the
-- element type, `*new(T)`. A read or write at an index beyond the ring is a panic in Go; the
-- invariant IsValid excludes it, and here such a read gives the zero value and such a write nothing.
pub mod Items
pub mod Growth
pub mod Laws
pub mod View
use libya_link.Common.{
  ℕ, ◌+◌, ◌-◌, ◌*◌, ◌%◌, min, Bool, true, false, not, ◌&&◌, ◌||◌, List, leb, ◌==◌, if◌then◌else◌,
  length, set, get_or, take, drop, replicate,
}
use libya_link.Common.Result.{Result, ok, err, panic}
use libya_link.Common.Buffer.{overwrite, overwrite_at}

pub record Ring (A : Type 0) : Type 0 where
  pub ring : List A
  pub head_pos : ℕ
  pub tail_pos : ℕ
  pub full : Bool

module _ {A : Type 0} where
  unfoldable pub len : Ring A → ℕ
  len r =
      if r.full
      then length r.ring
      else if leb r.head_pos r.tail_pos
      then r.tail_pos - r.head_pos
      else r.tail_pos + length r.ring - r.head_pos

  unfoldable pub is_empty : Ring A → Bool
  is_empty r = not r.full && r.head_pos == r.tail_pos

  -- Behind the growth.
  unfoldable pub place : A → Ring A → Ring A
  place t r =
      let next = r.tail_pos + 1 in
      let tail = if next == length r.ring then 0 else next in
      record r {
        ring = set r.ring r.tail_pos t;
        tail_pos = tail;
        full = if tail == r.head_pos then true else r.full;
      }

module _ {A : Type 0} (zero_value : A) where
  unfoldable pub init : ℕ → Ring A
  init size = record { ring = replicate size zero_value; head_pos = 0; tail_pos = 0; full = false }

  unfoldable pub grow : Ring A → Ring A
  grow r =
      let n = length r.ring in
      let new_size = if n * 2 == 0 then 1 else n * 2 in
      let front = drop r.head_pos r.ring in
      let copied = overwrite (replicate new_size zero_value) front in
      let head_len = min new_size (length front) in
      record {
        ring = overwrite_at head_len copied (take r.head_pos r.ring);
        head_pos = 0;
        tail_pos = n;
        full = false;
      }

  unfoldable pub push_back : A → Ring A → Ring A
  push_back t r = place t (if r.full || length r.ring == 0 then grow r else r)

  unfoldable pub pop_front : Ring A → Result (Unit {0}) (A × Ring A)
  pop_front r =
      if is_empty r
      then panic
      else ok (
        get_or r.ring r.head_pos zero_value,
        record r {
          ring = set r.ring r.head_pos zero_value;
          head_pos = if r.head_pos + 1 == length r.ring then 0 else r.head_pos + 1;
          full = false;
        },
      )

  -- Offset returns a pointer: the position in the ring, and what is read there.
  unfoldable pub position : Ring A → ℕ → Result (Unit {0}) ℕ
  position r index =
      if is_empty r || leb (len r) index then panic else ok ((r.head_pos + index) % length r.ring)

  unfoldable pub offset : Ring A → ℕ → Result (Unit {0}) A
  unfolding position
  offset r index = elim (position r index) [
    | ok i ↦ ok (get_or r.ring i zero_value)
    | err e ↦ err e
    | panic ↦ panic
  ]

  unfoldable pub front : Ring A → Result (Unit {0}) A
  front r = if is_empty r then panic else ok (get_or r.ring r.head_pos zero_value)

  unfoldable pub back : Ring A → Result (Unit {0}) A
  back r = if is_empty r then panic else offset r (len r - 1)

  unfoldable pub clear : Ring A → Ring A
  clear r = record {
    ring = replicate (length r.ring) zero_value;
    head_pos = 0;
    tail_pos = 0;
    full = false;
  }
