-- ===== src/Bbr/Queue.antt =====
-- packetNumberIndexedQueue of core/internal/congestion/bbr/packet_number_indexed_queue.go, over the
-- ring buffer. A packet number is an int64 that is at least 0, or invalidPacketNumber, -1: the
-- model stores it with 1 added, so that 0 is invalidPacketNumber and orders and differences stay.
pub mod Map
pub mod Clearup
pub mod Removal
pub mod Cutting
pub mod Insertion
mod Runs
use libya_link.Common.{
  ℕ, zero, suc, ◌+◌, ◌-◌, Bool, true, false, not, ◌&&◌, ◌||◌, Option, none, some, ltb, leb, ◌==◌,
  if◌then◌else◌, set, get_or,
}
use libya_link.Common.Result.{Result, ok, ◌>>=◌}
use libya_link.Bbr.Ring.{Ring, len, is_empty, init, push_back, pop_front, position, front}

abbrev pub invalid_packet_number : ℕ
invalid_packet_number = 0

pub record EntryWrapper (T : Type 0) : Type 0 where
  pub present : Bool
  pub entry : T

pub record Queue (T : Type 0) : Type 0 where
  pub entries : Ring (EntryWrapper T)
  pub number_of_present_entries : ℕ
  pub first_packet : ℕ

-- A panic of the ring buffer is a panic of the queue.
abbrev pub Step : Type 0 → Type 0
Step A = Result (Unit {0}) A

module _ {T : Type 0} where
  unfoldable pub queue_is_empty : Queue T → Bool
  queue_is_empty p = p.number_of_present_entries == 0

  unfoldable pub entry_slots_used : Queue T → ℕ
  entry_slots_used p = len p.entries

  unfoldable pub last_packet : Queue T → ℕ
  unfolding queue_is_empty
  last_packet p =
      if queue_is_empty p then invalid_packet_number else p.first_packet + (len p.entries - 1)

module _ {T : Type 0} (zero_entry : T) where
  -- `entryWrapper[T]{}`
  abbrev pub blank : EntryWrapper T
  blank = record { present = false; entry = zero_entry }

  unfoldable pub new_queue : ℕ → Queue T
  new_queue size = record {
    entries = init blank size;
    number_of_present_entries = 0;
    first_packet = invalid_packet_number;
  }

  unfoldable pub push_gap : ℕ → Ring (EntryWrapper T) → Ring (EntryWrapper T)
  push_gap zero r = r
  push_gap (suc gap) r = push_gap gap (push_back blank blank r)

  -- `entry` is a pointer, nil where `none`. The answer is whether the entry was inserted.
  unfoldable pub emplace : ℕ → Option T → Queue T → Queue T × Bool
  unfolding last_packet push_gap
  emplace n none p = (p, false)
  emplace n (some e) p =
      let wrapper : EntryWrapper T = record { present = true; entry = e } in
      let off = n - p.first_packet in
      if n == invalid_packet_number
      then (p, false)
      else if queue_is_empty p
      then (
        record p {
          entries = push_back blank wrapper p.entries;
          number_of_present_entries = 1;
          first_packet = n;
        },
        true,
      )
      else if leb n (last_packet p)
      then (p, false)
      else (
        record p {
          entries = push_back blank wrapper (push_gap (off - len p.entries) p.entries);
          number_of_present_entries = p.number_of_present_entries + 1;
        },
        true,
      )

  -- The position in the ring of the entry, `none` for a nil pointer.
  unfoldable pub get_entry_wrapper : ℕ → Queue T → Step (Option ℕ)
  get_entry_wrapper n p =
      let off = n - p.first_packet in
      if n == invalid_packet_number || queue_is_empty p || ltb n p.first_packet
      then ok none
      else if leb (len p.entries) off
      then ok none
      else (do
        i ← position blank p.entries off
        ok (if (get_or p.entries.ring i blank).present then some i else none))

  unfoldable pub get_entry : ℕ → Queue T → Step (Option T)
  unfolding get_entry_wrapper
  get_entry n p = do
    found ← get_entry_wrapper n p
    ok (elim found [ none ↦ none | some i ↦ some (get_or p.entries.ring i blank).entry ])

  -- `for !p.entries.Empty() && !p.entries.Front().present`: each round takes an item, so as many
  -- rounds as there are items are enough.
  unfoldable pub drop_absent : ℕ → Queue T → Step (Queue T)
  drop_absent zero p = ok p
  drop_absent (suc fuel) p =
      let more = (do
        (_, r) ← pop_front blank p.entries
        drop_absent fuel (record p { entries = r; first_packet = p.first_packet + 1 })) in
      if is_empty p.entries
      then ok p
      else (do first ← front blank p.entries; if first.present then ok p else more)

  unfoldable pub clearup : Queue T → Step (Queue T)
  unfolding drop_absent
  clearup p = do
    p ← drop_absent (len p.entries) p
    ok (if is_empty p.entries then record p { first_packet = invalid_packet_number } else p)

  -- The answer is whether the entry was there, with the argument that `f` is called with.
  unfoldable pub remove : ℕ → Queue T → Step (Queue T × Option T)
  unfolding get_entry_wrapper clearup
  remove n p = do
    found ← get_entry_wrapper n p
    elim found [
      | none ↦ ok (p, none)
      | some i ↦
          let w = get_or p.entries.ring i blank in
          let ring = set p.entries.ring i (record w { present = false }) in
          let p' = record p {
            entries = record (p.entries) { ring = ring };
            number_of_present_entries = p.number_of_present_entries - 1;
          } in
          if n == p.first_packet
          then (do p'' ← clearup p'; ok (p'', some w.entry))
          else ok (p', some w.entry)
    ]

  -- The loop of RemoveUpTo, with as many rounds as there are items.
  unfoldable pub drop_below : ℕ → ℕ → Queue T → Step (Queue T)
  drop_below n zero p = ok p
  drop_below n (suc fuel) p =
      let more = (do
        first ← front blank p.entries
        (_, r) ← pop_front blank p.entries
        drop_below n fuel (record p {
          entries = r;
          number_of_present_entries =
              if first.present
              then p.number_of_present_entries - 1
              else p.number_of_present_entries;
          first_packet = p.first_packet + 1;
        })) in
      if not (is_empty p.entries)
        && (not (p.first_packet == invalid_packet_number) && ltb p.first_packet n)
      then more
      else ok p

  unfoldable pub remove_up_to : ℕ → Queue T → Step (Queue T)
  unfolding drop_below clearup
  remove_up_to n p = do p ← drop_below n (len p.entries) p; clearup p
