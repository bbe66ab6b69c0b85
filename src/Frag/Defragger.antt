-- ===== src/Frag/Defragger.antt =====
-- Defragger of core/internal/frag/frag.go. `d.frags` is a slice of pointers, nil where `none`.
pub mod Slots
pub mod AnyOrder
pub mod Total
use libya_link.Common.{
  ℕ, ◌+◌, ◌-◌, ◌%◌, ◌^◌, min, not, ◌||◌, Option, none, some, List, [], ◌∷◌, leb, ◌==◌,
  if◌then◌else◌, length, get_elem?, set, replicate,
}
use libya_link.Common.Result.{Result, ok, err, panic, ◌>>=◌}
use libya_link.Common.Buffer.{overwrite_at}
use libya_link.Protocol.Udp.{UdpMessage}

pub record Defragger : Type 0 where
  pub pkt_id : ℕ
  pub frags : List (Option UdpMessage)
  pub count : ℕ
  pub size : ℕ

abbrev pub empty_defragger : Defragger
empty_defragger = record { pkt_id = 0; frags = []; count = 0; size = 0 }

-- The outcome of a call: no error value, but a panic on a nil pointer or a bad index.
abbrev pub Step : Type 0 → Type 0
Step A = Result (Unit {0}) A

-- `for _, frag := range d.frags { off += copy(data[off:], frag.Data) }`
unfoldable pub assemble : List ℕ → ℕ → List (Option UdpMessage) → Step (List ℕ)
assemble buf off [] = ok buf
assemble buf off (none ∷ fs) = panic
assemble buf off (some f ∷ fs) =
    assemble (overwrite_at off buf f.body) (off + min (length f.body) (length buf - off)) fs

-- The new message starts from empty slots.
unfoldable pub restart : Defragger → UdpMessage → Defragger
restart d m = record {
  pkt_id = m.packet_id;
  frags = set (replicate m.frag_count none) m.frag_id (some m);
  count = 1;
  size = length m.body;
}

-- A first copy of a fragment; the message `m` that is returned is the one that its slot points to,
-- so the slot changes with it.
unfoldable pub add_frag : Defragger → UdpMessage → Step (Defragger × Option UdpMessage)
add_frag d m =
    let frags = set d.frags m.frag_id (some m) in
    let d' = record d {
      frags = frags;
      count = (d.count + 1) % 2 ^ 8;
      size = d.size + length m.body;
    } in
    if d'.count == length frags
    then (do
      bytes ← assemble (replicate d'.size 0) 0 frags
      let whole = record m { body = bytes; frag_id = 0; frag_count = 1 }
      ok (record d' { frags = set frags m.frag_id (some whole) }, some whole))
    else ok (d', none)

unfoldable pub feed : Defragger → UdpMessage → Step (Defragger × Option UdpMessage)
unfolding restart
feed d m =
    if leb m.frag_count 1
    then ok (d, some m)
    else if leb m.frag_count m.frag_id
    then ok (d, none)
    else if not (m.packet_id == d.pkt_id) || not (m.frag_count == length d.frags % 2 ^ 8)
    then ok (restart d m, none)
    else elim (get_elem? d.frags m.frag_id) [
      | none ↦ panic
      | some slot ↦ elim slot [ none ↦ add_frag d m | some old ↦ ok (d, none) ]
    ]

-- The messages in the order of arrival, and what each call returns.
unfoldable pub feed_all : Defragger → List UdpMessage → Step (Defragger × List (Option UdpMessage))
feed_all d [] = ok (d, [])
feed_all d (m ∷ ms) = do (d, out) ← feed d m; (d, outs) ← feed_all d ms; ok (d, out ∷ outs)
