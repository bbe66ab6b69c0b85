-- ===== src/Frag/Runs.antt =====
-- Runs of the splitter and the defragger, and the theorems at concrete inputs.
use libya_link.Common.{
  ℕ, ◌-◌, ◌≤◌, ◌<◌, ◌≡◌, refl, ◌≢◌, inl, none, some, List, [], ◌∷◌, arith, length, get_elem?, All,
  codes,
}
use libya_link.Common.Result.{ok, err, panic}
use libya_link.Protocol.Plain.{plain}
use libya_link.Protocol.Udp.{UdpMessage, header_size, size}
use libya_link.Frag.Split.{out_of_fuel, frag_loop, frag_udp_message}
use libya_link.Frag.Split.Pieces.{joined}
use libya_link.Frag.Split.Cover.{frag_udp_message_covers, frag_udp_message_panics}
use libya_link.Frag.Split.Ends.{frag_udp_message-ends}
use libya_link.Frag.Defragger.{Defragger, empty_defragger, feed_all}
use libya_link.Frag.RoundTrip.{arriving, feed_all-frag_udp_message}

-- Twelve bytes of header, five of data: with a limit of 14, three fragments.
abbrev letter : UdpMessage
letter = record {
  session_id = 7;
  packet_id = 9;
  frag_id = 0;
  frag_count = 1;
  addr = codes "a:1";
  body = 1 ∷ 2 ∷ 3 ∷ 4 ∷ 5 ∷ [];
}

split_letter :
    frag_udp_message plain letter 14
    ≡ ok (
        record letter { frag_count = 3; body = 1 ∷ 2 ∷ [] }
        ∷ record letter { frag_id = 1; frag_count = 3; body = 3 ∷ 4 ∷ [] }
        ∷ record letter { frag_id = 2; frag_count = 3; body = 5 ∷ [] }
        ∷ [])
unfolding frag_udp_message frag_loop size header_size
split_letter = refl

header_room :
    (header_size plain letter < 14) × (14 < size plain letter) × (14 - header_size plain letter ≡ 2)
unfolding size header_size
header_room = (omega arith, omega arith, refl)

frag_udp_message_covers_example :
    (fs : List UdpMessage) × (frag_udp_message plain letter 14 ≡ ok fs)
    × (joined fs ≡ letter.body)
    × All (λ f. (size plain f ≤ 14) × (0 < length f.body)) fs
    × ((i : ℕ) (f : UdpMessage)
        → get_elem? fs i ≡ some f
        → f ≡ record letter { frag_id = i; frag_count = length fs; body = f.body })
frag_udp_message_covers_example =
    frag_udp_message_covers plain letter 14 header_room.0 header_room.1
      (rw header_room.2 (omega arith))

frag_udp_message_panics_example : frag_udp_message plain letter 12 ≡ panic
unfolding size header_size
frag_udp_message_panics_example =
    frag_udp_message_panics plain letter 12 (omega arith) (omega arith) (inl (omega arith))

feed_all-frag_udp_message_example :
    (fs : List UdpMessage) × (d' : Defragger) × (frag_udp_message plain letter 14 ≡ ok fs)
    × (feed_all empty_defragger (arriving fs (2 ∷ 0 ∷ 1 ∷ []))
        ≡ ok (d', none ∷ none ∷ some letter ∷ []))
unfolding header_size size
feed_all-frag_udp_message_example =
    feed_all-frag_udp_message plain letter 14 empty_defragger (2 ∷ 0 ∷ 1 ∷ []) refl refl
      (omega arith) (omega arith) (omega arith) (omega arith) (omega arith) (omega arith) refl

frag_udp_message-ends_example : frag_udp_message plain letter 14 ≢ err out_of_fuel
frag_udp_message-ends_example = frag_udp_message-ends plain letter 14
