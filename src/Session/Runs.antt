-- ===== src/Session/Runs.antt =====
-- Runs of the UDP sessions, and the theorems at concrete inputs.
use libya_link.Common.{
  ℕ, ◌-◌, ◌≤◌, ◌<◌, ◌≡◌, refl, ◌⊎◌, true, false, Option, none, some, List, [], ◌∷◌, arith, leb,
  if◌then◌else◌, length, get_elem?, All, codes, replicate, Bool,
}
use libya_link.Common.Result.{ok}
use libya_link.Common.Buffer.{overwrite, overwrite_at}
use libya_link.Protocol.Varint.{varint_put, varint_bytes}
use libya_link.Protocol.Fill.{store_at, varint_put_at, copy_at}
use libya_link.Protocol.Plain.{plain, plain-IsRfc9000}
use libya_link.Protocol.Udp.{UdpMessage, header_size, size, serialize}
use libya_link.Frag.Split.{frag_loop, frag_udp_message}
use libya_link.Frag.Split.Pieces.{joined}
use libya_link.Frag.Defragger.{Defragger, empty_defragger, feed, feed_all}
use libya_link.Session.Send.{
  SendError, too_large, Answer, client_send_message, send_message, packet_id_of, send_each, retry,
  send_message_auto_frag,
}
use libya_link.Session.Send.Limit.{
  IsLimited, answer, send_message-IsSendMessage, send_message_auto_frag-covers,
}
use libya_link.Session.Client.{
  UdpConn, Manager, new_udp_session_manager, lookup, delete, new_udp, enqueue, feed_object,
  feed_session, feed_manager, close_object, close, close_each, close_cleanup, received, receive,
  receive_loop, message,
}
use libya_link.Frag.Defragger.Total.{IsCounted}
use libya_link.Session.Client.Drain.{Delivers, completed, closed-Delivers}
use libya_link.Session.Client.Invariant.{IsValid}
use libya_link.Session.Client.Reach.{
  Run, done, step, opens, feeds, sessions-Run-IsValid, sessions-Run_feeds,
}

abbrev conn : List ℕ → Option (SendError ℕ)
conn bytes = if leb (length bytes) 14 then none else some (too_large 14)

conn-IsLimited : IsLimited 14 conn
conn-IsLimited = record { takes = λ bytes h. ground arith; refuses = λ bytes h. ground arith }

-- No traffic logger, and a buffer of 64 bytes.
abbrev buf : List ℕ
buf = replicate 64 0

abbrev accepts_all : ℕ → Bool
accepts_all n = true

abbrev io : UdpMessage → Answer ℕ
io m = answer (send_message plain accepts_all 0 conn buf m)

-- Twelve bytes of header, five of data: three fragments.
abbrev letter : UdpMessage
letter = record {
  session_id = 1;
  packet_id = 0;
  frag_id = 0;
  frag_count = 1;
  addr = codes "a:1";
  body = 1 ∷ 2 ∷ 3 ∷ 4 ∷ 5 ∷ [];
}

send_letter :
    send_message_auto_frag plain io 41 letter
    ≡ ok (
      record letter { packet_id = 42; frag_count = 3; body = 1 ∷ 2 ∷ [] }
          ∷ record letter { packet_id = 42; frag_id = 1; frag_count = 3; body = 3 ∷ 4 ∷ [] }
          ∷ record letter { packet_id = 42; frag_id = 2; frag_count = 3; body = 5 ∷ [] }
          ∷ [],
      none,
    )
unfolding send_message_auto_frag retry send_message client_send_message serialize send_each
    frag_udp_message frag_loop size header_size store_at overwrite_at overwrite varint_put_at
    varint_put varint_bytes copy_at
send_letter = refl

letter_fits : (header_size plain letter < 14) × (14 - header_size plain letter ≡ 2)
unfolding header_size
letter_fits = (omega arith, refl)

send_message_auto_frag-covers_example :
    ((length buf < size plain letter) × (send_message_auto_frag plain io 41 letter ≡ ok ([], none)))
    ⊎ ((fs : List UdpMessage) × (size plain letter ≤ length buf)
        × (send_message_auto_frag plain io 41 letter ≡ ok (fs, none))
        × (joined fs ≡ letter.body)
        × All (λ f. size plain f ≤ 14) fs
        × ((fs ≡ letter ∷ [])
            ⊎ ((i : ℕ) (f : UdpMessage)
                → get_elem? fs i ≡ some f
                → f ≡ record letter {
                  packet_id = packet_id_of 41;
                  frag_id = i;
                  frag_count = length fs;
                  body = f.body;
                })))
send_message_auto_frag-covers_example =
    send_message_auto_frag-covers plain plain-IsRfc9000 14 accepts_all 0 conn buf io (λ n. refl)
      conn-IsLimited (send_message-IsSendMessage plain plain-IsRfc9000 accepts_all 0 conn buf) 41
      letter (omega arith) letter_fits.0 (rw (letter_fits.1) (omega arith))

-- A message over the buffer is dropped.
abbrev long_letter : UdpMessage
long_letter = record letter { body = replicate 64 7 }

drop_letter : send_message_auto_frag plain io 41 long_letter ≡ ok ([], none)
unfolding send_message_auto_frag retry send_message client_send_message serialize size header_size
drop_letter = refl

abbrev one_session : Manager
one_session = record {
  objects = record { id = 1; d = empty_defragger; receive_ch = []; closed = false } ∷ [];
  m = (1, 0) ∷ [];
  next_id = 2;
  closed = false;
}

opened : new_udp new_udp_session_manager ≡ (some 0, one_session)
unfolding new_udp delete
opened = refl

abbrev one_letter : Manager
one_letter = record one_session {
  objects = record { id = 1; d = empty_defragger; receive_ch = letter ∷ []; closed = false } ∷ [];
}

fed : feed_manager letter one_session ≡ ok one_letter
unfolding feed_manager feed_session feed_object enqueue lookup
fed = refl

-- After the cleanup a session still gives what its channel holds, and then io.EOF.
received_letter :
    receive (record { id = 1; d = empty_defragger; receive_ch = letter ∷ []; closed = true })
    ≡ ok (
      record { id = 1; d = empty_defragger; receive_ch = []; closed = true },
      message (1 ∷ 2 ∷ 3 ∷ 4 ∷ 5 ∷ []) (codes "a:1"),
    )
unfolding receive receive_loop received feed
received_letter = refl

cleaned : (close_cleanup one_letter).m ≡ []
unfolding close_cleanup close_each close close_object delete
cleaned = refl

fed-Run : Run new_udp_session_manager one_letter
unfolding new_udp delete
fed-Run =
    step new_udp_session_manager one_session one_letter
      (step new_udp_session_manager new_udp_session_manager one_session
        (done new_udp_session_manager) (opens new_udp_session_manager))
      (feeds letter one_session one_letter fed)

sessions-Run-IsValid_example : IsValid one_letter
sessions-Run-IsValid_example = sessions-Run-IsValid one_letter fed-Run

sessions-Run_feeds_example : (s' : Manager) × (feed_manager letter one_letter ≡ ok s')
sessions-Run_feeds_example = sessions-Run_feeds one_letter letter fed-Run

abbrev ending : UdpConn
ending = record { id = 1; d = empty_defragger; receive_ch = letter ∷ []; closed = true }

empty_defragger-IsCounted : IsCounted empty_defragger
empty_defragger-IsCounted = record { few = omega arith; counted = refl }

closed-Delivers_example :
    (d' : Defragger) × (outs : List (Option UdpMessage)) × (feed_all empty_defragger (letter ∷ [])
      ≡ ok (d', outs))
    × Delivers ending (completed outs)
closed-Delivers_example = closed-Delivers ending refl empty_defragger-IsCounted (omega arith, tt)
