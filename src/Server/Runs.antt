-- ===== src/Server/Runs.antt =====
-- Runs of the server's UDP sessions, and their theorems at concrete inputs.
use libya_link.Common.{
  ℕ, ◌<◌, ◌≡◌, refl, inr, true, false, none, some, [], ◌∷◌, arith, get_elem?, codes,
}
use libya_link.Common.Result.{ok}
use libya_link.Protocol.Udp.{UdpMessage}
use libya_link.Frag.Defragger.{feed}
use libya_link.Session.Client.{lookup}
use libya_link.Server.Udp.{
  Entry, Manager, Answers, connected, new_udp_session_entry, new_udp_session_manager, init_entry,
  init_conn, dial_func, hook_and_dial, dial, use_dialed,
}
use libya_link.Server.Udp.Feeding.{
  Fed, writes, find_or_add, session_of, feed_manager, defrag, defrag_entry, feed_whole, after_init,
  write_entry, target,
}
use libya_link.Server.Udp.Loops.{cleanup}
use libya_link.Server.Udp.Invariant.{IsValid}
use libya_link.Server.Udp.Reach.{Run, done, step, finds, connects, server_sessions-Run-IsValid}
use libya_link.Server.Udp.Lifetime.{Follows, server_sessions-Run-Follows}
use libya_link.Server.Udp.Cleanup.{cleanup-closes}
use libya_link.Server.Udp.Counting.{times}
use libya_link.Server.Udp.Address.{Translates, init_conn-Translates}
use libya_link.Server.Udp.Whole.{Sound, server_feed_manager-Run}

-- The hook changes the address.
abbrev hooked : Answers ℕ
hooked = record { hook = inr (codes "b:2"); udp = inr 40 }

abbrev asked : UdpMessage
asked = record {
  session_id = 7;
  packet_id = 0;
  frag_id = 0;
  frag_count = 1;
  addr = codes "a:1";
  body = 1 ∷ 2 ∷ [];
}

abbrev fresh : Entry
fresh = new_udp_session_entry 5 7

abbrev begun : Manager ℕ
begun = (session_of 5 7 new_udp_session_manager).1

abbrev joined : Manager ℕ
joined = (init_conn hooked (codes "a:1") 0 begun).1

begun-Run : Run new_udp_session_manager begun
begun-Run =
    step new_udp_session_manager new_udp_session_manager begun (done new_udp_session_manager)
      (finds 5 7 new_udp_session_manager)

joined-Run : Run new_udp_session_manager joined
joined-Run =
    step new_udp_session_manager begun joined begun-Run (connects hooked (codes "a:1") 0 begun)

begun-fresh : get_elem? begun.entries 0 ≡ some fresh
unfolding session_of find_or_add lookup
begun-fresh = refl

joined_conns : joined.conns ≡ 40 ∷ []
unfolding session_of find_or_add lookup init_conn init_entry dial_func hook_and_dial dial use_dialed
    new_udp_session_entry connected
joined_conns = refl

-- The message goes to the hook's address.
fed_hooked :
    (s : Manager ℕ) × (feed_manager 6 hooked asked new_udp_session_manager
      ≡ ok (writes (some 40) (1 ∷ 2 ∷ []) (codes "b:2"), s))
unfolding session_of find_or_add lookup init_conn init_entry dial_func hook_and_dial dial use_dialed
    new_udp_session_entry connected feed_manager defrag defrag_entry feed feed_whole after_init
    write_entry target
fed_hooked = (_, refl)

server_sessions-Run-IsValid_example : IsValid joined
server_sessions-Run-IsValid_example = server_sessions-Run-IsValid joined joined-Run

server_sessions-Run-Follows_example :
    (e' : Entry) × (get_elem? joined.entries 0 ≡ some e') × Follows fresh e'
server_sessions-Run-Follows_example =
    server_sessions-Run-Follows begun joined 0 fresh
      (step begun begun joined (done begun) (connects hooked (codes "a:1") 0 begun)) begun-fresh

cleanup-closes_example :
    ((cleanup false 9 60 joined).conns ≡ [])
    × ((r : ℕ) (e : Entry)
        → get_elem? (cleanup false 9 60 joined).entries r ≡ some e
        → e.closed ≡ true)
    × ((k r : ℕ) → lookup (cleanup false 9 60 joined).m k ≡ some r → 0 < times r joined.exiting)
cleanup-closes_example = cleanup-closes joined 9 60 joined-Run

init_conn-Translates_example :
    ((init_conn hooked (codes "a:1") 0 begun).0 ≡ none)
    × ((e' : Entry) × (get_elem? (init_conn hooked (codes "a:1") 0 begun).1.entries 0 ≡ some e')
        × (e'.conn ≡ some 40)
        × Translates (codes "a:1") (codes "b:2") e')
unfolding new_udp_session_entry
init_conn-Translates_example =
    init_conn-Translates hooked (codes "a:1") (codes "b:2") 40 0 begun fresh begun-fresh refl refl
      refl refl refl refl (omega arith) (omega arith)

server_feed_manager-Run_example :
    (out : Fed ℕ) × (s' : Manager ℕ) × (feed_manager 6 hooked asked begun ≡ ok (out, s'))
    × Sound out
    × Run begun s'
server_feed_manager-Run_example =
    server_feed_manager-Run 6 hooked asked begun begun-Run (omega arith)
