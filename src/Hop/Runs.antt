-- ===== src/Hop/Runs.antt =====
-- A run of the hopping connection, and the theorems at it.
use libya_link.Common.{ℕ, ◌≡◌, refl, ◌≢◌, false, none, some, [], ◌∷◌, arith}
use libya_link.Common.Result.{ok, err, panic}
use libya_link.Hop.{
  opened, closed, read_buffer, HopConn, draw_addr, move_to, new_udp_hop_packet_conn, hop, write_to,
  set_read_buffer,
}
use libya_link.Hop.Invariant.{IsValid, Run, done, step, hops, sets_read}
use mathlib.Core.Option.{some-injective}
use libya_link.Hop.Reach.{reachable-IsValid, reachable_never_panics}

abbrev fresh_conn : HopConn ℕ
fresh_conn = record {
  addr = 9;
  addrs = 70 ∷ 71 ∷ 72 ∷ [];
  prev_conn = none;
  current_conn = 4;
  addr_index = 2;
  read_buffer_size = 0;
  write_buffer_size = 0;
  recv_queue = [];
  is_closed = false;
  calls = opened 4 ∷ [];
}

abbrev sized_conn : HopConn ℕ
sized_conn = record fresh_conn { read_buffer_size = 8; calls = read_buffer 4 8 ∷ opened 4 ∷ [] }

abbrev hopped : HopConn ℕ
hopped = record fresh_conn {
  read_buffer_size = 8;
  prev_conn = some 4;
  current_conn = 5;
  addr_index = 1;
  calls = read_buffer 5 8 ∷ opened 5 ∷ read_buffer 4 8 ∷ opened 4 ∷ [];
}

starts : new_udp_hop_packet_conn 9 (70 ∷ 71 ∷ 72 ∷ []) (some 4) 5 ≡ ok fresh_conn
unfolding new_udp_hop_packet_conn
starts = refl

hop_runs : hop (some 5) 7 sized_conn ≡ ok hopped
unfolding hop draw_addr move_to
hop_runs = refl

-- A second hop closes the first socket.
hop_closes :
    hop (some 6) 0 hopped
    ≡ ok (record hopped {
      prev_conn = some 5;
      current_conn = 6;
      addr_index = 0;
      calls =
          read_buffer 6 8
          ∷ closed 4
          ∷ opened 6
          ∷ read_buffer 5 8
          ∷ opened 5
          ∷ read_buffer 4 8
          ∷ opened 4
          ∷ [];
    })
unfolding hop draw_addr move_to
hop_closes = refl

sized-Run : Run fresh_conn sized_conn
unfolding set_read_buffer
sized-Run = step fresh_conn fresh_conn sized_conn (done fresh_conn) (sets_read 8 none fresh_conn)

hopped-Run : Run fresh_conn hopped
hopped-Run = step fresh_conn sized_conn hopped sized-Run (
    hops (some 5) 7 sized_conn hopped
      (λ conn e. (λ f. omega (arith, some-injective 5 conn e, f), λ p q. cc)) hop_runs)

reachable-IsValid_example : IsValid hopped
reachable-IsValid_example =
    reachable-IsValid 9 (70 ∷ 71 ∷ 72 ∷ []) (some 4) 5 fresh_conn hopped starts hopped-Run

reachable_never_panics_example :
    ((write_to (1 ∷ []) (err 5) hopped).1 ≢ panic) × (hop (some 6) 0 hopped ≢ panic)
reachable_never_panics_example =
    reachable_never_panics 9 (70 ∷ 71 ∷ 72 ∷ []) (some 4) (some 6) 5 0 fresh_conn hopped (1 ∷ [])
      (err 5) starts hopped-Run (λ e. cc)
