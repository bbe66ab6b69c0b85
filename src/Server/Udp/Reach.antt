-- ===== src/Server/Udp/Reach.antt =====
-- The runs of the server's UDP sessions: the goroutines of core/server/udp.go, one locked part at a
-- time, in any order.
use libya_link.Common.{ℕ, ◌<◌, ◌≡◌, refl, ◌⊎◌, Option, List}
use libya_link.Session.Client.{lookup}
use libya_link.Server.Udp.{Manager, Failure, close_with_err, exit_func}
use libya_link.Server.Udp.Counting.{times}
use libya_link.Server.Udp.Invariant.{IsValid}
use libya_link.Server.Udp.Feeding.{session_of}
use libya_link.Common.Result.{ok}
use libya_link.Protocol.Quic.{QuicVarint}
use libya_link.Protocol.Udp.{UdpMessage}
use libya_link.Session.Send.{Answer}
use libya_link.Server.Udp.{Answers, init_conn, new_udp_session_manager}
use libya_link.Server.Udp.Feeding.{defrag}
use libya_link.Server.Udp.Loops.{receive_round}
use libya_link.Server.Udp.Keeps.{close_with_err-IsValid}
use libya_link.Server.Udp.Exits.{exit_func-IsValid, session_of-IsValid}
use libya_link.Server.Udp.Changes.{
  Touched-IsValid, init_conn-IsValid, defrag-Touched, receive_round-Touched,
}

-- The fragment count of a message is a uint8. The main loop finds a session, defragments and connects; the receive loops, the cleanup and the
-- main loop close; whoever closed calls ExitFunc later.
pub data Step {E : Type 0} : Manager E → Manager E → Type 0 where
  finds : (now id : ℕ) (s : Manager E) → Step s (session_of now id s).1
  defrags :
      (now : ℕ) (msg : UdpMessage) (r : ℕ) (s s' : Manager E) (whole : Option UdpMessage)
      → msg.frag_count < 256
      → defrag now msg r s ≡ ok (s', whole)
      → Step s s'
  connects :
      (a : Answers E) (addr : List ℕ) (r : ℕ) (s : Manager E) → Step s (init_conn a addr r s).1
  receives :
      (q : QuicVarint) (io : UdpMessage → Answer E) (now draw r : ℕ)
      (answer : E ⊎ (List ℕ × List ℕ)) (s s' : Manager E) (error : Option (Failure E))
      → receive_round q io now draw r answer s ≡ ok (s', error)
      → Step s s'
  closes : (r : ℕ) (s : Manager E) → Step s (close_with_err r s)
  exits :
      (r : ℕ) (error : Option (Failure E)) (s : Manager E)
      → 0 < times r s.exiting
      → Step s (exit_func r error s)

pub data Run {E : Type 0} : Manager E → Manager E → Type 0 where
  done : (s : Manager E) → Run s s
  step : (s m t : Manager E) → Run s m → Step m t → Run s t

module _ {E : Type 0} where
  step-IsValid : (s s' : Manager E) → Step s s' → IsValid s → IsValid s'
  step-IsValid _ _ (finds now id s) v = session_of-IsValid now id s v
  step-IsValid _ _ (defrags now msg r s s' whole small h) v =
      Touched-IsValid s s' r (defrag-Touched now msg r s s' whole small h) v
  step-IsValid _ _ (connects a addr r s) v = init_conn-IsValid a addr r s v
  step-IsValid _ _ (receives q io now draw r answer s s' error h) v =
      Touched-IsValid s s' r (receive_round-Touched q io now draw r answer s s' error h) v
  step-IsValid _ _ (closes r s) v = close_with_err-IsValid r s v
  step-IsValid _ _ (exits r error s u) v = exit_func-IsValid r error s u v

  pub Run-IsValid : (s t : Manager E) → Run s t → IsValid s → IsValid t
  Run-IsValid _ _ (done s) v = v
  Run-IsValid _ _ (step s m t r u) v = step-IsValid m t u (Run-IsValid s m r v)

  new-IsValid : IsValid {E = E} new_udp_session_manager
  unfolding lookup
  new-IsValid = record {
    held = λ c. refl;
    named = λ k r h. cc;
    live = λ r e g l. cc;
    leaving = λ r e g. cc;
    made = λ r h. refl;
  }

  -- However the goroutines of the server's UDP sessions interleave, the connections that are open
  -- are those that sessions which are not closed hold, each entry of the map leads to a session of
  -- its id which has not exited, and the map has each such session.
  pub server_sessions-Run-IsValid : (s : Manager E) → Run new_udp_session_manager s → IsValid s
  server_sessions-Run-IsValid s r = Run-IsValid new_udp_session_manager s r new-IsValid
