-- ===== src/Daemon/Serving/Sound.antt =====
-- The receiving daemon (`run_server` of src/daemon/mod.rs) over its events: what its engine keeps, and replays.
use remote_au.Common.{
  ℕ, ◌≡◌, ◌≢◌, inl, inr, refl, sym, Bool, true, false, ◌||◌, ◌==◌, Option, none, some, List, [],
  ◌∷◌, length, ltb, if◌then◌else◌, All, Bool-cases,
}
use mathlib.Core.Path.{subst}
use remote_au.Crypto.Session.{Crates}
use remote_au.Daemon.Serving.{
  stream_idle, ServerEvent, datagram, recv_failed, query, feedback_tick, expire_tick, ServerTurn,
  by_answer, on_datagram, sent_answer, on_query, server_turn, serve_all,
}
use remote_au.Discovery.Announce.{Announce}
use remote_au.Discovery.Sources.{SocketAddr}
use remote_au.Mixer.Streams.{GainFloat}
use remote_au.Protocol.Format.{max_datagram}
use remote_au.Transport.Receiver.Engine.{State}
use remote_au.Transport.Receiver.Engine.Handler.{handle_datagram-Moves}
use remote_au.Transport.Receiver.Engine.Moves.{Moves, Moves-refl, Moves-rejected}
use remote_au.Transport.Receiver.Feedback.Moves.{feedback_due-Moves, expire-Moves}
use remote_au.Transport.Receiver.Peer.{JitterFloat}

-- The epoch that an event might begin.
abbrev pub fresh_of : List ℕ → ServerEvent → List ℕ
fresh_of fresh (datagram packet src clock f) = f
fresh_of fresh recv_failed = fresh
fresh_of fresh (query packet src) = fresh
fresh_of fresh (feedback_tick now clock) = fresh
fresh_of fresh (expire_tick now) = fresh

-- A random epoch is never the given one.
abbrev pub Avoids : List ℕ → ServerEvent → Type 0
Avoids epoch (datagram packet src clock f) = f ≢ epoch
Avoids epoch recv_failed = Unit {0}
Avoids epoch (query packet src) = Unit {0}
Avoids epoch (feedback_tick now clock) = Unit {0}
Avoids epoch (expire_tick now) = Unit {0}

pub fresh_of-Avoids :
    (epoch fresh : List ℕ) (event : ServerEvent)
    → fresh ≢ epoch
    → Avoids epoch event
    → fresh_of fresh event ≢ epoch
fresh_of-Avoids epoch fresh (datagram packet src clock f) ne a = a
fresh_of-Avoids epoch fresh recv_failed ne a = ne
fresh_of-Avoids epoch fresh (query packet src) ne a = ne
fresh_of-Avoids epoch fresh (feedback_tick now clock) ne a = ne
fresh_of-Avoids epoch fresh (expire_tick now) ne a = ne

module _ (crates : Crates) (hex_encode : List ℕ → List ℕ) (j : JitterFloat) (g : GainFloat)
    (invitation : List ℕ) (template : Announce) where
  abbrev Turn : Type 0
  Turn = ServerTurn crates hex_encode j g

  abbrev step : State j g → ServerEvent → Turn
  step s event = server_turn crates hex_encode j g invitation template s event

  Moves-if :
      (fresh : List ℕ) (s : State j g) (b : Bool) (x y : Turn)
      → Moves crates j fresh s.0 x.next.0
      → Moves crates j fresh s.0 y.next.0
      → Moves crates j fresh s.0 (if b then x else y).next.0
  Moves-if fresh s true x y p q = p
  Moves-if fresh s false x y p q = q

  by_answer-Moves :
      (s : State j g) (packet : List ℕ) (src : SocketAddr) (clock : ℕ) (fresh : List ℕ)
      (answer : Option (List ℕ))
      → Moves crates j fresh s.0
          (by_answer crates hex_encode j g invitation template s packet src clock fresh
            answer).next.0
  unfolding by_answer
  by_answer-Moves s packet src clock fresh none =
      handle_datagram-Moves crates hex_encode j g fresh s.0 s.1 packet src clock
  by_answer-Moves s packet src clock fresh (some answer) = Moves-refl crates j fresh s.0

  sent_answer-same :
      (s : State j g) (src : SocketAddr) (answer : Option (List ℕ))
      → (sent_answer crates hex_encode j g invitation template s src answer).next ≡ s
  unfolding sent_answer
  sent_answer-same s src none = refl
  sent_answer-same s src (some answer) = refl

  pub server_turn-Moves :
      (fresh : List ℕ) (s : State j g) (event : ServerEvent)
      → Moves crates j (fresh_of fresh event) s.0 (step s event).next.0
  unfolding server_turn on_datagram on_query
  server_turn-Moves fresh s (datagram packet src clock f) =
      Moves-if f s (length packet == 0 || ltb max_datagram (length packet)) _ _
        (Moves-rejected crates j f s.0 s.0 (Moves-refl crates j f s.0))
        (by_answer-Moves s packet src clock f _)
  server_turn-Moves fresh s recv_failed = Moves-refl crates j fresh s.0
  server_turn-Moves fresh s (query packet src) =
      subst (λ (t : State j g). Moves crates j fresh s.0 t.0) (sym (sent_answer-same s src _))
        (Moves-refl crates j fresh s.0)
  server_turn-Moves fresh s (feedback_tick now clock) =
      feedback_due-Moves crates hex_encode j g fresh s.0 s.1 now clock
  server_turn-Moves fresh s (expire_tick now) =
      expire-Moves crates hex_encode j g fresh s.0 s.1 stream_idle now

  -- What every turn keeps, the loop keeps.
  pub serve_all_keeps :
      (P : State j g → Type 0) (Q : ServerEvent → Type 0)
      → ((s : State j g) (event : ServerEvent) → Q event → P s → P (step s event).next)
      → (events : List ServerEvent) (s : State j g) → All Q events
      → P s
      → P (serve_all crates hex_encode j g invitation template s events)
  unfolding serve_all
  serve_all_keeps P Q keep [] s qs p = p
  serve_all_keeps P Q keep (event ∷ events) s qs p = elim (Bool-cases (step s event).left) [
    | inl over ↦ simp over (keep s event qs.0 p)
    | inr on ↦
        simp on (serve_all_keeps P Q keep events (step s event).next qs.1 (keep s event qs.0 p))
  ]
