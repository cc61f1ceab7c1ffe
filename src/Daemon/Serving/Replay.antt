-- ===== src/Daemon/Serving/Replay.antt =====
-- Runs of the receiving daemon (`run_server` of src/daemon/mod.rs) from its start: its invariant, and replays.
use remote_au.Common.{
  ℕ, ◌≡◌, ◌≢◌, ◌∙◌, ◌⊎◌, inl, inr, refl, sym, ap, Bool, true, false, Option, none, some, List, [],
  ◌∷◌, if◌then◌else◌, All, arith,
}
use mathlib.Core.Path.{subst}
use remote_au.Crypto.Session.{Crates}
use remote_au.Daemon.Serving.{
  ServerEvent, datagram, ServerTurn, by_answer, on_datagram, server_turn, serve_all,
}
use remote_au.Daemon.Serving.Sound.{
  Avoids, fresh_of, fresh_of-Avoids, server_turn-Moves, serve_all_keeps,
}
use remote_au.Discovery.Announce.{Announce}
use remote_au.Discovery.Sources.{SocketAddr}
use remote_au.Mixer.Streams.{GainFloat, Mixer}
use remote_au.Protocol.Wire.Header.{HeaderView, parse_packet}
use remote_au.Transport.Receiver.Engine.{State, rejected, with_history_cap, handle_datagram}
use remote_au.Transport.Receiver.Engine.Accepted.{handle_datagram-Leaves}
use remote_au.Transport.Receiver.Engine.Moves.{SoundEngine, with_history_cap-SoundEngine}
use remote_au.Transport.Receiver.Engine.Spent.{Spent, Refused, Spent-Moves, Spent-Refused}
use remote_au.Transport.Receiver.Peer.{JitterFloat}

module _ (crates : Crates) (hex_encode : List ℕ → List ℕ) (j : JitterFloat) (g : GainFloat)
    (invitation : List ℕ) (template : Announce) where
  abbrev handled : State j g → List ℕ → SocketAddr → ℕ → List ℕ → State j g
  handled s packet src clock fresh =
      handle_datagram crates hex_encode j g s.0 s.1 packet src clock fresh

  abbrev step : State j g → ServerEvent → ServerTurn crates hex_encode j g
  step s event = server_turn crates hex_encode j g invitation template s event

  abbrev runs : State j g → List ServerEvent → State j g
  runs s events = serve_all crates hex_encode j g invitation template s events

  -- The state of the daemon is its engine's, with the token and the cap that it began with.
  pub record Serves (token : List ℕ) (history_cap : ℕ) (s : State j g) : Type 0 where
    pub sound : SoundEngine crates j s.0
    pub same_token : s.0.token ≡ token
    pub same_cap : s.0.history_cap ≡ history_cap

  -- From a new engine on, whatever datagrams and queries arrive and however the intervals fall between them, the receiving daemon's engine keeps its token and history cap and is sound: no more peers than the cap, each with the keys of the token, the current epoch and its session, a window that calls of `commit` can reach, and a buffer of 15 to 150 ms.
  pub serve_all-Serves :
      (token epoch : List ℕ) (history_cap : ℕ) (mixer : Mixer g) (events : List ServerEvent)
      → Serves token history_cap (runs (with_history_cap j token epoch history_cap, mixer) events)
  unfolding with_history_cap
  serve_all-Serves token epoch history_cap mixer events =
      serve_all_keeps crates hex_encode j g invitation template (Serves token history_cap)
        (λ event. Unit {0})
        (λ s event q h.
          let m = server_turn-Moves crates hex_encode j g invitation template [] s event in
          record {
            sound = m.sound h.sound;
            same_token = m.token ∙ h.same_token;
            same_cap = m.cap ∙ h.same_cap;
          })
        events _ (anything events)
        (record {
          sound = with_history_cap-SoundEngine crates j token epoch history_cap;
          same_token = refl;
          same_cap = refl;
        })
    where
      anything : (es : List ServerEvent) → All (λ event. Unit {0}) es
      anything [] = tt
      anything (event ∷ es) = (tt, anything es)

  -- A datagram that is not answered and not counted as rejected has been handled by the engine.
  was_handled :
      (s : State j g) (packet : List ℕ) (src : SocketAddr) (clock : ℕ) (fresh : List ℕ) (bad : Bool)
      (answer : Option (List ℕ))
      → let t : ServerTurn crates hex_encode j g =
          if bad
          then record { next = (rejected j s.0, s.1); sent = []; left = false }
          else by_answer crates hex_encode j g invitation template s packet src clock fresh
              answer in
        t.sent ≡ []
        → t.next.0.packets_rejected ≡ s.0.packets_rejected
        → (bad ≡ false) × (t.next ≡ handled s packet src clock fresh)
  unfolding by_answer
  was_handled s packet src clock fresh true answer h k = absurd (omega (arith, k))
  was_handled s packet src clock fresh false none h k = (refl, refl)
  was_handled s packet src clock fresh false (some a) h k = cc

  again_answered :
      (t : State j g) (packet : List ℕ) (src : SocketAddr) (clock : ℕ) (fresh : List ℕ) (bad : Bool)
      (answer : Option (List ℕ))
      → bad ≡ false
      → Refused j t.0 t.1 (handled t packet src clock fresh)
      → let again : ServerTurn crates hex_encode j g =
          if bad
          then record { next = (rejected j t.0, t.1); sent = []; left = false }
          else by_answer crates hex_encode j g invitation template t packet src clock fresh
              answer in
        (again.next ≡ t) ⊎ Refused j t.0 t.1 again.next
  unfolding by_answer
  again_answered t packet src clock fresh true answer h r = cc
  again_answered t packet src clock fresh false none h r = inr r
  again_answered t packet src clock fresh false (some a) h r = inl refl

  -- Replays at the receiving daemon: a datagram that its loop, run from a new engine, has handled, neither answering it as a query nor counting it as rejected, has no effect when it comes again, from any address, after any events in between, if no random epoch drawn since is the datagram's. Its state stays as it is, or it counts the datagram as rejected, and the received count, the epoch and the mixer stay.
  pub server_turn-again :
      (token epoch : List ℕ) (history_cap : ℕ) (mixer : Mixer g) (before after : List ServerEvent)
      (packet : List ℕ) (view : HeaderView) (src src' : SocketAddr) (clock clock' : ℕ)
      (fresh fresh' : List ℕ)
      → parse_packet packet ≡ some view
      → let s = runs (with_history_cap j token epoch history_cap, mixer) before in
        let first = step s (datagram packet src clock fresh) in
        first.sent ≡ []
        → first.next.0.packets_rejected ≡ s.0.packets_rejected
        → fresh ≢ view.epoch
        → All (Avoids view.epoch) after
        → let t = runs first.next after in
          let again = (step t (datagram packet src' clock' fresh')).next in
          (again ≡ t) ⊎ Refused j t.0 t.1 again
  unfolding server_turn on_datagram
  server_turn-again token epoch history_cap mixer before after packet view src src' clock clock'
        fresh fresh' parsed unanswered kept ne avoids =
      let s = runs (with_history_cap j token epoch history_cap, mixer) before in
      let first = step s (datagram packet src clock fresh) in
      let t = runs first.next after in
      let (good, same) = was_handled s packet src clock fresh _ _ unanswered kept in
      let sound = (serve_all-Serves token epoch history_cap mixer before).sound in
      let spent : Spent j view.epoch view.session view.counter first.next.0 =
        subst (λ (u : State j g). Spent j view.epoch view.session view.counter u.0) (sym same)
          (handle_datagram-Leaves crates hex_encode j g fresh s.0 s.1 packet src clock view parsed
            ne sound (ap (λ (u : State j g). u.0.packets_rejected) (sym same) ∙ kept)) in
      let still =
        serve_all_keeps crates hex_encode j g invitation template
          (λ u. Spent j view.epoch view.session view.counter u.0) (Avoids view.epoch)
          (λ u event a h.
            Spent-Moves crates j view.epoch view.session (fresh_of fresh event) view.counter u.0 _
              (fresh_of-Avoids view.epoch fresh event ne a)
              (server_turn-Moves crates hex_encode j g invitation template fresh u event) h)
          after first.next avoids spent in
      again_answered t packet src' clock' fresh' _ _ good
        (Spent-Refused crates hex_encode j g fresh' t.0 t.1 packet src' clock' view parsed still)
