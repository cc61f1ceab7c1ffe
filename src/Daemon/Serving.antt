-- ===== src/Daemon/Serving.antt =====
-- src/daemon/mod.rs: the loop of `run_server` and the tasks on its discovery sockets, as a step on events. Each locks the engine for a whole call, so calls of the tasks stand in sequence.
pub mod Sound
pub mod Replay
pub mod Answer
pub mod Tests
use remote_au.Common.{
  ℕ, zero, suc, Bool, true, false, ◌||◌, ◌==◌, Option, none, some, List, [], ◌∷◌, length, leb, ltb,
  if◌then◌else◌,
}
use remote_au.Crypto.Session.{Crates}
use remote_au.Discovery.Announce.{Announce, respond_to_query}
use remote_au.Discovery.Sources.{SocketAddr}
use remote_au.Mixer.Streams.{GainFloat}
use remote_au.Protocol.Format.{max_datagram}
use remote_au.Transport.Receiver.Engine.{ReceiverEngine, State, rejected, handle_datagram}
use remote_au.Transport.Receiver.Feedback.{feedback_due, expire}
use remote_au.Transport.Receiver.Peer.{JitterFloat}

-- `STREAM_IDLE`, in microseconds.
abbrev pub stream_idle : ℕ
stream_idle = 10000000

-- What wakes the loop or a discovery task: a datagram, with the clock and the epoch that might begin;
-- an error of the socket; a query on a discovery socket; and the two intervals.
pub data ServerEvent : Type 0 where
  datagram : List ℕ → SocketAddr → ℕ → List ℕ → ServerEvent
  recv_failed : ServerEvent
  query : List ℕ → SocketAddr → ServerEvent
  feedback_tick : ℕ → ℕ → ServerEvent
  expire_tick : ℕ → ServerEvent

module _ (crates : Crates) (hex_encode : List ℕ → List ℕ) (j : JitterFloat) (g : GainFloat) where
  -- A step: the state, what is sent, and whether the loop is left.
  pub record ServerTurn : Type 0 where
    pub next : State j g
    pub sent : List (SocketAddr × List ℕ)
    pub left : Bool

  module _ (invitation : List ℕ) (template : Announce) where
    -- The answer to a query under the engine's epoch.
    pub answer_to : State j g → List ℕ → Option (List ℕ)
    answer_to s packet =
        respond_to_query crates packet invitation (record template { epoch = s.0.epoch })

    by_answer : State j g → List ℕ → SocketAddr → ℕ → List ℕ → Option (List ℕ) → ServerTurn
    by_answer s packet src clock fresh none = record {
      next = handle_datagram crates hex_encode j g s.0 s.1 packet src clock fresh;
      sent = [];
      left = false;
    }
    by_answer s packet src clock fresh (some answer) = record {
      next = s;
      sent = (src, answer) ∷ [];
      left = false;
    }

    pub on_datagram : State j g → List ℕ → SocketAddr → ℕ → List ℕ → ServerTurn
    on_datagram s packet src clock fresh =
        if length packet == 0 || ltb max_datagram (length packet)
        then record { next = (rejected j s.0, s.1); sent = []; left = false }
        else by_answer s packet src clock fresh
            (if leb (length packet) 512 then answer_to s packet else none)

    sent_answer : State j g → SocketAddr → Option (List ℕ) → ServerTurn
    sent_answer s src none = record { next = s; sent = []; left = false }
    sent_answer s src (some answer) = record { next = s; sent = (src, answer) ∷ []; left = false }

    -- The task of a discovery socket.
    pub on_query : State j g → List ℕ → SocketAddr → ServerTurn
    on_query s packet src =
        sent_answer s src
          (if length packet == 0 || ltb 512 (length packet) then none else answer_to s packet)

    pub server_turn : State j g → ServerEvent → ServerTurn
    server_turn s (datagram packet src clock fresh) = on_datagram s packet src clock fresh
    server_turn s recv_failed = record { next = s; sent = []; left = true }
    server_turn s (query packet src) = on_query s packet src
    server_turn s (feedback_tick now clock) =
        let (next, packets) = feedback_due crates hex_encode j g s.0 s.1 now clock in
        record { next = next; sent = packets; left = false }
    server_turn s (expire_tick now) = record {
      next = expire crates hex_encode j g s.0 s.1 stream_idle now;
      sent = [];
      left = false;
    }

    -- The loop, until it is left.
    pub serve_all : State j g → List ServerEvent → State j g
    serve_all s [] = s
    serve_all s (event ∷ events) =
        let t = server_turn s event in
        let rest = serve_all t.next events in if t.left then t.next else rest
