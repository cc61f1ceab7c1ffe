-- ===== src/Transport/Receiver/Run.antt =====
-- Runs of the receiving engine and its mixer, as the daemon drives them: datagrams, feedback and expiry in any order.
pub mod Replay
pub mod Tests
use remote_au.Common.{ℕ, ◌≡◌, ◌≢◌, refl, ◌∙◌, List, [], ◌∷◌, All, arith}
use remote_au.Crypto.Session.{Crates}
use remote_au.Discovery.Sources.{SocketAddr}
use remote_au.Mixer.Streams.{GainFloat, Mixer}
use remote_au.Transport.Receiver.Engine.{ReceiverEngine, State, with_history_cap, handle_datagram}
use remote_au.Transport.Receiver.Engine.Handler.{handle_datagram-Moves}
use remote_au.Transport.Receiver.Engine.Moves.{SoundEngine, Moves, with_history_cap-SoundEngine}
use remote_au.Transport.Receiver.Feedback.{feedback_due, expire}
use remote_au.Transport.Receiver.Feedback.Moves.{feedback_due-Moves, expire-Moves}
use remote_au.Transport.Receiver.Peer.{JitterFloat}

pub data Op : Type 0 where
  datagram : List ℕ → SocketAddr → ℕ → List ℕ → Op
  feedback : ℕ → ℕ → Op
  expiry : ℕ → ℕ → Op

-- The epoch that the operation would begin, had the engine to begin one.
abbrev pub fresh_of : List ℕ → Op → List ℕ
fresh_of epoch (datagram packet src clock fresh) = fresh
fresh_of epoch (feedback now clock) = epoch
fresh_of epoch (expiry max_idle now) = epoch

-- A random epoch is never the given one.
abbrev pub Avoids : List ℕ → Op → Type 0
Avoids epoch (datagram packet src clock fresh) = fresh ≢ epoch
Avoids epoch (feedback now clock) = Unit {0}
Avoids epoch (expiry max_idle now) = Unit {0}

module _ (crates : Crates) (hex_encode : List ℕ → List ℕ) (j : JitterFloat) (g : GainFloat) where
  pub run_op : State j g → Op → State j g
  run_op s (datagram packet src clock fresh) =
      handle_datagram crates hex_encode j g s.0 s.1 packet src clock fresh
  run_op s (feedback now clock) = (feedback_due crates hex_encode j g s.0 s.1 now clock).0
  run_op s (expiry max_idle now) = expire crates hex_encode j g s.0 s.1 max_idle now

  pub run : State j g → List Op → State j g
  run s [] = s
  run s (op ∷ ops) = run (run_op s op) ops

  pub run_op-Moves :
      (fresh : List ℕ) (s : State j g) (op : Op)
      → Moves crates j (fresh_of fresh op) s.0 (run_op s op).0
  unfolding run_op
  run_op-Moves fresh s (datagram packet src clock f) =
      handle_datagram-Moves crates hex_encode j g f s.0 s.1 packet src clock
  run_op-Moves fresh s (feedback now clock) =
      feedback_due-Moves crates hex_encode j g fresh s.0 s.1 now clock
  run_op-Moves fresh s (expiry max_idle now) =
      expire-Moves crates hex_encode j g fresh s.0 s.1 max_idle now

  run_kept :
      (ops : List Op) (s : State j g)
      → SoundEngine crates j s.0
      → SoundEngine crates j (run s ops).0
        × ((run s ops).0.token ≡ s.0.token)
        × ((run s ops).0.history_cap ≡ s.0.history_cap)
  unfolding run
  run_kept [] s h = (h, refl, refl)
  run_kept (op ∷ ops) s h =
      let m = run_op-Moves [] s op in
      let (sound, token, cap) = run_kept ops (run_op s op) (m.sound h) in
      (sound, token ∙ m.token, cap ∙ m.cap)

  -- From a new engine on, whatever datagrams arrive, feedback is sent and streams expire, token and history cap stay, no more peers than the cap are kept, and each has the keys derived from the token, the current epoch and its session, a replay window that calls of `commit` can reach, and a buffer of 15 to 150 ms.
  pub run-SoundEngine :
      (token epoch : List ℕ) (history_cap : ℕ) (m : Mixer g) (ops : List Op)
      → let out = (run (with_history_cap j token epoch history_cap, m) ops).0 in
        SoundEngine crates j out × (out.token ≡ token) × (out.history_cap ≡ history_cap)
  unfolding with_history_cap
  run-SoundEngine token epoch history_cap m ops =
      run_kept ops (with_history_cap j token epoch history_cap, m)
        (with_history_cap-SoundEngine crates j token epoch history_cap)
