-- ===== src/Transport/Receiver/Run/Replay.antt =====
-- Replays at the receiving engine.
use remote_au.Common.{ℕ, ◌≡◌, ◌≢◌, some, List, [], ◌∷◌, All}
use remote_au.Crypto.Session.{Crates}
use remote_au.Discovery.Sources.{SocketAddr}
use remote_au.Mixer.Streams.{GainFloat, Mixer}
use remote_au.Protocol.Wire.Header.{HeaderView, parse_packet}
use remote_au.Transport.Receiver.Engine.{State, with_history_cap, handle_datagram}
use remote_au.Transport.Receiver.Engine.Accepted.{handle_datagram-Leaves}
use remote_au.Transport.Receiver.Engine.Spent.{Spent, Refused, Spent-Moves, Spent-Refused}
use remote_au.Transport.Receiver.Peer.{JitterFloat}
use remote_au.Transport.Receiver.Run.{
  Op, datagram, feedback, expiry, Avoids, run_op, run, run_op-Moves, run-SoundEngine,
}

module _ (crates : Crates) (hex_encode : List ℕ → List ℕ) (j : JitterFloat) (g : GainFloat) where
  run_op-Spent :
      (epoch session fresh : List ℕ) (counter : ℕ) (s : State j g) (op : Op)
      → fresh ≢ epoch
      → Avoids epoch op
      → Spent j epoch session counter s.0
      → Spent j epoch session counter (run_op crates hex_encode j g s op).0
  run_op-Spent epoch session fresh counter s (datagram packet src clock f) ne a h =
      Spent-Moves crates j epoch session f counter s.0 _ a
        (run_op-Moves crates hex_encode j g fresh s (datagram packet src clock f)) h
  run_op-Spent epoch session fresh counter s (feedback now clock) ne a h =
      Spent-Moves crates j epoch session fresh counter s.0 _ ne
        (run_op-Moves crates hex_encode j g fresh s (feedback now clock)) h
  run_op-Spent epoch session fresh counter s (expiry max_idle now) ne a h =
      Spent-Moves crates j epoch session fresh counter s.0 _ ne
        (run_op-Moves crates hex_encode j g fresh s (expiry max_idle now)) h

  run-Spent :
      (epoch session fresh : List ℕ) (counter : ℕ) (ops : List Op) (s : State j g)
      → fresh ≢ epoch
      → All (Avoids epoch) ops
      → Spent j epoch session counter s.0
      → Spent j epoch session counter (run crates hex_encode j g s ops).0
  unfolding run
  run-Spent epoch session fresh counter [] s ne a h = h
  run-Spent epoch session fresh counter (op ∷ ops) s ne (a, rest) h =
      run-Spent epoch session fresh counter ops (run_op crates hex_encode j g s op) ne rest
        (run_op-Spent epoch session fresh counter s op ne a h)

  -- A datagram that a run from a new engine handles without counting it as rejected is refused whenever it comes again, from any address, after any datagrams, feedback, expiry and rotation in between, if no random epoch drawn since is the datagram's: it is counted as rejected, and neither the received count, the epoch nor the mixer changes.
  pub run-Refused :
      (token epoch : List ℕ) (history_cap : ℕ) (mixer : Mixer g) (before after : List Op)
      (packet : List ℕ) (view : HeaderView) (src src' : SocketAddr) (clock clock' : ℕ)
      (fresh fresh' : List ℕ)
      → parse_packet packet ≡ some view
      → let s =
          run crates hex_encode j g (with_history_cap j token epoch history_cap, mixer) before in
        let taken = handle_datagram crates hex_encode j g s.0 s.1 packet src clock fresh in
        taken.0.packets_rejected ≡ s.0.packets_rejected
        → fresh ≢ view.epoch
        → All (Avoids view.epoch) after
        → let t = run crates hex_encode j g taken after in
          Refused j t.0 t.1
            (handle_datagram crates hex_encode j g t.0 t.1 packet src' clock' fresh')
  run-Refused token epoch history_cap mixer before after packet view src src' clock clock' fresh
        fresh' parsed kept ne avoids =
      let s =
        run crates hex_encode j g (with_history_cap j token epoch history_cap, mixer) before in
      let taken = handle_datagram crates hex_encode j g s.0 s.1 packet src clock fresh in
      let t = run crates hex_encode j g taken after in
      Spent-Refused crates hex_encode j g fresh' t.0 t.1 packet src' clock' view parsed (
        run-Spent view.epoch view.session fresh view.counter after taken ne avoids (
          handle_datagram-Leaves crates hex_encode j g fresh s.0 s.1 packet src clock view parsed ne
            (run-SoundEngine crates hex_encode j g token epoch history_cap mixer before).0 kept))
