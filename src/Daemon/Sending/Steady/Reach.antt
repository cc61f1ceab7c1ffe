-- ===== src/Daemon/Sending/Steady/Reach.antt =====
-- The states that the sending loop (`run_sender` of src/daemon/mod.rs) reaches.
use remote_au.Common.{ℕ, ◌+◌, ◌≡◌, true, false, none, some, Option, List}
use remote_au.Crypto.Session.{Crates}
use remote_au.Daemon.Select.{Wanted}
use remote_au.Daemon.Sending.{
  Sending, Event, hello_due, probe_due, audio_due, datagram, recv_failed, verified, verify_due,
  device_changed, find_node, head_of_loop, turn, enabled,
}
use remote_au.Discovery.Sources.{SocketAddr, Answer}
use remote_au.Transport.Adapt.State.{LossFloat}
use remote_au.Daemon.Sending.Steady.{Steady}

module _ (crates : Crates) (f : LossFloat) where
  module _ (wanted : Wanted) (direct : List SocketAddr) (instance_id : List ℕ) where
    -- With a node that verification found, if any.
    abbrev pub missed_after : ℕ → Option Answer → ℕ
    missed_after n none = n + 1
    missed_after n (some node) = 0

    -- The verifications in a row that missed the receiver, `n` before an event.
    abbrev pub missed_in_row : ℕ → Event → ℕ
    missed_in_row n (verified (some nodes) now) =
        missed_after n (find_node wanted instance_id nodes)
    missed_in_row n (verified none now) = n
    missed_in_row n (hello_due now) = n
    missed_in_row n (probe_due now) = n
    missed_in_row n (audio_due pcm now) = n
    missed_in_row n (datagram packet now) = n
    missed_in_row n (recv_failed now) = n
    missed_in_row n (verify_due now) = n
    missed_in_row n (device_changed now) = n

    -- The states that turns reach from a state without leaving the loop, by branches that are enabled,
    -- with the verifications in a row that missed the receiver.
    pub data Reaches (s : Sending f) : ℕ → Sending f → Type 0 where
      here : Reaches s 0 s
      after :
          {n : ℕ} {t : Sending f} (now : ℕ) (event : Event)
          → Reaches s n t
          → enabled crates f (head_of_loop crates f t now) event ≡ true
          → (turn crates f t wanted direct instance_id now event).left ≡ false
          → Reaches s
              (missed_in_row n event)
              (turn crates f t wanted direct instance_id now event).next
