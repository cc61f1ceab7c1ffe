-- ===== src/Daemon/Sending/Steady.antt =====
-- The variables of the sending loop (src/daemon/mod.rs) over its turns.
pub mod Reach
use remote_au.Common.{
  All, ℕ, zero, suc, ◌*◌, ◌%◌, sat_add, u32_max, ◌≤◌, ◌<◌, ◌≡◌, true, false, ◌==◌, some, [], ◌∷◌,
  length, Option-cases,
}
use remote_au.Crypto.Session.{Crates}
use remote_au.Daemon.Sending.Accounts.{total}
use remote_au.Daemon.Select.{Wanted, ChosenPeer}
use remote_au.Daemon.Sending.{
  Sending, Turn, Event, hello_due, probe_due, audio_due, datagram, recv_failed, verified,
  verify_due, device_changed, find_node, begin_sending, count_probe, on_probe, by_node, on_verified,
  handle_event, turn, enabled,
}
use remote_au.Transport.Adapt.Probe.{plan_probe, max_probe_bytes, probe_payload_bytes}
use remote_au.Transport.Adapt.Probe.Laws.{IsProbe}
use remote_au.Protocol.Wire.Bodies.{Steps}
use remote_au.Transport.Adapt.State.{LossFloat}
use remote_au.Transport.Sender.{SenderEngine}

module _ (crates : Crates) (f : LossFloat) where
  -- What the loop relies on at its head, after `n` verifications in a row that missed the receiver.
  pub record Steady (n : ℕ) (s : Sending f) : Type 0 where
    pub at : s.engine.addr ≡ some s.session_addr
    pub patience : s.misses ≡ n % 3
    pub whole : s.plan ≡ plan_probe max_probe_bytes
    pub cursor : s.plan_at ≤ length s.plan
    pub counted : total s.sent ≤ s.plan_at * probe_payload_bytes
    pub timed : s.reprobe ≡ true → s.probing ≡ false

  -- A turn that does not leave the loop.
  abbrev Stays : ℕ → Turn f → Type 0
  Stays n t = t.left ≡ false → Steady n t.next
