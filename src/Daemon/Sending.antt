-- ===== src/Daemon/Sending.antt =====
-- src/daemon/mod.rs: the inner loop of `run_sender`, which keeps one receiver. Each branch of its `select!`
-- is an event with its readings of the clock, in microseconds; a turn handles one event. The capture
-- device, the sockets and the discovery task are outside: their results are parts of the events.
pub mod Nonces
pub mod Accounts
pub mod Steady
pub mod Tests
use remote_au.Common.{
  ℕ, ◌+◌, ◌-◌, Bool, true, false, not, ◌||◌, ◌&&◌, ◌==◌, Option, none, some, List, [], ◌∷◌, length,
  get_elem?, bytes_eq, leb, ltb, if◌then◌else◌, sat_add, u32_max,
}
use remote_au.Crypto.Session.{Crates}
use remote_au.Daemon.Select.{Wanted, ChosenPeer, addr_eq, contains_addr, peer_matches, reach}
use remote_au.Discovery.Sources.{SocketAddr, Answer}
use remote_au.Protocol.Format.{max_datagram}
use remote_au.Protocol.Wire.Bodies.{Steps}
use remote_au.Transport.Adapt.Probe.{ProbePacketSpec, plan_probe, max_probe_bytes}
use remote_au.Transport.Adapt.State.{LossFloat, advance_pace}
use remote_au.Transport.Sender.{
  SenderEngine, no_steps, step_at, with_step, is_bound_to, bind_peer, begin_probe, hello, audio,
  probe, handle_feedback, note_probe,
}

-- The variables of the loop. A `Duration` is its microseconds.
pub record Sending (f : LossFloat) : Type 0 where
  pub engine : SenderEngine f
  pub session_addr : SocketAddr
  pub probing : Bool
  pub gradual : Bool
  pub plan : List ProbePacketSpec
  pub plan_at : ℕ
  pub sent : Steps
  pub next_probe : ℕ
  pub probe_done : Option ℕ
  pub next_audio : ℕ
  pub next_hello : ℕ
  pub next_verify : ℕ
  pub verify_inflight : Bool
  pub misses : ℕ
  pub last_feedback : ℕ
  pub last_train : ℕ
  pub reprobe : Bool

-- A turn: the state, the packet that is sent to `session_addr`, if any, and whether the loop is left.
pub record Turn (f : LossFloat) : Type 0 where
  pub next : Sending f
  pub packet : Option (List ℕ)
  pub left : Bool

-- The branches of the `select!`: the timers, a datagram or an error of the socket, the answer of the
-- discovery task, and a change of the device.
pub data Event : Type 0 where
  hello_due : ℕ → Event
  probe_due : ℕ → Event
  audio_due : List ℕ → ℕ → Event
  datagram : List ℕ → ℕ → Event
  recv_failed : ℕ → Event
  verified : Option (List Answer) → ℕ → Event
  verify_due : ℕ → Event
  device_changed : ℕ → Event

-- `nodes.into_iter().find(|(ann, src)| peer_matches(...))`.
pub find_node : Wanted → List ℕ → List Answer → Option Answer
find_node wanted instance_id [] = none
find_node wanted instance_id (node ∷ nodes) =
    let rest = find_node wanted instance_id nodes in
    if peer_matches node.0 node.1 instance_id wanted then some node else rest

-- `engine.addr() != Some(addr)`, negated.
abbrev pub is_at : Option SocketAddr → SocketAddr → Bool
is_at none addr = false
is_at (some bound) addr = addr_eq bound addr

module _ (crates : Crates) (f : LossFloat) where
  abbrev pub stay : Sending f → Option (List ℕ) → Turn f
  stay s packet = record { next = s; packet = packet; left = false }

  pub begin_train : Sending f → ℕ → Sending f
  begin_train s now = record s {
    engine = begin_probe crates f s.engine;
    plan = plan_probe max_probe_bytes;
    plan_at = 0;
    sent = no_steps;
    next_probe = now;
    probe_done = none;
    probing = true;
    last_train = now;
  }

  -- The initial values of the loop, on an engine whose two hellos are sent, and the first train.
  pub begin_sending : SenderEngine f → ChosenPeer → ℕ → Sending f
  begin_sending engine chosen now =
      begin_train
        (record {
          engine = engine;
          session_addr = chosen.addr;
          probing = false;
          gradual = false;
          plan = [];
          plan_at = 0;
          sent = no_steps;
          next_probe = now;
          probe_done = none;
          next_audio = now;
          next_hello = now + 1000000;
          next_verify = now + 2000000;
          verify_inflight = false;
          misses = 0;
          last_feedback = now;
          last_train = now;
          reprobe = false;
        })
        now

  -- The head of the loop.
  pub head_of_loop : Sending f → ℕ → Sending f
  head_of_loop s now =
      if s.reprobe || (not s.probing && leb 30000000 (now - s.last_train))
      then record (begin_train s now) { reprobe = false }
      else s

  on_hello : Sending f → ℕ → Turn f
  on_hello s now =
      let (engine, packet) = hello crates f s.engine in
      stay (record s { engine = engine; next_hello = now + 1000000 }) packet

  -- `probe_done` behind the plan: the time of the first turn there.
  done_at : Option ℕ → ℕ → ℕ
  done_at none now = now
  done_at (some at) now = at

  on_plan_end : Sending f → ℕ → Turn f
  on_plan_end s now =
      let at = done_at s.probe_done now in
      let waited = record s { probe_done = some at } in
      if leb 1000000 (now - at)
      then stay
          (record waited {
            engine = note_probe crates f s.engine s.sent s.gradual;
            gradual = true;
            probing = false;
            next_audio = now;
          })
          none
      else stay (record waited { next_probe = now + 50000 }) none

  -- The bytes of a probe that was sent.
  pub count_probe : Steps → ProbePacketSpec → Option (List ℕ) → Steps
  count_probe sent spec none = sent
  count_probe sent spec (some packet) =
      with_step sent spec.step (sat_add u32_max (step_at sent spec.step) spec.payload)

  send_spec : Sending f → ProbePacketSpec → ℕ → Turn f
  send_spec s spec now =
      let (engine, packet) = probe crates f s.engine spec.step spec.payload now in
      stay
        (record s {
          engine = engine;
          sent = count_probe s.sent spec packet;
          plan_at = s.plan_at + 1;
          next_probe = now + spec.delay_after;
        })
        packet

  -- By `plan[plan_at]`; there is none behind the plan.
  on_plan : Sending f → ℕ → Option ProbePacketSpec → Turn f
  on_plan s now none = on_plan_end s now
  on_plan s now (some spec) = send_spec s spec now

  on_probe : Sending f → ℕ → Turn f
  on_probe s now = on_plan s now (get_elem? s.plan s.plan_at)

  on_audio : Sending f → List ℕ → ℕ → Turn f
  on_audio s pcm now =
      let (engine, packet) = audio crates f s.engine pcm now in
      stay (record s { engine = engine; next_audio = advance_pace s.next_audio now }) packet

  -- Feedback that the engine took: a short round trip is a sign of life, and a loss of a tenth asks
  -- for a train, unless the last one is younger than ten seconds.
  on_feedback : Sending f → ℕ → Sending f
  on_feedback s now = record s {
    last_feedback = (if ltb s.engine.rtt_us 3000000 then now else s.last_feedback);
    reprobe =
        (if f.at_least s.engine.loss 10 && (not s.probing && leb 10000000 (now - s.last_train))
          then true
          else s.reprobe);
  }

  on_datagram : Sending f → List ℕ → ℕ → Turn f
  on_datagram s packet now =
      if leb 1 (length packet) && leb (length packet) max_datagram
      then (let (engine, took) = handle_feedback crates f s.engine packet now in
          let heard = record s { engine = engine } in
          stay (if took then on_feedback heard now else heard) none)
      else stay s none

  -- The receiver answered.
  on_found : Sending f → List SocketAddr → Answer → Turn f
  on_found s direct node =
      if not (is_bound_to s.engine.epoch node.0.epoch)
      then record { next = s; packet = none; left = true }
      else (let addr = reach direct node in
          stay
            (record (if is_at s.engine.addr addr then s else record s {
              engine =
                  (bind_peer crates f s.engine node.0.epoch addr node.0.name node.0.instance_id).0;
              session_addr = addr;
            }) { misses = 0 })
            none)

  -- It did not.
  on_missed : Sending f → ℕ → Turn f
  on_missed s now =
      let missed = record s { misses = s.misses + 1 } in
      if leb 3 missed.misses
      then (if ltb (now - s.last_feedback) 3000000
          then stay (record missed { misses = 0 }) none
          else record { next = missed; packet = none; left = true })
      else stay missed none

  by_node : Sending f → List SocketAddr → ℕ → Option Answer → Turn f
  by_node s direct now none = on_missed s now
  by_node s direct now (some node) = on_found s direct node

  on_verified : Sending f → Wanted → List SocketAddr → List ℕ → ℕ → Option (List Answer) → Turn f
  on_verified s wanted direct instance_id now none =
      stay (record s { verify_inflight = false; next_verify = now + 2000000 }) none
  on_verified s wanted direct instance_id now (some nodes) =
      by_node (record s { verify_inflight = false; next_verify = now + 2000000 }) direct now
        (find_node wanted instance_id nodes)

  handle_event : Sending f → Wanted → List SocketAddr → List ℕ → Event → Turn f
  handle_event s wanted direct instance_id (hello_due now) = on_hello s now
  handle_event s wanted direct instance_id (probe_due now) = on_probe s now
  handle_event s wanted direct instance_id (audio_due pcm now) = on_audio s pcm now
  handle_event s wanted direct instance_id (datagram packet now) = on_datagram s packet now
  handle_event s wanted direct instance_id (recv_failed now) = stay s none
  handle_event s wanted direct instance_id (verified nodes now) =
      on_verified s wanted direct instance_id now nodes
  handle_event s wanted direct instance_id (verify_due now) =
      stay (record s { verify_inflight = true; next_verify = now + 2000000 }) none
  handle_event s wanted direct instance_id (device_changed now) = stay s none

  -- Whether the `select!` may take the branch.
  pub enabled : Sending f → Event → Bool
  enabled s (hello_due now) = leb s.next_hello now
  enabled s (probe_due now) = s.probing && leb s.next_probe now
  enabled s (audio_due pcm now) = leb s.next_audio now
  enabled s (datagram packet now) = true
  enabled s (recv_failed now) = true
  enabled s (verified nodes now) = s.verify_inflight
  enabled s (verify_due now) = not s.verify_inflight && leb s.next_verify now
  enabled s (device_changed now) = true

  -- One iteration: the head of the loop, at a reading of the clock, and a branch of the `select!`.
  pub turn : Sending f → Wanted → List SocketAddr → List ℕ → ℕ → Event → Turn f
  turn s wanted direct instance_id now event =
      handle_event (head_of_loop s now) wanted direct instance_id event
