-- ===== src/Daemon/Sending/Nonces.antt =====
-- The packets of the sending loop (src/daemon/mod.rs) and their counters.
use remote_au.Common.{
  ℕ, ◌+◌, ◌-◌, ◌^◌, ◌<◌, ◌≡◌, ◌∙◌, refl, sym, ap, inl, inr, Bool, true, false, not, ◌||◌, ◌&&◌,
  Option, none, some, List, [], ◌∷◌, length, get_elem?, leb, ltb, bytes_eq→eq, if◌then◌else◌,
  Bool-cases, Option-cases, arith,
}
use remote_au.Crypto.Session.{Crates, DirectionKeys}
use remote_au.Daemon.Select.{Wanted, reach}
use remote_au.Daemon.Sending.{
  Sending, Turn, Event, hello_due, probe_due, audio_due, datagram, recv_failed, verified,
  verify_due, device_changed, find_node, is_at, begin_train, head_of_loop, on_hello, on_plan_end,
  send_spec, on_plan, on_probe, on_audio, on_feedback, on_datagram, on_found, on_missed, by_node,
  on_verified, handle_event, turn,
}
use remote_au.Discovery.Sources.{SocketAddr, Answer}
use remote_au.Protocol.Format.{max_datagram}
use remote_au.Transport.Adapt.Probe.{ProbePacketSpec}
use remote_au.Transport.Adapt.State.{LossFloat}
use remote_au.Transport.Sender.{SenderEngine, begin_probe, is_bound_to, handle_feedback}
use remote_au.Transport.Sender.Nonces.{
  bind, say_hello, send_audio, send_probe, receive, probe_end, run_op, Bound, Rising,
}
use remote_au.Transport.Sender.Nonces.Moves.{Sends, run_op-Sends}
use remote_au.Transport.Sender.Nonces.Run.{Rising-emit}

module _ (crates : Crates) (f : LossFloat) (keys : DirectionKeys) (epoch session : List ℕ) where
  abbrev IsBound : SenderEngine f → Type 0
  IsBound e = Bound crates f keys epoch session e

  -- A turn from an engine.
  abbrev TurnSends : SenderEngine f → Turn f → Type 0
  TurnSends e t = Sends crates f keys epoch session e (t.next.engine, t.packet)

  TurnSends-if :
      (e : SenderEngine f) (b : Bool) (x y : Turn f)
      → TurnSends e x
      → TurnSends e y
      → TurnSends e (if b then x else y)
  TurnSends-if e true x y h k = h
  TurnSends-if e false x y h k = k

  module _ (e : SenderEngine f) (b : IsBound e) (h : e.counter + 1 < 2 ^ 64) where
    idle : Sends crates f keys epoch session e (e, none)
    idle = record { bound = b; later = omega arith; next = omega arith; sent = λ packet k. cc }

  module _ (s : Sending f) (b : IsBound s.engine) (h : s.engine.counter + 1 < 2 ^ 64) where
    on_hello-Sends : (now : ℕ) → TurnSends s.engine (on_hello crates f s now)
    unfolding on_hello run_op
    on_hello-Sends now = run_op-Sends crates f keys epoch session s.engine say_hello tt b h

    on_audio-Sends : (pcm : List ℕ) (now : ℕ) → TurnSends s.engine (on_audio crates f s pcm now)
    unfolding on_audio run_op
    on_audio-Sends pcm now =
        run_op-Sends crates f keys epoch session s.engine (send_audio pcm now) tt b h

    on_plan-Sends :
        (now : ℕ) (spec : Option ProbePacketSpec) → TurnSends s.engine (on_plan crates f s now spec)
    unfolding on_plan on_plan_end send_spec run_op
    on_plan-Sends now none =
        TurnSends-if s.engine _ _ _
          (run_op-Sends crates f keys epoch session s.engine (probe_end s.sent s.gradual) tt b h)
          (idle s.engine b h)
    on_plan-Sends now (some spec) =
        run_op-Sends crates f keys epoch session s.engine (send_probe spec.step spec.payload now) tt
          b h

    on_datagram-Sends :
        (packet : List ℕ) (now : ℕ) → TurnSends s.engine (on_datagram crates f s packet now)
    unfolding on_datagram on_feedback run_op
    on_datagram-Sends packet now =
        TurnSends-if s.engine (leb 1 (length packet) && leb (length packet) max_datagram) _ _
          (let r = run_op-Sends crates f keys epoch session s.engine (receive packet now) tt b h in
            elim (Bool-cases (handle_feedback crates f s.engine packet now).1) [
              | inl took ↦ simp took r
              | inr refused ↦ simp refused r
            ])
          (idle s.engine b h)

    on_found-Sends :
        (direct : List SocketAddr) (node : Answer)
        → TurnSends s.engine (on_found crates f s direct node)
    unfolding on_found run_op
    on_found-Sends direct node = elim (Bool-cases (is_bound_to s.engine.epoch node.0.epoch)) [
      | inr other ↦ simp other (idle s.engine b h)
      | inl same ↦ elim (Bool-cases (is_at s.engine.addr (reach direct node))) [
        | inl there ↦ simp (same, there) (idle s.engine b h)
        | inr moved ↦
            simp (same, moved)
              (run_op-Sends crates f keys epoch session s.engine
                (bind node.0.epoch (reach direct node) node.0.name node.0.instance_id)
                (sym (
                  bytes_eq→eq epoch node.0.epoch
                    (ap (λ o. is_bound_to o node.0.epoch) (sym b.has_epoch) ∙ same)))
                b h)
      ]
    ]

    on_missed-Sends : (now : ℕ) → TurnSends s.engine (on_missed crates f s now)
    unfolding on_missed
    on_missed-Sends now =
        TurnSends-if s.engine (leb 3 (s.misses + 1)) _ _
          (TurnSends-if s.engine (ltb (now - s.last_feedback) 3000000) _ _ (idle s.engine b h)
            (idle s.engine b h))
          (idle s.engine b h)

  module _ (s : Sending f) (wanted : Wanted) (direct : List SocketAddr) (instance_id : List ℕ) where
    handle_event-Sends :
        (event : Event)
        → IsBound s.engine
        → s.engine.counter + 1 < 2 ^ 64
        → TurnSends s.engine (handle_event crates f s wanted direct instance_id event)
    unfolding handle_event on_probe on_verified by_node
    handle_event-Sends (hello_due now) b h = on_hello-Sends s b h now
    handle_event-Sends (probe_due now) b h = on_plan-Sends s b h now (get_elem? s.plan s.plan_at)
    handle_event-Sends (audio_due pcm now) b h = on_audio-Sends s b h pcm now
    handle_event-Sends (datagram packet now) b h = on_datagram-Sends s b h packet now
    handle_event-Sends (recv_failed now) b h = idle s.engine b h
    handle_event-Sends (verified none now) b h = idle s.engine b h
    handle_event-Sends (verified (some nodes) now) b h =
        elim (Option-cases (find_node wanted instance_id nodes)) [
          | inl nobody ↦ simp nobody (
              on_missed-Sends (record s { verify_inflight = false; next_verify = now + 2000000 }) b
                h now)
          | inr (node, found) ↦ simp found (
              on_found-Sends (record s { verify_inflight = false; next_verify = now + 2000000 }) b h
                direct node)
        ]
    handle_event-Sends (verify_due now) b h = idle s.engine b h
    handle_event-Sends (device_changed now) b h = idle s.engine b h

  -- The head of the loop keeps the counter and the binding.
  head_of_loop-Bound :
      (s : Sending f) (now : ℕ)
      → IsBound s.engine
      → IsBound (head_of_loop crates f s now).engine
        × ((head_of_loop crates f s now).engine.counter ≡ s.engine.counter)
  unfolding head_of_loop begin_train begin_probe
  head_of_loop-Bound s now b =
      elim (Bool-cases (s.reprobe || (not s.probing && leb 30000000 (now - s.last_train)))) [
        | inl train ↦ simp train (
          record { has_keys = b.has_keys; has_epoch = b.has_epoch; has_session = b.has_session },
          refl,
        )
        | inr none_due ↦ simp none_due (b, refl)
      ]

  turn-Sends :
      (s : Sending f) (wanted : Wanted) (direct : List SocketAddr) (instance_id : List ℕ) (now : ℕ)
      (event : Event)
      → IsBound s.engine
      → s.engine.counter + 1 < 2 ^ 64
      → TurnSends s.engine (turn crates f s wanted direct instance_id now event)
  unfolding turn
  turn-Sends s wanted direct instance_id now event b h =
      let (b', c) = head_of_loop-Bound s now b in
      let r =
        handle_event-Sends (head_of_loop crates f s now) wanted direct instance_id event b'
          (omega (arith, c)) in
      record {
        bound = r.bound;
        later = omega (arith, c, r.later);
        next = omega (arith, c, r.next);
        sent = λ packet k. let (up, w) = r.sent packet k in (omega (arith, c, up), w);
      }

  -- The packets that the loop sends, from the turns on events, each with the time of its head, until it is left.
  module _ (wanted : Wanted) (direct : List SocketAddr) (instance_id : List ℕ) where
    pub packets_of : Sending f → List (ℕ × Event) → List (List ℕ)
    packets_of s [] = []
    packets_of s ((now, event) ∷ events) =
        let t = turn crates f s wanted direct instance_id now event in
        let rest = packets_of t.next events in
        let later = if t.left then [] else rest in
        elim (t.packet) [ none ↦ later | some packet ↦ packet ∷ later ]

    -- However the branches of the loop's `select!` follow one another, the packets that the loop sends to its receiver are sealed under the keys of one epoch with rising counters, up to 2^64: no nonce is used twice between the binding of the engine and the end of the loop.
    pub packets_of-Rising :
        (events : List (ℕ × Event)) (s : Sending f)
        → Bound crates f keys epoch session s.engine
        → s.engine.counter + length events < 2 ^ 64
        → Rising crates f keys epoch session s.engine.counter (packets_of s events)
    unfolding packets_of
    packets_of-Rising [] s b h = unfold Rising in tt
    packets_of-Rising ((now, event) ∷ events) s b h =
        let t = turn crates f s wanted direct instance_id now event in
        let r = turn-Sends s wanted direct instance_id now event b (omega (arith, h)) in
        Rising-emit crates f keys epoch session t.packet s.engine.counter t.next.engine.counter
          (if t.left then [] else packets_of t.next events) r.later (omega (arith, h, r.next))
          r.sent
          (elim (Bool-cases t.left) [
            | inl over ↦ rw over (unfold Rising in tt)
            | inr on ↦ rw on (packets_of-Rising events t.next r.bound (omega (arith, h, r.next)))
          ])
