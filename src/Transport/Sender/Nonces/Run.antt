-- ===== src/Transport/Sender/Nonces/Run.antt =====
-- The counters of a whole run.
use remote_au.Common.{
  ℕ, ◌+◌, ◌^◌, ◌≤◌, ◌<◌, ◌≡◌, refl, Option, none, some, List, [], ◌∷◌, length, All, arith,
}
use remote_au.Crypto.Session.{Crates, DirectionKeys}
use remote_au.Transport.Adapt.State.{LossFloat}
use remote_au.Transport.Sender.{SenderEngine}
use remote_au.Transport.Sender.Nonces.{Op, run_op, run, Bound, SealedWith, Rising, Stays}
use remote_au.Transport.Sender.Nonces.Moves.{run_op-Sends}

module _ (crates : Crates) (f : LossFloat) (keys : DirectionKeys) (epoch session : List ℕ) where
  Rising-weaken :
      (m n : ℕ) (packets : List (List ℕ))
      → m ≤ n
      → Rising crates f keys epoch session n packets
      → Rising crates f keys epoch session m packets
  unfolding Rising
  Rising-weaken m n [] h r = tt
  Rising-weaken m n (packet ∷ packets) h (c, l, b, s, r) = (c, omega (arith, l), b, s, r)

  pub Rising-emit :
      (o : Option (List ℕ)) (used c : ℕ) (rest : List (List ℕ))
      → used ≤ c
      → c < 2 ^ 64
      → ((packet : List ℕ)
          → o ≡ some packet
          → (used < c) × SealedWith crates f keys epoch session c packet)
      → Rising crates f keys epoch session c rest
      → Rising crates f keys epoch session used
          (elim o [ none ↦ rest | some packet ↦ packet ∷ rest ])
  unfolding Rising
  Rising-emit none used c rest h b s r = Rising-weaken used c rest h r
  Rising-emit (some packet) used c rest h b s r = let (l, w) = s packet refl in (c, l, b, w, r)

  -- Whatever is done to an engine that stays bound to one epoch, its packets are sealed under the sending key with counters that rise from packet to packet, up to 2^64: no nonce is used twice.
  pub run-Rising :
      (ops : List Op) (e : SenderEngine f)
      → All (Stays crates f keys epoch session) ops
      → Bound crates f keys epoch session e
      → e.counter + length ops < 2 ^ 64
      → Rising crates f keys epoch session e.counter (run crates f e ops)
  unfolding run
  run-Rising [] e s b h = unfold Rising in tt
  run-Rising (op ∷ ops) e s b h =
      let r = run_op-Sends crates f keys epoch session e op s.0 b (omega (arith, h)) in
      Rising-emit (run_op crates f e op).1 e.counter (run_op crates f e op).0.counter
        (run crates f (run_op crates f e op).0 ops) r.later (omega (arith, h, r.next)) r.sent
        (run-Rising ops (run_op crates f e op).0 s.1 r.bound (omega (arith, h, r.next)))
