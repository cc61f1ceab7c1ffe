-- ===== src/Transport/Receiver/Engine/Changed.antt =====
-- Changes of all peers at once.
use remote_au.Common.{
  ℕ, suc, ◌≡◌, inl, inr, refl, sym, ap, true, false, List, [], ◌∷◌, length, bytes_eq, Bool-cases,
  arith,
}
use mathlib.Core.Path.{subst}
use remote_au.Crypto.Replay.Taken.{Took}
use remote_au.Crypto.Session.{Crates}
use remote_au.Transport.Receiver.Engine.{Peers, ReceiverEngine, find_peer}
use remote_au.Transport.Receiver.Engine.Moves.{PeerSound, Change, Change-PeerSound, Later, Moves}
use remote_au.Transport.Receiver.Engine.PeerList.{AllPeers}
use remote_au.Transport.Receiver.Peer.{JitterFloat}

module _ (crates : Crates) (j : JitterFloat) where
  -- The same sessions in the same order, each peer changed.
  abbrev pub Changed : Peers j → Peers j → Type 0
  Changed [] [] = Unit {0}
  Changed [] (q ∷ qs) = ⊥
  Changed (p ∷ ps) [] = ⊥
  Changed ((s, p) ∷ ps) ((t, q) ∷ qs) = (t ≡ s) × Change crates j p q × Changed ps qs

  Changed-Later : (ps qs : Peers j) → Changed ps qs → Later crates j ps qs
  unfolding find_peer
  Changed-Later [] qs c s p h = cc
  Changed-Later (x ∷ ps) [] c s p h = absurd c
  Changed-Later ((key, x) ∷ ps) ((key', y) ∷ qs) (same, c, rest) s p h =
      elim (Bool-cases (bytes_eq key s)) [
        | inl e ↦
            let e' : bytes_eq key' s ≡ true = rw same e in
            let x_is : x ≡ p = (let b = simp e at h in cc) in
            simp e' (y, refl, λ n t. c.grows n (subst (λ r. Took r.replay n) (sym x_is) t))
        | inr e ↦
            let e' : bytes_eq key' s ≡ false = rw same e in
            simp e' (Changed-Later ps qs rest s p (simp e at h))
      ]

  Changed-AllPeers :
      (token epoch : List ℕ) (ps qs : Peers j)
      → Changed ps qs
      → AllPeers j (PeerSound crates j token epoch) ps
      → AllPeers j (PeerSound crates j token epoch) qs
  Changed-AllPeers token epoch [] [] c a = tt
  Changed-AllPeers token epoch [] (q ∷ qs) c a = absurd c
  Changed-AllPeers token epoch (x ∷ ps) [] c a = absurd c
  Changed-AllPeers token epoch ((s, p) ∷ ps) ((t, q) ∷ qs) (same, c, rest) (ok_p, a) = (
    subst (λ k. PeerSound crates j token epoch k q) (sym same)
        (Change-PeerSound crates j token epoch s p q c ok_p),
    Changed-AllPeers token epoch ps qs rest a,
  )

  length-Changed : (ps qs : Peers j) → Changed ps qs → length qs ≡ length ps
  length-Changed [] [] c = refl
  length-Changed [] (q ∷ qs) c = absurd c
  length-Changed (x ∷ ps) [] c = absurd c
  length-Changed (x ∷ ps) (y ∷ qs) c = ap suc (length-Changed ps qs c.2)

  pub Changed-Moves :
      (fresh : List ℕ) (e : ReceiverEngine j) (qs : Peers j)
      → Changed e.peers qs
      → Moves crates j fresh e (record e { peers = qs })
  Changed-Moves fresh e qs c = record {
    token = refl;
    cap = refl;
    step = inl (refl, Changed-Later e.peers qs c);
    sound = λ s. record {
      peers = Changed-AllPeers e.token e.epoch e.peers qs c s.peers;
      few = omega (arith, length-Changed e.peers qs c, s.few);
    };
  }
