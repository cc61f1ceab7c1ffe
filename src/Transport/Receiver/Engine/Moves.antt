-- ===== src/Transport/Receiver/Engine/Moves.antt =====
-- What a datagram does to the peers, on every path of `handle_datagram`.
use remote_au.Common.{ℕ, ◌≤◌, ◌≡◌, ◌⊎◌, inl, inr, refl, ◌∙◌, some, List, length, arith}
use mathlib.Core.Path.{subst}
use remote_au.Crypto.Replay.Taken.{IsWindow, Took}
use remote_au.Crypto.Session.{Crates, derive}
use remote_au.Transport.Receiver.Engine.{
  Peers, ReceiverEngine, with_history_cap, find_peer, received, rejected, put,
}
use remote_au.Transport.Receiver.Engine.PeerList.{
  find_peer-put_other, AllPeers, find_peer-AllPeers, put_peer-AllPeers, length-put_peer,
}
use remote_au.Transport.Receiver.Peer.{JitterFloat, Peer}

module _ (crates : Crates) (j : JitterFloat) where
  -- A peer has the keys of its session, a window that calls can reach, and a buffer of 15 to 150 ms.
  pub record PeerSound (token epoch session : List ℕ) (p : Peer j) : Type 0 where
    pub keys : p.keys ≡ derive crates token epoch session
    pub window : IsWindow p.replay
    pub low : 15 ≤ p.buffer_ms
    pub high : p.buffer_ms ≤ 150

  pub record SoundEngine (e : ReceiverEngine j) : Type 0 where
    pub peers : AllPeers j (PeerSound e.token e.epoch) e.peers
    pub few : length e.peers ≤ e.history_cap

  -- A later state of a peer.
  pub record Change (p q : Peer j) : Type 0 where
    pub keys : q.keys ≡ p.keys
    pub window : IsWindow p.replay → IsWindow q.replay
    pub grows : (c : ℕ) → Took p.replay c → Took q.replay c
    pub buffer : (15 ≤ p.buffer_ms) × (p.buffer_ms ≤ 150) → (15 ≤ q.buffer_ms) × (q.buffer_ms ≤ 150)

  pub Change-refl : (p : Peer j) → Change p p
  Change-refl p = record { keys = refl; window = λ w. w; grows = λ c t. t; buffer = λ b. b }

  pub Change-trans : (p q r : Peer j) → Change p q → Change q r → Change p r
  Change-trans p q r a b = record {
    keys = b.keys ∙ a.keys;
    window = λ w. b.window (a.window w);
    grows = λ c t. b.grows c (a.grows c t);
    buffer = λ h. b.buffer (a.buffer h);
  }

  pub Change-PeerSound :
      (token epoch session : List ℕ) (p q : Peer j)
      → Change p q
      → PeerSound token epoch session p
      → PeerSound token epoch session q
  Change-PeerSound token epoch session p q c s =
      let b = c.buffer (s.low, s.high) in
      record { keys = c.keys ∙ s.keys; window = c.window s.window; low = b.0; high = b.1 }

  -- Every session of `ps` is in `qs`, and has forgotten no number.
  abbrev pub Later : Peers j → Peers j → Type 0
  Later ps qs =
      (s : List ℕ) (p : Peer j)
      → find_peer j s ps ≡ some p
      → (q : Peer j) × (find_peer j s qs ≡ some q) × ((c : ℕ) → Took p.replay c → Took q.replay c)

  -- The engine keeps its epoch and its peers, or begins the fresh epoch.
  pub record Moves (fresh : List ℕ) (e out : ReceiverEngine j) : Type 0 where
    pub token : out.token ≡ e.token
    pub cap : out.history_cap ≡ e.history_cap
    pub step : ((out.epoch ≡ e.epoch) × Later e.peers out.peers) ⊎ (out.epoch ≡ fresh)
    pub sound : SoundEngine e → SoundEngine out

  pub Moves-refl : (fresh : List ℕ) (e : ReceiverEngine j) → Moves fresh e e
  Moves-refl fresh e = record {
    token = refl;
    cap = refl;
    step = inl (refl, λ s p h. (p, h, λ c t. t));
    sound = λ s. s;
  }

  step_trans :
      (fresh : List ℕ) (e x y : ReceiverEngine j)
      → ((x.epoch ≡ e.epoch) × Later e.peers x.peers) ⊎ (x.epoch ≡ fresh)
      → ((y.epoch ≡ x.epoch) × Later x.peers y.peers) ⊎ (y.epoch ≡ fresh)
      → ((y.epoch ≡ e.epoch) × Later e.peers y.peers) ⊎ (y.epoch ≡ fresh)
  step_trans fresh e x y a (inr k) = inr k
  step_trans fresh e x y (inr h) (inl k) = inr (k.0 ∙ h)
  step_trans fresh e x y (inl h) (inl k) = inl (
    k.0 ∙ h.0,
    λ s p f.
        let (q, f1, g1) = h.1 s p f in
        let (r, f2, g2) = k.1 s q f1 in (r, f2, λ c t. g2 c (g1 c t)),
  )

  pub Moves-trans :
      (fresh : List ℕ) (e x y : ReceiverEngine j)
      → Moves fresh e x
      → Moves fresh x y
      → Moves fresh e y
  Moves-trans fresh e x y a b = record {
    token = b.token ∙ a.token;
    cap = b.cap ∙ a.cap;
    step = step_trans fresh e x y a.step b.step;
    sound = λ s. b.sound (a.sound s);
  }

  pub Moves-received :
      (fresh : List ℕ) (e out : ReceiverEngine j)
      → Moves fresh e out
      → Moves fresh e (received j out)
  Moves-received fresh e out m = record {
    token = m.token;
    cap = m.cap;
    step = m.step;
    sound = λ s. let t = m.sound s in record { peers = t.peers; few = t.few };
  }

  pub Moves-rejected :
      (fresh : List ℕ) (e out : ReceiverEngine j)
      → Moves fresh e out
      → Moves fresh e (rejected j out)
  Moves-rejected fresh e out m = record {
    token = m.token;
    cap = m.cap;
    step = m.step;
    sound = λ s. let t = m.sound s in record { peers = t.peers; few = t.few };
  }

  pub Moves-put :
      (fresh : List ℕ) (e : ReceiverEngine j) (session : List ℕ) (p q : Peer j)
      → find_peer j session e.peers ≡ some p
      → Change p q
      → Moves fresh e (put j e session q)
  Moves-put fresh e session p q found c = record {
    token = refl;
    cap = refl;
    step = inl (
      refl,
      λ s r h. elim (find_peer-put_other j s session r p q e.peers found h) [
        | inl (same, at) ↦ (q, at, λ n t. c.grows n (subst (λ x. Took x.replay n) same t))
        | inr at ↦ (r, at, λ n t. t)
      ],
    );
    sound = λ s. record {
      peers =
          put_peer-AllPeers j (PeerSound e.token e.epoch) session q e.peers
            (Change-PeerSound e.token e.epoch session p q c
              (find_peer-AllPeers j (PeerSound e.token e.epoch) session p e.peers found s.peers))
            s.peers;
      few = omega (arith, length-put_peer j session q e.peers, s.few);
    };
  }

  pub with_history_cap-SoundEngine :
      (token epoch : List ℕ) (history_cap : ℕ)
      → SoundEngine (with_history_cap j token epoch history_cap)
  unfolding with_history_cap
  with_history_cap-SoundEngine token epoch history_cap = record { peers = tt; few = omega arith }
