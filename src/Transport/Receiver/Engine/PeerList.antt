-- ===== src/Transport/Receiver/Engine/PeerList.antt =====
-- The peers as a map: what is found behind a write, and what holds of all.
use remote_au.Common.{
  ℕ, ◌≡◌, refl, sym, ◌⊎◌, inl, inr, true, none, some, List, [], ◌∷◌, ◌++◌, bytes_eq, bytes_eq→eq,
  Bool-cases, arith, length,
}
use mathlib.Core.Path.{subst}
use remote_au.Transport.Receiver.Engine.{Peers, find_peer, put_peer}
use remote_au.Transport.Receiver.Peer.{JitterFloat, Peer}

module _ (j : JitterFloat) where
  pub find_peer-put_peer :
      (session : List ℕ) (peer changed : Peer j) (ps : Peers j)
      → find_peer j session ps ≡ some peer
      → find_peer j session (put_peer j session changed ps) ≡ some changed
  unfolding find_peer put_peer
  find_peer-put_peer session peer changed [] h = cc
  find_peer-put_peer session peer changed ((key, p) ∷ ps) h =
      elim (Bool-cases (bytes_eq key session)) [
        | inl same ↦ simp same refl
        | inr other ↦ simp other (find_peer-put_peer session peer changed ps (simp other at h))
      ]

  -- A session found before a write of the peer of some session: that peer's new state, or the old one.
  pub find_peer-put_other :
      (s session : List ℕ) (p peer changed : Peer j) (ps : Peers j)
      → find_peer j session ps ≡ some peer
      → find_peer j s ps ≡ some p
      → ((p ≡ peer) × (find_peer j s (put_peer j session changed ps) ≡ some changed))
        ⊎ (find_peer j s (put_peer j session changed ps) ≡ some p)
  unfolding find_peer put_peer
  find_peer-put_other s session p peer changed [] h k = cc
  find_peer-put_other s session p peer changed ((key, q) ∷ ps) h k =
      elim (Bool-cases (bytes_eq key session)) [
        | inl same ↦ simp same (elim (Bool-cases (bytes_eq key s)) [
          | inl e ↦ simp e (inl (let a = simp same at h in let b = simp e at k in cc, refl))
          | inr e ↦ simp e (inr (simp e at k))
        ])
        | inr other ↦ simp other (elim (Bool-cases (bytes_eq key s)) [
          | inl e ↦ simp e (inr (simp e at k))
          | inr e ↦
              simp e
                (find_peer-put_other s session p peer changed ps (simp other at h) (simp e at k))
        ])
      ]

  pub find_peer-append :
      (s : List ℕ) (p : Peer j) (ps qs : Peers j)
      → find_peer j s ps ≡ some p
      → find_peer j s (ps ++ qs) ≡ some p
  unfolding find_peer
  find_peer-append s p [] qs h = cc
  find_peer-append s p ((key, q) ∷ ps) qs h = elim (Bool-cases (bytes_eq key s)) [
    | inl e ↦ simp e (simp e at h)
    | inr e ↦ simp e (find_peer-append s p ps qs (simp e at h))
  ]

  pub find_peer-append_new :
      (s : List ℕ) (p : Peer j) (ps : Peers j)
      → find_peer j s ps ≡ none
      → bytes_eq s s ≡ true
      → find_peer j s (ps ++ ((s, p) ∷ [])) ≡ some p
  unfolding find_peer
  find_peer-append_new s p [] h r = rw r
  find_peer-append_new s p ((key, q) ∷ ps) h r = elim (Bool-cases (bytes_eq key s)) [
    | inl e ↦ absurd (let a = simp e at h in cc)
    | inr e ↦ simp e (find_peer-append_new s p ps (simp e at h) r)
  ]

  -- Of every session and its peer.
  abbrev pub AllPeers : (List ℕ → Peer j → Type 0) → Peers j → Type 0
  AllPeers P [] = Unit {0}
  AllPeers P ((key, p) ∷ ps) = P key p × AllPeers P ps

  module _ (P : List ℕ → Peer j → Type 0) where
    pub find_peer-AllPeers :
        (session : List ℕ) (p : Peer j) (ps : Peers j)
        → find_peer j session ps ≡ some p
        → AllPeers P ps
        → P session p
    unfolding find_peer
    find_peer-AllPeers session p [] h a = cc
    find_peer-AllPeers session p ((key, q) ∷ ps) h a = elim (Bool-cases (bytes_eq key session)) [
      | inl same ↦
          let k : key ≡ session = bytes_eq→eq key session same in
          let q_is : q ≡ p = (let b = simp same at h in cc) in
          subst (λ t. P t p) k (subst (λ t. P key t) q_is a.0)
      | inr other ↦ find_peer-AllPeers session p ps (simp other at h) a.1
    ]

    pub put_peer-AllPeers :
        (session : List ℕ) (p : Peer j) (ps : Peers j)
        → P session p
        → AllPeers P ps
        → AllPeers P (put_peer j session p ps)
    unfolding put_peer
    put_peer-AllPeers session p [] h a = tt
    put_peer-AllPeers session p ((key, q) ∷ ps) h a = elim (Bool-cases (bytes_eq key session)) [
      | inl same ↦ simp same (subst (λ t. P t p) (sym (bytes_eq→eq key session same)) h, a.1)
      | inr other ↦ simp other (a.0, put_peer-AllPeers session p ps h a.1)
    ]

    pub append-AllPeers :
        (session : List ℕ) (p : Peer j) (ps : Peers j)
        → P session p
        → AllPeers P ps
        → AllPeers P (ps ++ ((session, p) ∷ []))
    append-AllPeers session p [] h a = (h, tt)
    append-AllPeers session p ((key, q) ∷ ps) h a = (a.0, append-AllPeers session p ps h a.1)

  pub length-put_peer :
      (session : List ℕ) (p : Peer j) (ps : Peers j) → length (put_peer j session p ps) ≡ length ps
  unfolding put_peer
  length-put_peer session p [] = refl
  length-put_peer session p ((key, q) ∷ ps) = ground (arith, length-put_peer session p ps)
