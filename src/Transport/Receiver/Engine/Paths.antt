-- ===== src/Transport/Receiver/Engine/Paths.antt =====
-- The paths of `handle_datagram`, from the block on one peer up to the whole handler.
use remote_au.Common.{
  ℕ, ◌+◌, ◌≤◌, ◌≡◌, inl, inr, refl, Bool, true, false, not, ◌||◌, ◌&&◌, Option, none, some, List,
  [], ◌∷◌, ◌++◌, length, ltb, leb, leb→lt, ◌==◌, if◌then◌else◌, Bool-cases, Option-cases,
  length-append, arith,
}
use remote_au.Crypto.Replay.{commit}
use remote_au.Crypto.Replay.Taken.{new-IsWindow, commit-IsWindow, commit-Took}
use remote_au.Crypto.Session.{Crates, DirectionKeys, derive}
use remote_au.Discovery.Sources.{SocketAddr}
use remote_au.Mixer.Streams.{GainFloat, Mixer, ensure_stream}
use remote_au.Protocol.Codec.Mono.{decode_canonical}
use remote_au.Protocol.Wire.Bodies.{AudioBody, ProbeBody, decode_audio, decode_probe}
use remote_au.Protocol.Wire.Header.{kind_hello, kind_audio, kind_probe}
use remote_au.Protocol.Wire.Names.{decode_hello}
use remote_au.Transport.Packet.{Opened}
use remote_au.Transport.Receiver.Engine.{
  Peers, ReceiverEngine, rejected, received, find_peer, put, State, rotate_epoch, insert_peer,
  admit, apply_audio_with, apply_audio_body, apply_audio, apply_probe_body, apply_probe, renamed,
  again, by_kind, accept,
}
use remote_au.Transport.Receiver.Engine.Moves.{
  PeerSound, Change, Change-refl, Change-trans, Moves, Moves-refl, Moves-trans, Moves-received,
  Moves-rejected, Moves-put,
}
use remote_au.Transport.Receiver.Engine.PeerList.{
  find_peer-put_peer, find_peer-append, append-AllPeers,
}
use remote_au.Transport.Receiver.Peer.{
  JitterFloat, Peer, new, audio_arrived, probe_arrived, probe_counted, probe_train,
}

module _ (crates : Crates) (j : JitterFloat) where
  one_more :
      (ps : Peers j) (x : List ℕ × Peer j) (cap : ℕ)
      → length ps + 1 ≤ cap
      → length (ps ++ (x ∷ [])) ≤ cap
  one_more ps x cap h = omega (arith, length-append ps (x ∷ []))

  audio_arrived-Change :
      (p : Peer j) (audio : AudioBody) (clock : ℕ)
      → Change crates j p (audio_arrived j p audio clock)
  unfolding audio_arrived
  audio_arrived-Change p audio clock = record {
    keys = refl;
    window = λ w. w;
    grows = λ c t. t;
    buffer = λ b. b;
  }

  probe_train-Change : (p : Peer j) (gen : ℕ) → Change crates j p (probe_train j p gen)
  unfolding probe_train
  probe_train-Change p gen = elim (Bool-cases (gen == p.probe_gen)) [
    | inl same ↦ simp same (Change-refl crates j p)
    | inr other ↦
        simp other (record { keys = refl; window = λ w. w; grows = λ c t. t; buffer = λ b. b })
  ]

  probe_counted-Change :
      (p : Peer j) (step bytes clock : ℕ) → Change crates j p (probe_counted j p step bytes clock)
  unfolding probe_counted
  probe_counted-Change p step bytes clock = elim (Bool-cases (ltb step 5)) [
    | inl below ↦
        simp below (record { keys = refl; window = λ w. w; grows = λ c t. t; buffer = λ b. b })
    | inr above ↦ simp above (Change-refl crates j p)
  ]

  probe_arrived-Change :
      (p : Peer j) (probe : ProbeBody) (clock : ℕ)
      → Change crates j p (probe_arrived j p probe clock)
  unfolding probe_arrived
  probe_arrived-Change p probe clock =
      let c =
        Change-trans crates j p (probe_train j p probe.gen)
          (probe_counted j (probe_train j p probe.gen) probe.step (length probe.payload) clock)
          (probe_train-Change p probe.gen)
          (probe_counted-Change (probe_train j p probe.gen) probe.step (length probe.payload)
            clock) in
      record { keys = c.keys; window = c.window; grows = c.grows; buffer = c.buffer }

module _ (crates : Crates) (hex_encode : List ℕ → List ℕ) (j : JitterFloat) (g : GainFloat) where
  -- A state that a path leaves.
  abbrev pub MovesTo : List ℕ → ReceiverEngine j → State j g → Type 0
  MovesTo fresh e out = Moves crates j fresh e out.0

  pub Moves-if :
      (fresh : List ℕ) (e : ReceiverEngine j) (b : Bool) (x y : State j g)
      → (b ≡ true → MovesTo fresh e x)
      → (b ≡ false → MovesTo fresh e y)
      → MovesTo fresh e (if b then x else y)
  Moves-if fresh e true x y h k = h refl
  Moves-if fresh e false x y h k = k refl

  committed :
      (p : Peer j) (counter : ℕ)
      → Change crates j p (record p { replay = (commit p.replay counter).0 })
  committed p counter = record {
    keys = refl;
    window = λ w. commit-IsWindow p.replay counter w;
    grows = λ c t. commit-Took p.replay counter c t;
    buffer = λ b. b;
  }

  pub Moves-refused :
      (fresh : List ℕ) (e : ReceiverEngine j) → Moves crates j fresh e (rejected j e)
  Moves-refused fresh e = Moves-rejected crates j fresh e e (Moves-refl crates j fresh e)

  -- The packet of a peer that is found.
  module _ (fresh : List ℕ) (e : ReceiverEngine j) (m : Mixer g) (session : List ℕ) (p : Peer j)
      (found : find_peer j session e.peers ≡ some p) (clock : ℕ) where
    put_path :
        (q : Peer j) → Change crates j p q → Moves crates j fresh e (received j (put j e session q))
    put_path q c =
        Moves-received crates j fresh e (put j e session q)
          (Moves-put crates j fresh e session p q found c)

    apply_audio-Moves :
        (body : List ℕ)
        → MovesTo fresh e (apply_audio crates hex_encode j g e m session p body clock)
    unfolding apply_audio apply_audio_body apply_audio_with
    apply_audio-Moves body = elim (Option-cases (decode_audio body)) [
      | inl bad ↦ rw bad (Moves-refused fresh e)
      | inr (audio, good) ↦
          rw good (elim (Option-cases (decode_canonical audio.codec audio.payload)) [
            | inl bad ↦ rw bad (Moves-refused fresh e)
            | inr (pcm, got) ↦ rw got (put_path _ (audio_arrived-Change crates j p audio clock))
          ])
    ]

    apply_probe-Moves :
        (body : List ℕ)
        → MovesTo fresh e (apply_probe crates hex_encode j g e m session p body clock)
    unfolding apply_probe apply_probe_body
    apply_probe-Moves body = elim (Option-cases (decode_probe body)) [
      | inl bad ↦ rw bad (Moves-refused fresh e)
      | inr (probe, good) ↦ rw good (put_path _ (probe_arrived-Change crates j p probe clock))
    ]

    again-Moves :
        (body : List ℕ) → MovesTo fresh e (again crates hex_encode j g e m session p body clock)
    unfolding again renamed
    again-Moves body = elim (Option-cases (decode_hello body)) [
      | inl bad ↦ rw bad (Moves-received crates j fresh e e (Moves-refl crates j fresh e))
      | inr (name, good) ↦
          rw good (
            put_path _ (record { keys = refl; window = λ w. w; grows = λ c t. t; buffer = λ b. b }))
    ]

    pub by_kind-Moves :
        (kind : ℕ) (body : List ℕ)
        → MovesTo fresh e (by_kind crates hex_encode j g e m kind session p body clock)
    unfolding by_kind
    by_kind-Moves kind body =
        Moves-if fresh e (kind == kind_hello) _ _ (λ _. again-Moves body)
          (λ _.
            Moves-if fresh e (kind == kind_audio && p.active) _ _ (λ _. apply_audio-Moves body)
              (λ _.
                Moves-if fresh e (kind == kind_probe && p.active) _ _ (λ _. apply_probe-Moves body)
                  (λ _.
                    Moves-if fresh e (kind == kind_audio || kind == kind_probe) (e, m)
                      (rejected j e, m) (λ _. Moves-refl crates j fresh e)
                      (λ _. Moves-refused fresh e))))

  module _ (fresh : List ℕ) (e : ReceiverEngine j) (m : Mixer g) (src : SocketAddr)
      (clock : ℕ) where
    -- The window's answer and the address: two writes of the peer.
    pub accept-Moves :
        (opened : Opened)
        → MovesTo fresh e
            (accept crates hex_encode j g e m opened src clock (find_peer j opened.session e.peers))
    unfolding accept
    accept-Moves opened = elim (Option-cases (find_peer j opened.session e.peers)) [
      | inl gone ↦ rw gone (Moves-refused fresh e)
      | inr (p, found) ↦ rw found (
          let q : Peer j = record p { replay = (commit p.replay opened.counter).0 } in
          let moved : Peer j = record q { addr = src } in
          Moves-if fresh e (not (commit p.replay opened.counter).1)
            (rejected j (put j e opened.session q), m)
            (by_kind crates hex_encode j g (put j e opened.session moved) m opened.kind
              opened.session moved opened.body clock)
            (λ _.
              Moves-rejected crates j fresh e (put j e opened.session q)
                (Moves-put crates j fresh e opened.session p q found (committed p opened.counter)))
            (λ _.
              Moves-trans crates j fresh e (put j e opened.session moved) _
                (Moves-put crates j fresh e opened.session p moved found (
                  let c = committed p opened.counter in
                  record { keys = refl; window = c.window; grows = c.grows; buffer = λ b. b }))
                (by_kind-Moves fresh (put j e opened.session moved) m opened.session moved
                  (find_peer-put_peer j opened.session p moved e.peers found) clock opened.kind
                  opened.body)))
    ]

    -- A new peer, whose keys are derived from the token, the epoch and its session.
    insert_peer-Moves :
        (opened : Opened) (keys : DirectionKeys) (name : List ℕ) (m' : Mixer g)
        → keys ≡ derive crates e.token e.epoch opened.session
        → length e.peers + 1 ≤ e.history_cap
        → MovesTo fresh e
            (insert_peer crates hex_encode j g e m' opened (new j keys src name clock))
    unfolding insert_peer new
    insert_peer-Moves opened keys name m' derived room =
        Moves-if fresh e _ _ _ (λ _. Moves-refused fresh e)
          (λ _. record {
            token = refl;
            cap = refl;
            step = inl (refl, λ s p h. (p, find_peer-append j s p e.peers _ h, λ c t. t));
            sound = λ s. record {
              peers =
                  append-AllPeers j (PeerSound crates j e.token e.epoch) opened.session _ e.peers
                    (record {
                      keys = derived;
                      window = commit-IsWindow _ opened.counter (new-IsWindow 2048);
                      low = omega arith;
                      high = omega arith;
                    })
                    s.peers;
              few = one_more crates j e.peers _ e.history_cap room;
            };
          })

    -- An unknown session: a full history begins a new epoch and drops every peer.
    pub admit-Moves :
        (opened : Opened) (keys : DirectionKeys) (name : Option (List ℕ))
        → keys ≡ derive crates e.token e.epoch opened.session
        → MovesTo fresh e (admit crates hex_encode j g e m keys opened src clock fresh name)
    unfolding admit rotate_epoch
    admit-Moves opened keys none derived = Moves-refused fresh e
    admit-Moves opened keys (some name) derived =
        elim (Bool-cases (leb e.history_cap (length e.peers))) [
          | inl full ↦ rw full (record {
            token = refl;
            cap = refl;
            step = inr refl;
            sound = λ s. record { peers = tt; few = omega arith };
          })
          | inr room ↦ rw room (
              Moves-if fresh e (not (ensure_stream g m (hex_encode opened.session) name clock).1) _
                _ (λ _. Moves-refused fresh e)
                (λ _.
                  insert_peer-Moves opened keys name _ derived
                    (let l = leb→lt e.history_cap (length e.peers) room in omega arith)))
        ]
