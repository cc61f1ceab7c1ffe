-- ===== src/Mixer/Jitter/PushValid/Store.antt =====
-- The last part of `push`: the packet stored, the excess evicted, the play position settled.
use remote_au.Common.{
  ℕ, zero, suc, ◌+◌, ◌*◌, ◌≤◌, ◌<◌, ◌≡◌, refl, inl, inr, true, false, not, ◌||◌, ◌&&◌, Option, none,
  some, List, [], ◌∷◌, length, ltb, leb, if◌then◌else◌, u64_max, arith, Bool-cases, Option-cases,
}
use remote_au.Common.OrdMap.{
  OrdMap, Below, insert, remove, first_key, contains_key, insert-Ascends, remove-Ascends,
  insert-Below, remove-Below, insert-Values, remove-Values, length-remove_first,
}
use remote_au.Mixer.Jitter.{
  JitterBuffer, Packet, max_slots, queued_frames, trim_latency, evict, is_none, plays_by, settle,
  store, add_u64,
}
use remote_au.Mixer.Jitter.Valid.{Shape, Valid, NearAt, WordAt, trim_latency-Valid}

NearAt-word : (t : ℕ) (m : OrdMap Packet) (p : Option ℕ) → NearAt t m p → WordAt p
NearAt-word t m none n = tt
NearAt-word t m (some play) n = n.0

first_key-word : (m : OrdMap Packet) → Below u64_max m → WordAt (first_key m)
first_key-word [] b = tt
first_key-word ((k, v) ∷ m) b = b.0

first_key-some : (m : OrdMap Packet) → 0 < length m → is_none (first_key m) ≡ false
first_key-some [] h = absurd (omega arith)
first_key-some ((k, v) ∷ m) h = refl

-- `evict` leaves 32 packets at most, and keeps some where there were some.
record Evicted (b : JitterBuffer) (out : JitterBuffer) : Type 0 where
  shape : Shape out
  word : WordAt out.play_seq
  bounded : length out.slots ≤ max_slots
  left : 0 < length b.slots → 0 < length out.slots

-- One round: the oldest packet goes, and the play position moves past it.
abbrev evicted : JitterBuffer → ℕ → JitterBuffer
evicted b first = record b {
  slots = remove first b.slots;
  discarded = add_u64 b.discarded 1;
  play_seq = if plays_by b.play_seq first then first_key (remove first b.slots) else b.play_seq;
  play_off = if plays_by b.play_seq first then 0 else b.play_off;
}

evicted-Shape :
    (b : JitterBuffer) (first : ℕ)
    → Shape b
    → WordAt b.play_seq
    → 0 < length (remove first b.slots)
    → Shape (evicted b first) × WordAt (evicted b first).play_seq
evicted-Shape b first s w h = elim (Bool-cases (plays_by b.play_seq first)) [
  | inl moved ↦ rw moved (
    shape_of 0 (first_key rest) s.frame_count (λ _. first_key-some rest h),
    first_key-word rest (remove-Below _ _ b.slots s.words),
  )
  | inr stays ↦ rw stays (shape_of b.play_off b.play_seq s.inside s.playing, w)
]
  where
    rest : OrdMap Packet
    rest = remove first b.slots

    shape_of :
        (off : ℕ) (play : Option ℕ)
        → off < b.packet_frames
        → (b.primed ≡ true → is_none play ≡ false)
        → Shape (record b {
          slots = rest;
          discarded = add_u64 b.discarded 1;
          play_seq = play;
          play_off = off;
        })
    shape_of off play ho hp = record {
      frame_size = s.frame_size;
      frame_count = s.frame_count;
      packet_size = s.packet_size;
      target_low = s.target_low;
      target_high = s.target_high;
      order = remove-Ascends 0 first b.slots s.order;
      words = remove-Below _ first b.slots s.words;
      sizes = remove-Values _ first b.slots s.sizes;
      inside = ho;
      playing = hp;
    }

evict-Evicted :
    (fuel : ℕ) (b : JitterBuffer)
    → length b.slots ≤ fuel
    → Shape b
    → WordAt b.play_seq
    → Evicted b (evict fuel b)
unfolding evict
evict-Evicted zero b f s w = record { shape = s; word = w; bounded = omega arith; left = λ h. h }
evict-Evicted (suc fuel) b f s w = elim (Bool-cases (ltb max_slots (length b.slots))) [
  | inl full ↦ elim (Option-cases (first_key b.slots)) [
    | inl empty ↦
        let none_left : is_none (first_key b.slots) ≡ false =
          first_key-some b.slots (ground arith) in
        absurd (ground arith)
    | inr (first, e) ↦
        let size : length (remove first b.slots) + 1 ≡ length b.slots =
          length-remove_first first b.slots e in
        let (s', w') = evicted-Shape b first s w (ground arith) in
        rw (full, e, evict)
          (gone first size (evict-Evicted fuel (evicted b first) (omega (arith, size)) s' w')
            (ground arith))
  ]
  | inr fits ↦
      rw (fits, evict) (record { shape = s; word = w; bounded = ground arith; left = λ h. h })
]
  where
    gone :
        (first : ℕ) {out : JitterBuffer}
        → length (remove first b.slots) + 1 ≡ length b.slots
        → Evicted (evicted b first) out
        → 0 < length (remove first b.slots)
        → Evicted b out
    gone first size r h = record {
      shape = r.shape;
      word = r.word;
      bounded = r.bounded;
      left = λ _. r.left h;
    }

settle-Valid :
    (b : JitterBuffer)
    → Shape b
    → WordAt b.play_seq
    → length b.slots ≤ max_slots
    → 0 < length b.slots
    → Valid (settle b)
unfolding settle
settle-Valid b s w h pos = elim (Bool-cases (is_none b.play_seq || not b.started)) [
  | inl anew ↦
      rw anew
        (settled (first_key b.slots) (first_key-some b.slots pos) (first_key-word b.slots s.words))
  | inr stays ↦ rw stays (settled b.play_seq (ground arith) w)
]
  where
    settled :
        (play : Option ℕ)
        → is_none play ≡ false
        → WordAt play
        → Valid (
            trim_latency (record b {
              play_seq = play;
              primed =
                  if not b.primed
                    && leb
                        (b.target_packets * b.packet_frames)
                        (queued_frames (record b { play_seq = play }))
                  then true
                  else b.primed;
            }))
    settled play some_play wp =
        trim_latency-Valid _
          (record {
            frame_size = s.frame_size;
            frame_count = s.frame_count;
            packet_size = s.packet_size;
            target_low = s.target_low;
            target_high = s.target_high;
            order = s.order;
            words = s.words;
            sizes = s.sizes;
            inside = s.inside;
            playing = λ _. some_play;
          })
          h wp

length-insert-pos : (k : ℕ) (v : Packet) (m : OrdMap Packet) → 0 < length (insert k v m)
length-insert-pos k v [] = omega arith
length-insert-pos k v ((j, w) ∷ m) = ground arith

stored-Shape :
    (b : JitterBuffer) (seq now count : ℕ) (pcm : List ℕ)
    → Shape b
    → 0 < seq
    → seq ≤ u64_max
    → length pcm ≡ b.packet_bytes
    → Shape (record b {
      slots = insert seq (record { pcm = pcm; arrived = now }) b.slots;
      arrived = count;
    })
stored-Shape b seq now count pcm s h1 h2 hl = record {
  frame_size = s.frame_size;
  frame_count = s.frame_count;
  packet_size = s.packet_size;
  target_low = s.target_low;
  target_high = s.target_high;
  order = insert-Ascends 0 seq _ b.slots h1 s.order;
  words = insert-Below u64_max seq _ b.slots h2 s.words;
  sizes = insert-Values _ seq _ b.slots hl s.sizes;
  inside = s.inside;
  playing = s.playing;
}

pub store-Valid :
    (b : JitterBuffer) (seq now : ℕ) (pcm : List ℕ)
    → Valid b
    → 0 < seq
    → seq ≤ u64_max
    → length pcm ≡ b.packet_bytes
    → Valid (store b seq pcm now).0
unfolding store
store-Valid b seq now pcm v h1 h2 hl = elim (Bool-cases (contains_key seq b.slots)) [
  | inl old ↦ rw old v
  | inr fresh ↦ rw fresh (
      let stored : JitterBuffer = record b {
        slots = insert seq (record { pcm = pcm; arrived = now }) b.slots;
        arrived = add_u64 b.arrived 1;
      } in
      let e : Evicted stored (evict (length stored.slots) stored) =
        evict-Evicted (length stored.slots) stored (omega arith)
          (stored-Shape b seq now (add_u64 b.arrived 1) pcm v.shape h1 h2 hl)
          (NearAt-word _ _ _ v.near) in
      settle-Valid _ e.shape e.word e.bounded (e.left (length-insert-pos seq _ b.slots)))
]
