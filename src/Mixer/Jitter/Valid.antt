-- ===== src/Mixer/Jitter/Valid.antt =====
-- The invariant of the jitter buffer.
use remote_au.Common.{
  ℕ, ◌+◌, ◌-◌, ◌*◌, ◌≤◌, ◌<◌, ◌≡◌, refl, inl, inr, true, false, Option, none, some, [], ◌∷◌, length,
  ltb, u64_max, arith, Bool-cases, Option-cases,
}
use remote_au.Common.OrdMap.{
  OrdMap, Ascends, Below, Values, last_key, retain_from-Ascends, retain_from-Below, Below-weaken,
  retain_from-Values, length-retain_from-le, last_key-Below, last_key-le,
}
use remote_au.Mixer.Jitter.{JitterBuffer, Packet, max_slots, new, trim_to, trim_latency, is_none}

-- What the buffer plays from lies close enough behind its newest packet.
abbrev pub NearAt : ℕ → OrdMap Packet → Option ℕ → Type 0
NearAt target slots none = Unit {0}
NearAt target slots (some play) = (play ≤ u64_max) × Below (play + target + 2) slots

-- All but the limits on the number of packets and on the latency.
pub record Shape (b : JitterBuffer) : Type 0 where
  pub frame_size : 1 ≤ b.bytes_per_frame
  pub frame_count : 1 ≤ b.packet_frames
  pub packet_size : b.packet_bytes ≡ b.bytes_per_frame * b.packet_frames
  pub target_low : 1 ≤ b.target_packets
  pub target_high : b.target_packets ≤ max_slots
  pub order : Ascends 0 b.slots
  pub words : Below u64_max b.slots
  pub sizes : Values (λ (p : Packet). length p.pcm ≡ b.packet_bytes) b.slots
  pub inside : b.play_off < b.packet_frames
  pub playing : b.primed ≡ true → is_none b.play_seq ≡ false

-- The whole invariant: whole packets under ascending nonzero keys, 32 at most, a play position inside
-- a packet, and the newest packet no further ahead of it than the target and two.
pub record Valid (b : JitterBuffer) : Type 0 where
  pub shape : Shape b
  pub bounded : length b.slots ≤ max_slots
  pub near : NearAt b.target_packets b.slots b.play_seq

pub new-Valid : (bpf frames : ℕ) → Valid (new bpf frames)
unfolding new
new-Valid bpf frames = record {
  shape = record {
    frame_size = omega arith;
    frame_count = omega arith;
    packet_size = refl;
    target_low = omega arith;
    target_high = omega arith;
    order = tt;
    words = tt;
    sizes = tt;
    inside = omega arith;
    playing = λ h. cc;
  };
  bounded = omega arith;
  near = tt;
}

trim_to-Valid :
    (b : JitterBuffer) (last play : ℕ)
    → Shape b
    → length b.slots ≤ max_slots
    → last_key b.slots ≡ some last
    → b.play_seq ≡ some play
    → play ≤ u64_max
    → Valid (trim_to b last play)
unfolding trim_to
trim_to-Valid b last play s h el ep hp =
    elim (Bool-cases (ltb (b.target_packets + 2) (last - play))) [
      | inl far ↦ rw far (record {
        shape = record {
          frame_size = s.frame_size;
          frame_count = s.frame_count;
          packet_size = s.packet_size;
          target_low = s.target_low;
          target_high = s.target_high;
          order = retain_from-Ascends 0 _ b.slots s.order;
          words = retain_from-Below _ _ b.slots s.words;
          sizes = retain_from-Values _ _ b.slots s.sizes;
          inside = omega (arith, s.frame_count);
          playing = λ _. refl;
        };
        bounded = omega (arith, length-retain_from-le (last - (b.target_packets - 1)) b.slots);
        near = (
          omega (arith, last_key-le u64_max last b.slots s.words el),
          retain_from-Below _ _ b.slots (
              Below-weaken last _ b.slots (ground arith)
                (last_key-Below 0 last b.slots s.order el)),
        );
      })
      | inr close ↦ rw close (record {
        shape = s;
        bounded = h;
        near = rw ep (
          hp,
          Below-weaken last _ b.slots (ground arith) (last_key-Below 0 last b.slots s.order el),
        );
      })
    ]

-- The position to play from is a word.
abbrev pub WordAt : Option ℕ → Type 0
WordAt none = Unit {0}
WordAt (some play) = play ≤ u64_max

no_last : (m : OrdMap Packet) → last_key m ≡ none → m ≡ []
no_last [] e = refl
no_last ((k, v) ∷ m) e = cc

pub trim_latency-Valid :
    (b : JitterBuffer)
    → Shape b
    → length b.slots ≤ max_slots
    → WordAt b.play_seq
    → Valid (trim_latency b)
unfolding trim_latency
trim_latency-Valid b s h w = elim (Option-cases (last_key b.slots)) [
  | inl empty ↦
      rw (empty, trim_latency)
        (record { shape = s; bounded = h; near = nothing b.play_seq w (no_last b.slots empty) })
  | inr (last, el) ↦ elim (Option-cases b.play_seq) [
    | inl idle ↦ rw (el, idle, trim_latency) (record { shape = s; bounded = h; near = rw idle tt })
    | inr (play, ep) ↦ rw (el, ep, trim_latency) (trim_to-Valid b last play s h el ep (rw ep at w))
  ]
]
  where
    nothing : (p : Option ℕ) → WordAt p → b.slots ≡ [] → NearAt b.target_packets b.slots p
    nothing none w e = tt
    nothing (some play) w e = rw e (w, tt)
