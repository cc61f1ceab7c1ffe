-- ===== src/Mixer/Jitter/PushValid.antt =====
-- `push` and `set_target_packets` on the invariant of the buffer.
mod Store
use Store.{store-Valid}
use remote_au.Common.{
  ℕ, zero, suc, ◌+◌, ◌-◌, ◌*◌, ◌≤◌, ◌<◌, ◌≡◌, refl, sym, ap, ◌∙◌, inl, inr, Bool, true, false, not,
  ◌||◌, ◌&&◌, Option, none, some, List, [], ◌∷◌, length, ltb, leb, ◌==◌, if◌then◌else◌, max, min,
  clamp, sat_add, u64_max, arith, Bool-cases, Option-cases,
}
use remote_au.Common.OrdMap.{
  OrdMap, Ascends, Below, Values, insert, remove, first_key, last_key, contains_key, insert-Ascends,
  remove-Ascends, insert-Below, remove-Below, insert-Values, remove-Values, length-insert-le,
  length-remove-le, length-remove_first,
}
use remote_au.Mixer.Jitter.{
  JitterBuffer, Packet, max_slots, new, queued_frames, trim_latency, set_target_packets,
  set_target_ms, restart, evict, is_none, plays_by, settle, store, accept, push, add_u64,
}
use remote_au.Mixer.Jitter.Valid.{Shape, Valid, NearAt, WordAt, trim_latency-Valid}

NearAt-word : (t : ℕ) (m : OrdMap Packet) (p : Option ℕ) → NearAt t m p → WordAt p
NearAt-word t m none n = tt
NearAt-word t m (some play) n = n.0

-- A change of the target keeps the invariant.
pub set_target_packets-Valid :
    (b : JitterBuffer) (packets : ℕ) → Valid b → Valid (set_target_packets b packets)
unfolding set_target_packets
set_target_packets-Valid b packets v =
    elim (Bool-cases (clamp packets 1 max_slots == b.target_packets)) [
      | inl same ↦ rw same v
      | inr other ↦ rw other (
          trim_latency-Valid _
            (record {
              frame_size = v.shape.frame_size;
              frame_count = v.shape.frame_count;
              packet_size = v.shape.packet_size;
              target_low = ground arith;
              target_high = ground arith;
              order = v.shape.order;
              words = v.shape.words;
              sizes = v.shape.sizes;
              inside = v.shape.inside;
              playing = λ h. v.shape.playing (ground arith);
            })
            v.bounded (NearAt-word _ _ _ v.near))
    ]

-- A buffer that starts over is valid.
cleared-Valid :
    (b : JitterBuffer) (starved started : Bool)
    → Valid b
    → Valid (record b {
      slots = [];
      play_seq = none;
      play_off = 0;
      primed = false;
      starved = starved;
      started = started;
    })
cleared-Valid b starved started v = record {
  shape = record {
    frame_size = v.shape.frame_size;
    frame_count = v.shape.frame_count;
    packet_size = v.shape.packet_size;
    target_low = v.shape.target_low;
    target_high = v.shape.target_high;
    order = tt;
    words = tt;
    sizes = tt;
    inside = omega (arith, v.shape.frame_count);
    playing = λ h. cc;
  };
  bounded = omega arith;
  near = tt;
}

restart-Valid : (b : JitterBuffer) → Valid b → Valid (restart b)
unfolding restart
restart-Valid b v = elim (Bool-cases b.starved) [
  | inl dry ↦ simp dry (cleared-Valid b false false v)
  | inr wet ↦ simp wet v
]

recount-Valid : (b : JitterBuffer) (n : ℕ) → Valid b → Valid (record b { discarded = n })
recount-Valid b n v = record {
  shape = record {
    frame_size = v.shape.frame_size;
    frame_count = v.shape.frame_count;
    packet_size = v.shape.packet_size;
    target_low = v.shape.target_low;
    target_high = v.shape.target_high;
    order = v.shape.order;
    words = v.shape.words;
    sizes = v.shape.sizes;
    inside = v.shape.inside;
    playing = v.shape.playing;
  };
  bounded = v.bounded;
  near = v.near;
}

accept-Valid :
    (b : JitterBuffer) (seq now : ℕ) (pcm : List ℕ)
    → Valid b
    → 0 < seq
    → seq ≤ u64_max
    → length pcm ≡ b.packet_bytes
    → Valid (accept b seq pcm now).0
unfolding accept
accept-Valid b seq now pcm v h1 h2 hl = elim (Option-cases b.play_seq) [
  | inl idle ↦ rw (idle, accept) (store-Valid b seq now pcm v h1 h2 hl)
  | inr (play, e) ↦
      rw (e, accept)
        (elim (Bool-cases (ltb seq play && b.started)) [
          | inl late ↦ rw late (recount-Valid b _ v)
          | inr in_time ↦
              rw in_time (elim (Bool-cases (ltb (sat_add u64_max play (max_slots * 2)) seq)) [
                | inl far ↦
                    rw far
                      (store-Valid _ seq now pcm (cleared-Valid b b.starved b.started v) h1 h2 hl)
                | inr close ↦ rw close (store-Valid b seq now pcm v h1 h2 hl)
              ])
        ])
]

-- `push` of any word and any bytes keeps the invariant.
pub push-Valid :
    (b : JitterBuffer) (seq now : ℕ) (pcm : List ℕ)
    → Valid b
    → seq ≤ u64_max
    → Valid (push b seq pcm now).0
unfolding push
push-Valid b seq now pcm v h = elim (Bool-cases (seq == 0 || not (length pcm == b.packet_bytes))) [
  | inl bad ↦ rw bad v
  | inr good ↦ rw good (
      accept-Valid (restart b) seq now pcm (restart-Valid b v) (ground arith) h
        (unfold restart in ground arith))
]

pub set_target_ms-Valid : (b : JitterBuffer) (ms : ℕ) → Valid b → Valid (set_target_ms b ms)
unfolding set_target_ms
set_target_ms-Valid b ms v = set_target_packets-Valid b _ v
