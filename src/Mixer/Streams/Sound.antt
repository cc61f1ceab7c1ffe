-- ===== src/Mixer/Streams/Sound.antt =====
-- The streams under any operations.
use remote_au.Common.{
  ℕ, ◌≤◌, ◌≡◌, ◌≢◌, refl, inl, inr, Bool, true, false, List, [], ◌∷◌, ◌++◌, length, length-append,
  bytes_eq, bytes_eq_refl, leb, leb→lt, if◌then◌else◌, All, Bool-cases, u64_max, arith,
}
use remote_au.Protocol.Format.{AudioFormat, max_streams}
use remote_au.Mixer.Jitter.{set_target_packets}
use remote_au.Mixer.Jitter.Valid.{Valid, new-Valid}
use remote_au.Mixer.Jitter.PushValid.{set_target_packets-Valid, set_target_ms-Valid, push-Valid}
use remote_au.Mixer.Streams.{
  GainFloat, Stream, Mixer, new, has_stream, set_master_gain, new_stream, ensure_stream,
  remove_stream, touch, set_stream_gain, set_stream_target_ms, set_all_target_packets, push_packet,
  expire_idle,
}
use remote_au.Mixer.Streams.Kept.{
  Distinct, Buffered, Kept, update_stream-Kept, retain-Kept, map-Kept,
}

module _ (f : GainFloat) where
  -- At most eight streams, no two of one identifier, each with a valid buffer.
  pub record Sound (m : Mixer f) : Type 0 where
    pub few : length m.streams ≤ max_streams
    pub distinct : Distinct f m.streams
    pub buffered : Buffered f m.streams

  pub kept :
      (m : Mixer f) (out : List (Stream f))
      → Kept f m.streams out
      → Sound m
      → Sound (record m { streams = out })
  kept m out k s = record {
    few = omega (arith, k.fewer, s.few);
    distinct = k.distinct s.distinct;
    buffered = k.buffered s.buffered;
  }

  absent :
      (id : List ℕ) (streams : List (Stream f))
      → has_stream f id streams ≡ false
      → All (λ t. t.id ≢ id) streams
  unfolding has_stream
  absent id [] h = tt
  absent id (s ∷ streams) h = elim (Bool-cases (bytes_eq s.id id)) [
    | inl e ↦ absurd (let no = rw e at h in cc)
    | inr e ↦ ((λ p. let yes = bytes_eq_refl s.id in cc), absent id streams (rw e at h))
  ]

  append_one :
      (streams : List (Stream f)) (s : Stream f)
      → All (λ t. t.id ≢ s.id) streams
      → Distinct f streams
      → Buffered f streams
      → Valid s.buffer
      → Distinct f (streams ++ (s ∷ [])) × Buffered f (streams ++ (s ∷ []))
  append_one [] s a d b v = ((tt, tt), (v, tt))
  append_one (t ∷ streams) s a d b v =
      let (d', b') = append_one streams s a.1 d.1 b.1 v in ((apart_all streams d.0, d'), (b.0, b'))
    where
      apart_all :
          (ts : List (Stream f))
          → All (λ u. t.id ≢ u.id) ts
          → All (λ u. t.id ≢ u.id) (ts ++ (s ∷ []))
      apart_all [] x = (a.0, tt)
      apart_all (u ∷ us) x = (x.0, apart_all us x.1)

  ensure_stream-Sound :
      (m : Mixer f) (id name : List ℕ) (now : ℕ) → Sound m → Sound (ensure_stream f m id name now).0
  unfolding ensure_stream new_stream
  ensure_stream-Sound m id name now s = elim (Bool-cases (has_stream f id m.streams)) [
    | inl there ↦ simp there (
        kept m _
          (update_stream-Kept f id _ m.streams (record { same_id = λ t. refl; valid = λ t v. v }))
          s)
    | inr gone ↦ simp gone (elim (Bool-cases (leb max_streams (length m.streams))) [
      | inl full ↦ simp full s
      | inr room ↦ simp room (
          let t = new_stream f m id name now in
          let (d, b) =
            append_one m.streams t (absent id m.streams gone) s.distinct s.buffered
              (set_target_packets-Valid _ _ (new-Valid _ _)) in
          record {
            few = omega (
              arith,
              length-append m.streams (t ∷ []),
              leb→lt max_streams (length m.streams) room,
            );
            distinct = d;
            buffered = b;
          })
    ])
  ]

  -- The calls that change the streams, all but `pull`.
  pub data Op : Type 0 where
    master_gain : f.Float → Op
    ensure : List ℕ → List ℕ → ℕ → Op
    remove : List ℕ → Op
    seen : List ℕ → ℕ → Op
    gain : List ℕ → f.Float → Op
    target_ms : List ℕ → ℕ → Op
    target_packets : ℕ → Op
    packet : List ℕ → ℕ → List ℕ → ℕ → Op
    expire : ℕ → ℕ → Op

  pub run_op : Mixer f → Op → Mixer f
  run_op m (master_gain x) = set_master_gain f m x
  run_op m (ensure id name now) = (ensure_stream f m id name now).0
  run_op m (remove id) = remove_stream f m id
  run_op m (seen id now) = touch f m id now
  run_op m (gain id x) = (set_stream_gain f m id x).0
  run_op m (target_ms id ms) = (set_stream_target_ms f m id ms).0
  run_op m (target_packets packets) = set_all_target_packets f m packets
  run_op m (packet id seq pcm now) = (push_packet f m id seq pcm now).0
  run_op m (expire max_idle now) = (expire_idle f m max_idle now).0

  pub run : Mixer f → List Op → Mixer f
  run m [] = m
  run m (op ∷ ops) = run (run_op m op) ops

  -- A sequence number is a u64.
  abbrev pub IsCall : Op → Type 0
  IsCall (packet id seq pcm now) = seq ≤ u64_max
  IsCall (master_gain x) = Unit
  IsCall (ensure id name now) = Unit
  IsCall (remove id) = Unit
  IsCall (seen id now) = Unit
  IsCall (gain id x) = Unit
  IsCall (target_ms id ms) = Unit
  IsCall (target_packets packets) = Unit
  IsCall (expire max_idle now) = Unit

  by_test : (c : Bool) (x y : Mixer f × Bool) → Sound x.0 → Sound y.0 → Sound (if c then x else y).0
  by_test true x y p q = p
  by_test false x y p q = q

  run_op-Sound : (m : Mixer f) (op : Op) → IsCall op → Sound m → Sound (run_op m op)
  unfolding run_op set_master_gain remove_stream touch set_stream_gain set_stream_target_ms
      set_all_target_packets push_packet expire_idle
  run_op-Sound m (master_gain x) h s = elim (Bool-cases (f.is_finite x)) [
    | inl e ↦ simp e (record { few = s.few; distinct = s.distinct; buffered = s.buffered })
    | inr e ↦ simp e s
  ]
  run_op-Sound m (ensure id name now) h s = ensure_stream-Sound m id name now s
  run_op-Sound m (remove id) h s = kept m _ (retain-Kept f _ m.streams) s
  run_op-Sound m (seen id now) h s =
      kept m _
        (update_stream-Kept f id _ m.streams (record { same_id = λ t. refl; valid = λ t v. v })) s
  run_op-Sound m (gain id x) h s =
      by_test (f.is_finite x) _ (m, false)
        (kept m _
          (update_stream-Kept f id _ m.streams (record { same_id = λ t. refl; valid = λ t v. v }))
          s)
        s
  run_op-Sound m (target_ms id ms) h s =
      kept m _
        (update_stream-Kept f id _ m.streams
          (record { same_id = λ t. refl; valid = λ t v. set_target_ms-Valid t.buffer ms v }))
        s
  run_op-Sound m (target_packets packets) h s =
      let k =
        map-Kept f (λ t. record t { buffer = set_target_packets t.buffer packets }) m.streams
          (record {
            same_id = λ t. refl;
            valid = λ t v. set_target_packets-Valid t.buffer packets v;
          }) in
      record {
        few = omega (arith, k.fewer, s.few);
        distinct = k.distinct s.distinct;
        buffered = k.buffered s.buffered;
      }
  run_op-Sound m (packet id seq pcm now) h s =
      kept m _
        (update_stream-Kept f id _ m.streams
          (record { same_id = λ t. refl; valid = λ t v. push-Valid t.buffer seq now pcm v h }))
        s
  run_op-Sound m (expire max_idle now) h s = kept m _ (retain-Kept f _ m.streams) s

  run-kept : (ops : List Op) (m : Mixer f) → All IsCall ops → Sound m → Sound (run m ops)
  unfolding run
  run-kept [] m h s = s
  run-kept (op ∷ ops) m h s = run-kept ops (run_op m op) h.1 (run_op-Sound m op h.0 s)

  -- From a new mixer on, whatever is called but `pull`, there are at most eight streams, no two with the same identifier, and each has a valid jitter buffer.
  pub run-Sound :
      (format : AudioFormat) (ops : List Op) → All IsCall ops → Sound (run (new f format) ops)
  unfolding new
  run-Sound format ops h =
      run-kept ops (new f format) h (record { few = omega arith; distinct = tt; buffered = tt })
