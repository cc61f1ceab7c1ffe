-- ===== src/Mixer/Streams/Kept.antt =====
-- Changes of one stream and choices of some.
use remote_au.Common.{
  ℕ, ◌≤◌, ◌≡◌, ◌≢◌, refl, ap, false, sym, ◌∙◌, inl, inr, Bool, List, [], ◌∷◌, map, length, bytes_eq,
  All, Bool-cases, arith,
}
use mathlib.Core.Path.{subst}
use remote_au.Mixer.Jitter.Valid.{Valid}
use remote_au.Mixer.Streams.{
  GainFloat, Stream, Mixer, has_stream, update_stream, set_stream_gain, retain,
}

module _ (f : GainFloat) where
  abbrev pub Distinct : List (Stream f) → Type 0
  Distinct [] = Unit
  Distinct (s ∷ streams) = All (λ t. s.id ≢ t.id) streams × Distinct streams

  abbrev pub Buffered : List (Stream f) → Type 0
  Buffered = All (λ s. Valid s.buffer)

  -- Streams that a change of one leaves, or a choice of some: no more, each apart from what was apart.
  pub record Kept (streams out : List (Stream f)) : Type 0 where
    pub fewer : length out ≤ length streams
    pub apart : (id : List ℕ) → All (λ t. id ≢ t.id) streams → All (λ t. id ≢ t.id) out
    pub distinct : Distinct streams → Distinct out
    pub buffered : Buffered streams → Buffered out

  -- A change that keeps the identifier and the buffer's invariant.
  pub record Harmless (change : Stream f → Stream f) : Type 0 where
    pub same_id : (s : Stream f) → s.id ≡ (change s).id
    pub valid : (s : Stream f) → Valid s.buffer → Valid (change s).buffer

  pub update_stream-Kept :
      (id : List ℕ) (change : Stream f → Stream f) (streams : List (Stream f))
      → Harmless change
      → Kept streams (update_stream f id change streams)
  unfolding update_stream
  update_stream-Kept id change [] h = record {
    fewer = omega arith;
    apart = λ i a. a;
    distinct = λ d. d;
    buffered = λ b. b;
  }
  update_stream-Kept id change (s ∷ streams) h = elim (Bool-cases (bytes_eq s.id id)) [
    | inl e ↦ simp e (record {
      fewer = omega arith;
      apart = λ i a. ((λ p. a.0 (p ∙ sym (h.same_id s))), a.1);
      distinct = λ d. (subst (λ i. All (λ t. i ≢ t.id) streams) (h.same_id s) d.0, d.1);
      buffered = λ b. (h.valid s b.0, b.1);
    })
    | inr e ↦ simp e (
        let r = update_stream-Kept id change streams h in
        record {
          fewer = omega (arith, r.fewer);
          apart = λ i a. (a.0, r.apart i a.1);
          distinct = λ d. (r.apart s.id d.0, r.distinct d.1);
          buffered = λ b. (b.0, r.buffered b.1);
        })
  ]

  pub retain-Kept :
      (keep : Stream f → Bool) (streams : List (Stream f)) → Kept streams (retain f keep streams)
  unfolding retain
  retain-Kept keep [] = record {
    fewer = omega arith;
    apart = λ i a. a;
    distinct = λ d. d;
    buffered = λ b. b;
  }
  retain-Kept keep (s ∷ streams) =
      let r = retain-Kept keep streams in
      elim (Bool-cases (keep s)) [
        | inl e ↦ simp e (record {
          fewer = omega (arith, r.fewer);
          apart = λ i a. (a.0, r.apart i a.1);
          distinct = λ d. (r.apart s.id d.0, r.distinct d.1);
          buffered = λ b. (b.0, r.buffered b.1);
        })
        | inr e ↦ simp e (record {
          fewer = omega (arith, r.fewer);
          apart = λ i a. r.apart i a.1;
          distinct = λ d. r.distinct d.1;
          buffered = λ b. r.buffered b.1;
        })
      ]

  pub map-Kept :
      (change : Stream f → Stream f) (streams : List (Stream f))
      → Harmless change
      → Kept streams (map change streams)
  map-Kept change [] h = record {
    fewer = omega arith;
    apart = λ i a. a;
    distinct = λ d. d;
    buffered = λ b. b;
  }
  map-Kept change (s ∷ streams) h =
      let r = map-Kept change streams h in
      record {
        fewer = omega (arith, r.fewer);
        apart = λ i a. ((λ p. a.0 (p ∙ sym (h.same_id s))), r.apart i a.1);
        distinct = λ d. (
          subst (λ i. All (λ t. i ≢ t.id) (map change streams)) (h.same_id s) (r.apart s.id d.0),
          r.distinct d.1,
        );
        buffered = λ b. (h.valid s b.0, r.buffered b.1);
      }

  -- A change of a stream that is not there.
  update_stream-absent :
      (id : List ℕ) (change : Stream f → Stream f) (streams : List (Stream f))
      → has_stream f id streams ≡ false
      → update_stream f id change streams ≡ streams
  unfolding has_stream update_stream
  update_stream-absent id change [] h = refl
  update_stream-absent id change (s ∷ streams) h = elim (Bool-cases (bytes_eq s.id id)) [
    | inl e ↦ absurd (let a = simp e at h in cc)
    | inr e ↦ simp e (ap (λ l. s ∷ l) (update_stream-absent id change streams (simp e at h)))
  ]

  pub set_stream_gain-unknown :
      (m : Mixer f) (id : List ℕ) (gain : f.Float)
      → (set_stream_gain f m id gain).1 ≡ false
      → (set_stream_gain f m id gain).0 ≡ m
  unfolding set_stream_gain
  set_stream_gain-unknown m id gain = elim (Bool-cases (f.is_finite gain)) [
    | inr infinite ↦ simp infinite (λ h. refl)
    | inl finite ↦
        simp finite
          (λ h. ap (λ l. record m { streams = l }) (update_stream-absent id _ m.streams h))
  ]
