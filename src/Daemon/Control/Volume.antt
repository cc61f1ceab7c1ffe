-- ===== src/Daemon/Control/Volume.antt =====
-- Requests for a volume (`apply_volume` of src/daemon/mod.rs) that fail.
use mathlib.Core.Path.{subst, sym}
use remote_au.Common.{
  ℕ, ◌≡◌, ◌∙◌, ap, false, ◌⊎◌, refl, inl, inr, Option, none, some, List, Bool-cases,
}
use remote_au.Common.Text.{codes}
use remote_au.Daemon.Control.{
  Json, Outcome, given, finite_gain, master_done, apply_master, stream_done, stream_given,
  stream_named, apply_stream, then_stream, apply_volume,
}
use remote_au.Mixer.Streams.Kept.{set_stream_gain-unknown}
use remote_au.Mixer.Streams.{GainFloat, Mixer, set_master_gain, set_stream_gain}

module _ (g : GainFloat) (js : Json g) where
  -- The master gain that a request sets.
  abbrev pub SetsMaster : Mixer g → js.Value → Mixer g → Type 0
  SetsMaster m args m' =
      (value : js.Value) × (gain : g.Float) × (given g js args (codes "master") ≡ some value)
      × (finite_gain g js value ≡ inr gain)
      × (m' ≡ set_master_gain g m gain)

  -- No master gain is asked for.
  abbrev pub NoMaster : js.Value → Type 0
  NoMaster args = given g js args (codes "master") ≡ none

  -- The master gain that is asked for is refused.
  abbrev pub MasterFails : js.Value → List ℕ → Type 0
  MasterFails args err =
      (value : js.Value) × (given g js args (codes "master") ≡ some value)
      × (finite_gain g js value ≡ inl err)

  -- A stream and its gain are asked for; the gain is refused, or the mixer has no such stream.
  abbrev pub StreamFails : Mixer g → js.Value → List ℕ → Type 0
  StreamFails m args err =
      (stream : js.Value) × (id : List ℕ) × (value : js.Value) × (js.get args (codes "stream")
        ≡ some stream)
      × (js.as_str stream ≡ some id)
      × (given g js args (codes "gain") ≡ some value)
      × ((finite_gain g js value ≡ inl err)
          ⊎ ((gain : g.Float) × (finite_gain g js value ≡ inr gain)
              × ((set_stream_gain g m id gain).1 ≡ false)
              × (err ≡ codes "unknown stream")))

  -- An outcome of an error of the stream, which leaves the mixer as it was.
  abbrev StreamOnly : Mixer g → js.Value → Mixer g × Outcome (Unit {0}) → Type 0
  StreamOnly m args out = (err : List ℕ) → out.1 ≡ inl err → (out.0 ≡ m) × StreamFails m args err

  stream_done-StreamOnly :
      (m : Mixer g) (args stream : js.Value) (id : List ℕ) (value : js.Value)
      → js.get args (codes "stream") ≡ some stream
      → js.as_str stream ≡ some id
      → given g js args (codes "gain") ≡ some value
      → (o : Outcome g.Float) → finite_gain g js value ≡ o
      → StreamOnly m args (stream_done g js m id o)
  unfolding stream_done
  stream_done-StreamOnly m args stream id value s i v (inl e) is = λ err h.
      (let same : e ≡ err = cc in (refl, (stream, id, value, s, i, v, inl (is ∙ ap inl same))))
  stream_done-StreamOnly m args stream id value s i v (inr gain) is =
      elim (Bool-cases (set_stream_gain g m id gain).1) [
        | inl found ↦ simp found (λ err h. cc)
        | inr unknown ↦ simp unknown (λ err h. (
          set_stream_gain-unknown g m id gain unknown,
          (stream, id, value, s, i, v, inr (gain, is, unknown, cc)),
        ))
      ]

  stream_given-StreamOnly :
      (m : Mixer g) (args stream : js.Value) (id : List ℕ)
      → js.get args (codes "stream") ≡ some stream
      → js.as_str stream ≡ some id
      → (o : Option js.Value) → given g js args (codes "gain") ≡ o
      → StreamOnly m args (stream_given g js m id o)
  unfolding stream_given
  stream_given-StreamOnly m args stream id s i none v = λ err h. cc
  stream_given-StreamOnly m args stream id s i (some value) v =
      stream_done-StreamOnly m args stream id value s i v (finite_gain g js value) refl

  stream_named-StreamOnly :
      (m : Mixer g) (args stream : js.Value)
      → js.get args (codes "stream") ≡ some stream
      → (o : Option (List ℕ)) → js.as_str stream ≡ o
      → StreamOnly m args (stream_named g js m args o)
  unfolding stream_named
  stream_named-StreamOnly m args stream s none i = λ err h. cc
  stream_named-StreamOnly m args stream s (some id) i =
      stream_given-StreamOnly m args stream id s i (given g js args (codes "gain")) refl

  apply_stream-StreamOnly :
      (m : Mixer g) (args : js.Value) (o : Option js.Value)
      → js.get args (codes "stream") ≡ o
      → StreamOnly m args (apply_stream g js m args o)
  unfolding apply_stream
  apply_stream-StreamOnly m args none s = λ err h. cc
  apply_stream-StreamOnly m args (some stream) s =
      stream_named-StreamOnly m args stream s (js.as_str stream) refl

  -- What a failed request has done.
  abbrev pub Failed : Mixer g → js.Value → List ℕ → Mixer g → Type 0
  Failed m args err out =
      (MasterFails args err × (out ≡ m))
      ⊎ (NoMaster args × StreamFails m args err × (out ≡ m))
      ⊎ (SetsMaster m args out × StreamFails out args err)

  -- A volume request fails in one of three ways only. The master gain that it gives is refused, and the mixer is as it was; or it gives none, and its stream's gain is refused or its stream unknown, and the mixer is as it was; or it gives a good one, which the mixer keeps, and the stream's gain is refused or the stream unknown then. A stream counts when it is a text and has a gain.
  pub apply_volume-fails :
      (m : Mixer g) (args : js.Value) (err : List ℕ)
      → (apply_volume g js m args).1 ≡ inl err
      → Failed m args err (apply_volume g js m args).0
  unfolding apply_volume apply_master master_done then_stream
  apply_volume-fails m args err = by_master (given g js args (codes "master")) refl
    where
      outcome : Mixer g × Outcome (Unit {0}) → Mixer g × Outcome (Unit {0})
      outcome done = then_stream g js args done.0 done.1

      by_gain :
          (value : js.Value)
          → given g js args (codes "master") ≡ some value
          → (o : Outcome g.Float) → finite_gain g js value ≡ o
          → (outcome (master_done g js m o)).1 ≡ inl err
          → Failed m args err (outcome (master_done g js m o)).0
      by_gain value has (inl e) is h =
          (let same : e ≡ err = cc in inl ((value, has, is ∙ ap inl same), refl))
      by_gain value has (inr gain) is h =
          let m' = set_master_gain g m gain in
          let (same, fails) =
            apply_stream-StreamOnly m' args (js.get args (codes "stream")) refl err h in
          inr (
            inr (
              (value, gain, has, is, same),
              subst (λ (x : Mixer g). StreamFails x args err) (sym same) fails,
            ))

      by_master :
          (o : Option js.Value)
          → given g js args (codes "master") ≡ o
          → (outcome (apply_master g js m o)).1 ≡ inl err
          → Failed m args err (outcome (apply_master g js m o)).0
      by_master none has h =
          let (same, fails) =
            apply_stream-StreamOnly m args (js.get args (codes "stream")) refl err h in
          inr (inl (has, fails, same))
      by_master (some value) has h = by_gain value has (finite_gain g js value) refl h
