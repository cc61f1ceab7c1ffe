-- ===== src/Transport/Receiver/Loss/Missing.antt =====
-- What the account counts, on either way to the horizon.
use remote_au.Common.{
  ℕ, zero, suc, ◌+◌, ◌-◌, ◌≤◌, ◌<◌, ◌≡◌, ◌≢◌, refl, ap, ◌∙◌, inl, inr, Bool, true, false, ◌||◌, [],
  ◌∷◌, min, ltb, ◌==◌, if◌then◌else◌, sat_add, u32_max, u64_max, Bool-cases, arith,
}
use remote_au.Common.OrdMap.{
  contains_key, remove, retain_from, Ascends, remove-Ascends, insert-Ascends, retain_from-Ascends,
}
use remote_au.Transport.Receiver.Loss.{
  Seqs, Account, count_range, note_received, jump_to, pass, pass_all, settle, observe_audio_seq,
}

-- How many of the `n` numbers from `from` on are not in the set.
pub missing : ℕ → ℕ → Seqs → ℕ
missing zero from m = 0
missing (suc n) from m = (if contains_key from m then 0 else 1) + missing n (from + 1) m

below_all : (k low : ℕ) (m : Seqs) → k ≤ low → Ascends low m → contains_key k m ≡ false
below_all k low [] h s = refl
below_all k low ((j, v) ∷ m) h s = ground (arith, below_all k j m (omega (arith, h, s.0)) s.1, s.0)

count_first :
    (from to low : ℕ) (m : Seqs)
    → from < to
    → Ascends low m
    → count_range from to m ≡ (if contains_key from m then 1 else 0) + count_range (from + 1) to m
unfolding count_range
count_first from to low [] h s = omega arith
count_first from to low ((k, v) ∷ m) h s = elim (Bool-cases (k == from)) [
  | inl e ↦
      let none_left = below_all from k m (ground (arith, e)) s.1 in
      ground (arith, e, h, none_left, count_first from to k m h s.1)
  | inr e ↦ ground (arith, e, h, count_first from to k m h s.1)
]

count_none : (from : ℕ) (m : Seqs) → count_range from from m ≡ 0
unfolding count_range
count_none from [] = refl
count_none from ((k, v) ∷ m) = ground (arith, count_none from m)

count-missing :
    (n from low : ℕ) (m : Seqs)
    → Ascends low m
    → count_range from (from + n) m + missing n from m ≡ n
unfolding missing
count-missing zero from low m s =
    let same : count_range from (from + 0) m ≡ count_range from from m =
      ap (λ (t : ℕ). count_range from t m) (omega arith) in
    omega (arith, same, count_none from m)
count-missing (suc n) from low m s =
    let ih = count-missing n (from + 1) low m s in
    let f = count_first from (from + suc n) low m (omega arith) s in
    let shift : count_range (from + 1) (from + 1 + n) m ≡ count_range (from + 1) (from + suc n) m =
      ap (λ (t : ℕ). count_range (from + 1) t m) (omega arith) in
    elim (Bool-cases (contains_key from m)) [
      | inl e ↦ rw e (let g = rw e at f in omega (arith, ih, g, shift))
      | inr e ↦ rw e (let g = rw e at f in omega (arith, ih, g, shift))
    ]

contains_key-remove : (k j : ℕ) (m : Seqs) → k ≢ j → contains_key k (remove j m) ≡ contains_key k m
contains_key-remove k j [] h = refl
contains_key-remove k j ((i, v) ∷ m) h = ground (arith, contains_key-remove k j m h)

missing-remove :
    (n from j : ℕ) (m : Seqs) → j < from → missing n from (remove j m) ≡ missing n from m
unfolding missing
missing-remove zero from j m h = refl
missing-remove (suc n) from j m h = rw (contains_key-remove from j m (λ e. omega arith)) (
    ap (λ x. (if contains_key from m then 0 else 1) + x)
      (missing-remove n (from + 1) j m (omega arith)))

contains_key-retain_from :
    (k low : ℕ) (m : Seqs) → low ≤ k → contains_key k (retain_from low m) ≡ contains_key k m
contains_key-retain_from k low [] h = refl
contains_key-retain_from k low ((j, v) ∷ m) h = ground (arith, contains_key-retain_from k low m h)

-- What has become final over the next `n` numbers: how much was lost, and what is still known above.
pub record Final (p : Account) (n : ℕ) (out : Account) : Type 0 where
  pub lost : out.lost ≡ min (p.lost + missing n p.loss_cursor p.seen_audio) u32_max
  pub cursor : out.loss_cursor ≡ p.loss_cursor + n
  pub known :
      (k : ℕ) → p.loss_cursor + n ≤ k → contains_key k out.seen_audio ≡ contains_key k p.seen_audio
  pub received : out.received ≡ p.received
  pub highest : out.max_audio_seq ≡ p.max_audio_seq
  pub ascends : Ascends 0 out.seen_audio

-- One round's loss.
pass_lost :
    (b : Bool) (lost : ℕ)
    → lost ≤ u32_max
    → (if b then lost else sat_add u32_max lost 1) ≡ min (lost + (if b then 0 else 1)) u32_max
pass_lost b lost h = ground (arith, h)

pass_all-Final :
    (left : ℕ) (p : Account)
    → p.lost ≤ u32_max
    → Ascends 0 p.seen_audio
    → Final p left (pass_all left p)
unfolding pass_all missing pass
pass_all-Final zero p h s = record {
  lost = omega (arith, h);
  cursor = omega arith;
  known = λ k a. refl;
  received = refl;
  highest = refl;
  ascends = s;
}
pass_all-Final (suc left) p h s =
    let q : Account = pass p in
    let one = pass_lost (contains_key p.loss_cursor p.seen_audio) p.lost h in
    let r =
      pass_all-Final left q (omega (arith, one)) (remove-Ascends 0 p.loss_cursor p.seen_audio s) in
    let rest = missing-remove left (p.loss_cursor + 1) p.loss_cursor p.seen_audio (omega arith) in
    record {
      lost = omega (arith, r.lost, one, rest);
      cursor = omega (arith, r.cursor);
      known = λ k a.
          r.known k (omega (arith, a))
          ∙ contains_key-remove k p.loss_cursor p.seen_audio (λ e. omega (arith, a, e));
      received = r.received;
      highest = r.highest;
      ascends = r.ascends;
    }

jump_to-Final :
    (horizon : ℕ) (p : Account)
    → p.loss_cursor ≤ horizon
    → p.lost ≤ u32_max
    → Ascends 0 p.seen_audio
    → Final p (horizon - p.loss_cursor) (jump_to p horizon)
unfolding jump_to
jump_to-Final horizon p c h s =
    let n : ℕ = horizon - p.loss_cursor in
    let counted = count-missing n p.loss_cursor 0 p.seen_audio s in
    let shift : count_range p.loss_cursor (p.loss_cursor + n) p.seen_audio
        ≡ count_range p.loss_cursor horizon p.seen_audio =
      ap (λ (t : ℕ). count_range p.loss_cursor t p.seen_audio) (omega (arith, c)) in
    record {
      lost = omega (arith, counted, shift, h);
      cursor = omega (arith, c);
      known = λ k a. contains_key-retain_from k horizon p.seen_audio (omega (arith, a, c));
      received = refl;
      highest = refl;
      ascends = retain_from-Ascends 0 horizon p.seen_audio s;
    }

settle-Final :
    (p : Account)
    → p.max_audio_seq ≤ u64_max
    → p.lost ≤ u32_max
    → Ascends 0 p.seen_audio
    → Final p (p.max_audio_seq - 32 - p.loss_cursor) (settle p)
unfolding settle
settle-Final p m h s =
    elim (Bool-cases (ltb (sat_add u64_max p.loss_cursor 48) (p.max_audio_seq - 32))) [
      | inl far ↦ simp far (jump_to-Final (p.max_audio_seq - 32) p (ground (arith, far, m)) h s)
      | inr near ↦ simp near (pass_all-Final (p.max_audio_seq - 32 - p.loss_cursor) p h s)
    ]

-- The account is one of a stream: its counts fit their words, the numbers known ascend from 1.
pub record IsAccount (p : Account) : Type 0 where
  pub received_fits : p.received ≤ u32_max
  pub lost_fits : p.lost ≤ u32_max
  pub highest_fits : p.max_audio_seq ≤ u64_max
  pub seqs : Ascends 0 p.seen_audio

-- A sequence number that is 0 or still known changes nothing. Any other is counted as received, and then every number more than 32 below the highest is final: whichever way the code takes there, the loss grows, up to 2^32 - 1, by exactly the numbers that became final and were never seen.
pub observe_audio_seq-Final :
    (p : Account) (seq : ℕ)
    → IsAccount p
    → seq ≤ u64_max
    → let out = observe_audio_seq p seq in
      let q = note_received p seq in
      IsAccount out × elim (seq == 0 || contains_key seq p.seen_audio) as (λ b. Type 0) [
        | true ↦ out ≡ p
        | false ↦ Final q (q.max_audio_seq - 32 - q.loss_cursor) out
      ]
unfolding observe_audio_seq note_received
observe_audio_seq-Final p seq a h = elim (Bool-cases (seq == 0 || contains_key seq p.seen_audio)) [
  | inl known ↦ simp known (a, refl)
  | inr fresh ↦
      let q = note_received p seq in
      let r =
        settle-Final q (ground (arith, a.highest_fits, h)) a.lost_fits
          (insert-Ascends 0 seq tt p.seen_audio (ground (arith, fresh)) a.seqs) in
      simp fresh (
        record {
          received_fits = omega (arith, r.received);
          lost_fits = omega (arith, r.lost);
          highest_fits = ground (arith, r.highest, a.highest_fits, h);
          seqs = r.ascends;
        },
        r,
      )
]
