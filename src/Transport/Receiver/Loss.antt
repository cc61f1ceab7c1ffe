-- ===== src/Transport/Receiver/Loss.antt =====
-- src/transport/receiver.rs: `observe_audio_seq`, the account of received and lost packets, and `probe_recv_spans`.
pub mod Missing
pub mod Tests
use remote_au.Common.{
  ℕ, zero, suc, ◌+◌, ◌-◌, Bool, true, false, not, ◌||◌, ◌&&◌, List, [], ◌∷◌, min, max, ltb, leb,
  ◌==◌, if◌then◌else◌, sat_add, u32_max, u64_max,
}
use remote_au.Common.OrdMap.{OrdMap, contains_key, insert, remove, retain_from}
use remote_au.Protocol.Wire.Bodies.{Steps}

-- `BTreeSet<u64>`.
abbrev pub Seqs : Type 0
Seqs = OrdMap (Unit {0})

-- The fields of `Peer` that the account lives in.
pub record Account : Type 0 where
  pub received : ℕ
  pub lost : ℕ
  pub max_audio_seq : ℕ
  pub loss_cursor : ℕ
  pub seen_audio : Seqs

-- `range(from..to).count()`.
pub count_range : ℕ → ℕ → Seqs → ℕ
count_range from to [] = 0
count_range from to ((k, v) ∷ m) =
    let rest = count_range from to m in if leb from k && ltb k to then suc rest else rest

-- A fresh number: the statements before the horizon.
pub note_received : Account → ℕ → Account
note_received p seq = record p {
  received = sat_add u32_max p.received 1;
  max_audio_seq = (if ltb p.max_audio_seq seq then seq else p.max_audio_seq);
  loss_cursor = (if p.loss_cursor == 0 then 1 else p.loss_cursor);
  seen_audio = insert seq tt p.seen_audio;
}

-- The way of a long jump: one count of the range.
pub jump_to : Account → ℕ → Account
jump_to p horizon = record p {
  lost =
      sat_add u32_max p.lost
        (min (horizon - p.loss_cursor - count_range p.loss_cursor horizon p.seen_audio) u32_max);
  seen_audio = retain_from horizon p.seen_audio;
  loss_cursor = horizon;
}

-- One round of the `while`.
pub pass : Account → Account
pass p = record p {
  lost = (if contains_key p.loss_cursor p.seen_audio then p.lost else sat_add u32_max p.lost 1);
  seen_audio = remove p.loss_cursor p.seen_audio;
  loss_cursor = p.loss_cursor + 1;
}

-- The `while`, which has `left` rounds: the cursor rises by one to the horizon.
pub pass_all : ℕ → Account → Account
pass_all zero p = p
pass_all (suc left) p = pass_all left (pass p)

-- Behind a fresh number: how far losses are final, and the two ways there.
pub settle : Account → Account
settle p =
    let horizon = p.max_audio_seq - 32 in
    if ltb (sat_add u64_max p.loss_cursor 48) horizon
    then jump_to p horizon
    else pass_all (horizon - p.loss_cursor) p

pub observe_audio_seq : Account → ℕ → Account
observe_audio_seq p seq =
    if seq == 0 || contains_key seq p.seen_audio then p else settle (note_received p seq)

unfoldable pub recv_span : ℕ → ℕ → ℕ → ℕ
recv_span bytes first last =
    if bytes == 0
    then 0
    else if first == 0
    then 0
    else if leb last first
    then u32_max
    else max (min (last - first) u32_max) 1

-- The loop over the five steps.
unfoldable pub probe_recv_spans : Steps → Steps → Steps → Steps
probe_recv_spans bytes first last = record {
  s0 = recv_span bytes.s0 first.s0 last.s0;
  s1 = recv_span bytes.s1 first.s1 last.s1;
  s2 = recv_span bytes.s2 first.s2 last.s2;
  s3 = recv_span bytes.s3 first.s3 last.s3;
  s4 = recv_span bytes.s4 first.s4 last.s4;
}
