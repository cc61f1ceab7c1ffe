-- ===== src/Transport/Receiver/Engine/Tests.antt =====
-- A hello at a concrete engine.
use remote_au.Common.{
  ℕ, ◌+◌, ◌*◌, ◌/◌, ◌≤◌, ◌≡◌, refl, Bool, true, false, some, List, [], ◌∷◌, ◌++◌, replicate, min,
  u32_max, arith,
}
use remote_au.Common.Bytes.{get_range}
use remote_au.Common.Bits.{has_bit}
use remote_au.Common.Utf8.{from_utf8}
use remote_au.Crypto.Replay.{new as window, commit, mark, clear, bit_at, set_bit}
use remote_au.Crypto.Session.{open_ciphertext, derive}
use remote_au.Crypto.Session.Tests.{toy, tag}
use remote_au.Discovery.Sources.{SocketAddr, v4}
use remote_au.Mixer.Streams.{GainFloat, Mixer, has_stream, ensure_stream}
use remote_au.Protocol.Wire.Header.{HeaderView, header_bytes, parse_packet}
use remote_au.Protocol.Wire.Names.{decode_hello}
use remote_au.Transport.Packet.{Opened, open_packet}
use remote_au.Transport.Receiver.Engine.{
  ReceiverEngine, find_peer, active_count, peer_count, handle_datagram, by_view, by_peer,
  new_opened, admit, insert_peer, with_history_cap,
}
use remote_au.Transport.Receiver.Engine.Limit.{again-over}
use remote_au.Transport.Receiver.Peer.{JitterFloat, Peer, new}

abbrev pub id16 : List ℕ
id16 = replicate 16 9

pub min_fits : (x : ℕ) → min x u32_max ≤ u32_max
min_fits x = omega arith

-- A jitter in whole microseconds.
abbrev pub micros : JitterFloat
micros = record {
  Float = ℕ;
  still = 0;
  smooth = λ x d. (15 * x + d) / 16;
  as_u32 = λ x. min x u32_max;
  min_as_u32 = λ x. min x u32_max;
  as_u32_fits = min_fits;
  min_as_u32_fits = min_fits;
}

-- A gain in hundredths.
abbrev pub hundredths : GainFloat
hundredths = record { Float = ℕ; one = 100; is_finite = λ x. true; clamp_gain = λ x. x }

abbrev pub identity : List ℕ → List ℕ
identity id = id

abbrev pub speaker : Mixer hundredths
speaker = record {
  format = record { sample_rate = 48000; channels = 2; frame_samples = 240 };
  streams = [];
  master_gain = 100;
  default_target_packets = 4;
}

abbrev pub source : SocketAddr
source = record { ip = v4 192 168 2 10; port = 47001 }

abbrev seen_peer : Bool → Peer micros
seen_peer active = record (new micros (derive toy id16 id16 id16) source (b'a' ∷ []) 0) {
  active = active;
}

-- Eight active peers and a ninth that is not.
abbrev busy : ReceiverEngine micros
busy = record {
  token = id16;
  epoch = id16;
  peers =
      (1 ∷ [], seen_peer true)
      ∷ (2 ∷ [], seen_peer true)
      ∷ (3 ∷ [], seen_peer true)
      ∷ (4 ∷ [], seen_peer true)
      ∷ (5 ∷ [], seen_peer true)
      ∷ (6 ∷ [], seen_peer true)
      ∷ (7 ∷ [], seen_peer true)
      ∷ (8 ∷ [], seen_peer true)
      ∷ (id16, seen_peer false)
      ∷ [];
  history_cap = 4096;
  packets_received = 0;
  packets_rejected = 0;
}

abbrev pub hello_packet : List ℕ
hello_packet = header_bytes 1 id16 id16 1 ++ (1 ∷ b'a' ∷ tag)

abbrev pub hello_view : HeaderView
hello_view = record {
  kind = 1;
  epoch = id16;
  session = id16;
  counter = 1;
  aad = header_bytes 1 id16 id16 1;
  ciphertext = 1 ∷ b'a' ∷ tag;
}

pub hello_parses : parse_packet hello_packet ≡ some hello_view
unfolding parse_packet get_range
hello_parses = refl

pub hello_taken :
    (handle_datagram toy identity micros hundredths
      (with_history_cap micros id16 id16 8)
      speaker
      hello_packet
      source
      7
      []).0.packets_rejected
    ≡ 0
unfolding handle_datagram by_view by_peer new_opened admit insert_peer with_history_cap find_peer
    peer_count active_count parse_packet get_range open_packet open_ciphertext decode_hello
    from_utf8 ensure_stream has_stream commit mark clear bit_at set_bit new window has_bit
hello_taken = refl

abbrev hello_opened : Opened
hello_opened = record { kind = 1; epoch = id16; session = id16; counter = 1; body = 1 ∷ b'a' ∷ [] }

again-over_example :
    let out =
      handle_datagram toy identity micros hundredths busy speaker hello_packet source 7 [] in
    (peer_count micros out.0 ≡ peer_count micros busy + 1)
    × (out.0.packets_received ≡ 1)
    × (out.1 ≡ (ensure_stream hundredths speaker id16 (b'a' ∷ []) 7).0)
again-over_example =
    again-over toy identity micros hundredths busy speaker hello_packet source 7 [] hello_opened
      (seen_peer false) (b'a' ∷ []) (unfold find_peer in refl)
      (unfold open_packet parse_packet get_range open_ciphertext new in refl) refl refl
      (omega arith) (unfold new in refl)
      (unfold commit mark clear bit_at set_bit new window has_bit in refl)
      (unfold decode_hello get_range from_utf8 in refl)

-- The eight become nine.
busy_count : peer_count micros busy ≡ 8
unfolding peer_count active_count new
busy_count = refl
