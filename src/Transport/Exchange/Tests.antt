-- ===== src/Transport/Exchange/Tests.antt =====
-- A concrete sender and receiver.
use remote_au.Common.{ℕ, ◌+◌, ◌≡◌, refl, true, some, List, [], ◌∷◌, replicate, arith}
use remote_au.Crypto.Replay.{new as window, commit, mark, clear, bit_at, set_bit}
use remote_au.Common.Bits.{has_bit}
use remote_au.Crypto.Session.{derive}
use remote_au.Crypto.Session.Tests.{toy, toy-Documented}
use remote_au.Mixer.Streams.{ensure_stream, has_stream, touch, push_packet}
use remote_au.Protocol.Codec.Mono.{encode_canonical, decode_canonical}
use remote_au.Protocol.Wire.Names.{clip_name}
use remote_au.Transport.Adapt.Probe.{codec}
use remote_au.Transport.Exchange.{hello_admitted, first_audio_delivered}
use remote_au.Transport.Exchange.Feedback.{feedback_applied}
use remote_au.Transport.Receiver.Engine.{
  ReceiverEngine, find_peer, active_count, peer_count, handle_datagram,
}
use remote_au.Transport.Receiver.Engine.Delivery.{HasRoom}
use remote_au.Transport.Receiver.Engine.Tests.{id16, micros, hundredths, identity, speaker, source}
use remote_au.Transport.Receiver.Feedback.{feedback_to}
use remote_au.Transport.Receiver.Feedback.Sends.{round_feedback}
use remote_au.Transport.Receiver.Peer.{Peer}
use remote_au.Transport.Receiver.Peer
use remote_au.Transport.Sender.{SenderEngine, new, hello, audio, handle_feedback, apply_feedback}
use remote_au.Transport.Sender.Feedback.{committed}
use remote_au.Transport.Sender.Packets.{Ready}
use remote_au.Transport.Sender.Tests.{hundredths as losses}

abbrev sender : SenderEngine losses
sender = record (new toy losses id16 id16 (b'a' ∷ [])) {
  keys = some (derive toy id16 id16 id16);
  epoch = some id16;
}

abbrev receiver : ReceiverEngine micros
receiver = record {
  token = id16;
  epoch = id16;
  peers = [];
  history_cap = 8;
  packets_received = 0;
  packets_rejected = 0;
}

sender-Ready : Ready toy toy-Documented losses (derive toy id16 id16 id16) id16 sender
unfolding new
sender-Ready = record {
  has_keys = refl;
  has_epoch = refl;
  epoch_size = refl;
  session_size = refl;
  left = omega arith;
}

receiver-HasRoom :
    HasRoom identity micros hundredths receiver speaker id16 (clip_name (b'a' ∷ [])) 7
unfolding find_peer peer_count active_count ensure_stream has_stream
receiver-HasRoom = record {
  unknown = refl;
  places = omega arith;
  history = omega arith;
  stream = refl;
}

hello_admitted_example :
    (packet : List ℕ) × ((hello toy losses sender).1 ≡ some packet)
    × let out =
        handle_datagram toy identity micros hundredths receiver speaker packet source 7 [] in
      ((p : Peer micros) × (find_peer micros id16 out.0.peers ≡ some p)
        × (p.name ≡ clip_name (b'a' ∷ []))
        × (p.active ≡ true)
        × (p.keys ≡ derive toy id16 id16 id16))
      × (out.1 ≡ (ensure_stream hundredths speaker id16 (clip_name (b'a' ∷ [])) 7).0)
      × (out.0.packets_received ≡ 1)
      × (out.0.packets_rejected ≡ 0)
unfolding new
hello_admitted_example =
    hello_admitted toy toy-Documented identity losses micros hundredths sender receiver speaker
      source 7 [] sender-Ready (refl, tt) receiver-HasRoom

first_audio_delivered_example :
    (packet : List ℕ) × (packet' : List ℕ) × (payload : List ℕ) × (played : List ℕ) × ((hello toy
        losses sender).1
      ≡ some packet)
    × ((audio toy losses (hello toy losses sender).0 (replicate 960 3) 5).1 ≡ some packet')
    × (encode_canonical (codec sender.adapt.profile) (replicate 960 3) ≡ some payload)
    × (decode_canonical (codec sender.adapt.profile) payload ≡ some played)
    × let greeted =
        handle_datagram toy identity micros hundredths receiver speaker packet source 7 [] in
      let out =
        handle_datagram toy identity micros hundredths greeted.0 greeted.1 packet' source 9 [] in
      (out.1
        ≡ (push_packet hundredths
            (touch hundredths
              (ensure_stream hundredths speaker id16 (clip_name (b'a' ∷ [])) 7).0
              id16
              9)
            id16
            1
            played
            9).0)
      × (out.0.packets_received ≡ 2)
      × (out.0.packets_rejected ≡ 0)
unfolding new
first_audio_delivered_example =
    first_audio_delivered toy toy-Documented identity losses micros hundredths sender receiver
      speaker source 7 [] sender-Ready (refl, tt) receiver-HasRoom (replicate 960 3) 5 9 [] refl
      (omega arith) (omega arith)

abbrev peer : Peer micros
peer = Peer.new micros (derive toy id16 id16 id16) source (b'a' ∷ []) 7

feedback_applied_example :
    let out = feedback_to toy identity micros hundredths id16 id16 peer speaker 500000 500001 in
    (packet : List ℕ) × (out.2 ≡ (peer.addr, packet) ∷ [])
    × (out.0.send_counter ≡ peer.send_counter + 1)
    × (handle_feedback toy losses sender packet 9 ≡ (
      apply_feedback toy losses
          (committed toy losses sender (peer.send_counter + 1))
          (round_feedback toy toy-Documented identity micros hundredths id16 peer speaker 500001)
          9,
      true,
    ))
unfolding new Peer.new
feedback_applied_example =
    feedback_applied toy toy-Documented identity losses micros hundredths id16 peer speaker 500000
      500001 9 sender
      (record {
        latest_send_ts = omega arith;
        highest = omega arith;
        received = omega arith;
        lost = omega arith;
        probe_gen = omega arith;
        probe_bytes = omega arith;
      })
      refl refl (omega arith) refl refl
      (unfold commit mark clear bit_at set_bit window has_bit in refl)
