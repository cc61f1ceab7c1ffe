-- ===== src/Lib.antt =====
-- remote-au sends audio from one machine to another over UDP: a sender finds a receiver of its group
-- on the network, seals packets under session keys and adapts codec and buffer to the path; the
-- receiver opens them, refuses replays, accounts for losses and plays each stream from a jitter buffer.
--
-- The parts, from the bottom up, with the files of the repository they model:
--   Protocol.Format, .Wire, .Codec   src/protocol/{format,wire,codec}.rs: constants, header, bodies, codecs
--   Crypto.Replay, .Session          src/crypto/{replay,session}.rs: replay window, keys, cipher, keyed hash
--   Mixer.Jitter, .Streams, .Pull    src/mixer/{jitter,mod}.rs: the jitter buffer of one stream, the streams,
--                                    and the mix for the playback callback
--   Audio.Ring                       src/audio/ring.rs: the bounded byte queue
--   Audio.Playback                   src/audio/{pcm,playback}.rs: the playback callback of an i16 device
--   Transport.Packet                 src/transport/packet.rs: sealed packets, over Wire.Header and Session
--   Transport.Adapt                  src/transport/adapt.rs: probe plan, sustainable rate, adaptation, pacing
--   Transport.Sender                 src/transport/sender.rs: the sending engine, over all of these
--   Transport.Receiver.Loss, .Peer   src/transport/receiver.rs: the account of losses, one peer
--   Transport.Receiver.Engine        src/transport/receiver.rs: datagrams, peers, replay, epoch rotation
--   Transport.Receiver.Feedback      src/transport/receiver.rs: feedback, expiry, reports
--   Transport.Receiver.Run           src/transport/receiver.rs: runs of the engine beside its mixer
--   Transport.Exchange               the sending and the receiving engine against each other
--   Discovery                        src/discovery/mod.rs: signed queries and announces, choice of a source
--   Daemon.Select                    src/daemon/mod.rs: which receiver is taken and how it is known again
--   Daemon.Discover                  src/daemon/mod.rs: the search for receivers, over Discovery
--   Daemon.Sending                   src/daemon/mod.rs: the sending loop, over Transport.Sender
--   Daemon.Serving                   src/daemon/mod.rs: the receiving loop, over Transport.Receiver and Discovery
--   Daemon.Control, .Control.Line    src/daemon/mod.rs, src/control/mod.rs: answers to control requests
--   Cli                              src/cli/mod.rs, src/config/mod.rs: the commands
-- Common holds the shared helpers. A component's definitions stand in the file of its name, its
-- theorems in files below it, its concrete runs in a file Tests. Functions keep their names; `open`
-- is `open_ciphertext`, `open_packet` and `open_signed`, `ReceiverAdapt::observe` is `observe_jitter`,
-- and a loop or the middle of a long function has a function of its own, next to it.
--
-- State is a record and each operation returns the new one. Numbers are natural numbers; u64, u32 and
-- u16 keep their wrap or saturation written out, and usize has 64 bits. A byte is a number, an array a
-- list whose length is a hypothesis, a text the list of its code points with its UTF-8 form written
-- out. Clock readings and random values are arguments.
--
-- Parameters: Blake2b, ChaCha20-Poly1305 and the hex decoder are other crates' (`Crates`, with their
-- documented behaviour in `Documented`: digests of 64 bytes, tags of 16, what was sealed opens); the
-- floating-point loss share is `LossFloat`, a gain `GainFloat`, the mixer's sums `MixFloat`, the
-- jitter `JitterFloat`, and the hex encoder that names a stream is an argument. JSON is `Json` and a
-- parser, `parse::<SocketAddr>()` a function, and a branch of a tokio `select!` an event with its
-- readings of the clock, so that an order of the branches is a list of events.
--
-- Fuel: `pull` runs its loop on 2 * frames + 1 rounds, since a round plays a frame or steps to the
-- next packet; `evict` runs on the number of packets, since each round removes one; `chunks` on the
-- length of its input. The other loops are structural.
--
-- Not modelled: audio devices, capture and the floating-point conversions; of the daemon the opening
-- of sockets and the supervision of playback; files, printing and the parser of the command line; the
-- Go implementation.
pub mod Common
pub mod Protocol
pub mod Crypto
pub mod Mixer
pub mod Audio
pub mod Discovery
pub mod Transport
pub mod Daemon
pub mod Cli
