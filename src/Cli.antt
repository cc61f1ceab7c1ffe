-- ===== src/Cli.antt =====
-- src/cli/mod.rs: the commands, as functions of the pairing and the preferences that are stored; src/config/mod.rs: the format of the global options and the preferences. Printing, failures of the file system and the command line's own parser are outside. The JSON of an invitation file and `parse::<SocketAddr>()` are arguments.
pub mod Laws
pub mod Tests
use remote_au.Common.{
  ℕ, ◌+◌, ◌*◌, ◌/◌, ◌⊎◌, inl, inr, Bool, true, false, not, ◌&&◌, ◌||◌, Option, none, some, List, [],
  ◌∷◌, length, leb, ltb, ◌==◌, bytes_eq, if◌then◌else◌, clamp, u16_max,
}
use remote_au.Common.Text.{codes}
use remote_au.Daemon.Control.{Json, Outcome}
use remote_au.Discovery.Sources.{IpAddr, v4, v6, SocketAddr}
use remote_au.Mixer.Streams.{GainFloat}
use remote_au.Protocol.Format.{AudioFormat}

-- `audio_format_from_globals`, on a u32 rate, a u8 of channels and a u32 of milliseconds.
unfoldable pub audio_format_from_globals : ℕ → ℕ → ℕ → AudioFormat
audio_format_from_globals rate channels frame_ms = record {
  sample_rate = rate;
  channels = channels;
  frame_samples = clamp (rate * frame_ms / 1000) 1 u16_max;
}

-- The check of the global options in front of every command.
pub format_of : ℕ → ℕ → ℕ → Outcome AudioFormat
format_of rate channels frame_ms =
    if not (rate == 48000) || (not (channels == 2) || not (frame_ms == 5))
    then inl (
        codes
          "Rust daemon uses 48000 Hz stereo and 5 ms packets; remove custom --rate/--channels/--frame-ms")
    else inr (audio_format_from_globals rate channels frame_ms)

-- `char::is_ascii_hexdigit` of a byte.
is_hex : ℕ → Bool
is_hex c = leb b'0' c && leb c b'9' || leb b'a' c && leb c b'f' || leb b'A' c && leb c b'F'

all_hex : List ℕ → Bool
all_hex [] = true
all_hex (c ∷ cs) = is_hex c && all_hex cs

pub valid_token : List ℕ → Bool
valid_token s = length s == 64 && all_hex s

pub record PairingConfig : Type 0 where
  pub invitation_token : List ℕ
  pub receiver_name : Option (List ℕ)

-- The flags of `pair`: an import file by its bytes, an export file by whether it exists.
pub record PairArgs : Type 0 where
  pub show : Bool
  pub import_file : Option (List ℕ)
  pub export_file : Option Bool
  pub rotate : Bool
  pub receiver_name : Option (List ℕ)

-- What is stored behind the command, and what it exports.
pub record Paired : Type 0 where
  pub stored : Option PairingConfig
  pub exported : Option PairingConfig

-- `if receiver_name.is_some()`.
pub renamed : PairingConfig → Option (List ℕ) → PairingConfig
renamed cfg none = cfg
renamed cfg (some name) = record cfg { receiver_name = some name }

import_config : Option (List ℕ) → Option PairingConfig → Outcome Paired
import_config name none = inl (codes "invalid invitation file")
import_config name (some cfg) =
    if not (valid_token cfg.invitation_token)
    then inl (codes "invitation requires a 256-bit hexadecimal token")
    else inr (record { stored = some (renamed cfg name); exported = none })

export_config : Option PairingConfig → Bool → Outcome Paired
export_config none exists = inl (codes "not paired; run pair first")
export_config (some cfg) exists =
    if exists
    then inl (codes "export path already exists; choose a new private file")
    else inr (record { stored = some cfg; exported = some cfg })

new_group : PairArgs → Option PairingConfig → List ℕ → Outcome Paired
new_group args old token =
    let created : Paired = record {
      stored = some (record { invitation_token = token; receiver_name = args.receiver_name });
      exported = none;
    } in
    elim old [
      | none ↦ inr created
      | some cfg ↦
          if not args.rotate
          then inl (
              codes
                "already paired; use --export-file to pair another node or --rotate to revoke the whole group")
          else inr created
    ]

exporting : PairArgs → Option PairingConfig → List ℕ → Option Bool → Outcome Paired
exporting args old token none = new_group args old token
exporting args old token (some exists) = export_config old exists

importing :
    (List ℕ → Option PairingConfig)
    → PairArgs
    → Option PairingConfig
    → List ℕ
    → Option (List ℕ)
    → Outcome Paired
importing parse args old token none = exporting args old token args.export_file
importing parse args old token (some bytes) =
    if ltb 8192 (length bytes)
    then inl (codes "invitation file is too large")
    else import_config args.receiver_name (parse bytes)

-- `Commands::Pair`; `token` is the random one of `generate_invitation_token`.
pub pair :
    (List ℕ → Option PairingConfig) → PairArgs → Option PairingConfig → List ℕ → Outcome Paired
pair parse args old token =
    if args.show
    then inr (record { stored = old; exported = none })
    else importing parse args old token args.import_file

-- `Commands::Nodes`.
pub nodes_timeout : ℕ → Outcome ℕ
nodes_timeout timeout_ms =
    if not (leb 50 timeout_ms && leb timeout_ms 10000)
    then inl (codes "--timeout-ms must be 50..10000")
    else inr timeout_ms

is_ipv4 : IpAddr → Bool
is_ipv4 (v4 a b c d) = true
is_ipv4 (v6 octets) = false

-- `CaptureSource`, and the choice by its name.
pub data CaptureSource : Type 0 where
  microphone loopback synthetic null : CaptureSource

pub source_of : List ℕ → CaptureSource
source_of source =
    if bytes_eq source (codes "loopback")
    then loopback
    else if bytes_eq source (codes "mic")
    then microphone
    else if bytes_eq source (codes "synth")
    then synthetic
    else null

-- `Option::or`.
abbrev pub or_else {ℓ} : {A : Type ℓ} → Option A → Option A → Option A
or_else none b = b
or_else (some a) b = some a

module _ (g : GainFloat) (js : Json g) (parse_addr : List ℕ → Option SocketAddr) where
  pub record Preferences : Type 0 where
    pub server : Option (List ℕ)
    pub output_device : Option ℕ
    pub capture_device : Option ℕ
    pub master_gain : Option g.Float

  selected : Preferences → List ℕ → Option SocketAddr → Outcome Preferences
  selected prefs address none = inl (codes "use auto or a numeric IP:port")
  selected prefs address (some endpoint) =
      if not (is_ipv4 endpoint.ip) || endpoint.port == 0
      then inl (codes "use an IPv4 address and port 1..65535")
      else inr (record prefs { server = some address })

  -- `Commands::SelectServer`.
  pub select_server : Preferences → List ℕ → Outcome Preferences
  select_server prefs address =
      if bytes_eq address (codes "auto")
      then inr (record prefs { server = none })
      else selected prefs address (parse_addr address)

  -- `Commands::Device`.
  pub device : Preferences → Option ℕ → Option ℕ → Bool → Preferences
  device prefs output capture reset =
      let base : Preferences =
        if reset then record prefs { output_device = none; capture_device = none } else prefs in
      record base {
        output_device = or_else output base.output_device;
        capture_device = or_else capture base.capture_device;
      }

  -- The loop over the gains that are given.
  gain_fits : Option js.Double → Bool
  gain_fits none = true
  gain_fits (some gain) = js.is_finite gain && js.in_range gain

  has {ℓ} : {A : Type ℓ} → Option A → Bool
  has none = false
  has (some a) = true

  -- The checks of `Commands::Volume` in front of its request.
  pub check_volume : Option js.Double → Option (List ℕ) → Option js.Double → Outcome (Unit {0})
  check_volume master stream gain =
      if not (has master) && (not (has stream) || not (has gain))
      then inl (codes "use --master GAIN or --stream ID --gain GAIN")
      else if not (gain_fits master && gain_fits gain)
      then inl (codes "gain must be finite and between 0 and 2")
      else inr tt

  saved_gain : Preferences → Option js.Double → Preferences
  saved_gain prefs none = prefs
  saved_gain prefs (some gain) = record prefs { master_gain = some (js.to_f32 gain) }

  -- And behind the answer: the master gain is saved if the daemon took it.
  pub volume_answered : Preferences → Option js.Double → Bool → Outcome Preferences
  volume_answered prefs master ok =
      if not ok then inl (codes "refused") else inr (saved_gain prefs master)

  target_parsed : List ℕ → Option SocketAddr → Outcome (Option (List ℕ))
  target_parsed target none =
      inl (codes "--to requires a numeric IPv4:port; use --peer for a node name")
  target_parsed target (some endpoint) =
      if not (is_ipv4 endpoint.ip) || endpoint.port == 0
      then inl (codes "--to requires IPv4 and port 1..65535")
      else inr (some target)

  -- `chosen_to` of `Commands::Send`, with its check.
  target_checked : Option (List ℕ) → Outcome (Option (List ℕ))
  target_checked none = inr none
  target_checked (some target) = target_parsed target (parse_addr target)

  pub send_target : Option (List ℕ) → Preferences → Outcome (Option (List ℕ))
  send_target to prefs = target_checked (or_else to prefs.server)

  -- `peer.or(... p.receiver_name)`.
  pub send_peer : Option (List ℕ) → Option PairingConfig → Option (List ℕ)
  send_peer peer none = peer
  send_peer peer (some cfg) = or_else peer cfg.receiver_name
