-- ===== src/Cli/Tests.antt =====
-- Concrete commands.
use remote_au.Common.{ℕ, ◌≡◌, refl, inr, false, Option, none, some, List, [], ◌∷◌, replicate}
use remote_au.Cli.{
  PairingConfig, PairArgs, Paired, pair, importing, import_config, renamed, valid_token, all_hex,
  is_hex, is_ipv4, Preferences, select_server, selected, send_target,
}
use remote_au.Cli.Laws.{pair-Leaves, Leaves, send_target-select_server}
use remote_au.Daemon.Control.Tests.{toy_json}
use remote_au.Transport.Receiver.Engine.Tests.{hundredths, source}

abbrev old : PairingConfig
old = record { invitation_token = replicate 64 b'a'; receiver_name = none }

abbrev new : PairingConfig
new = record { invitation_token = replicate 64 b'c'; receiver_name = none }

abbrev args : PairArgs
args = record {
  show = false;
  import_file = some (b'x' ∷ []);
  export_file = none;
  rotate = false;
  receiver_name = some (b'r' ∷ []);
}

abbrev parse : List ℕ → Option PairingConfig
parse bytes = some new

abbrev out : Paired
out = record { stored = some (renamed new (some (b'r' ∷ []))); exported = none }

pair-Leaves_example : Leaves parse args (replicate 64 b'e') old out
pair-Leaves_example =
    pair-Leaves parse args (replicate 64 b'e') old out
      (unfold pair importing import_config valid_token all_hex is_hex in refl)

abbrev prefs : Preferences hundredths toy_json (λ text. some source)
prefs = record { server = none; output_device = none; capture_device = none; master_gain = none }

send_target-select_server_example :
    send_target hundredths toy_json
      (λ text. some source)
      none
      (record prefs { server = some (b'x' ∷ []) })
    ≡ inr (some (b'x' ∷ []))
send_target-select_server_example =
    send_target-select_server hundredths toy_json (λ text. some source) prefs
      (record prefs { server = some (b'x' ∷ []) }) (b'x' ∷ [])
      (unfold select_server selected is_ipv4 in refl)
