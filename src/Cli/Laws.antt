-- ===== src/Cli/Laws.antt =====
-- The commands of src/cli/mod.rs beside one another, and beside the daemon's check of the format.
use remote_au.Common.{
  ℕ, ◌≡◌, ◌⊎◌, ◌∙◌, refl, sym, ap, inl, inr, Bool, true, false, Option, none, some, List, [],
  length, ltb, bytes_eq, if◌then◌else◌, arith,
}
use remote_au.Common.Text.{codes}
use remote_au.Cli.{
  audio_format_from_globals, format_of, valid_token, PairingConfig, PairArgs, Paired, renamed,
  import_config, export_config, new_group, exporting, importing, pair, Preferences, selected,
  select_server, target_parsed, target_checked, send_target,
}
use remote_au.Daemon.Control.{Json}
use remote_au.Discovery.Sources.{SocketAddr}
use remote_au.Mixer.Streams.{GainFloat}
use remote_au.Protocol.Format.{AudioFormat, ok, require_wire}

-- A test that is passed.
if_inr :
    {A : Type 0} (b : Bool) (err : List ℕ) (x y : A)
    → (if b then inl err else inr x) ≡ inr y
    → (b ≡ false) × (x ≡ y)
if_inr true err x y h = cc
if_inr false err x y h = (refl, cc)

wire_format :
    (rate channels frame_ms : ℕ)
    → rate ≡ 48000
    → channels ≡ 2
    → frame_ms ≡ 5
    → require_wire (audio_format_from_globals rate channels frame_ms) ≡ ok
unfolding require_wire audio_format_from_globals
wire_format rate channels frame_ms r c m = rw (r, c, m) refl

-- Global options that are let through are 48000 Hz, two channels and 5 ms, and the daemon's own check of the format, `require_wire`, then succeeds on the format they give.
pub format_of-require_wire :
    (rate channels frame_ms : ℕ) (format : AudioFormat)
    → format_of rate channels frame_ms ≡ inr format
    → (rate ≡ 48000) × (channels ≡ 2) × (frame_ms ≡ 5) × (require_wire format ≡ ok)
unfolding format_of
format_of-require_wire rate channels frame_ms format h =
    let (good, same) = if_inr _ _ _ _ h in
    let r : rate ≡ 48000 = ground arith in
    let c : channels ≡ 2 = ground arith in
    let m : frame_ms ≡ 5 = ground arith in
    (r, c, m, ap require_wire (sym same) ∙ wire_format rate channels frame_ms r c m)

module _ (parse : List ℕ → Option PairingConfig) (args : PairArgs) (token : List ℕ) where
  -- An invitation that is imported.
  abbrev pub Imported : Paired → Type 0
  Imported out =
      (bytes : List ℕ) × (new : PairingConfig) × (args.import_file ≡ some bytes)
      × (parse bytes ≡ some new)
      × (valid_token new.invitation_token ≡ true)
      × (out.stored ≡ some (renamed new args.receiver_name))

  -- What a successful `pair` leaves behind.
  abbrev pub Leaves : PairingConfig → Paired → Type 0
  Leaves cfg out =
      (out.stored ≡ some cfg)
      ⊎ (Imported out
          ⊎ ((args.rotate ≡ true)
              × (out.stored
                  ≡ some
                      (record { invitation_token = token; receiver_name = args.receiver_name }))))

  module _ (cfg : PairingConfig) (out : Paired) where
    exporting-Leaves :
        (e : Option Bool) → exporting args (some cfg) token e ≡ inr out → Leaves cfg out
    unfolding exporting new_group export_config
    exporting-Leaves none h =
        let (rotated, same) = if_inr _ _ _ _ h in
        inr (inr (ground (arith, rotated), sym (ap (λ (p : Paired). p.stored) same)))
    exporting-Leaves (some exists) h =
        inl (sym (ap (λ (p : Paired). p.stored) (if_inr _ _ _ _ h).1))

    import_config-Leaves :
        (bytes : List ℕ) (o : Option PairingConfig)
        → args.import_file ≡ some bytes
        → parse bytes ≡ o
        → import_config args.receiver_name o ≡ inr out
        → Leaves cfg out
    unfolding import_config
    import_config-Leaves bytes none file parsed h = cc
    import_config-Leaves bytes (some new) file parsed h =
        let (good, same) = if_inr _ _ _ _ h in
        inr (
          inl (
            bytes,
            new,
            file,
            parsed,
            ground (arith, good),
            sym (ap (λ (p : Paired). p.stored) same),
          ))

    importing-Leaves :
        (i : Option (List ℕ))
        → args.import_file ≡ i
        → importing parse args (some cfg) token i ≡ inr out
        → Leaves cfg out
    unfolding importing
    importing-Leaves none file h = exporting-Leaves args.export_file h
    importing-Leaves (some bytes) file h = by_size (ltb 8192 (length bytes)) h
      where
        by_size :
            (b : Bool)
            → (if b
                then inl (codes "invitation file is too large")
                else import_config args.receiver_name (parse bytes))
              ≡ inr out
            → Leaves cfg out
        by_size true k = cc
        by_size false k = import_config-Leaves bytes (parse bytes) file refl k

    -- A node that is paired keeps its pairing under a successful `pair`, unless it imports an invitation, whose token is then one of 64 hexadecimal digits, or is told to rotate.
    pub pair-Leaves : pair parse args (some cfg) token ≡ inr out → Leaves cfg out
    unfolding pair
    pair-Leaves = by_show args.show
      where
        by_show :
            (b : Bool)
            → (if b
                then inr (record { stored = some cfg; exported = none })
                else importing parse args (some cfg) token args.import_file)
              ≡ inr out
            → Leaves cfg out
        by_show true h = inl (sym (ap (λ (p : Paired). p.stored) (if_inr false [] _ _ h).1))
        by_show false h = importing-Leaves args.import_file refl h

module _ (g : GainFloat) (js : Json g) (parse_addr : List ℕ → Option SocketAddr) where
  -- The address that `select-server` takes is taken as a target.
  selected-target :
      (prefs saved : Preferences g js parse_addr) (address : List ℕ) (o : Option SocketAddr)
      → parse_addr address ≡ o
      → selected g js parse_addr prefs address o ≡ inr saved
      → target_checked g js parse_addr saved.server ≡ inr saved.server
  unfolding selected target_checked target_parsed
  selected-target prefs saved address none parsed h = cc
  selected-target prefs saved address (some endpoint) parsed h =
      let (good, same) = if_inr _ _ _ _ h in
      let server : some address ≡ saved.server =
        ap (λ (p : Preferences g js parse_addr). p.server) same in
      rw (sym server, parsed, good) refl

  -- What `select-server` saves, an address or none, `send` without `--to` takes as its target.
  pub send_target-select_server :
      (prefs saved : Preferences g js parse_addr) (address : List ℕ)
      → select_server g js parse_addr prefs address ≡ inr saved
      → send_target g js parse_addr none saved ≡ inr saved.server
  unfolding select_server send_target target_checked
  send_target-select_server prefs saved address = by_auto (bytes_eq address (codes "auto"))
    where
      by_auto :
          (b : Bool)
          → (if b
              then inr (record prefs { server = none })
              else selected g js parse_addr prefs address (parse_addr address))
            ≡ inr saved
          → target_checked g js parse_addr saved.server ≡ inr saved.server
      by_auto true h =
          rw (sym (ap (λ (p : Preferences g js parse_addr). p.server) (if_inr false [] _ _ h).1))
            refl
      by_auto false h = selected-target prefs saved address (parse_addr address) refl h
