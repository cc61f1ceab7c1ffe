-- ===== src/Daemon/Select.antt =====
-- src/daemon/mod.rs: which receiver the sender takes, and how it is known again. A target's numeric address, `to.parse::<SocketAddr>()`, is an argument.
pub mod Agree
pub mod Wants
pub mod Choice
pub mod Tests
use remote_au.Common.{
  ℕ, Bool, true, false, not, ◌||◌, ◌&&◌, ◌==◌, Option, none, some, List, [], ◌∷◌, map, bytes_eq,
  if◌then◌else◌,
}
use remote_au.Discovery.Announce.{Announce}
use remote_au.Discovery.Sources.{IpAddr, v4, v6, SocketAddr, Answer, contact_addr}

-- Equality of addresses.
abbrev pub ip_eq : IpAddr → IpAddr → Bool
ip_eq (v4 a b c d) (v4 a' b' c' d') = a == a' && (b == b' && (c == c' && d == d'))
ip_eq (v4 a b c d) (v6 octets) = false
ip_eq (v6 octets) (v4 a b c d) = false
ip_eq (v6 octets) (v6 octets') = bytes_eq octets octets'

abbrev pub addr_eq : SocketAddr → SocketAddr → Bool
addr_eq a b = ip_eq a.ip b.ip && a.port == b.port

abbrev pub contains_addr : SocketAddr → List SocketAddr → Bool
contains_addr a [] = false
contains_addr a (b ∷ bs) = addr_eq b a || contains_addr a bs

-- What the command line asks for: addresses, a port and a name.
pub record Wanted : Type 0 where
  pub ips : List IpAddr
  pub port : Option ℕ
  pub name : Option (List ℕ)

-- `name.map(|n| announce.name == n).unwrap_or(true)`, and the negated test of `is_some_and`.
abbrev pub name_fits : Option (List ℕ) → Announce → Bool
name_fits none announce = true
name_fits (some name) announce = bytes_eq announce.name name

abbrev pub ip_fits : List IpAddr → SocketAddr → Bool
ip_fits [] src = true
ip_fits (ip ∷ ips) src = ip_eq src.ip ip

abbrev pub port_fits : Option ℕ → Announce → Bool
port_fits none announce = true
port_fits (some port) announce = announce.tcp_port == port

pub select_match : Announce → SocketAddr → Wanted → Bool
select_match announce src wanted =
    if not (name_fits wanted.name announce)
    then false
    else if not (ip_fits wanted.ips src)
    then false
    else if not (port_fits wanted.port announce)
    then false
    else true

-- The end of `peer_matches`, by the name.
by_name : Option (List ℕ) → Announce → Bool
by_name none announce = false
by_name (some name) announce = bytes_eq announce.name name

-- `peer_matches` behind its first test, by the addresses.
by_instance : List IpAddr → Announce → SocketAddr → List ℕ → Wanted → Bool
by_instance [] announce src instance_id wanted =
    if bytes_eq announce.instance_id instance_id then true else by_name wanted.name announce
by_instance (ip ∷ ips) announce src instance_id wanted =
    if bytes_eq announce.instance_id instance_id
    then true
    else if ip_eq src.ip ip
    then port_fits wanted.port announce
    else false

-- `peer_matches`, by the first address and the port.
by_target : List IpAddr → Option ℕ → Announce → SocketAddr → List ℕ → Wanted → Bool
by_target (ip ∷ ips) (some port) announce src instance_id wanted =
    addr_eq src (record { ip = ip; port = port }) && name_fits wanted.name announce
by_target [] (some port) announce src instance_id wanted =
    by_instance [] announce src instance_id wanted
by_target [] none announce src instance_id wanted = by_instance [] announce src instance_id wanted
by_target (ip ∷ ips) none announce src instance_id wanted =
    by_instance (ip ∷ ips) announce src instance_id wanted

pub peer_matches : Announce → SocketAddr → List ℕ → Wanted → Bool
peer_matches announce src instance_id wanted =
    by_target wanted.ips wanted.port announce src instance_id wanted

at_port : ℕ → List IpAddr → List SocketAddr
at_port port [] = []
at_port port (ip ∷ ips) = record { ip = ip; port = port } ∷ at_port port ips

pub direct_sockets : List IpAddr → Option ℕ → List SocketAddr
direct_sockets ips none = []
direct_sockets ips (some port) = at_port port ips

-- `or_else` on the name.
named_by : Option (List ℕ) → List ℕ → Option (List ℕ)
named_by none to = some to
named_by (some name) to = some name

-- `target_of` with a target, by its numeric address.
of_address : Option SocketAddr → List ℕ → Option (List ℕ) → Wanted
of_address none to peer = record { ips = []; port = none; name = named_by peer to }
of_address (some addr) to peer = record {
  ips = elim (addr.ip) [ v4 a b c d ↦ v4 a b c d ∷ [] | v6 octets ↦ [] ];
  port = some addr.port;
  name = peer;
}

pub target_of : (List ℕ → Option SocketAddr) → Option (List ℕ) → Option (List ℕ) → Wanted
target_of parse none peer = record { ips = []; port = none; name = peer }
target_of parse (some to) peer = of_address (parse to) to peer

pub record ChosenPeer : Type 0 where
  pub epoch : List ℕ
  pub addr : SocketAddr
  pub name : List ℕ
  pub instance_id : List ℕ

-- The test in the loop of `wait_for_peer`.
pub is_choice : List SocketAddr → Wanted → Answer → Bool
is_choice [] wanted (announce, src) = select_match announce src wanted
is_choice (d ∷ direct) wanted (announce, src) =
    contains_addr src (d ∷ direct) && name_fits wanted.name announce

-- Where the receiver is reached: a direct address as it answered, or the port that it announces.
pub reach : List SocketAddr → Answer → SocketAddr
reach direct (announce, src) = if contains_addr src direct then src else contact_addr announce src

-- A round of `wait_for_peer` on the answers of a discovery: the first that fits.
pub choose_peer : List SocketAddr → Wanted → List Answer → Option ChosenPeer
choose_peer direct wanted [] = none
choose_peer direct wanted (answer ∷ answers) =
    let rest = choose_peer direct wanted answers in
    if is_choice direct wanted answer
    then some (record {
      epoch = answer.0.epoch;
      addr = reach direct answer;
      name = answer.0.name;
      instance_id = answer.0.instance_id;
    })
    else rest
