-- ===== src/Daemon/Select/Agree.antt =====
-- The two filters of the daemon (src/daemon/mod.rs): the choice of a receiver and its verification.
use remote_au.Common.{
  ℕ, ◌≡◌, refl, true, false, Option, none, some, List, [], ◌∷◌, bytes_eq_refl, Bool, ◌&&◌, ◌==◌,
  ◌||◌, bytes_eq, arith,
}
use mathlib.Core.Path.{ap₂}
use remote_au.Daemon.Select.{
  Wanted, ip_eq, addr_eq, name_fits, peer_matches, by_target, by_instance, direct_sockets, at_port,
  of_address, target_of, is_choice,
}
use remote_au.Discovery.Announce.{Announce}
use remote_au.Discovery.Sources.{IpAddr, v4, v6, SocketAddr}

==_sym : (a b : ℕ) → (a == b) ≡ (b == a)
==_sym a b = ground arith

bytes_eq_sym : (xs ys : List ℕ) → bytes_eq xs ys ≡ bytes_eq ys xs
bytes_eq_sym [] [] = refl
bytes_eq_sym [] (y ∷ ys) = refl
bytes_eq_sym (x ∷ xs) [] = refl
bytes_eq_sym (x ∷ xs) (y ∷ ys) = ap₂ (λ p q. p && q) (==_sym x y) (bytes_eq_sym xs ys)

ip_eq_sym : (a b : IpAddr) → ip_eq a b ≡ ip_eq b a
ip_eq_sym (v4 a b c d) (v4 a' b' c' d') =
    ap₂ (λ p q. p && q) (==_sym a a')
      (ap₂ (λ p q. p && q) (==_sym b b') (ap₂ (λ p q. p && q) (==_sym c c') (==_sym d d')))
ip_eq_sym (v4 a b c d) (v6 octets) = refl
ip_eq_sym (v6 octets) (v4 a b c d) = refl
ip_eq_sym (v6 octets) (v6 octets') = bytes_eq_sym octets octets'

addr_eq_sym : (a b : SocketAddr) → addr_eq a b ≡ addr_eq b a
addr_eq_sym a b = ap₂ (λ p q. p && q) (ip_eq_sym a.ip b.ip) (==_sym a.port b.port)

or_false : (b c d : Bool) → b ≡ d → ((b || false) && c) ≡ true → (d && c) ≡ true
or_false b c d e h = ground arith

of_address-agrees :
    (addr : Option SocketAddr) (to : List ℕ) (peer : Option (List ℕ)) (announce : Announce)
    (src : SocketAddr)
    → let wanted = of_address addr to peer in
      is_choice (direct_sockets wanted.ips wanted.port) wanted (announce, src) ≡ true
      → peer_matches announce src announce.instance_id wanted ≡ true
unfolding of_address peer_matches by_target by_instance is_choice direct_sockets at_port
of_address-agrees none to peer announce src h = rw (bytes_eq_refl announce.instance_id)
of_address-agrees (some addr) to peer announce src h = by_ip addr.ip h
  where
    by_ip :
        (ip : IpAddr)
        → let wanted : Wanted = record {
          ips = elim ip [ v4 a b c d ↦ v4 a b c d ∷ [] | v6 octets ↦ [] ];
          port = some addr.port;
          name = peer;
        } in
          is_choice (direct_sockets wanted.ips wanted.port) wanted (announce, src) ≡ true
          → peer_matches announce src announce.instance_id wanted ≡ true
    by_ip (v6 octets) k = rw (bytes_eq_refl announce.instance_id)
    by_ip (v4 a b c d) k =
        or_false _ (name_fits peer announce) _
          (addr_eq_sym (record { ip = v4 a b c d; port = addr.port }) src) k

-- An answer that `wait_for_peer` takes passes `peer_matches` with its own instance.
pub peer_matches-is_choice :
    (parse : List ℕ → Option SocketAddr) (to peer : Option (List ℕ)) (announce : Announce)
    (src : SocketAddr)
    → let wanted = target_of parse to peer in
      is_choice (direct_sockets wanted.ips wanted.port) wanted (announce, src) ≡ true
      → peer_matches announce src announce.instance_id wanted ≡ true
unfolding target_of
peer_matches-is_choice parse none peer announce src h =
    (unfold peer_matches by_target by_instance in rw (bytes_eq_refl announce.instance_id))
peer_matches-is_choice parse (some to) peer announce src h =
    of_address-agrees (parse to) to peer announce src h
