-- ===== src/Daemon/Select/Wants.antt =====
-- The answers that a sender wants, and the test of `wait_for_peer` (src/daemon/mod.rs).
use mathlib.Core.Path.{subst, ap₂}
use remote_au.Common.{
  ℕ, ◌≡◌, refl, inl, inr, sym, ap, ◌∙◌, true, false, Bool, Option, none, some, List, [], ◌∷◌, ◌==◌,
  ◌&&◌, ◌||◌, bytes_eq, Bool-cases, arith, bytes_eq→eq, bytes_eq_refl,
}
use remote_au.Daemon.Select.{
  Wanted, ip_eq, addr_eq, name_fits, select_match, direct_sockets, at_port, of_address, target_of,
  named_by, is_choice,
}
use remote_au.Discovery.Announce.{Announce}
use remote_au.Discovery.Sources.{IpAddr, v4, v6, SocketAddr, Answer}

-- An announce of the name that is asked for, if any.
abbrev pub Named : Option (List ℕ) → Announce → Type 0
Named none announce = Unit
Named (some name) announce = announce.name ≡ name

-- A target that is no address stands for a name, unless a name is given too.
abbrev pub NamedElse : Option (List ℕ) → List ℕ → Announce → Type 0
NamedElse none to announce = announce.name ≡ to
NamedElse (some name) to announce = announce.name ≡ name

-- The answers that are wanted with a numeric address as target, and where the sender sends then: an
-- IPv4 address is matched with the source, of an IPv6 address only the port, with the announced one.
abbrev pub WantedAt : IpAddr → ℕ → Option (List ℕ) → Announce → SocketAddr → Type 0
WantedAt (v4 a b c d) port peer announce src =
    (src ≡ record { ip = v4 a b c d; port = port }) × Named peer announce
WantedAt (v6 octets) port peer announce src = (announce.tcp_port ≡ port) × Named peer announce

abbrev pub WantedBy : Option SocketAddr → List ℕ → Option (List ℕ) → Answer → Type 0
WantedBy none to peer (announce, src) = NamedElse peer to announce
WantedBy (some addr) to peer (announce, src) = WantedAt addr.ip addr.port peer announce src

abbrev pub Wants :
    (List ℕ → Option SocketAddr) → Option (List ℕ) → Option (List ℕ) → Answer → Type 0
Wants parse none peer (announce, src) = Named peer announce
Wants parse (some to) peer answer = WantedBy (parse to) to peer answer

eq→== : (a b : ℕ) → a ≡ b → (a == b) ≡ true
eq→== a b e = ground arith

==→eq : (a b : ℕ) → (a == b) ≡ true → a ≡ b
==→eq a b e = ground arith

pub and_true : (b c : Bool) → (b && c) ≡ true → (b ≡ true) × (c ≡ true)
and_true true c h = (refl, h)
and_true false c h = cc

bytes_eq_of : (xs ys : List ℕ) → xs ≡ ys → bytes_eq xs ys ≡ true
bytes_eq_of xs ys e = ap (bytes_eq xs) (sym e) ∙ bytes_eq_refl xs

ip_eq_refl : (a : IpAddr) → ip_eq a a ≡ true
ip_eq_refl (v4 a b c d) = ground arith
ip_eq_refl (v6 octets) = bytes_eq_refl octets

ip_eq→eq : (a b : IpAddr) → ip_eq a b ≡ true → a ≡ b
ip_eq→eq (v4 a b c d) (v4 a' b' c' d') h =
    let (h0, h') = and_true (a == a') _ h in
    let (h1, h'') = and_true (b == b') _ h' in
    let (h2, h3) = and_true (c == c') _ h'' in
    let e0 : a ≡ a' = ==→eq a a' h0 in
    let e1 : b ≡ b' = ==→eq b b' h1 in
    let e2 : c ≡ c' = ==→eq c c' h2 in let e3 : d ≡ d' = ==→eq d d' h3 in cc
ip_eq→eq (v4 a b c d) (v6 octets) h = cc
ip_eq→eq (v6 octets) (v4 a b c d) h = cc
ip_eq→eq (v6 octets) (v6 octets') h = ap v6 (bytes_eq→eq octets octets' h)

addr_eq→eq : (a b : SocketAddr) → addr_eq a b ≡ true → a ≡ b
addr_eq→eq a b h =
    let (i, p) = and_true (ip_eq a.ip b.ip) _ h in
    let ip : a.ip ≡ b.ip = ip_eq→eq a.ip b.ip i in
    let port : a.port ≡ b.port = ==→eq a.port b.port p in
    ap₂ (λ (i : IpAddr) (q : ℕ). record { ip = i; port = q }) ip port

addr_eq_of : (a b : SocketAddr) → a ≡ b → addr_eq a b ≡ true
addr_eq_of a b e =
    subst (λ (x : SocketAddr). addr_eq a x ≡ true) e (ground (arith, ip_eq_refl a.ip))

name_fits→Named :
    (peer : Option (List ℕ)) (announce : Announce)
    → name_fits peer announce ≡ true
    → Named peer announce
name_fits→Named none announce h = tt
name_fits→Named (some name) announce h = bytes_eq→eq announce.name name h

Named→name_fits :
    (peer : Option (List ℕ)) (announce : Announce)
    → Named peer announce
    → name_fits peer announce ≡ true
Named→name_fits none announce h = refl
Named→name_fits (some name) announce h = bytes_eq_of announce.name name h

select_match-named :
    (name : Option (List ℕ)) (announce : Announce) (src : SocketAddr)
    → select_match announce src (record { ips = []; port = none; name = name })
      ≡ name_fits name announce
unfolding select_match
select_match-named name announce src = elim (Bool-cases (name_fits name announce)) [
  | inl fits ↦ simp fits refl
  | inr other ↦ simp other refl
]

select_match-port :
    (name : Option (List ℕ)) (port : ℕ) (announce : Announce) (src : SocketAddr)
    → select_match announce src (record { ips = []; port = some port; name = name })
      ≡ (announce.tcp_port == port && name_fits name announce)
unfolding select_match
select_match-port name port announce src = elim (Bool-cases (name_fits name announce)) [
  | inl fits ↦ elim (Bool-cases (announce.tcp_port == port)) [
    | inl same ↦ simp (fits, same) refl
    | inr apart ↦ simp (fits, apart) refl
  ]
  | inr other ↦ elim (Bool-cases (announce.tcp_port == port)) [
    | inl same ↦ simp (other, same) refl
    | inr apart ↦ simp (other, apart) refl
  ]
]

-- A test that decides a claim.
pub record Decides (b : Bool) (A : Type 0) : Type 0 where
  pub holds : b ≡ true → A
  pub found : A → b ≡ true

Decides-name :
    (name : Option (List ℕ)) (announce : Announce)
    → Decides (name_fits name announce) (Named name announce)
Decides-name name announce = record {
  holds = name_fits→Named name announce;
  found = Named→name_fits name announce;
}

Decides-and : (b c : Bool) {A B : Type 0} → Decides b A → Decides c B → Decides (b && c) (A × B)
Decides-and true c d e = record { holds = λ h. (d.holds refl, e.holds h); found = λ k. e.found k.1 }
Decides-and false c d e = record { holds = λ h. cc; found = λ k. d.found k.0 }

Decides-else :
    (peer : Option (List ℕ)) (to : List ℕ) (announce : Announce)
    → Decides (name_fits (named_by peer to) announce) (NamedElse peer to announce)
unfolding named_by
Decides-else none to announce = Decides-name (some to) announce
Decides-else (some name) to announce = Decides-name (some name) announce

or_false : (b : Bool) → (b || false) ≡ b
or_false b = ground arith

Decides-addr : (d src : SocketAddr) → Decides (addr_eq d src || false) (src ≡ d)
Decides-addr d src = record {
  holds = λ h. sym (addr_eq→eq d src (sym (or_false (addr_eq d src)) ∙ h));
  found = λ e. or_false (addr_eq d src) ∙ addr_eq_of d src (sym e);
}

-- The test of `wait_for_peer`, for a target.
abbrev pub test : Wanted → Answer → Bool
test wanted answer = is_choice (direct_sockets wanted.ips wanted.port) wanted answer

Decides-of_address :
    (addr : Option SocketAddr) (to : List ℕ) (peer : Option (List ℕ)) (answer : Answer)
    → Decides (test (of_address addr to peer) answer) (WantedBy addr to peer answer)
unfolding of_address is_choice direct_sockets at_port
Decides-of_address none to peer (announce, src) =
    subst (λ (b : Bool). Decides b (NamedElse peer to announce))
      (sym (select_match-named (named_by peer to) announce src)) (Decides-else peer to announce)
Decides-of_address (some addr) to peer (announce, src) = by_ip addr.ip
  where
    by_ip :
        (ip : IpAddr)
        → Decides
            (let wanted : Wanted = record {
              ips = elim ip [ v4 a b c d ↦ v4 a b c d ∷ [] | v6 octets ↦ [] ];
              port = some addr.port;
              name = peer;
            } in
              test wanted (announce, src))
            (WantedAt ip addr.port peer announce src)
    by_ip (v4 a b c d) =
        Decides-and _ _ (Decides-addr (record { ip = v4 a b c d; port = addr.port }) src)
          (Decides-name peer announce)
    by_ip (v6 octets) =
        subst (λ (b : Bool). Decides b (WantedAt (v6 octets) addr.port peer announce src))
          (sym (select_match-port peer addr.port announce src))
          (Decides-and _ _
            (record {
              holds = ==→eq announce.tcp_port addr.port;
              found = eq→== announce.tcp_port addr.port;
            })
            (Decides-name peer announce))

pub Decides-Wants :
    (parse : List ℕ → Option SocketAddr) (to peer : Option (List ℕ)) (answer : Answer)
    → Decides (test (target_of parse to peer) answer) (Wants parse to peer answer)
unfolding target_of is_choice direct_sockets
Decides-Wants parse none peer (announce, src) =
    subst (λ (b : Bool). Decides b (Named peer announce))
      (sym (select_match-named peer announce src)) (Decides-name peer announce)
Decides-Wants parse (some to) peer answer = Decides-of_address (parse to) to peer answer
