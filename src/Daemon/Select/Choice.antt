-- ===== src/Daemon/Select/Choice.antt =====
-- The answer that a round of `wait_for_peer` (src/daemon/mod.rs) takes.
use mathlib.Core.Path.{subst}
use remote_au.Common.{
  ℕ, ◌≡◌, refl, inl, inr, sym, ap, ◌∙◌, true, false, Option, none, some, List, [], ◌∷◌, ◌++◌, ◌||◌,
  All, Bool-cases,
}
use remote_au.Daemon.Select.{
  Wanted, addr_eq, name_fits, direct_sockets, at_port, of_address, target_of, is_choice, ChosenPeer,
  reach, choose_peer, peer_matches,
}
use remote_au.Daemon.Select.Agree.{peer_matches-is_choice}
use remote_au.Discovery.Announce.{Announce}
use remote_au.Discovery.Sources.{IpAddr, v4, v6, SocketAddr, Answer, contact_addr}
use remote_au.Daemon.Select.Wants.{Wants, and_true, test, Decides-Wants}

-- Where the sender sends then: to the source when the target is an IPv4 address, and else to the port
-- that is announced.
abbrev pub place_at : IpAddr → Announce → SocketAddr → SocketAddr
place_at (v4 a b c d) announce src = src
place_at (v6 octets) announce src = contact_addr announce src

abbrev pub place_by : Option SocketAddr → Announce → SocketAddr → SocketAddr
place_by none announce src = contact_addr announce src
place_by (some addr) announce src = place_at addr.ip announce src

abbrev pub place :
    (List ℕ → Option SocketAddr) → Option (List ℕ) → Announce → SocketAddr → SocketAddr
place parse none announce src = contact_addr announce src
place parse (some to) announce src = place_by (parse to) announce src

reach-place_by :
    (addr : Option SocketAddr) (to : List ℕ) (peer : Option (List ℕ)) (announce : Announce)
    (src : SocketAddr)
    → let wanted = of_address addr to peer in
      test wanted (announce, src) ≡ true
      → reach (direct_sockets wanted.ips wanted.port) (announce, src) ≡ place_by addr announce src
unfolding of_address is_choice direct_sockets at_port reach
reach-place_by none to peer announce src h = refl
reach-place_by (some addr) to peer announce src h = by_ip addr.ip h
  where
    by_ip :
        (ip : IpAddr)
        → let wanted : Wanted = record {
          ips = elim ip [ v4 a b c d ↦ v4 a b c d ∷ [] | v6 octets ↦ [] ];
          port = some addr.port;
          name = peer;
        } in
          test wanted (announce, src) ≡ true
          → reach (direct_sockets wanted.ips wanted.port) (announce, src) ≡ place_at ip announce src
    by_ip (v4 a b c d) k =
        let (there, _) =
          and_true (addr_eq (record { ip = v4 a b c d; port = addr.port }) src || false)
            (name_fits peer announce) k in
        rw there
    by_ip (v6 octets) k = refl

reach-place :
    (parse : List ℕ → Option SocketAddr) (to peer : Option (List ℕ)) (announce : Announce)
    (src : SocketAddr)
    → let wanted = target_of parse to peer in
      test wanted (announce, src) ≡ true
      → reach (direct_sockets wanted.ips wanted.port) (announce, src) ≡ place parse to announce src
unfolding target_of direct_sockets reach
reach-place parse none peer announce src h = refl
reach-place parse (some to) peer announce src h = reach-place_by (parse to) to peer announce src h

module _ (parse : List ℕ → Option SocketAddr) (to peer : Option (List ℕ)) where
  -- The first wanted answer, as it is chosen; the verification knows it by its instance.
  abbrev pub FirstWanted : List Answer → ChosenPeer → Type 0
  FirstWanted answers c =
      (before : List Answer) × (announce : Announce) × (src : SocketAddr) × (later : List Answer)
      × (answers ≡ before ++ ((announce, src) ∷ later))
      × All (λ answer. ¬ Wants parse to peer answer) before
      × Wants parse to peer (announce, src)
      × (c ≡ record {
        epoch = announce.epoch;
        addr = place parse to announce src;
        name = announce.name;
        instance_id = announce.instance_id;
      })
      × (peer_matches announce src c.instance_id (target_of parse to peer) ≡ true)

  -- A round of `wait_for_peer` on any target, name and answers chooses none exactly when no answer is wanted, and else the first wanted one. Without a target every answer of the given name is wanted; a target that is no address is the name when none is given; an IPv4 address and its port are the source's; and of an IPv6 address only the port counts, as the one announced. The choice has the announce's epoch, name and instance, and the source's address for an IPv4 target, else the announced port on it; and `peer_matches` takes the same answer for it.
  pub choose_peer-Wants :
      (answers : List Answer)
      → let wanted = target_of parse to peer in
        let out = choose_peer (direct_sockets wanted.ips wanted.port) wanted answers in
        (out ≡ none → All (λ answer. ¬ Wants parse to peer answer) answers)
        × ((c : ChosenPeer) → out ≡ some c → FirstWanted answers c)
  unfolding choose_peer
  choose_peer-Wants [] = (λ h. tt, λ c h. cc)
  choose_peer-Wants ((announce, src) ∷ answers) =
      let wanted = target_of parse to peer in
      let d = Decides-Wants parse to peer (announce, src) in
      let (nobody, first) = choose_peer-Wants answers in
      elim (Bool-cases (test wanted (announce, src))) [
        | inl taken ↦ simp taken (
          λ h. cc,
          λ c h.
              (let given : record {
                epoch = announce.epoch;
                addr = reach (direct_sockets wanted.ips wanted.port) (announce, src);
                name = announce.name;
                instance_id = announce.instance_id;
              }
                    ≡ c =
                  cc in
                let at = reach-place parse to peer announce src taken in
                let is : c ≡ record {
                  epoch = announce.epoch;
                  addr = place parse to announce src;
                  name = announce.name;
                  instance_id = announce.instance_id;
                } =
                  sym given
                  ∙ ap
                      (λ (a : SocketAddr). record {
                        epoch = announce.epoch;
                        addr = a;
                        name = announce.name;
                        instance_id = announce.instance_id;
                      })
                      at in
                let again =
                  subst (λ (x : ChosenPeer). peer_matches announce src x.instance_id wanted ≡ true)
                    (sym is) (peer_matches-is_choice parse to peer announce src taken) in
                ([], announce, src, answers, refl, tt, d.holds taken, is, again)),
        )
        | inr passed ↦
            let unwanted : ¬ Wants parse to peer (announce, src) = λ w. (let t = d.found w in cc) in
            simp passed (
              λ h. (unwanted, nobody h),
              λ c h.
                  (let (before, a, s, later, e, others, w, is, again) = first c h in
                    (
                      (announce, src) ∷ before,
                      a,
                      s,
                      later,
                      ap (λ (l : List Answer). (announce, src) ∷ l) e,
                      (unwanted, others),
                      w,
                      is,
                      again,
                    )),
            )
      ]
