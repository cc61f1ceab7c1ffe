-- ===== src/Daemon/Discover/Authentic.antt =====
-- What a search for receivers (`discover_toward` of src/daemon/mod.rs) returns.
use remote_au.Common.{
  ℕ, ◌≡◌, ◌⊎◌, refl, ap, sym, ◌∙◌, inl, inr, Bool, true, false, ◌||◌, ◌==◌, Option, none, some,
  List, [], ◌∷◌, length, ltb, bytes_eq, if◌then◌else◌, Bool-cases,
}
use mathlib.Core.Path.{subst}
use remote_au.Crypto.Session.{Crates}
use remote_au.Daemon.Discover.{named, taken, more, collect, discover_toward}
use remote_au.Discovery.Announce.{Announce, SignedQuery, encode_query, open_announce}
use remote_au.Discovery.Sources.{SocketAddr, Answer, dedup_prefer_direct}
use remote_au.Discovery.Sources.Answers.{Among, Covers, Distinct, Sorted}
use remote_au.Discovery.Sources.Choice.{Choice, dedup_prefer_direct-Choice}

-- A datagram among those received.
abbrev pub Came : List ℕ → SocketAddr → List (List ℕ × SocketAddr) → Type 0
Came packet src [] = ⊥
Came packet src (r ∷ received) = (r ≡ (packet, src)) ⊎ Came packet src received

module _ (crates : Crates) (name token challenge : List ℕ) where
  pub taken_opened :
      (packet : List ℕ) (src : SocketAddr) (a : Announce)
      → (length packet == 0 || ltb 512 (length packet)) ≡ false
      → open_announce crates packet token challenge ≡ some a
      → (length name == 0 || bytes_eq a.name name) ≡ true
      → taken crates name token challenge packet src ≡ some (a, src)
  unfolding taken named
  taken_opened packet src a sized opens fits = rw (sized, opens, fits) refl

  -- An answer of a datagram that was received.
  pub record Heard (received : List (List ℕ × SocketAddr)) (y : Answer) : Type 0 where
    pub packet : List ℕ
    pub came : Came packet y.1 received
    pub opens : open_announce crates packet token challenge ≡ some y.0
    pub fits : (length name == 0 || bytes_eq y.0.name name) ≡ true

  -- An answer of a datagram, with its name fitting.
  abbrev From : List ℕ → SocketAddr → Answer → Type 0
  From packet src y =
      (src ≡ y.1)
      × (open_announce crates packet token challenge ≡ some y.0)
      × ((length name == 0 || bytes_eq y.0.name name) ≡ true)

  named-From :
      (packet : List ℕ) (src : SocketAddr) (o : Option Announce) (y : Answer)
      → open_announce crates packet token challenge ≡ o
      → named crates name src o ≡ some y
      → From packet src y
  unfolding named
  named-From packet src none y opens h = cc
  named-From packet src (some a) y opens h =
      elim (Bool-cases (length name == 0 || bytes_eq a.name name)) [
        | inl fits ↦
            (let is = simp fits at h in
              let same : (a, src) ≡ y = cc in
              subst (λ z. From packet src z) same (refl, opens, fits))
        | inr other ↦ absurd (let no = simp other at h in cc)
      ]

  taken-From :
      (packet : List ℕ) (src : SocketAddr) (y : Answer)
      → taken crates name token challenge packet src ≡ some y
      → From packet src y
  unfolding taken
  taken-From packet src y = by_size (length packet == 0 || ltb 512 (length packet))
    where
      by_size :
          (b : Bool)
          → (if b
              then none
              else named crates name src (open_announce crates packet token challenge))
            ≡ some y
          → From packet src y
      by_size true h = cc
      by_size false h = named-From packet src (open_announce crates packet token challenge) y refl h

  more-cases :
      (o : Option Answer) (found : List Answer) (y : Answer)
      → Among y (more crates o found)
      → (o ≡ some y) ⊎ Among y found
  unfolding more
  more-cases none found y h = inr h
  more-cases (some x) found y (inl same) = inl (ap some (sym same))
  more-cases (some x) found y (inr h) = inr h

  among_more :
      (o : Option Answer) (found : List Answer) (y : Answer)
      → (o ≡ some y) ⊎ Among y found
      → Among y (more crates o found)
  unfolding more
  among_more none found y (inl h) = cc
  among_more none found y (inr h) = h
  among_more (some x) found y (inl h) = inl cc
  among_more (some x) found y (inr h) = inr h

  collect-Heard :
      (received : List (List ℕ × SocketAddr)) (y : Answer)
      → Among y (collect crates name token challenge received)
      → Heard received y
  unfolding collect
  collect-Heard [] y h = elim h [ ]
  collect-Heard ((packet, src) ∷ received) y h =
      elim (more-cases (taken crates name token challenge packet src) _ y h) [
        | inl here ↦
            (let (at, opens, fits) = taken-From packet src y here in
              record {
                packet = packet;
                came = inl (ap (λ (a : SocketAddr). (packet, a)) at);
                opens = opens;
                fits = fits;
              })
        | inr later ↦
            (let r = collect-Heard received y later in
              record { packet = r.packet; came = inr r.came; opens = r.opens; fits = r.fits })
      ]

  among_collect :
      (received : List (List ℕ × SocketAddr)) (packet : List ℕ) (src : SocketAddr) (y : Answer)
      → Came packet src received
      → taken crates name token challenge packet src ≡ some y
      → Among y (collect crates name token challenge received)
  unfolding collect
  among_collect [] packet src y h took = elim h [ ]
  among_collect ((packet', src') ∷ received) packet src y (inl same) took =
      among_more (taken crates name token challenge packet' src') _ y (
        inl
          (ap (λ (r : List ℕ × SocketAddr). taken crates name token challenge r.0 r.1) same ∙ took))
  among_collect ((packet', src') ∷ received) packet src y (inr later) took =
      among_more (taken crates name token challenge packet' src') _ y
        (inr (among_collect received packet src y later took))

  -- What is asked of the nodes that are found.
  pub record Finds (received : List (List ℕ × SocketAddr)) (nodes : List Answer) : Type 0 where
    pub heard : (y : Answer) → Among y nodes → Heard received y
    pub sorted : Sorted nodes
    pub distinct : Distinct nodes
    pub covered :
        (packet : List ℕ) (src : SocketAddr) (a : Announce)
        → Came packet src received
        → (length packet == 0 || ltb 512 (length packet)) ≡ false
        → open_announce crates packet token challenge ≡ some a
        → (length name == 0 || bytes_eq a.name name) ≡ true
        → Covers (a, src) nodes

module _ (crates : Crates) (name token random : List ℕ) (q : SignedQuery)
    (received : List (List ℕ × SocketAddr)) (nodes : List Answer) where
  -- A search that returns nodes returns only announces that were received, opened under the token and the challenge of the search's own query, and carry the name that is asked for, if any. They stand in the order of how direct their sources are, one for each instance, and no answer of up to 512 bytes that opens and fits goes without a node of its instance at least as direct.
  pub discover_toward-Finds :
      encode_query crates name token random ≡ inr q
      → discover_toward crates name token random received ≡ inr nodes
      → Finds crates name token q.challenge received nodes
  unfolding discover_toward
  discover_toward-Finds encoded h =
      let out = collect crates name token q.challenge received in
      let is = rw (encoded, discover_toward) at h in
      let same : dedup_prefer_direct out ≡ nodes = cc in
      let c = subst (λ (ns : List Answer). Choice out ns) same (dedup_prefer_direct-Choice out) in
      record {
        heard = λ y n. collect-Heard crates name token q.challenge received y (c.given y n);
        sorted = c.sorted;
        distinct = c.distinct;
        covered = λ packet src a came sized opens fits.
            c.covered (a, src)
              (among_collect crates name token q.challenge received packet src (a, src) came
                (taken_opened crates name token q.challenge packet src a sized opens fits));
      }
