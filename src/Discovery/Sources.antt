-- ===== src/Discovery/Sources.antt =====
-- src/discovery/mod.rs: where queries go, the rank of a source, and the choice between answers.
pub mod Answers
pub mod Rounds
pub mod Order
pub mod Choice
use remote_au.Common.{
  ℕ, ◌||◌, Bool, Option, none, some, List, [], ◌∷◌, ◌++◌, map, leb, ltb, bytes_eq, ◌==◌, ◌&&◌,
  if◌then◌else◌,
}
use remote_au.Discovery.Announce.{Announce}

pub data IpAddr : Type 0 where
  v4 : ℕ → ℕ → ℕ → ℕ → IpAddr
  v6 : List ℕ → IpAddr

pub record SocketAddr : Type 0 where
  pub ip : IpAddr
  pub port : ℕ

-- Every default port of a host, in order.
at_ports : IpAddr → List SocketAddr
at_ports host =
    record { ip = host; port = 47001 }
    ∷ record { ip = host; port = 48001 }
    ∷ record { ip = host; port = 49001 }
    ∷ []

concat_ports : List IpAddr → List SocketAddr
concat_ports [] = []
concat_ports (host ∷ hosts) = at_ports host ++ concat_ports hosts

pub directed_query_targets : List IpAddr → List SocketAddr
directed_query_targets extra =
    concat_ports
      (extra ++ (v4 192 168 2 255 ∷ v4 192 168 1 255 ∷ v4 255 255 255 255 ∷ v4 127 0 0 1 ∷ []))

pub contact_addr : Announce → SocketAddr → SocketAddr
contact_addr announce source = record { ip = source.ip; port = announce.tcp_port }

abbrev loopback_v6 : List ℕ
loopback_v6 = 0 ∷ 0 ∷ 0 ∷ 0 ∷ 0 ∷ 0 ∷ 0 ∷ 0 ∷ 0 ∷ 0 ∷ 0 ∷ 0 ∷ 0 ∷ 0 ∷ 0 ∷ 1 ∷ []

-- `Ipv4Addr::is_private`: 10/8, 172.16/12 and 192.168/16.
is_private : ℕ → ℕ → Bool
is_private a b = a == 10 || a == 172 && leb 16 b && leb b 31 || a == 192 && b == 168

rank_of : IpAddr → ℕ
rank_of (v4 a b c d) =
    if a == 127
    then 4
    else if a == 0 && b == 0 && c == 0 && d == 0 || a == 255 && b == 255 && c == 255 && d == 255
    then 3
    else if a == 192 && b == 168 && c == 2
    then 0
    else if is_private a b
    then 1
    else 2
rank_of (v6 octets) = if bytes_eq octets loopback_v6 then 4 else 3

pub source_rank : SocketAddr → ℕ
source_rank addr = rank_of addr.ip

abbrev pub Answer : Type 0
Answer = Announce × SocketAddr

-- One round of the loop: the first answer of the instance is kept or replaced, or a new one is pushed.
pub note_item : Answer → List Answer → List Answer
note_item item [] = item ∷ []
note_item item (existing ∷ best) =
    let rest = note_item item best in
    if bytes_eq existing.0.instance_id item.0.instance_id
    then (if ltb (source_rank item.1) (source_rank existing.1)
        then item ∷ best
        else existing ∷ best)
    else existing ∷ rest

pub note_all : List Answer → List Answer → List Answer
note_all best [] = best
note_all best (item ∷ items) = note_all (note_item item best) items

-- `sort_by_key`, which keeps the order of equal keys.
pub insert_sorted : Answer → List Answer → List Answer
insert_sorted x [] = x ∷ []
insert_sorted x (y ∷ ys) =
    let rest = insert_sorted x ys in
    if leb (source_rank x.1) (source_rank y.1) then x ∷ y ∷ ys else y ∷ rest

pub sort_by_rank : List Answer → List Answer
sort_by_rank [] = []
sort_by_rank (x ∷ xs) = insert_sorted x (sort_by_rank xs)

pub dedup_prefer_direct : List Answer → List Answer
dedup_prefer_direct items = sort_by_rank (note_all [] items)
