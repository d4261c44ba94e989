-- ===== src/Media/Lbo/Tests.antt =====
-- Two addresses for local breakout, and a packet to the first.
use common_framework.Base.{◌≡◌, refl, true, some, List, [], ◌∷◌, status_false, ◌==◌, if◌then◌else◌}
use common_framework.Media.Types.{Bytes}
use common_framework.Media.Sample.{blank, sess}
use common_framework.Media.Routing.{packet_filter}
use common_framework.Media.Routing.Filter.{plain, Answer}
use common_framework.Media.Lbo.Hash.{hash_tables}
use common_framework.Media.Lbo.{
  Sockaddr, af_inet, af_inet6, no_nodes, add_lbo_node, find_lbo_node_by_key, remove_all_hash_key,
  add_all, is_lbo,
}
use common_framework.Media.Lbo.Laws.{is_listed, packet_filter-add_all}

abbrev addrs : List Sockaddr
addrs = af_inet (λ i. 30) ∷ af_inet6 (λ i. 40) ∷ []

-- A G-PDU with TEID 8 and an IPv4 packet to 30.30.30.30.
abbrev packet : Bytes
packet i =
    if i == 0 then 48 else if i == 1 then 255 else if i == 7 then 8 else if i == 12 then 69 else 30

added_but_false :
    (add_lbo_node hash_tables true true (af_inet (λ i. 30)) (no_nodes hash_tables)).0 ≡ status_false
unfolding add_lbo_node
added_but_false = refl

still_found :
    find_lbo_node_by_key hash_tables
      (30 ∷ 30 ∷ 30 ∷ 30 ∷ [])
      (remove_all_hash_key hash_tables (add_all hash_tables addrs (no_nodes hash_tables)))
    ≡ some (30 ∷ 30 ∷ 30 ∷ 30 ∷ [])
unfolding find_lbo_node_by_key remove_all_hash_key add_all add_lbo_node
still_found = refl

packet_filter-add_all_example : Answer (is_listed addrs) true blank packet 60 12 sess (
    packet_filter
      (is_lbo hash_tables (add_all hash_tables addrs (no_nodes hash_tables)))
      true
      blank
      packet
      60
      sess)
packet_filter-add_all_example =
    packet_filter-add_all hash_tables addrs true blank packet 60 12 sess (plain refl)
