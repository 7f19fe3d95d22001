-- ===== src/Mesh/Metrics.antt =====
-- cluster/gossip.go: a ban that reaches another node, and the metrics of the peers.
use mango_waf.Common.{
  ℕ, ◌≡◌, refl, true, false, some, [], ◌∷◌, ◌++◌, length, length-append, ltb, lt→ltb, arith,
}
use mango_waf.Common.Bytes.{Str, codes, str_eq, is_empty, has_prefix}
use mango_waf.Common.Dict.{insert}
use mango_waf.Mesh.{
  insert, MeshNode, notify_msg, notify_domain, domain_message, get_peer_domain_metrics,
}

has_prefix-append : (s t : Str) → has_prefix (s ++ t) s ≡ true
unfolding has_prefix
has_prefix-append [] t = refl
has_prefix-append (c ∷ s) t = ground (arith, has_prefix-append s t)

has_prefix-extended : (s u t : Str) → has_prefix s t ≡ true → has_prefix (s ++ u) t ≡ true
unfolding has_prefix
has_prefix-extended s u [] h = refl
has_prefix-extended [] u (b ∷ t) h = cc
has_prefix-extended (a ∷ s) u (b ∷ t) h = ground (arith, h, has_prefix-extended s u t)

-- What a peer reports for a domain is counted for every domain whose name the reported one begins with, its
-- own or another.
pub get_peer_domain_metrics-begins :
    (now now_sec sent rps conns : ℕ) (domain more : Str) (from to : MeshNode)
    → str_eq from.node_name to.node_name ≡ false
    → is_empty from.node_name ≡ false
    → is_empty domain ≡ false
    → to.peer_domain_stats ≡ []
    → get_peer_domain_metrics now domain
        (notify_msg now now_sec
          (some (domain_message sent from (domain ++ more) rps conns false))
          to).0.peer_domain_stats
      ≡ (rps, conns)
unfolding get_peer_domain_metrics notify_msg notify_domain domain_message insert
get_peer_domain_metrics-begins now now_sec sent rps conns [] more from to d n e s = cc
get_peer_domain_metrics-begins now now_sec sent rps conns (c ∷ domain) more from to d n e s =
    let own = domain ++ more in
    let key = own ++ codes "_" in
    let longer : ltb (length (c ∷ domain)) (length (c ∷ (key ++ from.node_name))) ≡ true =
      lt→ltb _ _ (
        omega (
          arith,
          length-append key from.node_name,
          length-append own (codes "_"),
          length-append domain more,
        )) in
    let begins : has_prefix (key ++ from.node_name) domain ≡ true =
      has_prefix-extended key from.node_name domain
        (has_prefix-extended own (codes "_") domain (has_prefix-append domain more)) in
    rw (s, d, n, longer, begins) (ground arith)
