-- ===== src/Attack/Detector.antt =====
-- core/server.go: `attackDetector` and `IsDomainUnderAttack`.
use mango_waf.Attack.Alerts.{
  AlertManager, send_domain_attack_start, send_domain_attack_end, new_alert_manager,
}
use mango_waf.Attack.{value_or, get_domain_rps, Rates, normalize_host}
use mango_waf.Common.Dict.{Dict, insert, lookup}
use mango_waf.Common.Bytes.{codes, str_eq, Str, to_lower}
use mango_waf.Common.{
  ℕ, true, false, none, some, [], ◌∷◌, Bool, Option, List, ◌++◌, ◌+◌, ◌-◌, ◌||◌, ltb, leb, ◌==◌,
  if◌then◌else◌,
}

pub record WatchedDomain : Type 0 where
  pub name : Str
  pub rate_limit_rps : ℕ

-- A metric that a node broadcasts: requests, connections and whether the attack has ended.
pub record Metric : Type 0 where
  pub domain : Str
  pub rps : ℕ
  pub conns : ℕ
  pub ended : Bool

pub record Detector : Type 0 where
  pub domain_under_attack : Dict Bool
  pub domain_normal_count : Dict ℕ
  pub domain_attack_start : Dict ℕ
  pub attacks_detected : ℕ
  pub metrics : List Metric
  pub alerts : AlertManager

abbrev pub new_detector : Detector
new_detector = record {
  domain_under_attack = [];
  domain_normal_count = [];
  domain_attack_start = [];
  attacks_detected = 0;
  metrics = [];
  alerts = new_alert_manager;
}

-- What the mesh answers: the metrics of the peers by domain, and whether the node is the leader.
pub record Peers : Type 0 where
  pub domain_metrics : Str → ℕ × ℕ
  pub is_leader : Bool

-- What one tick reads.
pub record Tick : Type 0 where
  pub now : ℕ
  pub rates : Rates
  pub active_conns : ℕ
  pub blocked_requests : ℕ
  pub mesh : Option Peers

abbrev pub peer_metrics : Option Peers → Str → ℕ × ℕ
peer_metrics none d = (0, 0)
peer_metrics (some peers) d = peers.domain_metrics d

abbrev pub leads : Option Peers → Option Bool
leads none = none
leads (some peers) = some peers.is_leader

abbrev pub broadcast_metric : Option Peers → Metric → Detector → Detector
broadcast_metric none m s = s
broadcast_metric (some peers) m s = record s { metrics = s.metrics ++ m ∷ [] }

unfoldable pub total_cluster_rps : Tick → Str → ℕ
unfolding get_domain_rps
total_cluster_rps t d = get_domain_rps t.rates d + (peer_metrics t.mesh d).0

abbrev pub total_cluster_conns : Tick → Str → ℕ
total_cluster_conns t d = t.active_conns + (peer_metrics t.mesh d).1

-- `RPSThreshold`, 200 when it is 0, and the limit of the domain, where it has one.
unfoldable pub domain_threshold : ℕ → WatchedDomain → ℕ
domain_threshold rps_threshold d =
    if d.rate_limit_rps == 0
    then (if rps_threshold == 0 then 200 else rps_threshold)
    else d.rate_limit_rps

unfoldable pub is_domain_attack : ℕ → Tick → WatchedDomain → Bool
unfolding total_cluster_rps domain_threshold to_lower
is_domain_attack rps_threshold t d =
    ltb (domain_threshold rps_threshold d) (total_cluster_rps t (to_lower d.name))

unfoldable pub currently_under_attack : Str → Detector → Bool
unfolding lookup
currently_under_attack d s = value_or false (lookup d s.domain_under_attack)

unfoldable pub start_attack : Tick → Str → Detector → Detector
unfolding insert send_domain_attack_start
start_attack t d s = record s {
  domain_under_attack = insert d true s.domain_under_attack;
  domain_attack_start = insert d t.now s.domain_attack_start;
  attacks_detected = s.attacks_detected + 1;
  alerts =
      send_domain_attack_start (leads t.mesh) t.now d (total_cluster_rps t d)
        (total_cluster_conns t d) s.alerts;
}

unfoldable pub end_attack : Tick → Str → Detector → Detector
unfolding insert lookup send_domain_attack_end
end_attack t d s =
    let s' =
      broadcast_metric t.mesh (record { domain = d; rps = 0; conns = 0; ended = true })
        (record s { domain_under_attack = insert d false s.domain_under_attack }) in
    record s' {
      domain_normal_count = insert d 0 s.domain_normal_count;
      alerts =
          send_domain_attack_end (leads t.mesh) t.now d
            (t.now - value_or t.now (lookup d s.domain_attack_start)) t.blocked_requests s.alerts;
    }

-- The transitions of a domain.
unfoldable pub judge_domain : Tick → Str → Bool → Detector → Detector
unfolding currently_under_attack insert lookup start_attack end_attack
judge_domain t d attack s =
    let under = currently_under_attack d s in
    let calm = record s { domain_normal_count = insert d 0 s.domain_normal_count } in
    let nc = value_or 0 (lookup d s.domain_normal_count) + 1 in
    let counted = record s { domain_normal_count = insert d nc s.domain_normal_count } in
    if attack
    then (if under then calm else start_attack t d calm)
    else (if under then (if leb 10 nc then end_attack t d counted else counted) else s)

unfoldable pub detect_domain : ℕ → Tick → WatchedDomain → Detector → Detector
unfolding is_domain_attack judge_domain
detect_domain rps_threshold t d s =
    let n = to_lower d.name in
    judge_domain t n (is_domain_attack rps_threshold t d) (
      broadcast_metric t.mesh
        (record {
          domain = n;
          rps = get_domain_rps t.rates n;
          conns = t.active_conns;
          ended = false;
        })
        s)

-- One tick of `attackDetector`.
unfoldable pub detect : ℕ → Tick → List WatchedDomain → Detector → Detector
unfolding detect_domain
detect rps_threshold t [] s = s
detect rps_threshold t (d ∷ ds) s = detect rps_threshold t ds (detect_domain rps_threshold t d s)

abbrev pub enforced : Str → Bool
enforced mode =
    str_eq mode (codes "under_attack")
    || str_eq mode (codes "emergency")
    || str_eq mode (codes "challenge")
    || str_eq mode (codes "captcha")

-- `IsDomainUnderAttack`, with the global mode and the pipeline's map of modes, which stands after the
-- start.
unfoldable pub is_domain_under_attack : Str → Dict Str → Detector → Str → Bool
unfolding normalize_host lookup str_eq
is_domain_under_attack mode domain_mode_map s host =
    let h = normalize_host host in
    (str_eq mode (codes "under_attack") || str_eq mode (codes "emergency"))
    || (value_or false (lookup h s.domain_under_attack)
        || enforced (value_or [] (lookup h domain_mode_map)))
