-- ===== src/Attack/Announce.antt =====
-- core/server.go with core/alerts.go: the alerts of a domain's attacks.
use mango_waf.Attack.{get_domain_rps}
use mango_waf.Attack.Recent.{end_attack-view, normal_count, counted}
use mango_waf.Attack.Detector.{
  is_domain_attack, broadcast_metric, WatchedDomain, Metric, detect_domain, Peers,
  total_cluster_conns, total_cluster_rps, leads, currently_under_attack, Detector, Tick,
  judge_domain, start_attack, end_attack,
}
use mango_waf.Attack.Alerts.{
  queue_size, Alert, domain_attack_end, domain_attack_start, silent_member, cooldown_of,
  clear_cooldown, attack_end_, attack_start_, send_domain_attack_start, can_send, too_early,
  send_domain_attack_end, AlertManager,
}
use mango_waf.Common.Dict.{lookup-insert, insert, Dict, lookup-Values, lookup, Values, OnSome}
use mango_waf.Common.Bytes.{to_lower, str_eq_refl, codes, contains, Str, has_prefix}
use mango_waf.Common.{
  subst, append_nil, value_or, is_some, ℕ, true, false, none, some, [], ◌∷◌, refl, Bool, Option,
  ◌≡◌, ◌++◌, ◌≤◌, ◌||◌, arith, inl, inr, List, ◌+◌, ◌-◌, leb, Bool-cases, ap, sym, ◌∙◌, ltb,
}

-- No alert was sent in the future.
abbrev pub IsPast : ℕ → AlertManager → Type 0
IsPast now a = Values (λ (last : ℕ). last ≤ now) a.last_sent

too_early-zero :
    (now : ℕ) (o : Option ℕ) → OnSome (λ (last : ℕ). last ≤ now) o → too_early now 0 o ≡ false
too_early-zero now none h = refl
too_early-zero now (some last) h = ground (arith, h)

module _ (in_mesh : Bool) (now : ℕ) (alert_type : Str) (a : AlertManager) where
  can_send-attack :
      contains alert_type (codes "ban_") ≡ false
      → (has_prefix alert_type attack_start_ || has_prefix alert_type attack_end_) ≡ true
      → IsPast now a
      → ((can_send in_mesh now alert_type a).0 ≡ true)
        × ((can_send in_mesh now alert_type a).1.sent ≡ a.sent)
        × ((can_send in_mesh now alert_type a).1.queued ≡ a.queued)
  unfolding can_send cooldown_of
  can_send-attack b h past =
      let free =
        too_early-zero now (lookup alert_type a.last_sent)
          (lookup-Values (λ (last : ℕ). last ≤ now) alert_type a.last_sent past) in
      (rw (b, h, free), rw (b, h, free), rw (b, h, free))

has_prefix-start :
    (d : Str)
    → (has_prefix (attack_start_ ++ d) attack_start_ || has_prefix (attack_start_ ++ d) attack_end_)
      ≡ true
unfolding has_prefix
has_prefix-start d = refl

has_prefix-end :
    (d : Str)
    → (has_prefix (attack_end_ ++ d) attack_start_ || has_prefix (attack_end_ ++ d) attack_end_)
      ≡ true
unfolding has_prefix
has_prefix-end d = refl

contains-start :
    (d : Str) → contains (attack_start_ ++ d) (codes "ban_") ≡ contains d (codes "ban_")
unfolding contains
contains-start d = refl

contains-end : (d : Str) → contains (attack_end_ ++ d) (codes "ban_") ≡ contains d (codes "ban_")
unfolding contains
contains-end d = refl

module _ (mesh : Option Bool) (now : ℕ) (d : Str) (a : AlertManager) where
  sent-start :
      (rps conns : ℕ)
      → silent_member mesh ≡ false
      → contains (attack_start_ ++ d) (codes "ban_") ≡ false
      → IsPast now a
      → ltb a.queued queue_size ≡ true
      → (send_domain_attack_start mesh now d rps conns a).sent
        ≡ a.sent ++ domain_attack_start d rps conns ∷ []
  unfolding send_domain_attack_start clear_cooldown
  sent-start rps conns l b past room =
      let (may, same, waiting) =
        can_send-attack (is_some mesh) now (attack_start_ ++ d) a b (has_prefix-start d) past in
      rw (l, may, waiting, room, same)

  sent-end :
      (duration blocked : ℕ)
      → silent_member mesh ≡ false
      → contains (attack_end_ ++ d) (codes "ban_") ≡ false
      → IsPast now a
      → ltb a.queued queue_size ≡ true
      → (send_domain_attack_end mesh now d duration blocked a).sent
        ≡ a.sent ++ domain_attack_end d duration blocked ∷ []
  unfolding send_domain_attack_end clear_cooldown
  sent-end duration blocked l b past room =
      let (may, same, waiting) =
        can_send-attack (is_some mesh) now (attack_end_ ++ d) a b (has_prefix-end d) past in
      rw (l, may, waiting, room, same)

-- The alerts of a change of a domain's state, and how many attacks it begins.
abbrev pub news : Tick → Str → Detector → Bool → Bool → List Alert
news t d s false true = domain_attack_start d (total_cluster_rps t d) (total_cluster_conns t d) ∷ []
news t d s true false =
    domain_attack_end d (t.now - value_or t.now (lookup d s.domain_attack_start)) t.blocked_requests
    ∷ []
news t d s _ _ = []

abbrev pub begins : Bool → Bool → ℕ
begins false true = 1
begins _ _ = 0

-- The alerts and the count of attacks follow the state.
abbrev pub Announces : Tick → Str → Detector → Detector → Type 0
Announces t d s s' =
    (s'.alerts.sent
      ≡ s.alerts.sent ++ news t d s (currently_under_attack d s) (currently_under_attack d s'))
    × (s'.attacks_detected
        ≡ s.attacks_detected + begins (currently_under_attack d s) (currently_under_attack d s'))

-- What the alerts need: the node is alone or leads, its clock goes on, the name holds no "ban_" and the queue of
-- alerts has room.
pub record MayAnnounce (t : Tick) (d : Str) (s : Detector) : Type 0 where
  pub heard : silent_member (leads t.mesh) ≡ false
  pub past : IsPast t.now s.alerts
  pub plain : contains d (codes "ban_") ≡ false
  pub room : ltb s.alerts.queued queue_size ≡ true

under_set : (d : Str) (b : Bool) (m : Dict Bool) → value_or false (lookup d (insert d b m)) ≡ b
under_set d b m = rw (lookup-insert d d b m, str_eq_refl d)

no_news :
    (t : Tick) (d : Str) (s s' : Detector) (b : Bool)
    → currently_under_attack d s ≡ b
    → currently_under_attack d s' ≡ b
    → s'.alerts.sent ≡ s.alerts.sent
    → s'.attacks_detected ≡ s.attacks_detected
    → Announces t d s s'
no_news t d s s' true u u' e e' = rw (u, u') (e ∙ sym (append_nil s.alerts.sent), e' ∙ omega arith)
no_news t d s s' false u u' e e' = rw (u, u') (e ∙ sym (append_nil s.alerts.sent), e' ∙ omega arith)

start_attack-under :
    (t : Tick) (d : Str) (s : Detector) → currently_under_attack d (start_attack t d s) ≡ true
unfolding currently_under_attack start_attack
start_attack-under t d s = under_set d true s.domain_under_attack

end_attack-under :
    (t : Tick) (d : Str) (s : Detector) → currently_under_attack d (end_attack t d s) ≡ false
end_attack-under t d s = ap (λ (v : Bool × ℕ). v.0) (end_attack-view t d d s) ∙ rw (str_eq_refl d)

start_attack-Announces :
    (t : Tick) (d : Str) (s : Detector) (n : ℕ)
    → currently_under_attack d s ≡ false
    → MayAnnounce t d s
    → Announces t d s (start_attack t d (counted d n s))
unfolding start_attack
start_attack-Announces t d s n u m =
    rw (u, start_attack-under t d (counted d n s))
      (
        sent-start (leads t.mesh) t.now d s.alerts (total_cluster_rps t d) (total_cluster_conns t d)
            m.heard (contains-start d ∙ m.plain) m.past m.room,
        refl,
      )

broadcast-detected :
    (o : Option Peers) (metric : Metric) (s : Detector)
    → (broadcast_metric o metric s).attacks_detected ≡ s.attacks_detected
broadcast-detected none metric s = refl
broadcast-detected (some p) metric s = refl

end_attack-Announces :
    (t : Tick) (d : Str) (s : Detector) (n : ℕ)
    → currently_under_attack d s ≡ true
    → MayAnnounce t d s
    → Announces t d s (end_attack t d (counted d n s))
unfolding end_attack
end_attack-Announces t d s n u m =
    rw (u, end_attack-under t d (counted d n s))
      (
        sent-end (leads t.mesh) t.now d s.alerts
            (t.now - value_or t.now (lookup d s.domain_attack_start)) t.blocked_requests m.heard
            (contains-end d ∙ m.plain) m.past m.room,
        broadcast-detected t.mesh _ _ ∙ omega arith,
      )

judged :
    (t : Tick) (d : Str) (attack : Bool) (s s' : Detector)
    → judge_domain t d attack s ≡ s'
    → Announces t d s s'
    → Announces t d s (judge_domain t d attack s)
judged t d attack s s' e a = subst (Announces t d s) (sym e) a

judge-Announces :
    (t : Tick) (d : Str) (attack : Bool) (s : Detector)
    → MayAnnounce t d s
    → Announces t d s (judge_domain t d attack s)
unfolding judge_domain
judge-Announces t d true s m = elim (Bool-cases (currently_under_attack d s)) [
  | inl u ↦
      judged t d true s (counted d 0 s) (rw u) (no_news t d s (counted d 0 s) true u u refl refl)
  | inr u ↦
      judged t d true s (start_attack t d (counted d 0 s)) (rw u)
        (start_attack-Announces t d s 0 u m)
]
judge-Announces t d false s m = elim (Bool-cases (currently_under_attack d s)) [
  | inr u ↦ judged t d false s s (rw u) (no_news t d s s false u u refl refl)
  | inl u ↦
      let n = normal_count d s + 1 in
      elim (Bool-cases (leb 10 n)) [
        | inl over ↦
            judged t d false s (end_attack t d (counted d n s)) (rw (u, over))
              (end_attack-Announces t d s n u m)
        | inr more ↦
            judged t d false s (counted d n s) (rw (u, more))
              (no_news t d s (counted d n s) true u u refl refl)
      ]
]

broadcast_metric-Announces :
    (t : Tick) (d : Str) (o : Option Peers) (metric : Metric) (s s' : Detector)
    → Announces t d (broadcast_metric o metric s) s'
    → Announces t d s s'
unfolding currently_under_attack
broadcast_metric-Announces t d none metric s s' a = a
broadcast_metric-Announces t d (some p) metric s s' a = a

broadcast_metric-MayAnnounce :
    (t : Tick) (d : Str) (o : Option Peers) (metric : Metric) (s : Detector)
    → MayAnnounce t d s
    → MayAnnounce t d (broadcast_metric o metric s)
broadcast_metric-MayAnnounce t d none metric s m = m
broadcast_metric-MayAnnounce t d (some p) metric s m = record {
  heard = m.heard;
  past = m.past;
  plain = m.plain;
  room = m.room;
}

-- A tick sends one alert when it puts the domain under attack, one when it ends the attack and none
-- otherwise, and counts the attacks that begin: no alert is lost to the cooldown, where the node is
-- alone or leads, its clock goes on, the name of the domain holds no "ban_" and the queue of alerts
-- has room.
pub detect_domain-Announces :
    (rps_threshold : ℕ) (t : Tick) (d : WatchedDomain) (s : Detector)
    → MayAnnounce t (to_lower d.name) s
    → Announces t (to_lower d.name) s (detect_domain rps_threshold t d s)
unfolding detect_domain
detect_domain-Announces rps_threshold t d s m =
    let n = to_lower d.name in
    let metric : Metric = record {
      domain = n;
      rps = get_domain_rps t.rates n;
      conns = t.active_conns;
      ended = false;
    } in
    broadcast_metric-Announces t n t.mesh metric s
      (judge_domain t n (is_domain_attack rps_threshold t d) (broadcast_metric t.mesh metric s))
      (judge-Announces t n (is_domain_attack rps_threshold t d) (broadcast_metric t.mesh metric s)
        (broadcast_metric-MayAnnounce t n t.mesh metric s m))
