-- ===== src/Attack/Alerts.antt =====
-- core/alerts.go: which alerts are sent. What the mesh says, whether the node is its leader, is an input; the
-- texts of the messages and their delivery to Telegram, Discord and webhooks are left out.
use mango_waf.Common.Dict.{lookup, Dict, insert, delete}
use mango_waf.Common.Bytes.{has_prefix, contains, Str, codes}
use mango_waf.Common.{
  ◌^◌, is_some, ℕ, true, false, none, some, [], ◌∷◌, Bool, Option, List, ◌++◌, ◌+◌, ◌*◌, ◌||◌, not,
  ltb, if◌then◌else◌, ◌-◌,
}

pub data Alert : Type 0 where
  domain_attack_start : (domain : Str) → (total_rps total_conns : ℕ) → Alert
  domain_attack_end : (domain : Str) → (duration blocked : ℕ) → Alert
  report : Alert

-- `AlertManager`: how many jobs wait in its queue, all the alerts that were put into it, the ones announced to the
-- mesh, and the cooldown of five minutes.
pub record AlertManager : Type 0 where
  pub last_sent : Dict ℕ
  pub queued : ℕ
  pub sent : List Alert
  pub announced : List Str

abbrev pub new_alert_manager : AlertManager
new_alert_manager = record { last_sent = []; queued = 0; sent = []; announced = [] }

abbrev pub attack_start_ : Str
attack_start_ = codes "attack_start_"

abbrev pub attack_end_ : Str
attack_end_ = codes "attack_end_"

unfoldable pub cooldown_of : Str → ℕ
unfolding contains has_prefix
cooldown_of alert_type =
    if contains alert_type (codes "ban_")
    then 30 * 10 ^ 9
    else if has_prefix alert_type attack_start_ || has_prefix alert_type attack_end_
    then 0
    else 300 * 10 ^ 9

unfoldable pub remote_silence : ℕ → Str → AlertManager → AlertManager
unfolding insert
remote_silence now alert_type a = record a { last_sent = insert alert_type now a.last_sent }

-- `time.Since(last) < cd`
abbrev pub too_early : ℕ → ℕ → Option ℕ → Bool
too_early now cd none = false
too_early now cd (some last) = ltb now (last + cd)

-- `in_mesh` tells whether there is a mesh to announce the alert to.
unfoldable pub can_send : Bool → ℕ → Str → AlertManager → Bool × AlertManager
unfolding cooldown_of lookup insert
can_send in_mesh now alert_type a =
    if too_early now (cooldown_of alert_type) (lookup alert_type a.last_sent) then (false, a) else (
      true,
      record a {
        last_sent = insert alert_type now a.last_sent;
        announced = if in_mesh then a.announced ++ alert_type ∷ [] else a.announced;
      },
    )

unfoldable pub clear_cooldown : Str → AlertManager → AlertManager
unfolding delete
clear_cooldown alert_type a = record a { last_sent = delete alert_type a.last_sent }

abbrev pub queue_size : ℕ
queue_size = 1000

-- An alert that finds the queue full is dropped.
abbrev pub send_all_rich : Alert → AlertManager → AlertManager
send_all_rich alert a =
    if ltb a.queued queue_size
    then record a { queued = a.queued + 1; sent = a.sent ++ alert ∷ [] }
    else a

-- `workerLoop` takes a job.
unfoldable pub take_job : AlertManager → AlertManager
take_job a = record a { queued = a.queued - 1 }

-- `GetMesh`: none, or whether the node leads the mesh.
abbrev pub silent_member : Option Bool → Bool
silent_member none = false
silent_member (some is_leader) = not is_leader

unfoldable pub send_domain_attack_start :
    Option Bool → ℕ → Str → ℕ → ℕ → AlertManager → AlertManager
unfolding can_send clear_cooldown
send_domain_attack_start mesh now domain total_rps total_conns a =
    let (may, a') = can_send (is_some mesh) now (attack_start_ ++ domain) a in
    if silent_member mesh
    then a
    else if not may
    then a'
    else send_all_rich (domain_attack_start domain total_rps total_conns)
        (clear_cooldown (attack_end_ ++ domain) a')

unfoldable pub send_domain_attack_end : Option Bool → ℕ → Str → ℕ → ℕ → AlertManager → AlertManager
unfolding can_send clear_cooldown
send_domain_attack_end mesh now domain duration blocked a =
    let (may, a') = can_send (is_some mesh) now (attack_end_ ++ domain) a in
    if silent_member mesh
    then a
    else if not may
    then a'
    else send_all_rich (domain_attack_end domain duration blocked)
        (clear_cooldown (attack_start_ ++ domain) a')

unfoldable pub send_report : Bool → ℕ → AlertManager → AlertManager
unfolding can_send
send_report in_mesh now a =
    let (may, a') = can_send in_mesh now (codes "report") a in
    if may then send_all_rich report a' else a'
