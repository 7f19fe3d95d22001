-- ===== src/Mesh.antt =====
-- cluster/gossip.go: the messages of the mesh and `NotifyMsg`; main.go: the handlers that the mesh is given.
-- Memberlist, which carries the messages, and encoding/json are not modelled: a message is the object that its
-- bytes hold, and a field that the object lacks stands with Go's zero value.
pub mod Exchange
pub mod Bans
pub mod Metrics
mod Tests
use mango_waf.Common.{
  ℕ, ◌+◌, ◌*◌, Bool, true, false, not, ◌&&◌, ◌||◌, Option, none, some, List, [], ◌∷◌, ◌++◌, ltb,
  if◌then◌else◌, length,
}
use mango_waf.Common.Bytes.{Str, codes, str_eq, is_empty, has_prefix}
use mango_waf.Common.Dict.{Dict, insert, delete}
use mango_waf.Pipeline.{Pipeline, Env, Broadcast, ban, unban}
use mango_waf.Pipeline.Bans.{ban_ip_remote, unban_ip, unban_all_ips}

-- The fields of `BanMessage`, `AlertSyncMessage` and `DomainAttackMessage` by their names in JSON.
pub record Message : Type 0 where
  pub action : Str
  pub ip : Str
  pub duration : ℕ
  pub source : Str
  pub sent_at : ℕ
  pub alert_type : Str
  pub domain : Str
  pub node_name : Str
  pub rps : ℕ
  pub conns : ℕ
  pub is_end : Bool

pub record PeerDomainStat : Type 0 where
  pub rps : ℕ
  pub conns : ℕ
  pub last_at : ℕ

-- `node_name` is that of the configuration.
pub record MeshNode : Type 0 where
  pub node_name : Str
  pub peer_domain_stats : Dict PeerDomainStat

-- The call of a handler.
pub data Call : Type 0 where
  no_call : Call
  ban_handler : Str → ℕ → Call
  unban_handler : Str → Call
  alert_handler : Str → Call

unfoldable pub notify_domain : ℕ → Message → MeshNode → MeshNode
unfolding insert delete
notify_domain now w n =
    let key = w.domain ++ codes "_" ++ w.node_name in
    if str_eq w.node_name n.node_name
    then n
    else if w.is_end
    then record n { peer_domain_stats = delete key n.peer_domain_stats }
    else record n {
      peer_domain_stats =
          insert key (record { rps = w.rps; conns = w.conns; last_at = now }) n.peer_domain_stats;
    }

unfoldable pub notify_ban : ℕ → Message → MeshNode → Call
notify_ban now_sec w n =
    if str_eq w.source n.node_name
    then no_call
    else if ltb (w.sent_at + 60) now_sec
    then no_call
    else if str_eq w.action (codes "unban")
    then unban_handler w.ip
    else if str_eq w.action (codes "unban_all")
    then unban_handler (codes "all")
    else ban_handler w.ip w.duration

unfoldable pub notify_alert : ℕ → Message → MeshNode → Call
notify_alert now_sec w n =
    if str_eq w.source n.node_name
    then no_call
    else if ltb (w.sent_at + 10) now_sec
    then no_call
    else alert_handler w.alert_type

-- `NotifyMsg`, with the clock in nanoseconds and in seconds; bytes that are no object are `none`.
unfoldable pub notify_msg : ℕ → ℕ → Option Message → MeshNode → MeshNode × Call
unfolding notify_domain notify_ban notify_alert
notify_msg now now_sec none n = (n, no_call)
notify_msg now now_sec (some w) n =
    if not (is_empty w.domain) && not (is_empty w.node_name)
    then (notify_domain now w n, no_call)
    else if not (is_empty w.ip) || not (is_empty w.action)
    then (n, notify_ban now_sec w n)
    else if not (is_empty w.alert_type)
    then (n, notify_alert now_sec w n)
    else (n, no_call)

-- The handlers of main.go on the pipeline; the one for alerts changes the alert manager only.
unfoldable pub handle : Env → Call → Pipeline → Pipeline
unfolding ban_ip_remote unban_ip unban_all_ips
handle env no_call p = p
handle env (ban_handler ip duration) p = (ban_ip_remote env ip duration p).1
handle env (unban_handler ip) p =
    if str_eq ip (codes "all") then unban_all_ips env p else unban_ip env ip p
handle env (alert_handler kind) p = p

abbrev no_message : Message
no_message = record {
  action = [];
  ip = [];
  duration = 0;
  source = [];
  sent_at = 0;
  alert_type = [];
  domain = [];
  node_name = [];
  rps = 0;
  conns = 0;
  is_end = false;
}

-- The messages of `BroadcastBan`, `BroadcastUnban`, `BroadcastAlert` and `BroadcastDomainMetric`.
unfoldable pub ban_message : ℕ → MeshNode → Str → ℕ → Message
ban_message sent n ip duration = record no_message {
  action = codes "ban";
  ip = ip;
  duration = duration;
  source = n.node_name;
  sent_at = sent;
}

unfoldable pub unban_message : ℕ → MeshNode → Str → Message
unban_message sent n ip = record no_message {
  action = if str_eq ip (codes "all") then codes "unban_all" else codes "unban";
  ip = ip;
  source = n.node_name;
  sent_at = sent;
}

unfoldable pub alert_message : ℕ → MeshNode → Str → Message
alert_message sent n kind = record no_message {
  alert_type = kind;
  source = n.node_name;
  sent_at = sent;
}

unfoldable pub domain_message : ℕ → MeshNode → Str → ℕ → ℕ → Bool → Message
domain_message sent n domain rps conns is_end = record no_message {
  domain = domain;
  node_name = n.node_name;
  rps = rps;
  conns = conns;
  is_end = is_end;
  sent_at = sent;
}

-- `GetPeerDomainMetrics`: the entries whose key goes on after the domain, and that are younger than 15 seconds.
unfoldable pub get_peer_domain_metrics : ℕ → Str → Dict PeerDomainStat → ℕ × ℕ
unfolding has_prefix
get_peer_domain_metrics now domain [] = (0, 0)
get_peer_domain_metrics now domain ((key, stat) ∷ stats) =
    let (rps, conns) = get_peer_domain_metrics now domain stats in
    if ltb (length domain) (length key)
      && has_prefix key domain
      && ltb now (stat.last_at + 15 * 1000000000)
    then (rps + stat.rps, conns + stat.conns)
    else (rps, conns)

-- `IsLeader` by the keys of the local node and of the members.
unfoldable pub str_less : Str → Str → Bool
str_less s [] = false
str_less [] (b ∷ t) = true
str_less (a ∷ s) (b ∷ t) = if ltb a b then true else if ltb b a then false else str_less s t

unfoldable pub lowest : Str → List Str → Str
unfolding str_less
lowest key [] = key
lowest key (k ∷ keys) = lowest (if str_less k key then k else key) keys

-- The keys of the local node, if there is one, and of the members.
unfoldable pub is_leader : Option Str → List Str → Bool
unfolding lowest
is_leader none members = true
is_leader (some key) members =
    if ltb 1 (length members) then str_eq key (lowest key members) else true
