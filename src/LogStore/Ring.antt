-- ===== src/LogStore/Ring.antt =====
-- core/logstore.go: the operations of the log store.
use mango_waf.Common.{
  ℕ, zero, suc, ◌+◌, ◌-◌, ◌%◌, Bool, not, ◌&&◌, ◌||◌, Option, none, some, List, [], ◌∷◌, ◌++◌, ltb,
  ◌==◌, if◌then◌else◌, length, get_elem?, set,
}
use mango_waf.Common.Bytes.{
  Str, codes, str_eq, is_empty, to_lower, to_upper, trim_space, contains, join,
}
use mango_waf.LogStore.{Event, LogStore}

abbrev pub channel_size : ℕ
channel_size = 10000

unfoldable pub new_log_store : LogStore
new_log_store = record { events = []; head = 0; max_cap = 2000; channel = [] }

-- One round of `worker`, for the event it takes.
unfoldable pub worker_step : Event → LogStore → LogStore
worker_step e ls =
    if ltb (length ls.events) ls.max_cap
    then record ls { events = ls.events ++ e ∷ [] }
    else record ls { events = set ls.events ls.head e; head = (ls.head + 1) % ls.max_cap }

-- The worker takes the first event of the channel.
unfoldable pub worker : LogStore → LogStore
unfolding worker_step
worker ls = elim ls.channel [ [] ↦ ls | e ∷ rest ↦ worker_step e (record ls { channel = rest }) ]

-- The events that are sampled under load.
unfoldable pub is_sampled : Event → Bool
is_sampled e =
    str_eq e.kind (codes "ACCESS")
    || (str_eq e.kind (codes "CHALLENGE") && str_eq e.action (codes "CHALLENGE_REQUIRED"))
    || (str_eq e.kind (codes "SECURITY")
        && (str_eq e.rule (codes "rate_limit")
            || str_eq e.rule (codes "banned")
            || str_eq e.rule (codes "ddos_flood_xdp")
            || str_eq e.rule (codes "auto_l7_drop")
            || str_eq e.rule (codes "conn_limit")
            || str_eq e.rule (codes "rate_limited")))

abbrev pub or_unknown : Str → Str → Str
or_unknown d s = if is_empty s then d else s

-- No country is looked up at a high rate.
abbrev pub looked_up : ℕ → Str → Str
looked_up rps s = if ltb 1000 rps then [] else s

-- `RecordEvent` at a rate of requests, with the number that `rand.Intn(50)` draws; the event comes with its
-- number, time and country, where one was found.
unfoldable pub record_event : ℕ → ℕ → Event → LogStore → LogStore
unfolding is_sampled
record_event rps draw e ls =
    let known = record e {
      country_code = or_unknown (codes "XX") (looked_up rps e.country_code);
      country_name = or_unknown (codes "Unknown") (looked_up rps e.country_name);
    } in
    if ltb 200 rps && is_sampled e && not (draw == 0)
    then ls
    else if ltb (length ls.channel) channel_size
    then record ls { channel = ls.channel ++ known ∷ [] }
    else ls

abbrev spaced : List Str → Str
spaced = join (codes " ")

-- The filters, which are given in lower case, the type in upper case.
unfoldable pub is_wanted : Str → Str → Str → Event → Bool
is_wanted log_type search domain e =
    (is_empty log_type
      || str_eq log_type (codes "ALL")
      || str_eq (to_lower e.kind) (to_lower log_type))
    && (is_empty domain || contains (to_lower e.domain) domain)
    && (is_empty search
        || contains
            (to_lower (spaced (e.client_ip ∷ e.domain ∷ e.path ∷ e.rule ∷ e.action ∷ e.desc ∷ [])))
            search)

-- The rest of a round of `QueryLogs` for the event it looks at, given what the later rounds give with it kept
-- and with it left out.
unfoldable pub add_wanted : (Event → Bool) → Option Event → List Event → List Event → List Event
add_wanted wanted none found skipped = skipped
add_wanted wanted (some e) found skipped = if wanted e then e ∷ found else skipped

-- The loop of `QueryLogs` from round i on, with `left` rounds to go and room for `room` more results.
unfoldable pub query_from : (Event → Bool) → LogStore → ℕ → ℕ → ℕ → List Event
unfolding add_wanted
query_from wanted ls zero i room = []
query_from wanted ls (suc left) i zero = []
query_from wanted ls (suc left) i (suc room) =
    add_wanted wanted
      (get_elem? ls.events ((ls.head + length ls.events - 1 - i) % length ls.events))
      (query_from wanted ls left (suc i) room) (query_from wanted ls left (suc i) (suc room))

unfoldable pub query_logs : Str → Str → Str → LogStore → List Event
unfolding is_wanted query_from
query_logs log_type search domain ls =
    query_from
      (is_wanted (to_upper (trim_space log_type)) (to_lower (trim_space search))
        (to_lower (trim_space domain)))
      ls (length ls.events) 0 500

unfoldable pub clear : LogStore → LogStore
clear ls = record ls { events = []; head = 0 }
