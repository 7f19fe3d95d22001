-- ===== src/Intel/Feeds.antt =====
-- intelligence/feeds.go: the lists of known threats. A download is the status and what the line scanner yields
-- of the body, with whether it ends in an error.
use mango_waf.Common.Dict.{Dict, lookup, insert, delete}
use mango_waf.Common.Bytes.{
  Str, codes, is_empty, has_prefix, trim_space, trim_left, is_space, index_byte,
}
use mango_waf.Common.{
  ℕ, true, none, some, [], ◌∷◌, Bool, Option, List, ◌+◌, ◌||◌, not, if◌then◌else◌, ◌==◌, is_some,
  zero, suc, take, length,
}
use mango_waf.Pipeline.{Env}

pub record ThreatEntry : Type 0 where
  pub ip : Str
  pub source : Str
  pub category : Str
  pub added_at : ℕ

pub record FeedStats : Type 0 where
  pub last_update : ℕ
  pub total_entries : ℕ
  pub feed_errors : ℕ
  pub feed_sources : ℕ

pub record Feed : Type 0 where
  pub name : Str
  pub url : Str
  pub category : Str
  pub parser : Str
  pub enabled : Bool

pub record ThreatFeedManager : Type 0 where
  pub known_bad : Dict ThreatEntry
  pub feed_stats : FeedStats

pub record Download : Type 0 where
  pub status : ℕ
  pub lines : List Str
  pub cut_short : Bool

abbrev pub new_threat_feed_manager : ThreatFeedManager
new_threat_feed_manager = record {
  known_bad = [];
  feed_stats = record { last_update = 0; total_entries = 0; feed_errors = 0; feed_sources = 0 };
}

abbrev pub default_feeds : List Feed
default_feeds =
    record {
      name = codes "FireHOL Level 1";
      url =
          codes
            "https://raw.githubusercontent.com/firehol/blocklist-ipsets/master/firehol_level1.netset";
      category = codes "malware";
      parser = codes "line";
      enabled = true;
    }
    ∷ record {
      name = codes "Spamhaus DROP";
      url = codes "https://www.spamhaus.org/drop/drop.txt";
      category = codes "spam";
      parser = codes "line";
      enabled = true;
    }
    ∷ record {
      name = codes "Spamhaus EDROP";
      url = codes "https://www.spamhaus.org/drop/edrop.txt";
      category = codes "spam";
      parser = codes "line";
      enabled = true;
    }
    ∷ record {
      name = codes "Blocklist.de All";
      url = codes "https://lists.blocklist.de/lists/all.txt";
      category = codes "bruteforce";
      parser = codes "line";
      enabled = true;
    }
    ∷ record {
      name = codes "CI Army Badguys";
      url = codes "https://cinsscore.com/list/ci-badguys.txt";
      category = codes "scanner";
      parser = codes "line";
      enabled = true;
    }
    ∷ record {
      name = codes "Emerging Threats Compromised IPs";
      url = codes "https://rules.emergingthreats.net/blockrules/compromised-ips.txt";
      category = codes "botnet";
      parser = codes "line";
      enabled = true;
    }
    ∷ record {
      name = codes "TOR Exit Nodes";
      url = codes "https://check.torproject.org/torbulkexitlist";
      category = codes "anonymizer";
      parser = codes "line";
      enabled = true;
    }
    ∷ record {
      name = codes "DShield Top Attackers";
      url = codes "https://feeds.dshield.org/block.txt";
      category = codes "scanner";
      parser = codes "line";
      enabled = true;
    }
    ∷ []

unfoldable pub is_known_threat : Str → Dict ThreatEntry → Bool
unfolding lookup
is_known_threat ip known_bad = is_some (lookup ip known_bad)

-- A comment at the end of a line, by the position of its first character.
abbrev pub cut_at : Option ℕ → Str → Str
cut_at none line = line
cut_at (some zero) line = line
cut_at (some (suc i)) line = trim_space (take (suc i) line)

-- The bytes up to the first white space.
unfoldable pub until_space : Str → Str
unfolding is_space
until_space [] = []
until_space (c ∷ s) = if is_space c then [] else c ∷ until_space s

-- `strings.Fields(line)[0]`, empty without a field.
abbrev pub first_field : Str → Str
first_field line = until_space (trim_left line)

unfoldable pub extract_ip_from_line : Env → Str → Str
unfolding trim_space trim_left until_space index_byte
extract_ip_from_line env line =
    let plain = cut_at (index_byte b'#' line) line in
    let candidate = first_field (cut_at (index_byte b';' plain) plain) in
    if is_empty candidate
    then []
    else if is_some (env.parse_ip candidate)
    then candidate
    else if is_some (env.parse_cidr candidate)
    then candidate
    else []

-- The text that a line of a feed is about, empty for one to skip.
unfoldable pub feed_line : Env → Str → Str
unfolding extract_ip_from_line trim_space has_prefix
feed_line env text =
    let line = trim_space text in
    if is_empty line || has_prefix (codes "#") line || has_prefix (codes ";") line
    then []
    else extract_ip_from_line env line

unfoldable pub store_line : Env → Feed → Str → ℕ × Dict ThreatEntry → ℕ × Dict ThreatEntry
unfolding feed_line insert
store_line env feed text (count, known_bad) =
    let ip = feed_line env text in
    if is_empty ip then (count, known_bad) else (
      count + 1,
      insert ip
          (record { ip = ip; source = feed.name; category = feed.category; added_at = env.now })
          known_bad,
    )

unfoldable pub store_lines : Env → Feed → List Str → ℕ × Dict ThreatEntry → ℕ × Dict ThreatEntry
unfolding store_line
store_lines env feed [] stored = stored
store_lines env feed (text ∷ lines) stored =
    store_lines env feed lines (store_line env feed text stored)

-- `fetchFeed`: the count, none on an error, and the entries, which stay when the body ends in an error.
unfoldable pub fetch_feed :
    Env → Option Download → Feed → Dict ThreatEntry → Option ℕ × Dict ThreatEntry
unfolding store_lines
fetch_feed env none feed known_bad = (none, known_bad)
fetch_feed env (some resp) feed known_bad =
    let stored = store_lines env feed resp.lines (0, known_bad) in
    if not (resp.status == 200)
    then (none, known_bad)
    else (if resp.cut_short then none else some stored.0, stored.1)

abbrev pub count_error : Option ℕ → ℕ → ℕ
count_error none errors = errors + 1
count_error (some _) errors = errors

-- The loop of `UpdateAll`, by the download of each URL.
unfoldable pub update_feeds :
    Env → (Str → Option Download) → List Feed → ℕ × Dict ThreatEntry → ℕ × Dict ThreatEntry
unfolding fetch_feed
update_feeds env get [] updated = updated
update_feeds env get (feed ∷ feeds) (errors, known_bad) =
    let fetched = fetch_feed env (get feed.url) feed known_bad in
    update_feeds env get feeds
      (if feed.enabled then (count_error fetched.0 errors, fetched.1) else (errors, known_bad))

unfoldable pub update_all : Env → (Str → Option Download) → ThreatFeedManager → ThreatFeedManager
unfolding update_feeds
update_all env get tf =
    let updated = update_feeds env get default_feeds (0, tf.known_bad) in
    record {
      known_bad = updated.1;
      feed_stats = record {
        last_update = env.now;
        total_entries = length updated.1;
        feed_errors = updated.0;
        feed_sources = length default_feeds;
      };
    }

unfoldable pub manual_add : Env → Str → Str → Str → ThreatFeedManager → ThreatFeedManager
unfolding insert
manual_add env ip category source tf = record tf {
  known_bad =
      insert ip (record { ip = ip; source = source; category = category; added_at = env.now })
        tf.known_bad;
}

unfoldable pub remove_threat : Str → ThreatFeedManager → ThreatFeedManager
unfolding delete
remove_threat ip tf = record tf { known_bad = delete ip tf.known_bad }
