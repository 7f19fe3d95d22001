-- ===== src/Cdn.antt =====
-- core/cache.go: the cache of responses, and core/proxy.go, which fills it. Ristretto, which holds the entries, may
-- drop any of them at any time; the steps of Reuse have that as a step of its own. Times are in nanoseconds,
-- header names in canonical form.
pub mod Reuse
mod Tests
use mango_waf.Common.{
  ℕ, ◌+◌, ◌*◌, Bool, true, false, not, ◌&&◌, ◌||◌, Option, none, some, List, [], ◌∷◌, ◌++◌, ltb,
  ◌==◌, if◌then◌else◌, any, length, reverse, drop,
}
use mango_waf.Common.Bytes.{
  Str, codes, str_eq, is_empty, has_prefix, has_suffix, contains, to_lower,
}
use mango_waf.Common.Dict.{Dict, lookup, insert, delete}
use mango_waf.Request.{Request, header, first_or_empty}
use mango_waf.Pipeline.State.{ext}

pub record CdnConfig : Type 0 where
  pub static_extensions : List Str
  pub bypass_rules : List Str
  pub bypass_cookies : List Str
  pub bypass_headers : List Str

-- A response of a backend; a body that cannot be read is `none`.
pub record Response : Type 0 where
  pub status_code : ℕ
  pub headers : Dict (List Str)
  pub body : Option Str

pub record CachedResponse : Type 0 where
  pub status_code : ℕ
  pub headers : Dict (List Str)
  pub body : Str
  pub expiry : ℕ

pub record CdnManager : Type 0 where
  pub cache : Dict CachedResponse
  pub hits : ℕ
  pub misses : ℕ
  pub bypasses : ℕ

unfoldable pub generate_cache_key : Request → Str
generate_cache_key r =
    r.method ++ codes "_" ++ r.host ++ codes "_" ++ r.path ++ codes "_" ++ r.raw_query

unfoldable pub match_bypass_rule : Str → Str → Bool
unfolding has_prefix has_suffix
match_bypass_rule path rule =
    if has_suffix rule (codes "*")
    then has_prefix path (reverse (drop 1 (reverse rule)))
    else str_eq path rule

abbrev pub sensitive_cookies : List Str
sensitive_cookies =
    codes "session"
    ∷ codes "logged_in"
    ∷ codes "phpsessid"
    ∷ codes "jsessionid"
    ∷ codes "laravel_session"
    ∷ codes "csrf"
    ∷ []

unfoldable pub should_bypass : CdnConfig → Request → Bool
unfolding match_bypass_rule header
should_bypass cfg r =
    let cookies = header (codes "Cookie") r in
    not (str_eq r.method (codes "GET") || str_eq r.method (codes "HEAD"))
    || any (match_bypass_rule r.path) cfg.bypass_rules
    || not (is_empty (header (codes "Authorization") r))
    || any (λ h. not (is_empty (header h r))) cfg.bypass_headers
    || any (λ c. not (is_empty cookies) && contains (to_lower cookies) (to_lower c))
        (sensitive_cookies ++ cfg.bypass_cookies)

unfoldable pub is_static_extension : CdnConfig → Str → Bool
unfolding ext
is_static_extension cfg path =
    not (is_empty (to_lower (ext path))) && any (str_eq (to_lower (ext path))) cfg.static_extensions

-- `Get` for what Ristretto answers.
unfoldable pub got :
    ℕ → Str → CdnManager → Option CachedResponse → Option CachedResponse × CdnManager
unfolding delete
got now key cm none = (none, record cm { misses = cm.misses + 1 })
got now key cm (some e) =
    if ltb e.expiry now
    then (none, record cm { cache = delete key cm.cache; misses = cm.misses + 1 })
    else (some e, record cm { hits = cm.hits + 1 })

unfoldable pub get : ℕ → Str → CdnManager → Option CachedResponse × CdnManager
unfolding got lookup
get now key cm = got now key cm (lookup key cm.cache)

abbrev pub cache_control : Response → Str
cache_control resp = to_lower (first_or_empty (lookup (codes "Cache-Control") resp.headers))

-- The responses that are not for one user only.
unfoldable pub is_shareable : Response → Bool
unfolding lookup
is_shareable resp =
    resp.status_code == 200
    && not (contains (cache_control resp) (codes "private"))
    && not (contains (cache_control resp) (codes "no-store"))
    && not (contains (cache_control resp) (codes "no-cache"))
    && is_empty (first_or_empty (lookup (codes "Set-Cookie") resp.headers))

abbrev pub hour : ℕ
hour = 3600 * 1000000000

-- How long a response is kept, if it is.
unfoldable pub ttl_of : CdnConfig → Request → Response → Option ℕ
unfolding is_static_extension
ttl_of cfg r resp =
    if is_static_extension cfg r.path
    then some (24 * hour)
    else if contains (cache_control resp) (codes "public")
    then some hour
    else none

abbrev pub body_limit : ℕ
body_limit = 5 * 1024 * 1024

abbrev pub body_of : Option Str → Str
body_of none = []
body_of (some s) = s

-- The responses whose body is kept.
unfoldable pub is_kept : Response → Bool
unfolding is_shareable
is_kept resp =
    is_shareable resp
    && not (is_empty (body_of resp.body))
    && not (ltb body_limit (length (body_of resp.body)))

abbrev pub entry : ℕ → Response → CachedResponse
entry expiry resp = record {
  status_code = resp.status_code;
  headers = resp.headers;
  body = body_of resp.body;
  expiry = expiry;
}

-- `Store` once the time to live is determined.
unfoldable pub store_for : ℕ → Str → Response → CdnManager → Option ℕ → CdnManager
unfolding is_kept insert
store_for now key resp cm none = cm
store_for now key resp cm (some ttl) =
    if is_kept resp then record cm { cache = insert key (entry (now + ttl) resp) cm.cache } else cm

unfoldable pub store : CdnConfig → ℕ → Str → Request → Response → CdnManager → CdnManager
unfolding store_for ttl_of
store cfg now key r resp cm = store_for now key resp cm (ttl_of cfg r resp)

-- What is served from the cache, if anything.
unfoldable pub serve_from_cache :
    CdnConfig → ℕ → Request → CdnManager → Option CachedResponse × CdnManager
unfolding should_bypass get generate_cache_key
serve_from_cache cfg now r cm =
    if should_bypass cfg r
    then (none, record cm { bypasses = cm.bypasses + 1 })
    else get now (generate_cache_key r) cm

unfoldable pub purge : Str → CdnManager → CdnManager
unfolding delete
purge key cm = record cm { cache = if is_empty key then [] else delete key cm.cache }
