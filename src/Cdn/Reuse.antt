-- ===== src/Cdn/Reuse.antt =====
-- core/cache.go: what a cache that is only filled by the proxy can serve.
use mango_waf.Common.{◌++◌, append_assoc, ℕ, ◌≡◌, true, false, some, [], ◌||◌}
use mango_waf.Common.Bytes.{contains, Str, str_eq, is_empty}
use mango_waf.Common.Dict.{lookup, delete}
use mango_waf.Request.{first_or_empty, header, Request}
use mango_waf.Cdn.{
  cache_control, codes, CdnConfig, CdnManager, CachedResponse, Response, generate_cache_key,
  should_bypass, body_of, store, serve_from_cache, purge,
}

abbrev pub empty_manager : CdnManager
empty_manager = record { cache = []; hits = 0; misses = 0; bypasses = 0 }

module _ (cfg : CdnConfig) where
  -- A request that does not bypass the cache and is forwarded to a backend, a request that asks the cache, an
  -- entry that Ristretto drops, and a purge.
  pub data Step : CdnManager → CdnManager → Type 0 where
    forwarded :
        (now : ℕ) (r : Request) (resp : Response) (cm : CdnManager)
        → should_bypass cfg r ≡ false
        → Step cm (store cfg now (generate_cache_key r) r resp cm)
    asked : (now : ℕ) (r : Request) (cm : CdnManager) → Step cm (serve_from_cache cfg now r cm).1
    dropped : (key : Str) (cm : CdnManager) → Step cm (record cm { cache = delete key cm.cache })
    purged : (key : Str) (cm : CdnManager) → Step cm (purge key cm)

  pub data Reach : CdnManager → Type 0 where
    here : Reach empty_manager
    next : {c d : CdnManager} → Reach c → Step c d → Reach d

  -- An entry is the response of a backend to a request with its key: neither the request nor the response is
  -- for one user only. Of the header lines with the same name the first counts.
  pub record IsPublic (key : Str) (e : CachedResponse) : Type 0 where
    pub request : Request
    pub response : Response
    pub keyed : generate_cache_key request ≡ key
    pub passing : should_bypass cfg request ≡ false
    pub reads : (str_eq request.method (codes "GET") || str_eq request.method (codes "HEAD")) ≡ true
    pub anonymous : is_empty (header (codes "Authorization") request) ≡ true
    pub ok : response.status_code ≡ 200
    pub is_private : contains (cache_control response) (codes "private") ≡ false
    pub no_store : contains (cache_control response) (codes "no-store") ≡ false
    pub no_cache : contains (cache_control response) (codes "no-cache") ≡ false
    pub no_cookie : is_empty (first_or_empty (lookup (codes "Set-Cookie") response.headers)) ≡ true
    pub body : e.body ≡ body_of response.body
    pub headers : e.headers ≡ response.headers
    pub status : e.status_code ≡ response.status_code

  abbrev pub IsClean : CdnManager → Type 0
  IsClean cm = (key : Str) (e : CachedResponse) → lookup key cm.cache ≡ some e → IsPublic key e

-- Two requests that differ in where an underscore parts the path from the query have the same key, and are
-- served each other's responses.
pub generate_cache_key-collides :
    (r : Request) (p q t : Str)
    → generate_cache_key (record r { path = p ++ codes "_" ++ q; raw_query = t })
      ≡ generate_cache_key (record r { path = p; raw_query = q ++ codes "_" ++ t })
unfolding generate_cache_key
generate_cache_key-collides r p q t = simp (append_assoc)
