-- ===== src/Hardening.antt =====
-- perf/hardening.go: `RequestValidator` and `GracefulDegrader`. Rate factors are in tenths.
pub mod Laws
mod Tests
use mango_waf.Common.{
  ℕ, ◌+◌, ◌*◌, Bool, true, false, not, ◌||◌, Option, none, some, List, [], ◌∷◌, reverse, any, ltb,
  leb, length, if◌then◌else◌,
}
use mango_waf.Common.Bytes.{Str, codes, str_eq, is_empty, has_byte}
use mango_waf.Common.Dict.{Dict}
use mango_waf.Request.{Request}

pub record RequestValidator : Type 0 where
  pub max_body_size : ℕ
  pub max_url_length : ℕ
  pub max_header_size : ℕ
  pub allowed_methods : List Str

unfoldable pub new_request_validator : RequestValidator
new_request_validator = record {
  max_body_size = 10 * 1024 * 1024;
  max_url_length = 8192;
  max_header_size = 16384;
  allowed_methods =
      codes "GET"
      ∷ codes "POST"
      ∷ codes "PUT"
      ∷ codes "DELETE"
      ∷ codes "PATCH"
      ∷ codes "HEAD"
      ∷ codes "OPTIONS"
      ∷ [];
}

unfoldable pub values_size : List Str → ℕ
values_size [] = 0
values_size (v ∷ vs) = length v + values_size vs

unfoldable pub header_size : Dict (List Str) → ℕ
unfolding values_size
header_size [] = 0
header_size ((name, values) ∷ hs) = length name + values_size values + header_size hs

abbrev pub request_uri_of : Request → Str
request_uri_of r = if is_empty r.request_uri then r.url else r.request_uri

-- The flag, and the reason where it is false.
unfoldable pub validate : RequestValidator → Request → Bool × Str
unfolding header_size has_byte str_eq
validate v r =
    if not (any (str_eq r.method) v.allowed_methods)
    then (false, codes "method_not_allowed")
    else if ltb v.max_url_length (length (request_uri_of r))
    then (false, codes "url_too_long")
    else if has_byte 0 (request_uri_of r)
    then (false, codes "null_byte_url")
    else if ltb v.max_body_size r.content_length
    then (false, codes "body_too_large")
    else if ltb v.max_header_size (header_size r.headers)
    then (false, codes "headers_too_large")
    else if is_empty r.host
    then (false, codes "missing_host")
    else (true, [])

pub record DegradationLevel : Type 0 where
  pub name : Str
  pub rps_threshold : ℕ
  pub disable_features : List Str
  pub rate_limit_factor : ℕ

abbrev pub normal : DegradationLevel
normal = record {
  name = codes "normal";
  rps_threshold = 0;
  disable_features = [];
  rate_limit_factor = 10;
}

-- The levels of `NewGracefulDegrader`.
unfoldable pub default_levels : List DegradationLevel
default_levels =
    normal
    ∷ record {
      name = codes "elevated";
      rps_threshold = 500;
      disable_features =
          codes "detailed_logging" ∷ codes "slow_queries" ∷ codes "waf_deep_inspect" ∷ [];
      rate_limit_factor = 8;
    }
    ∷ record {
      name = codes "high";
      rps_threshold = 2000;
      disable_features =
          codes "detailed_logging"
          ∷ codes "slow_queries"
          ∷ codes "reputation_lookup"
          ∷ codes "geo_lookup"
          ∷ codes "waf_deep_inspect"
          ∷ [];
      rate_limit_factor = 5;
    }
    ∷ record {
      name = codes "critical";
      rps_threshold = 5000;
      disable_features =
          codes "detailed_logging"
          ∷ codes "slow_queries"
          ∷ codes "reputation_lookup"
          ∷ codes "geo_lookup"
          ∷ codes "waf_deep_inspect"
          ∷ codes "behavioral_analysis"
          ∷ [];
      rate_limit_factor = 2;
    }
    ∷ record {
      name = codes "survival";
      rps_threshold = 10000;
      disable_features = codes "all_optional" ∷ [];
      rate_limit_factor = 1;
    }
    ∷ []

-- The first level of a list whose threshold is reached, or the given one.
unfoldable pub reached_level : ℕ → DegradationLevel → List DegradationLevel → DegradationLevel
reached_level rps base [] = base
reached_level rps base (level ∷ rest) =
    let later = reached_level rps base rest in if leb level.rps_threshold rps then level else later

-- `Evaluate` goes through the levels from the last to the first.
unfoldable pub evaluate : ℕ → DegradationLevel
unfolding reached_level default_levels
evaluate rps = reached_level rps normal (reverse default_levels)

unfoldable pub is_feature_disabled : Str → ℕ → Bool
unfolding evaluate str_eq
is_feature_disabled feature rps =
    any (λ f. str_eq f feature || str_eq f (codes "all_optional")) (evaluate rps).disable_features
