-- ===== src/Hardening/Laws.antt =====
-- perf/hardening.go: what a valid request is, and how features go out under load.
use mango_waf.Common.{ℕ, ◌≤◌, ◌≡◌, true, not, ◌&&◌, any, leb, length, arith}
use mango_waf.Common.Bytes.{Str, str_eq, is_empty, has_byte}
use mango_waf.Request.{Request}
use mango_waf.Hardening.{
  RequestValidator, validate, header_size, request_uri_of, default_levels, reached_level, evaluate,
  is_feature_disabled,
}

-- A request is valid exactly when its method is allowed, its address is neither too long nor holds a null
-- byte, its body and headers are within their limits and it names a host; a reason is given exactly
-- when it is not valid.
pub validate_lem :
    (v : RequestValidator) (r : Request)
    → ((validate v r).0 ≡ (
        any (str_eq r.method) v.allowed_methods
        && leb (length (request_uri_of r)) v.max_url_length
        && not (has_byte 0 (request_uri_of r))
        && leb r.content_length v.max_body_size
        && leb (header_size r.headers) v.max_header_size
        && not (is_empty r.host)))
      × (is_empty (validate v r).1 ≡ (validate v r).0)
unfolding validate
validate_lem v r = (ground arith, ground arith)

-- A feature that is disabled at some load is disabled at every greater load.
pub is_feature_disabled-le :
    (feature : Str) (rps more : ℕ)
    → is_feature_disabled feature rps ≡ true
    → rps ≤ more
    → is_feature_disabled feature more ≡ true
unfolding is_feature_disabled evaluate reached_level default_levels str_eq
is_feature_disabled-le feature rps more h k = ground (arith, h, k)
