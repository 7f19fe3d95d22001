-- ===== src/Hardening/Tests.antt =====
-- The validator with its defaults and the degrader at two loads.
use mango_waf.Common.{◌≡◌, refl, true, []}
use mango_waf.Common.Bytes.{codes, str_eq}
use mango_waf.Request.{Request}
use mango_waf.Hardening.{
  RequestValidator, new_request_validator, default_levels, reached_level, evaluate,
  is_feature_disabled,
}

abbrev request : Request
request = record {
  method = codes "GET";
  host = codes "a.example";
  path = codes "/list";
  raw_query = [];
  url = codes "/list";
  request_uri = codes "/list";
  headers = [];
  form = [];
  content_length = 0;
}

abbrev v : RequestValidator
v = new_request_validator

inspection_disabled : is_feature_disabled (codes "waf_deep_inspect") 700 ≡ true
unfolding is_feature_disabled evaluate reached_level default_levels str_eq
inspection_disabled = refl
