-- ===== src/Cdn/Tests.antt =====
-- A run of the cache, and the theorems at concrete inputs.
use mango_waf.Common.{ℕ, true, none, some, List, [], ◌∷◌, ◌++◌}
use mango_waf.Common.Bytes.{Str, codes}
use mango_waf.Request.{Request}
use mango_waf.Cdn.{CdnConfig, CdnManager, Response, generate_cache_key, store}
use mango_waf.Cdn.Reuse.{empty_manager}

abbrev cdn_config : CdnConfig
cdn_config = record {
  static_extensions = codes ".css" ∷ [];
  bypass_rules = codes "/api/*" ∷ [];
  bypass_cookies = [];
  bypass_headers = [];
}

abbrev page : Request
page = record {
  method = codes "GET";
  host = codes "a.example";
  path = codes "/x";
  raw_query = [];
  url = codes "/x";
  request_uri = codes "/x";
  headers = [];
  form = [];
  content_length = 0;
}

abbrev answer : Response
answer = record {
  status_code = 200;
  headers = (codes "Cache-Control", codes "public" ∷ []) ∷ [];
  body = some (codes "hi");
}

abbrev filled : CdnManager
filled = store cdn_config 7 (generate_cache_key page) page answer empty_manager
