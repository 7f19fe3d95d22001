-- ===== src/Request.antt =====
-- The part of net/http's `Request` that the program reads. Header names are in canonical form, and
-- a header is ranged over in the list's order.
use mango_waf.Common.{ℕ, Option, none, some, List, [], ◌∷◌}
use mango_waf.Common.Bytes.{Str, codes}
use mango_waf.Common.Dict.{Dict, lookup}

pub record Request : Type 0 where
  pub method : Str
  pub host : Str
  pub path : Str
  pub raw_query : Str
  -- `r.URL.String()` and `r.RequestURI`
  pub url : Str
  pub request_uri : Str
  pub headers : Dict (List Str)
  pub form : Dict Str
  pub content_length : ℕ

abbrev pub first_or_empty : Option (List Str) → Str
first_or_empty (some (v ∷ _)) = v
first_or_empty _ = []

-- `Header.Get`, `UserAgent` and `FormValue`; the empty string stands for an absent value.
unfoldable pub header : Str → Request → Str
header name r = first_or_empty (lookup name r.headers)

unfoldable pub user_agent : Request → Str
unfolding header
user_agent r = header (codes "User-Agent") r

unfoldable pub form_value : Str → Request → Str
form_value name r = elim (lookup name r.form) [ none ↦ [] | some v ↦ v ]
