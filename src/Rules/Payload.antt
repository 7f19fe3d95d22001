-- ===== src/Rules/Payload.antt =====
-- rules/engine.go: the text in which `Inspect` looks for keywords, and what stands in it.
use mango_waf.Common.{
  ◌≡◌, refl, ap, sym, subst, ◌∙◌, true, inl, inr, some, List, [], ◌∷◌, ◌++◌, if◌then◌else◌,
  append_assoc, Bool-cases,
}
use mango_waf.Common.Bytes.{Str, codes, str_eq, to_lower, contains}
use mango_waf.Common.Infix.{contains-append_left, contains-append_right}
use mango_waf.Common.Dict.{Dict, lookup}
use mango_waf.Request.{Request, header, first_or_empty}
use mango_waf.Rules.Match.{header_values}
use mango_waf.Rules.Inspect.{header_payload, full_payload}

contains_nothing : (s u : Str) → contains [] u ≡ true → contains s u ≡ true
contains_nothing s u h = contains-append_left [] s u h

field-left : (s rest u : Str) → contains s u ≡ true → contains (s ++ (codes "|" ++ rest)) u ≡ true
field-left s rest u h = contains-append_left s (codes "|" ++ rest) u h

field-right :
    (s rest u : Str) → contains rest u ≡ true → contains (s ++ (codes "|" ++ rest)) u ≡ true
field-right s rest u h =
    contains-append_right s (codes "|" ++ rest) u (contains-append_right (codes "|") rest u h)

-- The pieces of the payload, from the right.
abbrev headers_part : Request → Str
headers_part r = header_payload (header_values r.headers) ++ to_lower (header (codes "Cookie") r)

abbrev method_part : Request → Str
method_part r = to_lower r.method ++ (codes "|" ++ headers_part r)

abbrev query_part : Request → Str
query_part r = to_lower r.raw_query ++ (codes "|" ++ method_part r)

module _ (r : Request) (u : Str) where
  pub payload-path : contains (to_lower r.path) u ≡ true → contains (full_payload r) u ≡ true
  unfolding full_payload
  payload-path h = field-left (to_lower r.path) (query_part r) u h

  pub payload-query : contains (to_lower r.raw_query) u ≡ true → contains (full_payload r) u ≡ true
  unfolding full_payload
  payload-query h =
      field-right (to_lower r.path) (query_part r) u
        (field-left (to_lower r.raw_query) (method_part r) u h)

  pub payload-method : contains (to_lower r.method) u ≡ true → contains (full_payload r) u ≡ true
  unfolding full_payload
  payload-method h = field-right (to_lower r.path) (query_part r) u (
      field-right (to_lower r.raw_query) (method_part r) u
        (field-left (to_lower r.method) (headers_part r) u h))

  pub payload-headers :
      contains (header_payload (header_values r.headers)) u ≡ true
      → contains (full_payload r) u ≡ true
  unfolding full_payload
  payload-headers h = field-right (to_lower r.path) (query_part r) u (
      field-right (to_lower r.raw_query) (method_part r) u (
        field-right (to_lower r.method) (headers_part r) u (
          contains-append_left (header_payload (header_values r.headers))
            (to_lower (header (codes "Cookie") r)) u h)))

header_payload-append :
    (vs ws : List Str) → header_payload (vs ++ ws) ≡ header_payload vs ++ header_payload ws
unfolding header_payload
header_payload-append [] ws = refl
header_payload-append (v ∷ vs) ws =
    ap (λ x. to_lower v ++ (codes "|" ++ x)) (header_payload-append vs ws)
    ∙ sym (append_assoc (to_lower v) (codes "|" ++ header_payload vs) (header_payload ws))

first-header_payload :
    (vs : List Str) (u : Str)
    → contains (to_lower (first_or_empty (some vs))) u ≡ true
    → contains (header_payload vs) u ≡ true
unfolding header_payload to_lower
first-header_payload [] u h = h
first-header_payload (v ∷ vs) u h =
    contains-append_left (to_lower v) (codes "|" ++ header_payload vs) u h

pub value-header_payload :
    (name : Str) (hs : Dict (List Str)) (u : Str)
    → contains (to_lower (first_or_empty (lookup name hs))) u ≡ true
    → contains (header_payload (header_values hs)) u ≡ true
unfolding lookup header_values to_lower
value-header_payload name [] u h = contains_nothing (header_payload []) u h
value-header_payload name ((k, vs) ∷ hs) u h =
    subst (λ x. contains x u ≡ true) (sym (header_payload-append vs (header_values hs)))
      (elim (Bool-cases (str_eq k name)) [
        | inl e ↦ contains-append_left (header_payload vs) (header_payload (header_values hs)) u (
            first-header_payload vs u (
              subst
                (λ b.
                  contains (to_lower (first_or_empty (if b then some vs else lookup name hs))) u
                  ≡ true)
                e h))
        | inr e ↦ contains-append_right (header_payload vs) (header_payload (header_values hs)) u (
            value-header_payload name hs u (
              subst
                (λ b.
                  contains (to_lower (first_or_empty (if b then some vs else lookup name hs))) u
                  ≡ true)
                e h))
      ])
