-- ===== src/Rules.antt =====
-- rules/engine.go and rules/custom.go: the WAF rules engine. Rules are shared by pointer between the
-- slice `rules` and the map `ruleIndex`, so a rule lives in a store and both hold its address.
pub mod Text
pub mod Match
pub mod Inspect
pub mod Registry
pub mod Keyword
pub mod Payload
pub mod Prefilter
pub mod Hits
pub mod Verdict
pub mod Registration
mod Tests
use mango_waf.Common.{ℕ, Bool, Option, List}
use mango_waf.Common.Bytes.{Str}
use mango_waf.Common.Dict.{Dict}

-- `regexp.Compile` is a parameter of the operations that compile; a compiled expression is kept as its
-- `MatchString`.
abbrev pub Regexp : Type 0
Regexp = Str → Bool

pub record Rule : Type 0 where
  pub id : Str
  pub name : Str
  pub description : Str
  pub category : Str
  pub severity : Str
  pub phase : ℕ
  pub targets : List Str
  pub operator : Str
  pub pattern : Str
  pub pattern_lower : Str
  pub required_keyword : Str
  pub compiled : Option Regexp
  pub action : Str
  pub enabled : Bool
  pub tags : List Str
  pub paranoia : ℕ
  pub hits : ℕ

-- `Matched` is true of every value: a rule that does not match is `none`.
pub record MatchResult : Type 0 where
  pub rule : ℕ
  pub matched_val : Str
  pub target : Str

pub record InspectResult : Type 0 where
  pub blocked : Bool
  pub matches : List MatchResult
  pub score : ℕ
  pub action : Str
  pub top_rule : Str

pub record Engine : Type 0 where
  -- `cfg.WAF.Enabled` and `cfg.WAF.ParanoiaLevel`
  pub waf_enabled : Bool
  pub paranoia_level : ℕ
  -- every rule allocated, by address
  pub store : List Rule
  pub rules : List ℕ
  pub rule_index : Dict ℕ
  pub total_inspected : ℕ
  pub total_blocked : ℕ
  pub total_matched : ℕ
