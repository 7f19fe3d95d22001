-- ===== src/Rules/Registry.antt =====
-- rules/engine.go and rules/custom.go: the operations that add, find, enable, disable and remove rules.
use mango_waf.Common.{
  ℕ, suc, Bool, true, false, ◌&&◌, ◌||◌, not, Option, none, some, List, [], ◌∷◌, ◌++◌,
  if◌then◌else◌, ◌==◌, length, get_elem?, set,
}
use mango_waf.Common.Int.{ℤ, pos, ltb_ℤ, pos_part}
use mango_waf.Common.Bytes.{Str, codes, str_eq, is_empty, to_lower}
use mango_waf.Common.Dict.{lookup, insert, delete}
use mango_waf.Rules.{Rule, Regexp, Engine}
use mango_waf.Rules.Text.{extract_required_keyword}

unfoldable pub set_paranoia_level : ℤ → Engine → Engine
set_paranoia_level level e =
    let low = if ltb_ℤ level (pos 1) then pos 1 else level in
    let high = if ltb_ℤ (pos 4) low then pos 4 else low in
    record e { paranoia_level = pos_part high }

unfoldable pub is_regexp : Rule → Bool
is_regexp rule =
    (str_eq rule.operator (codes "rx") || str_eq rule.operator (codes "!rx"))
    && not (is_empty rule.pattern)

unfoldable pub register : Rule → Engine → Engine
unfolding insert
register rule e = record e {
  store = e.store ++ rule ∷ [];
  rules = e.rules ++ length e.store ∷ [];
  rule_index = insert rule.id (length e.store) e.rule_index;
}

unfoldable pub added : Engine → Option Rule → Bool × Engine
unfolding register
added e none = (false, e)
added e (some ready) = (true, register ready e)

module _ (compile : Str → Option Regexp) where
  -- `none` is the error of `regexp.Compile`.
  unfoldable pub prepared : Rule → Option Rule
  unfolding is_regexp extract_required_keyword
  prepared rule =
      let lowered = to_lower rule.pattern in
      if is_regexp rule
      then (elim (compile (codes "(?i)" ++ rule.pattern)) [
        | none ↦ none
        | some rx ↦ some (record rule {
          pattern_lower = lowered;
          compiled = some rx;
          required_keyword = extract_required_keyword lowered;
        })
      ])
      else some (record rule { pattern_lower = lowered })

  -- The flag is false where the source returns an error.
  unfoldable pub add_rule : Rule → Engine → Bool × Engine
  unfolding prepared added
  add_rule rule e = added e (prepared rule)

  -- The defaults that LoadCustomRules gives an entry of the file.
  unfoldable pub with_defaults : Rule → Rule
  with_defaults rule = record rule {
    paranoia = if rule.paranoia == 0 then 1 else rule.paranoia;
    action = if is_empty rule.action then codes "block" else rule.action;
  }

  -- The entries of a custom rules file, read as rules; it counts those that load.
  unfoldable pub load_custom_rules : List Rule → ℕ → Engine → ℕ × Engine
  unfolding add_rule with_defaults
  load_custom_rules [] loaded e = (loaded, e)
  load_custom_rules (entry ∷ es) loaded e =
      let (is_added, e₁) = add_rule (with_defaults entry) e in
      load_custom_rules es (if is_added then suc loaded else loaded) e₁

  quick_compiled : Str → Option Regexp
  quick_compiled pattern = compile (codes "(?i)" ++ pattern)

  unfoldable pub create_quick_rule : Str → Str → Str → Str → Rule
  unfolding quick_compiled
  create_quick_rule id pattern target category = record {
    id = id;
    name = codes "Quick Rule: " ++ id;
    description = [];
    category = category;
    severity = codes "high";
    phase = 1;
    targets = target ∷ [];
    operator = codes "rx";
    pattern = pattern;
    pattern_lower = [];
    required_keyword = [];
    compiled = quick_compiled pattern;
    action = codes "block";
    enabled = true;
    tags = [];
    paranoia = 1;
    hits = 0;
  }

-- `rule.Enabled = b`, of the rule at an address.
unfoldable pub set_enabled : Bool → ℕ → List Rule → Option Rule → List Rule
set_enabled b a store none = store
set_enabled b a store (some rule) = set store a (record rule { enabled = b })

unfoldable pub switch_at : Bool → Engine → Option ℕ → Bool × Engine
unfolding set_enabled
switch_at b e none = (false, e)
switch_at b e (some a) = (true, record e { store = set_enabled b a e.store (get_elem? e.store a) })

unfoldable pub enable_rule : Str → Engine → Bool × Engine
unfolding lookup switch_at
enable_rule id e = switch_at true e (lookup id e.rule_index)

unfoldable pub disable_rule : Str → Engine → Bool × Engine
unfolding lookup switch_at
disable_rule id e = switch_at false e (lookup id e.rule_index)

unfoldable pub get_rules : Engine → List ℕ
get_rules e = e.rules

unfoldable pub get_rule : Str → Engine → Option ℕ
unfolding lookup
get_rule id e = lookup id e.rule_index

unfoldable pub has_id : Str → List Rule → ℕ → Bool
has_id id store a = elim (get_elem? store a) [ none ↦ false | some rule ↦ str_eq rule.id id ]

unfoldable pub cons_left : ℕ → Option (List ℕ) → Option (List ℕ)
cons_left a none = none
cons_left a (some rest) = some (a ∷ rest)

-- The slice without the first rule of that id, when there is one.
unfoldable pub remove_first : Str → List Rule → List ℕ → Option (List ℕ)
unfolding has_id cons_left
remove_first id store [] = none
remove_first id store (a ∷ rest) =
    if has_id id store a then some rest else cons_left a (remove_first id store rest)

unfoldable pub removed : Engine → Option (List ℕ) → Bool × Engine
removed e none = (false, e)
removed e (some rs) = (true, record e { rules = rs })

unfoldable pub remove_rule : Str → Engine → Bool × Engine
unfolding delete remove_first removed
remove_rule id e =
    removed (record e { rule_index = delete id e.rule_index }) (remove_first id e.store e.rules)
