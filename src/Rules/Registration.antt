-- ===== src/Rules/Registration.antt =====
-- rules/engine.go and rules/custom.go: the index of the rules by id, and what enabling, disabling and
-- removing by id reach.
use mango_waf.Common.{
  ◌&&◌, Option-cases, ℕ, zero, suc, ◌≡◌, refl, ap, sym, subst, ◌∙◌, Bool, true, false, ◌⊎◌, inl,
  inr, Option, none, some, List, [], ◌∷◌, ◌++◌, if◌then◌else◌, length, get_elem?, set, Bool-cases,
}
use mango_waf.Common.Bytes.{codes, Str, str_eq, str_eq_refl}
use mango_waf.Common.Dict.{lookup, delete, lookup-insert, lookup-delete}
use mango_waf.Request.{Request}
use mango_waf.Rules.{Rule, Regexp, Engine}
use mango_waf.Rules.Inspect.{candidate_match, match_stored, is_candidate}
use mango_waf.Rules.Registry.{
  register, added, prepared, is_regexp, add_rule, set_enabled, switch_at, enable_rule, disable_rule,
  get_rule, has_id, cons_left, remove_first, removed, remove_rule,
}

holds_id : Str → Option Rule → Bool
holds_id id none = false
holds_id id (some rule) = str_eq rule.id id

unfoldable pub indexed_as : Str → List Rule → Option ℕ → Bool
unfolding holds_id
indexed_as id store none = true
indexed_as id store (some a) = holds_id id (get_elem? store a)

-- Every address in the index is that of a rule with the id it stands under.
abbrev pub IsIndexed : Engine → Type 0
IsIndexed e = (id : Str) → indexed_as id e.store (lookup id e.rule_index) ≡ true

get_elem?-append :
    (store : List Rule) (a : ℕ) (rule : Rule) (id : Str)
    → holds_id id (get_elem? store a) ≡ true
    → holds_id id (get_elem? (store ++ rule ∷ []) a) ≡ true
unfolding holds_id
get_elem?-append [] a rule id h = cc
get_elem?-append (x ∷ store) zero rule id h = h
get_elem?-append (x ∷ store) (suc a) rule id h = get_elem?-append store a rule id h

get_elem?-last :
    (store : List Rule) (rule : Rule) → get_elem? (store ++ rule ∷ []) (length store) ≡ some rule
get_elem?-last [] rule = refl
get_elem?-last (x ∷ store) rule = get_elem?-last store rule

indexed_as-append :
    (store : List Rule) (o : Option ℕ) (rule : Rule) (id : Str)
    → indexed_as id store o ≡ true
    → indexed_as id (store ++ rule ∷ []) o ≡ true
unfolding indexed_as
indexed_as-append store none rule id h = refl
indexed_as-append store (some a) rule id h = get_elem?-append store a rule id h

pub register-IsIndexed : (rule : Rule) (e : Engine) → IsIndexed e → IsIndexed (register rule e)
unfolding register indexed_as holds_id
register-IsIndexed rule e h id =
    subst (λ o. indexed_as id (e.store ++ rule ∷ []) o ≡ true)
      (sym (lookup-insert id rule.id (length e.store) e.rule_index))
      (new_or_old (Bool-cases (str_eq rule.id id)))
  where
    new_or_old :
        (str_eq rule.id id ≡ true) ⊎ (str_eq rule.id id ≡ false)
        → indexed_as id
            (e.store ++ rule ∷ [])
            (if str_eq rule.id id then some (length e.store) else lookup id e.rule_index)
          ≡ true
    new_or_old (inl s) = rw (s, get_elem?-last e.store rule) s
    new_or_old (inr s) = rw s (indexed_as-append e.store (lookup id e.rule_index) rule id (h id))

holds_id-set :
    (b : Bool) (store : List Rule) (a c : ℕ) (rule : Rule) (id : Str)
    → get_elem? store a ≡ some rule
    → holds_id id (get_elem? (set store a (record rule { enabled = b })) c)
      ≡ holds_id id (get_elem? store c)
unfolding holds_id
holds_id-set b [] a c rule id h = refl
holds_id-set b (x ∷ store) zero zero rule id h = ap (holds_id id) (sym h)
holds_id-set b (x ∷ store) zero (suc c) rule id h = refl
holds_id-set b (x ∷ store) (suc a) zero rule id h = refl
holds_id-set b (x ∷ store) (suc a) (suc c) rule id h = holds_id-set b store a c rule id h

indexed_as-set_enabled :
    (b : Bool) (store : List Rule) (a : ℕ) (r : Option Rule) (o : Option ℕ) (id : Str)
    → get_elem? store a ≡ r
    → indexed_as id (set_enabled b a store r) o ≡ indexed_as id store o
unfolding indexed_as set_enabled
indexed_as-set_enabled b store a r none id h = refl
indexed_as-set_enabled b store a none (some c) id h = refl
indexed_as-set_enabled b store a (some rule) (some c) id h = holds_id-set b store a c rule id h

switch_at-IsIndexed :
    (b : Bool) (e : Engine) (o : Option ℕ) → IsIndexed e → IsIndexed (switch_at b e o).1
unfolding switch_at
switch_at-IsIndexed b e none h id = h id
switch_at-IsIndexed b e (some a) h id =
    indexed_as-set_enabled b e.store a (get_elem? e.store a) (lookup id e.rule_index) id refl ∙ h id

removed-IsIndexed : (e : Engine) (o : Option (List ℕ)) → IsIndexed e → IsIndexed (removed e o).1
unfolding removed
removed-IsIndexed e none h id = h id
removed-IsIndexed e (some rs) h id = h id

delete-IsIndexed :
    (k : Str) (e : Engine)
    → IsIndexed e
    → IsIndexed (record e { rule_index = delete k e.rule_index })
unfolding indexed_as
delete-IsIndexed k e h id =
    subst (λ o. indexed_as id e.store o ≡ true) (sym (lookup-delete id k e.rule_index))
      (indexed_if (str_eq k id))
  where
    indexed_if :
        (b : Bool) → indexed_as id e.store (if b then none else lookup id e.rule_index) ≡ true
    indexed_if true = refl
    indexed_if false = h id

added-IsIndexed : (e : Engine) (o : Option Rule) → IsIndexed e → IsIndexed (added e o).1
unfolding added
added-IsIndexed e none h id = h id
added-IsIndexed e (some ready) h id = register-IsIndexed ready e h id

prepared-id :
    (compile : Str → Option Regexp) (rule ready : Rule)
    → prepared compile rule ≡ some ready
    → ready.id ≡ rule.id
unfolding prepared
prepared-id compile rule ready h = elim (Bool-cases (is_regexp rule)) [
  | inr b ↦ ap kept_id (sym h) ∙ rw b refl
  | inl b ↦ elim (Option-cases (compile (codes "(?i)" ++ rule.pattern))) [
    | inl e ↦ absurd (cc (rw (b, e) at h))
    | inr (rx, e) ↦ ap kept_id (sym h) ∙ rw (b, e) refl
  ]
]
  where
    kept_id : Option Rule → Str
    kept_id none = rule.id
    kept_id (some r) = r.id

added-get_rule :
    (rule : Rule) (j : Str) (e : Engine) (o : Option Rule)
    → ((ready : Rule) → o ≡ some ready → ready.id ≡ rule.id)
    → get_rule j (added e o).1
      ≡ (if (added e o).0 && str_eq rule.id j then some (length e.store) else get_rule j e)
unfolding added get_rule register
added-get_rule rule j e none same = refl
added-get_rule rule j e (some ready) same =
    lookup-insert j ready.id (length e.store) e.rule_index
    ∙ ap (λ id. if str_eq id j then some (length e.store) else lookup j e.rule_index)
        (same ready refl)

removed-rule_index : (e : Engine) (o : Option (List ℕ)) → (removed e o).1.rule_index ≡ e.rule_index
unfolding removed
removed-rule_index e none = refl
removed-rule_index e (some rs) = refl

switch_at-rule_index :
    (b : Bool) (e : Engine) (o : Option ℕ) → (switch_at b e o).1.rule_index ≡ e.rule_index
unfolding switch_at
switch_at-rule_index b e none = refl
switch_at-rule_index b e (some a) = refl

-- Adding, enabling, disabling and removing a rule each keep the index true: every id in it leads to a rule of
-- that id. A rule that is added is found under its id at the next address, and one that is refused
-- changes no lookup; after a removal nothing is found under the id; no other lookup changes.
pub operations-IsIndexed :
    (compile : Str → Option Regexp) (rule : Rule) (id j : Str) (e : Engine)
    → IsIndexed e
    → (IsIndexed (add_rule compile rule e).1
        × IsIndexed (enable_rule id e).1
        × IsIndexed (disable_rule id e).1
        × IsIndexed (remove_rule id e).1)
      × (get_rule j (add_rule compile rule e).1 ≡ (
          if (add_rule compile rule e).0 && str_eq rule.id j
          then some (length e.store)
          else get_rule j e))
      × (get_rule j (enable_rule id e).1 ≡ get_rule j e)
      × (get_rule j (disable_rule id e).1 ≡ get_rule j e)
      × (get_rule j (remove_rule id e).1 ≡ (if str_eq id j then none else get_rule j e))
unfolding enable_rule disable_rule remove_rule add_rule get_rule
operations-IsIndexed compile rule id j e h =
    let left = record e { rule_index = delete id e.rule_index } in
    let rest = remove_first id e.store e.rules in
    (
      (
        added-IsIndexed e (prepared compile rule) h,
        switch_at-IsIndexed true e (lookup id e.rule_index) h,
        switch_at-IsIndexed false e (lookup id e.rule_index) h,
        removed-IsIndexed left rest (delete-IsIndexed id e h),
      ),
      added-get_rule rule j e (prepared compile rule) (prepared-id compile rule),
      ap (lookup j) (switch_at-rule_index true e (lookup id e.rule_index)),
      ap (lookup j) (switch_at-rule_index false e (lookup id e.rule_index)),
      ap (lookup j) (removed-rule_index left rest) ∙ lookup-delete j id e.rule_index,
    )

set_enabled-none :
    (store : List Rule) (a c level : ℕ) (payload : Str) (r : Request) (o : Option Rule)
    → get_elem? store a ≡ o
    → match_stored level payload r c (get_elem? (set_enabled false a store o) a) ≡ none
unfolding set_enabled match_stored is_candidate
set_enabled-none store a c level payload r none h = rw h refl
set_enabled-none [] a c level payload r (some rule) h = cc
set_enabled-none (x ∷ store) zero c level payload r (some rule) h = refl
set_enabled-none (x ∷ store) (suc a) c level payload r (some rule) h =
    set_enabled-none store a c level payload r (some rule) h

-- A rule disabled by its id matches no request until it is enabled again.
pub disable_rule-candidate_match :
    (id : Str) (a : ℕ) (e : Engine) (level : ℕ) (payload : Str) (r : Request)
    → get_rule id e ≡ some a
    → ((disable_rule id e).0 ≡ true)
      × (candidate_match (disable_rule id e).1.store level payload r a ≡ none)
unfolding get_rule disable_rule switch_at candidate_match
disable_rule-candidate_match id a e level payload r h =
    rw h (refl, set_enabled-none e.store a a level payload r (get_elem? e.store a) refl)

length-remove_first :
    (id : Str) (store : List Rule) (rules rs : List ℕ)
    → remove_first id store rules ≡ some rs
    → length rules ≡ suc (length rs)
unfolding remove_first cons_left
length-remove_first id store [] rs h = cc
length-remove_first id store (a ∷ rest) rs h = elim (Bool-cases (has_id id store a)) [
  | inl b ↦
      let e : rest ≡ rs = cc (
        subst (λ c. (if c then some rest else cons_left a (remove_first id store rest)) ≡ some rs) b
          h) in
      ap (λ xs. suc (length xs)) e
  | inr b ↦ length-cons_left (remove_first id store rest) (length-remove_first id store rest) refl (
      subst (λ c. (if c then some rest else cons_left a (remove_first id store rest)) ≡ some rs) b
        h)
]
  where
    length-cons_left :
        (o : Option (List ℕ))
        → ((ts : List ℕ) → remove_first id store rest ≡ some ts → length rest ≡ suc (length ts))
        → remove_first id store rest ≡ o
        → cons_left a o ≡ some rs
        → suc (length rest) ≡ suc (length rs)
    length-cons_left none shorter f g = cc
    length-cons_left (some ts) shorter f g =
        let e : (a ∷ ts) ≡ rs = cc g in ap suc (shorter ts f) ∙ ap (λ xs. suc (length xs)) e

-- After a rule is removed by its id nothing is found under that id, although only one rule leaves the
-- list: another of the same id stays in force and can no longer be reached.
pub remove_rule_lem :
    (id : Str) (e : Engine) (rs : List ℕ)
    → remove_first id e.store e.rules ≡ some rs
    → ((remove_rule id e).1.rules ≡ rs)
      × (length e.rules ≡ suc (length rs))
      × (get_rule id (remove_rule id e).1 ≡ none)
      × (disable_rule id (remove_rule id e).1 ≡ (false, (remove_rule id e).1))
unfolding remove_rule removed get_rule disable_rule switch_at
remove_rule_lem id e rs h =
    let gone : lookup id (delete id e.rule_index) ≡ none =
      lookup-delete id id e.rule_index
      ∙ ap (λ b. if b then none else lookup id e.rule_index) (str_eq_refl id) in
    rw h (refl, length-remove_first id e.store e.rules rs h, gone, rw gone refl)
