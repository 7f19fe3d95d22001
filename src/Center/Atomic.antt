-- ===== src/Center/Atomic.antt =====
-- config/center.go: `SaveYAML` takes effect as a whole or not at all.
use mango_waf.Center.{Settings}
use mango_waf.Center.Load.{Libraries, validate_yaml}
use mango_waf.Center.Save.{
  record_revision, alt_paths, first_alt, save_valid, write_alt, run_hooks, save_yaml, hot_reload,
  write_current, revision_path,
}
use mango_waf.Center.Store.{ConfigCenter, Hook, SaveResult, saved}
use mango_waf.Common.Bytes.{Str}
use mango_waf.Common.{
  value_or, is_some, ℕ, true, false, none, some, [], ◌∷◌, inl, inr, refl, Bool, Option, List, ◌≡◌,
  ◌&&◌, if◌then◌else◌, Bool-cases, arith, ap, ◌∙◌,
}

abbrev pub is_saved : SaveResult → Bool
is_saved saved = true
is_saved _ = false

abbrev pub all_accept : Settings → List Hook → Bool
all_accept cfg [] = true
all_accept cfg (hook ∷ hooks) = hook.agrees cfg && all_accept cfg hooks

-- The configuration that a save is about to bring into force, if any.
abbrev pub effect : Libraries → ℕ → ConfigCenter → Option Settings → Option Settings
effect o now cc none = none
effect o now cc (some cfg) =
    if o.can_write (revision_path o cc now) && all_accept cfg cc.reload_hooks
    then some cfg
    else none

run_hooks-all_accept :
    (cfg : Settings) (hooks : List Hook) → (run_hooks cfg hooks).0 ≡ all_accept cfg hooks
unfolding run_hooks
run_hooks-all_accept cfg [] = refl
run_hooks-all_accept cfg (hook ∷ hooks) = ground (arith, run_hooks-all_accept cfg hooks)

pub write_current-reload_hooks :
    (o : Libraries) (raw : Str) (cc : ConfigCenter)
    → (write_current o raw cc).reload_hooks ≡ cc.reload_hooks
unfolding write_current
write_current-reload_hooks o raw cc = elim (Bool-cases (o.can_write cc.current_path)) [
  | inl y ↦ rw y
  | inr n ↦ rw n (alt (first_alt o cc.current_path alt_paths))
]
  where
    alt : (found : Option Str) → (write_alt raw found cc).reload_hooks ≡ cc.reload_hooks
    alt none = refl
    alt (some path) = refl

-- The three things that a reader of the center sees.
abbrev pub Shows : SaveResult × ConfigCenter → Option Settings → Str → ConfigCenter → Type 0
Shows done new raw cc =
    (is_saved done.0 ≡ is_some new)
    × (done.1.current_config ≡ value_or cc.current_config new)
    × (done.1.raw_yaml ≡ (if is_some new then raw else cc.raw_yaml))

hot_reload-Shows :
    (o : Libraries) (cfg : Settings) (raw : Str) (cc c : ConfigCenter)
    → c.reload_hooks ≡ cc.reload_hooks
    → Shows
        (hot_reload o cc.current_config cc.raw_yaml cfg raw c)
        (if all_accept cfg cc.reload_hooks then some cfg else none)
        raw
        cc
unfolding hot_reload
hot_reload-Shows o cfg raw cc c h = elim (Bool-cases (all_accept cfg cc.reload_hooks)) [
  | inl y ↦
      let ran : (run_hooks cfg c.reload_hooks).0 ≡ true =
        ap (λ hooks. (run_hooks cfg hooks).0) h ∙ (run_hooks-all_accept cfg cc.reload_hooks ∙ y) in
      rw (ran, y) (refl, refl, refl)
  | inr n ↦
      let ran : (run_hooks cfg c.reload_hooks).0 ≡ false =
        ap (λ hooks. (run_hooks cfg hooks).0) h ∙ (run_hooks-all_accept cfg cc.reload_hooks ∙ n) in
      rw (ran, n) (refl, refl, refl)
]

module _ (o : Libraries) (now : ℕ) (raw author role description : Str) (cc : ConfigCenter) where
  -- The center that the hooks are run in.
  abbrev pub before_reload : ConfigCenter
  before_reload = write_current o raw (record_revision o now raw author role description cc)

  before_reload-reload_hooks : before_reload.reload_hooks ≡ cc.reload_hooks
  unfolding record_revision
  before_reload-reload_hooks =
      write_current-reload_hooks o raw (record_revision o now raw author role description cc)

  save_valid-Shows :
      (parsed : Option Settings)
      → Shows
          (save_valid o now raw author role description cc parsed)
          (effect o now cc parsed)
          raw
          cc
  save_valid-Shows none = (refl, refl, refl)
  save_valid-Shows (some cfg) = elim (Bool-cases (o.can_write (revision_path o cc now))) [
    | inl y ↦ rw y (hot_reload-Shows o cfg raw cc before_reload before_reload-reload_hooks)
    | inr n ↦ rw n (refl, refl, refl)
  ]

  -- A text is brought into force, as the configuration that it parses to and as the raw text, exactly when
  -- it is valid, its revision can be written and every hook agrees it, and `SaveYAML` then returns no
  -- error. Otherwise it returns one, and configuration and raw text are as before.
  pub save_yaml-Shows :
      Shows
        (save_yaml o now raw author role description cc)
        (effect o now cc (validate_yaml o raw))
        raw
        cc
  unfolding save_yaml
  save_yaml-Shows = save_valid-Shows (validate_yaml o raw)
