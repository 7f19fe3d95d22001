-- ===== src/Center/Tests.antt =====
-- config/center.go: a center over a disk that can be written, with one hook that refuses a site without upstreams.
use mango_waf.Center.{Settings, default_config}
use mango_waf.Center.Load.{Libraries, validate_yaml}
use mango_waf.Center.Store.{ConfigCenter, blank_center}
use mango_waf.Center.Save.{save_yaml}
use mango_waf.Center.Operations.{restore_revision}
use mango_waf.Center.Atomic.{Shows, effect, save_yaml-Shows}
use mango_waf.Center.InForce.{AllSeen, next, idle, saves, Run-InForce}
use mango_waf.Center.History.{IsPersisted, save_yaml-IsPersisted}
use mango_waf.Center.Restore.{Save, save_one, run_saves, restore_revision-run_saves}
use mango_waf.Center.Diff.{diff_lines}
use mango_waf.Center.Sides.{old_side, new_side, diff_lines-sides}
use mango_waf.Common.Bytes.{Str, codes, str_eq, join}
use mango_waf.Common.Dict.{lookup}
use mango_waf.Common.Decimal.{print_nat}
use mango_waf.Common.{
  true, false, none, some, [], ◌∷◌, inl, refl, Bool, Option, List, ◌≡◌, ◌++◌, if◌then◌else◌,
}

abbrev no_domains : Settings
no_domains = record default_config { domains = [] }

abbrev parse_text : Str → Option Settings
parse_text text =
    if str_eq text (codes "domains: []")
    then some no_domains
    else if str_eq text (codes "default")
    then some default_config
    else none

abbrev lib : Libraries
lib = record {
  unmarshal = parse_text;
  marshal = λ cfg. some (codes "default");
  read_config = parse_text;
  parses_cidr = λ s. true;
  join = λ dir file. dir ++ b'/' ∷ file;
  format_time = λ t. [];
  revisions_json = λ revisions. [];
  backups_json = λ backups. [];
  read_revisions = λ text. [];
  read_backups = λ text. [];
  cookie_secret = codes "c0";
  jwt_secret = codes "70";
  can_write = λ path. true;
}

abbrev path : Str
path = codes "/waf/config/production.yaml"

abbrev center : ConfigCenter
center =
    record (blank_center path (codes "/waf/data/config_history") (codes "/waf/data/backups")
      ((path, codes "default") ∷ [])) { raw_yaml = codes "default" }

abbrev no_text : Str
no_text = codes "domains: []"

abbrev admin : Str
admin = codes "admin"

-- A hook that wants a domain.
abbrev wants_domain : Settings → Bool
wants_domain cfg = elim cfg.domains [ [] ↦ false | d ∷ ds ↦ true ]

abbrev hooked : ConfigCenter
hooked = record center { reload_hooks = record { agrees = wants_domain; seen = none } ∷ [] }

save_yaml-Shows_example :
    Shows
      (save_yaml lib 7 no_text admin admin [] hooked)
      (effect lib 7 hooked (validate_yaml lib no_text))
      no_text
      hooked
save_yaml-Shows_example = save_yaml-Shows lib 7 no_text admin admin [] hooked

Run-InForce_example :
    AllSeen
      (save_yaml lib 7 no_text admin admin [] hooked).1.current_config
      (save_yaml lib 7 no_text admin admin [] hooked).1.reload_hooks
Run-InForce_example =
    Run-InForce lib {cc = hooked} (next (saves 7 no_text admin admin [] refl) idle) (inl refl, tt)

save_yaml-IsPersisted_example : IsPersisted (save_yaml lib 7 no_text admin admin [] hooked).1
unfolding lookup str_eq
save_yaml-IsPersisted_example = save_yaml-IsPersisted lib 7 no_text admin admin [] hooked refl refl

abbrev first_save : Save
first_save = record { at = 3; raw = no_text; author = admin; role = admin; description = [] }

abbrev later_saves : List Save
later_saves = record first_save { at = 4; raw = codes "default" } ∷ []

restore_revision-run_saves_example :
    restore_revision lib 5 3 admin admin
      (run_saves lib later_saves (save_one lib first_save center).1)
    ≡ save_yaml lib 5 no_text admin admin
        (codes "Restored from version " ++ print_nat 3)
        (run_saves lib later_saves (save_one lib first_save center).1)
unfolding validate_yaml str_eq print_nat
restore_revision-run_saves_example =
    restore_revision-run_saves lib first_save center later_saves 5 admin admin refl refl
      (record { path = refl; index = refl; alts = refl }) refl

diff_lines-sides_example :
    (join (b'\n' ∷ []) (old_side (diff_lines (codes "a\nb") (codes "b\nc"))) ≡ codes "a\nb")
    × (join (b'\n' ∷ []) (new_side (diff_lines (codes "a\nb") (codes "b\nc"))) ≡ codes "b\nc")
diff_lines-sides_example = diff_lines-sides (codes "a\nb") (codes "b\nc")
