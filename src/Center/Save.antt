-- ===== src/Center/Save.antt =====
-- config/center.go: `SaveYAML`, step by step.
use mango_waf.Center.{Settings}
use mango_waf.Center.Load.{Libraries, validate_yaml}
use mango_waf.Common.Bytes.{Str, codes, str_eq}
use mango_waf.Common.Decimal.{print_nat}
use mango_waf.Common.Dict.{insert}
use mango_waf.Common.{
  map, ℕ, true, false, none, some, [], ◌∷◌, Bool, Option, List, ◌++◌, ◌&&◌, not, if◌then◌else◌,
}
use mango_waf.Center.Store.{
  ConfigCenter, Hook, SaveResult, saved, invalid, revision_unwritten, rolled_back, write_file,
  index_path,
}

abbrev pub revision_path : Libraries → ConfigCenter → ℕ → Str
revision_path o cc ts = o.join cc.history_dir (codes "v_" ++ (print_nat ts ++ codes ".yaml"))

-- Step 3 of `SaveYAML`, where the file of the revision can be written.
unfoldable pub record_revision : Libraries → ℕ → Str → Str → Str → Str → ConfigCenter → ConfigCenter
unfolding insert print_nat
record_revision o now raw author role description cc =
    let revisions =
      record {
        version = now;
        timestamp = now;
        author = author;
        role = role;
        description = description;
        file_path = revision_path o cc now;
      }
      ∷ cc.revisions in
    record cc {
      revisions = revisions;
      disk =
          write_file o (index_path o cc) (o.revisions_json revisions)
            (insert (revision_path o cc now) raw cc.disk);
    }

abbrev pub alt_paths : List Str
alt_paths = codes "config/production.yaml" ∷ codes "/root/mango-waf/config/production.yaml" ∷ []

-- The first other path that can be written.
unfoldable pub first_alt : Libraries → Str → List Str → Option Str
unfolding str_eq
first_alt o path [] = none
first_alt o path (alt ∷ alts) =
    let rest = first_alt o path alts in
    if not (str_eq alt path) && o.can_write alt then some alt else rest

abbrev pub write_alt : Str → Option Str → ConfigCenter → ConfigCenter
write_alt raw none cc = cc
write_alt raw (some alt) cc = record cc { current_path = alt; disk = insert alt raw cc.disk }

-- Step 4 of `SaveYAML`.
unfoldable pub write_current : Libraries → Str → ConfigCenter → ConfigCenter
unfolding first_alt insert
write_current o raw cc =
    if o.can_write cc.current_path
    then record cc { disk = insert cc.current_path raw cc.disk }
    else write_alt raw (first_alt o cc.current_path alt_paths) cc

abbrev pub call_hook : Settings → Hook → Hook
call_hook cfg hook = record hook { seen = some cfg }

-- The hooks in their order, up to the first error.
unfoldable pub run_hooks : Settings → List Hook → Bool × List Hook
run_hooks cfg [] = (true, [])
run_hooks cfg (hook ∷ hooks) =
    let rest = run_hooks cfg hooks in
    if hook.agrees cfg
    then (rest.0, call_hook cfg hook ∷ rest.1)
    else (false, call_hook cfg hook ∷ hooks)

unfoldable pub roll_back : Libraries → Settings → Str → ConfigCenter → ConfigCenter
unfolding insert
roll_back o old_cfg old_yaml cc = record cc {
  disk = write_file o cc.current_path old_yaml cc.disk;
  current_config = old_cfg;
  raw_yaml = old_yaml;
  reload_hooks = map (call_hook old_cfg) cc.reload_hooks;
}

-- Step 5 of `SaveYAML`, with the old configuration for a rollback.
unfoldable pub hot_reload :
    Libraries → Settings → Str → Settings → Str → ConfigCenter → SaveResult × ConfigCenter
unfolding run_hooks roll_back
hot_reload o old_cfg old_yaml cfg raw cc =
    let ran = run_hooks cfg cc.reload_hooks in
    let called = record cc { current_config = cfg; raw_yaml = raw; reload_hooks = ran.1 } in
    if ran.0 then (saved, called) else (rolled_back, roll_back o old_cfg old_yaml called)

abbrev pub save_valid :
    Libraries
    → ℕ
    → Str
    → Str
    → Str
    → Str
    → ConfigCenter
    → Option Settings
    → SaveResult × ConfigCenter
save_valid o now raw author role description cc none = (invalid, cc)
save_valid o now raw author role description cc (some cfg) =
    if not (o.can_write (revision_path o cc now))
    then (revision_unwritten, cc)
    else hot_reload o cc.current_config cc.raw_yaml cfg raw
        (write_current o raw (record_revision o now raw author role description cc))

unfoldable pub save_yaml :
    Libraries → ℕ → Str → Str → Str → Str → ConfigCenter → SaveResult × ConfigCenter
unfolding validate_yaml hot_reload write_current record_revision print_nat
save_yaml o now raw author role description cc =
    save_valid o now raw author role description cc (validate_yaml o raw)
