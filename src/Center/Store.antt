-- ===== src/Center/Store.antt =====
-- config/center.go: `ConfigCenter`. The disk is a map from paths to contents, of which some paths cannot be
-- written; a hook remembers the configuration that it was last called with.
use mango_waf.Center.{Settings, ConfigRevision, ConfigBackup, default_config}
use mango_waf.Center.Load.{Libraries, load_config}
use mango_waf.Common.Bytes.{Str, codes, is_empty}
use mango_waf.Common.Dict.{Dict, lookup, insert}
use mango_waf.Common.{value_or, none, some, [], ◌∷◌, Bool, Option, List, ◌++◌, not, if◌then◌else◌}

pub record Hook : Type 0 where
  pub agrees : Settings → Bool
  pub seen : Option Settings

pub record ConfigCenter : Type 0 where
  pub current_path : Str
  pub current_config : Settings
  pub raw_yaml : Str
  pub revisions : List ConfigRevision
  pub backups : List ConfigBackup
  pub reload_hooks : List Hook
  pub history_dir : Str
  pub backup_dir : Str
  pub disk : Dict Str

-- `nil`, and the errors.
pub data SaveResult : Type 0 where
  saved invalid revision_unwritten rolled_back unreadable unmarshalable : SaveResult

abbrev pub write_file : Libraries → Str → Str → Dict Str → Dict Str
write_file o path text disk = if o.can_write path then insert path text disk else disk

unfoldable pub get_raw_yaml : Libraries → ConfigCenter → Str
get_raw_yaml o cc =
    if not (is_empty cc.raw_yaml) then cc.raw_yaml else value_or [] (o.marshal cc.current_config)

unfoldable pub register_reload_hook : (Settings → Bool) → ConfigCenter → ConfigCenter
register_reload_hook fn cc = record cc {
  reload_hooks = cc.reload_hooks ++ record { agrees = fn; seen = none } ∷ [];
}

abbrev pub loaded_from : Str → Option Settings → ConfigCenter → Option ConfigCenter
loaded_from text none cc = none
loaded_from text (some cfg) cc = some (record cc { current_config = cfg; raw_yaml = text })

abbrev pub reload_text : Libraries → Option Str → ConfigCenter → Option ConfigCenter
reload_text o none cc = none
reload_text o (some text) cc = loaded_from text (load_config o text) cc

-- `ReloadFromDisk`, none on an error.
unfoldable pub reload_from_disk : Libraries → ConfigCenter → Option ConfigCenter
unfolding lookup load_config
reload_from_disk o cc = reload_text o (lookup cc.current_path cc.disk) cc

abbrev pub index_path : Libraries → ConfigCenter → Str
index_path o cc = o.join cc.history_dir (codes "revisions.json")

abbrev pub backups_path : Libraries → ConfigCenter → Str
backups_path o cc = o.join cc.backup_dir (codes "backups.json")

abbrev pub save_text : Libraries → Option Str → ConfigCenter → ConfigCenter
save_text o none cc = cc
save_text o (some text) cc = record cc {
  disk = write_file o cc.current_path text cc.disk;
  raw_yaml = text;
}

abbrev pub use_default : Libraries → ConfigCenter → ConfigCenter
use_default o cc =
    save_text o (o.marshal default_config) (record cc { current_config = default_config })

abbrev pub read_lists : Libraries → ConfigCenter → ConfigCenter
read_lists o cc = record cc {
  revisions = elim (lookup (index_path o cc) cc.disk) [
    | none ↦ cc.revisions
    | some t ↦ o.read_revisions t
  ];
  backups = elim (lookup (backups_path o cc) cc.disk) [
    | none ↦ cc.backups
    | some t ↦ o.read_backups t
  ];
}

-- The center of an absolute path and its two directories, before anything is read. Its configuration, nil in
-- the source, is always replaced.
abbrev pub blank_center : Str → Str → Str → Dict Str → ConfigCenter
blank_center path history_dir backup_dir disk = record {
  current_path = path;
  current_config = default_config;
  raw_yaml = [];
  revisions = [];
  backups = [];
  reload_hooks = [];
  history_dir = history_dir;
  backup_dir = backup_dir;
  disk = disk;
}

-- `NewCenter`
unfoldable pub new_center : Libraries → Str → Str → Str → Dict Str → ConfigCenter
unfolding reload_from_disk lookup
new_center o path history_dir backup_dir disk =
    let cc = blank_center path history_dir backup_dir disk in
    read_lists o (value_or (use_default o cc) (reload_from_disk o cc))
