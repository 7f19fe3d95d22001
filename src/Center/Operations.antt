-- ===== src/Center/Operations.antt =====
-- config/center.go: `UpdateConfig`, `RestoreRevision`, `CreateBackup` and `RestoreBackup`, which end in a save.
use mango_waf.Center.{Settings, ClusterConfig, ConfigBackup}
use mango_waf.Center.Load.{or_int, Libraries}
use mango_waf.Common.Bytes.{Str, codes, is_empty, str_eq}
use mango_waf.Common.Decimal.{print_nat}
use mango_waf.Common.Dict.{lookup, insert}
use mango_waf.Common.{ℕ, none, some, [], ◌∷◌, Option, List, ◌++◌, ◌||◌, if◌then◌else◌}
use mango_waf.Center.Store.{
  ConfigCenter, SaveResult, unreadable, unmarshalable, write_file, backups_path,
}
use mango_waf.Center.Save.{revision_path, save_yaml}

abbrev pub keep_str : Str → Str → Str
keep_str new [] = new
keep_str new (c ∷ old) = if is_empty new then c ∷ old else new

abbrev pub keep_list : List Str → List Str → List Str
keep_list [] existing = existing
keep_list (peer ∷ peers) existing = peer ∷ peers

-- The first half of `UpdateConfig`: a setting of the cluster that is empty stays as it was.
unfoldable pub keep_cluster : ClusterConfig → ClusterConfig → ClusterConfig
keep_cluster existing new = record {
  enabled = new.enabled || existing.enabled;
  node_name = keep_str new.node_name existing.node_name;
  bind_port = or_int new.bind_port existing.bind_port;
  advertise_ip = keep_str new.advertise_ip existing.advertise_ip;
  cname_target = keep_str new.cname_target existing.cname_target;
  join_peers = keep_list new.join_peers existing.join_peers;
  secret_key = keep_str new.secret_key existing.secret_key;
}

abbrev pub merged : Settings → ConfigCenter → Settings
merged new_cfg cc = record new_cfg {
  cluster = keep_cluster cc.current_config.cluster new_cfg.cluster;
}

abbrev pub save_maybe :
    Libraries
    → ℕ
    → Option Str
    → SaveResult
    → Str
    → Str
    → Str
    → ConfigCenter
    → SaveResult × ConfigCenter
save_maybe o now none error author role description cc = (error, cc)
save_maybe o now (some raw) error author role description cc =
    save_yaml o now raw author role description cc

unfoldable pub update_center_config :
    Libraries → ℕ → Settings → Str → Str → Str → ConfigCenter → SaveResult × ConfigCenter
unfolding keep_cluster save_yaml
update_center_config o now new_cfg author role description cc =
    save_maybe o now (o.marshal (merged new_cfg cc)) unmarshalable author role description cc

unfoldable pub restore_revision :
    Libraries → ℕ → ℕ → Str → Str → ConfigCenter → SaveResult × ConfigCenter
unfolding save_yaml lookup print_nat
restore_revision o now ts author role cc =
    save_maybe o now (lookup (revision_path o cc ts) cc.disk) unreadable author role
      (codes "Restored from version " ++ print_nat ts) cc

abbrev pub backup_name : Libraries → ℕ → Str → Str
backup_name o now [] = codes "backup_" ++ o.format_time now
backup_name o now (c ∷ name) = c ∷ name

-- `CreateBackup`, none on an error.
unfoldable pub create_backup :
    Libraries → ℕ → Str → Str → Str → ConfigCenter → Option (ConfigBackup × ConfigCenter)
unfolding insert print_nat
create_backup o now name author description cc =
    let path = o.join cc.backup_dir (backup_name o now name ++ codes ".yaml") in
    let b : ConfigBackup = record {
      id = codes "b_" ++ print_nat now;
      name = backup_name o now name;
      timestamp = now;
      author = author;
      description = description;
      file_path = path;
    } in
    if o.can_write path
    then some (
      b,
      record cc {
        backups = b ∷ cc.backups;
        disk =
            write_file o (backups_path o cc) (o.backups_json (b ∷ cc.backups))
              (insert path cc.raw_yaml cc.disk);
      },
    )
    else none

unfoldable pub find_backup : Str → List ConfigBackup → Option ConfigBackup
unfolding str_eq
find_backup backup_id [] = none
find_backup backup_id (b ∷ backups) =
    let rest = find_backup backup_id backups in
    if str_eq b.id backup_id || str_eq b.name backup_id then some b else rest

abbrev pub restore_from :
    Libraries → ℕ → Option ConfigBackup → Str → Str → ConfigCenter → SaveResult × ConfigCenter
restore_from o now none author role cc = (unreadable, cc)
restore_from o now (some b) author role cc =
    save_maybe o now (lookup b.file_path cc.disk) unreadable author role
      (codes "Restored backup: " ++ b.name) cc

unfoldable pub restore_backup :
    Libraries → ℕ → Str → Str → Str → ConfigCenter → SaveResult × ConfigCenter
unfolding save_yaml find_backup lookup
restore_backup o now backup_id author role cc =
    restore_from o now (find_backup backup_id cc.backups) author role cc
