-- ===== src/Center/InForce.antt =====
-- config/center.go: what the hooks were last called with, over any run of the center.
use mango_waf.Center.{ConfigBackup, Settings}
use mango_waf.Center.Load.{Libraries, validate_yaml}
use mango_waf.Center.Operations.{
  backup_name, find_backup, restore_from, restore_backup, restore_revision, save_maybe,
  update_center_config, create_backup,
}
use mango_waf.Center.Store.{register_reload_hook, ConfigCenter, Hook, SaveResult}
use mango_waf.Center.Save.{
  save_valid, roll_back, run_hooks, save_yaml, hot_reload, write_current, record_revision,
  revision_path, call_hook,
}
use mango_waf.Common.Bytes.{codes, Str}
use mango_waf.Common.{
  subst, map, ℕ, true, none, some, [], ◌∷◌, inl, inr, refl, Bool, Option, List, ◌≡◌, ◌++◌,
  Bool-cases, arith, ◌⊎◌,
}

-- Each hook was never called or was last called with the configuration.
abbrev pub AllSeen : Settings → List Hook → Type 0
AllSeen cfg [] = Unit
AllSeen cfg (hook ∷ hooks) = ((hook.seen ≡ none) ⊎ (hook.seen ≡ some cfg)) × AllSeen cfg hooks

call_hook-AllSeen : (cfg : Settings) (hooks : List Hook) → AllSeen cfg (map (call_hook cfg) hooks)
call_hook-AllSeen cfg [] = tt
call_hook-AllSeen cfg (hook ∷ hooks) = (inr refl, call_hook-AllSeen cfg hooks)

run_hooks-AllSeen :
    (cfg : Settings) (hooks : List Hook)
    → (run_hooks cfg hooks).0 ≡ true
    → AllSeen cfg (run_hooks cfg hooks).1
unfolding run_hooks
run_hooks-AllSeen cfg [] t = tt
run_hooks-AllSeen cfg (hook ∷ hooks) t = elim (Bool-cases (hook.agrees cfg)) [
  | inl y ↦ rw y (inr refl, run_hooks-AllSeen cfg hooks (ground (arith, y, t)))
  | inr n ↦ absurd (ground (arith, n, t))
]

append-AllSeen :
    (cfg : Settings) (hooks : List Hook) (fn : Settings → Bool)
    → AllSeen cfg hooks
    → AllSeen cfg (hooks ++ record { agrees = fn; seen = none } ∷ [])
append-AllSeen cfg [] fn a = (inl refl, tt)
append-AllSeen cfg (hook ∷ hooks) fn (h, a) = (h, append-AllSeen cfg hooks fn a)

abbrev InForce : ConfigCenter → Type 0
InForce cc = AllSeen cc.current_config cc.reload_hooks

hot_reload-InForce :
    (o : Libraries) (old_cfg cfg : Settings) (old_yaml raw : Str) (cc : ConfigCenter)
    → InForce (hot_reload o old_cfg old_yaml cfg raw cc).1
unfolding hot_reload roll_back
hot_reload-InForce o old_cfg cfg old_yaml raw cc =
    elim (Bool-cases (run_hooks cfg cc.reload_hooks).0) [
      | inl y ↦ rw y (run_hooks-AllSeen cfg cc.reload_hooks y)
      | inr n ↦ rw n (call_hook-AllSeen old_cfg (run_hooks cfg cc.reload_hooks).1)
    ]

save_yaml-InForce :
    (o : Libraries) (now : ℕ) (raw author role description : Str) (cc : ConfigCenter)
    → InForce cc
    → InForce (save_yaml o now raw author role description cc).1
unfolding save_yaml
save_yaml-InForce o now raw author role description cc a = valid (validate_yaml o raw)
  where
    valid :
        (parsed : Option Settings)
        → InForce (save_valid o now raw author role description cc parsed).1
    valid none = a
    valid (some cfg) = elim (Bool-cases (o.can_write (revision_path o cc now))) [
      | inl y ↦ rw y (
          hot_reload-InForce o cc.current_config cfg cc.raw_yaml raw
            (write_current o raw (record_revision o now raw author role description cc)))
      | inr n ↦ rw n a
    ]

save_maybe-InForce :
    (o : Libraries) (now : ℕ) (text : Option Str) (error : SaveResult)
    (author role description : Str) (cc : ConfigCenter)
    → InForce cc
    → InForce (save_maybe o now text error author role description cc).1
save_maybe-InForce o now none error author role description cc a = a
save_maybe-InForce o now (some raw) error author role description cc a =
    save_yaml-InForce o now raw author role description cc a

abbrev Made : Option (ConfigBackup × ConfigCenter) → Type 0
Made none = Unit
Made (some (b, cc)) = InForce cc

-- A step of the center: one of its operations that change it.
pub data Step (o : Libraries) : ConfigCenter → ConfigCenter → Type 0 where
  saves :
      (now : ℕ) (raw author role description : Str) {cc cc' : ConfigCenter}
      → (save_yaml o now raw author role description cc).1 ≡ cc'
      → Step o cc cc'
  updates :
      (now : ℕ) (new_cfg : Settings) (author role description : Str) {cc cc' : ConfigCenter}
      → (update_center_config o now new_cfg author role description cc).1 ≡ cc'
      → Step o cc cc'
  restores :
      (now ts : ℕ) (author role : Str) {cc cc' : ConfigCenter}
      → (restore_revision o now ts author role cc).1 ≡ cc'
      → Step o cc cc'
  restores_backup :
      (now : ℕ) (backup_id author role : Str) {cc cc' : ConfigCenter}
      → (restore_backup o now backup_id author role cc).1 ≡ cc'
      → Step o cc cc'
  backs_up :
      (now : ℕ) (name author description : Str) (b : ConfigBackup) {cc cc' : ConfigCenter}
      → create_backup o now name author description cc ≡ some (b, cc')
      → Step o cc cc'
  registers :
      (fn : Settings → Bool) {cc cc' : ConfigCenter}
      → register_reload_hook fn cc ≡ cc'
      → Step o cc cc'

pub data Run (o : Libraries) : ConfigCenter → ConfigCenter → Type 0 where
  idle : {cc : ConfigCenter} → Run o cc cc
  next : {a b c : ConfigCenter} → Step o a b → Run o b c → Run o a c

module _ (o : Libraries) where
  create_backup-InForce :
      (now : ℕ) (name author description : Str) (b : ConfigBackup) (cc cc' : ConfigCenter)
      → create_backup o now name author description cc ≡ some (b, cc')
      → InForce cc
      → InForce cc'
  unfolding create_backup
  create_backup-InForce now name author description b cc cc' e a =
      subst Made e
        (elim (Bool-cases
          (o.can_write (o.join cc.backup_dir (backup_name o now name ++ codes ".yaml")))) [
            | inl y ↦ rw y a
            | inr n ↦ rw n tt
          ])

  Step-InForce : {cc cc' : ConfigCenter} → Step o cc cc' → InForce cc → InForce cc'
  unfolding update_center_config restore_revision restore_backup register_reload_hook
  Step-InForce {cc} (saves now raw author role description e) a =
      subst InForce e (save_yaml-InForce o now raw author role description cc a)
  Step-InForce {cc} (updates now new_cfg author role description e) a =
      subst InForce e (save_maybe-InForce o now _ _ author role description cc a)
  Step-InForce {cc} (restores now ts author role e) a =
      subst InForce e (save_maybe-InForce o now _ _ author role _ cc a)
  Step-InForce {cc} (restores_backup now backup_id author role e) a =
      subst InForce e (from_backup (find_backup backup_id cc.backups))
    where
      from_backup :
          (found : Option ConfigBackup) → InForce (restore_from o now found author role cc).1
      from_backup none = a
      from_backup (some b) = save_maybe-InForce o now _ _ author role _ cc a
  Step-InForce {cc} {cc'} (backs_up now name author description b e) a =
      create_backup-InForce now name author description b cc cc' e a
  Step-InForce {cc} (registers fn e) a =
      subst InForce e (append-AllSeen cc.current_config cc.reload_hooks fn a)

  -- Whatever is saved, updated, restored, backed up and registered, also where saves fail and are rolled
  -- back, each hook was last called with the configuration in force or was never called. ReloadFromDisk, which
  -- the program calls only for a new center, is not among these operations: it calls no hooks.
  pub Run-InForce :
      {cc cc' : ConfigCenter}
      → Run o cc cc'
      → AllSeen cc.current_config cc.reload_hooks
      → AllSeen cc'.current_config cc'.reload_hooks
  Run-InForce idle a = a
  Run-InForce (next step run) a = Run-InForce run (Step-InForce step a)
