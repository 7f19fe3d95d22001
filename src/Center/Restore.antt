-- ===== src/Center/Restore.antt =====
-- config/center.go: `RestoreRevision` brings a saved text back after any later saves.
use mango_waf.Center.Load.{Libraries, validate_yaml}
use mango_waf.Center.Apart.{reaches, IsApart, Leaves, save_valid-Leaves, left_text}
use mango_waf.Center.Store.{unreadable, ConfigCenter, SaveResult}
use mango_waf.Center.Save.{save_yaml, revision_path}
use mango_waf.Center.Operations.{restore_revision, save_maybe}
use mango_waf.Common.Bytes.{Str, str_eq, str_eq_refl, codes}
use mango_waf.Common.Decimal.{print_nat}
use mango_waf.Common.Dict.{lookup}
use mango_waf.Common.{
  is_some, any, ℕ, true, false, some, [], ◌∷◌, refl, Bool, Option, List, ◌≡◌, ◌++◌, arith, ap, ◌∙◌,
}

-- A call of `SaveYAML`.
pub record Save : Type 0 where
  pub at : ℕ
  pub raw : Str
  pub author : Str
  pub role : Str
  pub description : Str

abbrev pub save_one : Libraries → Save → ConfigCenter → SaveResult × ConfigCenter
save_one o s cc = save_yaml o s.at s.raw s.author s.role s.description cc

unfoldable pub run_saves : Libraries → List Save → ConfigCenter → ConfigCenter
unfolding save_yaml
run_saves o [] cc = cc
run_saves o (s ∷ later) cc = run_saves o later (save_one o s cc).1

-- Some of the saves writes its revision to the path.
abbrev pub hits : Libraries → ConfigCenter → Str → List Save → Bool
hits o cc x later = any (λ (s : Save). str_eq (revision_path o cc s.at) x) later

module _ (o : Libraries) (x : Str) where
  save_one-Leaves :
      (s : Save) (cc : ConfigCenter)
      → IsApart o x cc
      → Leaves o x
          (left_text o x s.at s.raw cc (reaches o x s.at cc (validate_yaml o s.raw)))
          cc
          (save_one o s cc).1
  unfolding save_yaml
  save_one-Leaves s cc a =
      save_valid-Leaves o x s.at s.raw s.author s.role s.description cc (validate_yaml o s.raw) a

  Leaves-IsApart :
      {v : Option Str} {cc cc' : ConfigCenter}
      → Leaves o x v cc cc'
      → IsApart o x cc
      → IsApart o x cc'
  Leaves-IsApart l a = record {
    path = l.path;
    index = ap (λ dir. str_eq (o.join dir (codes "revisions.json")) x) l.dir ∙ a.index;
    alts = a.alts;
  }

  run_saves-lookup :
      (raw : Str) (later : List Save) (cc : ConfigCenter)
      → lookup x cc.disk ≡ some raw
      → IsApart o x cc
      → hits o cc x later ≡ false
      → (lookup x (run_saves o later cc).disk ≡ some raw)
        × ((run_saves o later cc).history_dir ≡ cc.history_dir)
  unfolding run_saves
  run_saves-lookup raw [] cc l a h = (l, refl)
  run_saves-lookup raw (s ∷ later) cc l a h =
      let one = save_one-Leaves s cc a in
      let first : str_eq (revision_path o cc s.at) x ≡ false = ground (arith, h) in
      let rest : hits o cc x later ≡ false = ground (arith, h) in
      let kept : lookup x (save_one o s cc).1.disk ≡ some raw =
        one.same ∙ (ground (arith, first, l)) in
      let end = run_saves-lookup raw later (save_one o s cc).1 kept (Leaves-IsApart one a) (
        ap
          (λ dir.
            any
              (λ (s : Save).
                str_eq (o.join dir (codes "v_" ++ (print_nat s.at ++ codes ".yaml"))) x)
              later)
          one.dir
        ∙ rest) in
      (end.0, end.1 ∙ one.dir)

-- A valid text that was saved at one instant comes back by its version: after any later saves, accepted,
-- refused or rolled back, `RestoreRevision` is the save of that very text. The path of its revision is
-- another than those of the configuration, of the index and of the later revisions.
pub restore_revision-run_saves :
    (o : Libraries) (s : Save) (cc : ConfigCenter) (later : List Save) (now : ℕ) (author role : Str)
    → is_some (validate_yaml o s.raw) ≡ true
    → o.can_write (revision_path o cc s.at) ≡ true
    → IsApart o (revision_path o cc s.at) cc
    → hits o cc (revision_path o cc s.at) later ≡ false
    → restore_revision o now s.at author role (run_saves o later (save_one o s cc).1)
      ≡ save_yaml o now s.raw author role
          (codes "Restored from version " ++ print_nat s.at)
          (run_saves o later (save_one o s cc).1)
unfolding restore_revision
restore_revision-run_saves o s cc later now author role v w a h =
    let x = revision_path o cc s.at in
    let one = save_one-Leaves o x s cc a in
    let stored : lookup x (save_one o s cc).1.disk ≡ some s.raw =
      one.same ∙ rw (v, w, str_eq_refl x) in
    let end =
      run_saves-lookup o x s.raw later (save_one o s cc).1 stored (Leaves-IsApart o x one a) (
        ap
          (λ dir.
            any
              (λ (s : Save).
                str_eq (o.join dir (codes "v_" ++ (print_nat s.at ++ codes ".yaml"))) x)
              later)
          one.dir
        ∙ h) in
    let found : lookup (revision_path o (run_saves o later (save_one o s cc).1) s.at)
          (run_saves o later (save_one o s cc).1).disk
        ≡ some s.raw =
      ap
        (λ dir.
          lookup (o.join dir (codes "v_" ++ (print_nat s.at ++ codes ".yaml")))
            (run_saves o later (save_one o s cc).1).disk)
        (end.1 ∙ one.dir)
      ∙ end.0 in
    ap
      (λ text.
        save_maybe o now text unreadable author role
          (codes "Restored from version " ++ print_nat s.at)
          (run_saves o later (save_one o s cc).1))
      found
