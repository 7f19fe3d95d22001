-- ===== src/Center/Apart.antt =====
-- config/center.go: what a save leaves under a path of its own.
use mango_waf.Center.{Settings}
use mango_waf.Center.Load.{Libraries}
use mango_waf.Center.Atomic.{before_reload}
use mango_waf.Center.Store.{ConfigCenter, index_path}
use mango_waf.Center.Save.{
  save_valid, hot_reload, roll_back, write_current, write_alt, first_alt, alt_paths,
  record_revision, revision_path, run_hooks,
}
use mango_waf.Common.Bytes.{Str, str_eq}
use mango_waf.Common.Dict.{lookup, lookup-insert}
use mango_waf.Common.{
  is_some, any, ℕ, false, none, some, [], ◌∷◌, inl, inr, refl, Bool, Option, List, ◌≡◌, ◌&&◌, not,
  if◌then◌else◌, Bool-cases, arith, ◌∙◌,
}
use mango_waf.Center.History.{lookup-other, lookup-write_file}

-- A path that is neither the file of the configuration, nor another place for it, nor the index.
pub record IsApart (o : Libraries) (x : Str) (cc : ConfigCenter) : Type 0 where
  pub path : str_eq cc.current_path x ≡ false
  pub index : str_eq (index_path o cc) x ≡ false
  pub alts : any (λ (alt : Str). str_eq alt x) alt_paths ≡ false

module _ (o : Libraries) (x : Str) where
  abbrev IsOther : Option Str → Type 0
  IsOther none = Unit
  IsOther (some alt) = str_eq alt x ≡ false

  first_alt-IsOther :
      (path : Str) (alts : List Str)
      → any (λ (alt : Str). str_eq alt x) alts ≡ false
      → IsOther (first_alt o path alts)
  unfolding first_alt
  first_alt-IsOther path [] h = tt
  first_alt-IsOther path (alt ∷ alts) h =
      elim (Bool-cases (not (str_eq alt path) && o.can_write alt)) [
        | inl y ↦ rw y (ground (arith, h))
        | inr n ↦ rw n (first_alt-IsOther path alts (ground (arith, h)))
      ]

  -- An operation that leaves the path and what stands under it alone.
  pub record Leaves (v : Option Str) (cc cc' : ConfigCenter) : Type 0 where
    pub same : lookup x cc'.disk ≡ v
    pub path : str_eq cc'.current_path x ≡ false
    pub dir : cc'.history_dir ≡ cc.history_dir

  write_current-Leaves :
      (raw : Str) (cc : ConfigCenter)
      → IsApart o x cc
      → Leaves (lookup x cc.disk) cc (write_current o raw cc)
  unfolding write_current
  write_current-Leaves raw cc a = elim (Bool-cases (o.can_write cc.current_path)) [
    | inl y ↦ rw y (record {
      same = lookup-other x cc.current_path raw cc.disk a.path;
      path = a.path;
      dir = refl;
    })
    | inr n ↦ rw n (
        moved (first_alt o cc.current_path alt_paths)
          (first_alt-IsOther cc.current_path alt_paths a.alts))
  ]
    where
      moved :
          (found : Option Str)
          → IsOther found
          → Leaves (lookup x cc.disk) cc (write_alt raw found cc)
      moved none h = record { same = refl; path = a.path; dir = refl }
      moved (some alt) h = record { same = lookup-other x alt raw cc.disk h; path = h; dir = refl }

  hot_reload-Leaves :
      (old_cfg cfg : Settings) (old_yaml raw : Str) (cc : ConfigCenter)
      → str_eq cc.current_path x ≡ false
      → Leaves (lookup x cc.disk) cc (hot_reload o old_cfg old_yaml cfg raw cc).1
  unfolding hot_reload roll_back
  hot_reload-Leaves old_cfg cfg old_yaml raw cc p =
      elim (Bool-cases (run_hooks cfg cc.reload_hooks).0) [
        | inl y ↦ rw y (record { same = refl; path = p; dir = refl })
        | inr n ↦ rw n (record {
          same = lookup-write_file o x cc.current_path old_yaml cc.disk p;
          path = p;
          dir = refl;
        })
      ]

  record_revision-lookup :
      (now : ℕ) (raw author role description : Str) (cc : ConfigCenter)
      → str_eq (index_path o cc) x ≡ false
      → lookup x (record_revision o now raw author role description cc).disk
        ≡ (if str_eq (revision_path o cc now) x then some raw else lookup x cc.disk)
  unfolding record_revision
  record_revision-lookup now raw author role description cc h =
      lookup-write_file o x (index_path o cc) _ _ h
      ∙ lookup-insert x (revision_path o cc now) raw cc.disk

  -- Under the path stands what stood there, or the new text where it is the path of the new revision.
  abbrev pub left_text : ℕ → Str → ConfigCenter → Bool → Option Str
  left_text now raw cc reached =
      if reached && str_eq (revision_path o cc now) x then some raw else lookup x cc.disk

  abbrev pub reaches : ℕ → ConfigCenter → Option Settings → Bool
  reaches now cc parsed = is_some parsed && o.can_write (revision_path o cc now)

  pub save_valid-Leaves :
      (now : ℕ) (raw author role description : Str) (cc : ConfigCenter) (parsed : Option Settings)
      → IsApart o x cc
      → Leaves
          (left_text now raw cc (reaches now cc parsed))
          cc
          (save_valid o now raw author role description cc parsed).1
  unfolding record_revision
  save_valid-Leaves now raw author role description cc none a = record {
    same = refl;
    path = a.path;
    dir = refl;
  }
  save_valid-Leaves now raw author role description cc (some cfg) a =
      elim (Bool-cases (o.can_write (revision_path o cc now))) [
        | inr n ↦ rw n (record { same = refl; path = a.path; dir = refl })
        | inl y ↦
            let listed = record_revision o now raw author role description cc in
            let p = before_reload o now raw author role description cc in
            let one =
              write_current-Leaves raw listed
                (record { path = a.path; index = a.index; alts = a.alts }) in
            let two = hot_reload-Leaves cc.current_config cfg cc.raw_yaml raw p one.path in
            rw y (record {
              same =
                  two.same
                  ∙ (one.same ∙ record_revision-lookup now raw author role description cc a.index);
              path = two.path;
              dir = two.dir ∙ one.dir;
            })
      ]
