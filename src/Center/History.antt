-- ===== src/Center/History.antt =====
-- config/center.go: the files that `SaveYAML` leaves on the disk, the configuration and the revisions.
use mango_waf.Center.{Settings}
use mango_waf.Center.Load.{Libraries, validate_yaml}
use mango_waf.Center.Atomic.{is_saved, before_reload}
use mango_waf.Center.Store.{ConfigCenter, write_file}
use mango_waf.Center.Save.{
  save_yaml, save_valid, hot_reload, roll_back, write_current, record_revision, revision_path,
  run_hooks,
}
use mango_waf.Common.Bytes.{Str, str_eq, str_eq_refl}
use mango_waf.Common.Dict.{Dict, lookup, lookup-insert, insert}
use mango_waf.Common.{
  subst, ℕ, true, false, none, some, inl, inr, refl, Option, ◌≡◌, Bool-cases, arith, ◌∙◌, sym, ◌⊎◌,
}

pub lookup-other :
    (x y : Str) (v : Str) (m : Dict Str) → str_eq y x ≡ false → lookup x (insert y v m) ≡ lookup x m
lookup-other x y v m h = lookup-insert x y v m ∙ rw h

pub lookup-same : (x : Str) (v : Str) (m : Dict Str) → lookup x (insert x v m) ≡ some v
lookup-same x v m = lookup-insert x x v m ∙ rw (str_eq_refl x)

pub lookup-write_file :
    (o : Libraries) (x y text : Str) (m : Dict Str)
    → str_eq y x ≡ false
    → lookup x (write_file o y text m) ≡ lookup x m
lookup-write_file o x y text m h = elim (Bool-cases (o.can_write y)) [
  | inl w ↦ rw w (lookup-other x y text m h)
  | inr n ↦ rw n
]

-- The file of the configuration holds the raw text in force.
abbrev pub IsPersisted : ConfigCenter → Type 0
IsPersisted cc = lookup cc.current_path cc.disk ≡ some cc.raw_yaml

module _ (o : Libraries) where
  hot_reload-IsPersisted :
      (old_cfg cfg : Settings) (old_yaml raw : Str) (cc : ConfigCenter)
      → o.can_write cc.current_path ≡ true
      → lookup cc.current_path cc.disk ≡ some raw
      → IsPersisted (hot_reload o old_cfg old_yaml cfg raw cc).1
  unfolding hot_reload roll_back
  hot_reload-IsPersisted old_cfg cfg old_yaml raw cc w h =
      elim (Bool-cases (run_hooks cfg cc.reload_hooks).0) [
        | inl y ↦ rw y h
        | inr n ↦ rw (n, w) (lookup-same cc.current_path old_yaml cc.disk)
      ]

  write_current-lookup :
      (raw : Str) (cc : ConfigCenter)
      → o.can_write cc.current_path ≡ true
      → (o.can_write (write_current o raw cc).current_path ≡ true)
        × (lookup (write_current o raw cc).current_path (write_current o raw cc).disk ≡ some raw)
  unfolding write_current
  write_current-lookup raw cc w = rw w (w, lookup-same cc.current_path raw cc.disk)

  -- A save that does not write the file changes nothing and returns an error.
  save_yaml-settled :
      (now : ℕ) (raw author role description : Str) (cc : ConfigCenter)
      → o.can_write cc.current_path ≡ true
      → IsPersisted (save_yaml o now raw author role description cc).1
        ⊎ (((save_yaml o now raw author role description cc).1 ≡ cc)
            × (is_saved (save_yaml o now raw author role description cc).0 ≡ false))
  unfolding save_yaml record_revision
  save_yaml-settled now raw author role description cc w = settled (validate_yaml o raw)
    where
      settled :
          (parsed : Option Settings)
          → IsPersisted (save_valid o now raw author role description cc parsed).1
            ⊎ (((save_valid o now raw author role description cc parsed).1 ≡ cc)
                × (is_saved (save_valid o now raw author role description cc parsed).0 ≡ false))
      settled none = inr (refl, refl)
      settled (some cfg) = elim (Bool-cases (o.can_write (revision_path o cc now))) [
        | inr n ↦ rw n (inr (refl, refl))
        | inl y ↦
            let written =
              write_current-lookup raw (record_revision o now raw author role description cc) w in
            rw y (
              inl (
                hot_reload-IsPersisted cc.current_config cfg cc.raw_yaml raw
                  (before_reload o now raw author role description cc) written.0 written.1))
      ]

  -- While its file can be written, `SaveYAML` keeps the file equal to the raw text in force, also where it
  -- refuses a text and where it rolls back.
  pub save_yaml-IsPersisted :
      (now : ℕ) (raw author role description : Str) (cc : ConfigCenter)
      → o.can_write cc.current_path ≡ true
      → IsPersisted cc
      → IsPersisted (save_yaml o now raw author role description cc).1
  save_yaml-IsPersisted now raw author role description cc w h =
      elim (save_yaml-settled now raw author role description cc w) [
        | inl p ↦ p
        | inr same ↦ subst IsPersisted (sym same.0) h
      ]

  pub save_yaml-written :
      (now : ℕ) (raw author role description : Str) (cc : ConfigCenter)
      → o.can_write cc.current_path ≡ true
      → is_saved (save_yaml o now raw author role description cc).0 ≡ true
      → IsPersisted (save_yaml o now raw author role description cc).1
  save_yaml-written now raw author role description cc w s =
      elim (save_yaml-settled now raw author role description cc w) [
        | inl p ↦ p
        | inr same ↦ absurd (ground (arith, s, same.1))
      ]

module _ (o : Libraries) where
  before_reload-current_path :
      (now : ℕ) (raw author role description : Str) (cc : ConfigCenter)
      → o.can_write cc.current_path ≡ true
      → (before_reload o now raw author role description cc).current_path ≡ cc.current_path
  unfolding write_current record_revision
  before_reload-current_path now raw author role description cc w = rw w

  hot_reload-current_path :
      (old_cfg cfg : Settings) (old_yaml raw : Str) (cc : ConfigCenter)
      → (hot_reload o old_cfg old_yaml cfg raw cc).1.current_path ≡ cc.current_path
  unfolding hot_reload roll_back
  hot_reload-current_path old_cfg cfg old_yaml raw cc = ground arith

  pub save_yaml-current_path :
      (now : ℕ) (raw author role description : Str) (cc : ConfigCenter)
      → o.can_write cc.current_path ≡ true
      → (save_yaml o now raw author role description cc).1.current_path ≡ cc.current_path
  unfolding save_yaml
  save_yaml-current_path now raw author role description cc w = valid (validate_yaml o raw)
    where
      valid :
          (parsed : Option Settings)
          → (save_valid o now raw author role description cc parsed).1.current_path
            ≡ cc.current_path
      valid none = refl
      valid (some cfg) = elim (Bool-cases (o.can_write (revision_path o cc now))) [
        | inr n ↦ rw n
        | inl y ↦ rw y (
            hot_reload-current_path cc.current_config cfg cc.raw_yaml raw
              (before_reload o now raw author role description cc)
            ∙ before_reload-current_path now raw author role description cc w)
      ]
