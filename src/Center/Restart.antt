-- ===== src/Center/Restart.antt =====
-- config/center.go and config/config.go: what `Load` accepts of a saved text, and what an update keeps.
use mango_waf.Center.Atomic.{save_yaml-Shows, all_accept, effect}
use mango_waf.Center.Store.{unmarshalable, ConfigCenter}
use mango_waf.Center.Save.{revision_path}
use mango_waf.Center.Operations.{save_maybe, merged, keep_cluster, update_center_config}
use mango_waf.Center.{Settings}
use mango_waf.Center.Load.{validate_config, validate_yaml, Libraries}
use mango_waf.Common.Bytes.{Str}
use mango_waf.Common.{
  value_or, ℕ, true, ◌≡◌, arith, none, some, inl, inr, Option, ◌&&◌, Bool-cases, ap, ◌∙◌, ◌⊎◌,
}

module _ (o : Libraries) where
  enabled-effect :
      (now : ℕ) (cc : ConfigCenter) (m : Settings) (parsed : Option Settings)
      → (parsed ≡ none) ⊎ (parsed ≡ some m)
      → cc.current_config.cluster.enabled ≡ true
      → m.cluster.enabled ≡ true
      → (value_or cc.current_config (effect o now cc parsed)).cluster.enabled ≡ true
  enabled-effect now cc m parsed (inl p) e f = rw p e
  enabled-effect now cc m parsed (inr p) e f =
      elim (Bool-cases (o.can_write (revision_path o cc now) && all_accept m cc.reload_hooks)) [
        | inl y ↦ rw (p, y) f
        | inr n ↦ rw (p, n) e
      ]

  validate_yaml-cases :
      (text : Str) (m : Settings)
      → o.unmarshal text ≡ some m
      → (validate_yaml o text ≡ none) ⊎ (validate_yaml o text ≡ some m)
  unfolding validate_yaml
  validate_yaml-cases text m r = elim (Bool-cases (validate_config m)) [
    | inl y ↦ inr (rw (r, y))
    | inr n ↦ inl (rw (r, n))
  ]

  -- A cluster that is on stays on: no update of the configuration turns it off, where the text that
  -- an update is saved as is read back as it was.
  pub update_center_config-enabled :
      (now : ℕ) (new_cfg : Settings) (text author role description : Str) (cc : ConfigCenter)
      → o.marshal (merged new_cfg cc) ≡ some text
      → o.unmarshal text ≡ some (merged new_cfg cc)
      → cc.current_config.cluster.enabled ≡ true
      → (update_center_config o now new_cfg author role description
          cc).1.current_config.cluster.enabled
        ≡ true
  unfolding update_center_config keep_cluster
  update_center_config-enabled now new_cfg text author role description cc s r e =
      let stays : (merged new_cfg cc).cluster.enabled ≡ true = ground (arith, e) in
      ap
        (λ out.
          (save_maybe o now out unmarshalable author role description
            cc).1.current_config.cluster.enabled)
        s
      ∙ (ap (λ (cfg : Settings). cfg.cluster.enabled)
            (save_yaml-Shows o now text author role description cc).1
          ∙ enabled-effect now cc (merged new_cfg cc) (validate_yaml o text)
              (validate_yaml-cases text (merged new_cfg cc) r) e stays)
