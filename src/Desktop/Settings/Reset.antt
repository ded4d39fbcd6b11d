-- ===== src/Desktop/Settings/Reset.antt =====
-- `resetToDefaults` of app/src/settings/SettingsManager.cpp.
use coder_desktop_linux.Common.{
  ◌≡◌, refl, inl, inr, Bool, true, false, none, some, [], ◌∷◌, String, str_eq, eq_iff, Dict,
  contains, arith, Bool-cases, Option-cases,
}
use coder_desktop_linux.Desktop.Settings.{
  Variant, mdm_value, is_locked, Preferences, Settings, defaults, from_default, from_mdm, Setting,
  deployment_url, setting_key, setting_default, resolve, get_setting, setting_source, reset_keys,
  reset_to_defaults,
}
use coder_desktop_linux.Desktop.Settings.Layers.{IsPreferences}

setting_key-contains : (g : Setting) → contains defaults (setting_key g) ≡ true
unfolding setting_key
setting_key-contains deployment_url = refl
setting_key-contains _ = refl

module _ {S : Type 0} (prefs : Preferences S) (p : IsPreferences prefs) where
  reset_keys-mdm :
      (ds : Dict Variant) (s : Settings S) (changed : Bool)
      → (reset_keys prefs ds s changed).0.mdm ≡ s.mdm
  unfolding reset_keys
  reset_keys-mdm [] s changed = refl
  reset_keys-mdm ((k, v) ∷ rest) s changed = elim (Bool-cases (is_locked s.mdm k)) [
    | inl skip ↦ rw (skip, reset_keys) (reset_keys-mdm rest s changed)
    | inr free ↦ elim (Option-cases (prefs.find s.user k)) [
      | inl unset ↦ rw (free, unset, reset_keys) (reset_keys-mdm rest s changed)
      | inr (old, there) ↦
          rw (free, there, reset_keys)
            (reset_keys-mdm rest (record s { user = prefs.remove s.user k }) true)
    ]
  ]

  -- A preference that is not set stays so.
  reset_keys_unset :
      (name : String) (ds : Dict Variant) (s : Settings S) (changed : Bool)
      → prefs.find s.user name ≡ none
      → prefs.find (reset_keys prefs ds s changed).0.user name ≡ none
  unfolding reset_keys
  reset_keys_unset name [] s changed h = h
  reset_keys_unset name ((k, v) ∷ rest) s changed h = elim (Bool-cases (is_locked s.mdm k)) [
    | inl skip ↦ rw (skip, reset_keys) (reset_keys_unset name rest s changed h)
    | inr free ↦ elim (Option-cases (prefs.find s.user k)) [
      | inl unset ↦ rw (free, unset, reset_keys) (reset_keys_unset name rest s changed h)
      | inr (old, there) ↦
          rw (free, there, reset_keys)
            (reset_keys_unset name rest (record s { user = prefs.remove s.user k }) true
              (ground (arith, p.find-remove s.user k name)))
    ]
  ]

  -- The preferences of the keys of the list that are not locked are gone.
  reset_keys_gone :
      (name : String) (ds : Dict Variant) (s : Settings S) (changed : Bool)
      → contains ds name ≡ true
      → is_locked s.mdm name ≡ false
      → prefs.find (reset_keys prefs ds s changed).0.user name ≡ none
  unfolding reset_keys
  reset_keys_gone name [] s changed c h = cc
  reset_keys_gone name ((k, v) ∷ rest) s changed c h = elim (Bool-cases (str_eq k name)) [
    | inl same ↦
        let e : k ≡ name = (eq_iff k name).0 same in
        let free : is_locked s.mdm k ≡ false = rw e h in
        elim (Option-cases (prefs.find s.user k)) [
          | inl unset ↦
              rw (free, unset, reset_keys) (reset_keys_unset name rest s changed (rw (← e) unset))
          | inr (old, there) ↦
              rw (free, there, reset_keys)
                (reset_keys_unset name rest (record s { user = prefs.remove s.user k }) true
                  (ground (arith, p.find-remove s.user k name)))
        ]
    | inr differ ↦
        let more : contains rest name ≡ true = ground arith in
        elim (Bool-cases (is_locked s.mdm k)) [
          | inl skip ↦ rw (skip, reset_keys) (reset_keys_gone name rest s changed more h)
          | inr free ↦ elim (Option-cases (prefs.find s.user k)) [
            | inl unset ↦ rw (free, unset, reset_keys) (reset_keys_gone name rest s changed more h)
            | inr (old, there) ↦
                rw (free, there, reset_keys)
                  (reset_keys_gone name rest (record s { user = prefs.remove s.user k }) true more
                    h)
          ]
        ]
  ]

  -- After a reset, a setting that the policy does not lock has the policy's value, where it has one,
  -- and else its compiled default; it does not come from the user.
  pub get_setting-reset_to_defaults :
      (g : Setting) (s : Settings S)
      → is_locked s.mdm (setting_key g) ≡ false
      → let s' = (reset_to_defaults prefs s).0 in
        (get_setting prefs s' g
          ≡ (elim (mdm_value s.mdm (setting_key g)) [ some v ↦ v | none ↦ setting_default g ]))
        × (setting_source prefs s' (setting_key g)
            ≡ (elim (mdm_value s.mdm (setting_key g)) [ some v ↦ from_mdm | none ↦ from_default ]))
  unfolding get_setting resolve setting_source reset_to_defaults
  get_setting-reset_to_defaults g s free =
      let same = reset_keys-mdm defaults s false in
      let gone = reset_keys_gone (setting_key g) defaults s false (setting_key-contains g) free in
      (ground (arith, same, gone), ground (arith, same, gone))
