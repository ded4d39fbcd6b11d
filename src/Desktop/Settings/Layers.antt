-- ===== src/Desktop/Settings/Layers.antt =====
-- What the user can change of the settings of app/src/settings/SettingsManager.cpp, and what the policy
-- of app/src/settings/MdmConfigManager.cpp keeps.
use coder_desktop_linux.Common.{
  ◌≡◌, refl, ◌∙◌, inl, inr, Bool, true, false, none, some, List, [], ◌∷◌, if◌then◌else◌, String,
  str_eq, eq_iff, Dict, lookup, arith, Bool-cases, Option-cases,
}
use coder_desktop_linux.Desktop.Settings.{
  Variant, is_locked, Preferences, Settings, defaults, compiled_default, Setting, deployment_url,
  setting_key, setting_default, resolve, setting_source, set_user_preference, reset_keys,
  reset_to_defaults, SettingsCall, sets, resets, settings_step, settings_run,
}

-- `QSettings` gives the value that was set last, and none where the key was removed.
pub record IsPreferences {S : Type 0} (prefs : Preferences S) : Type 0 where
  pub find-set :
      (s : S) (key name : String) (v : Variant)
      → prefs.find (prefs.set_value s key v) name
        ≡ (if str_eq key name then some v else prefs.find s name)
  pub find-remove :
      (s : S) (key name : String)
      → prefs.find (prefs.remove s key) name ≡ (if str_eq key name then none else prefs.find s name)

-- The default that a getter falls back on is the one of the table for its key, for every setting.
pub compiled_default-setting_default :
    (g : Setting) → compiled_default (setting_key g) ≡ some (setting_default g)
unfolding compiled_default setting_key setting_default lookup
compiled_default-setting_default deployment_url = refl
compiled_default-setting_default _ = refl

module _ {S : Type 0} (prefs : Preferences S) (p : IsPreferences prefs) where
  -- What a call leaves of a locked key.
  record Keeps (key : String) (s s' : Settings S) : Type 0 where
    mdm : s'.mdm ≡ s.mdm
    user : prefs.find s'.user key ≡ prefs.find s.user key

  reset_keys-Keeps :
      (key : String) (ds : Dict Variant) (s : Settings S) (changed : Bool)
      → is_locked s.mdm key ≡ true
      → Keeps key s (reset_keys prefs ds s changed).0
  unfolding reset_keys
  reset_keys-Keeps key [] s changed locked = record { mdm = refl; user = refl }
  reset_keys-Keeps key ((k, v) ∷ rest) s changed locked = elim (Bool-cases (is_locked s.mdm k)) [
    | inl skip ↦ rw (skip, reset_keys) (reset_keys-Keeps key rest s changed locked)
    | inr free ↦ elim (Option-cases (prefs.find s.user k)) [
      | inl unset ↦ rw (free, unset, reset_keys) (reset_keys-Keeps key rest s changed locked)
      | inr (old, there) ↦
          let s' : Settings S = record s { user = prefs.remove s.user k } in
          let more = reset_keys-Keeps key rest s' true locked in
          rw (free, there, reset_keys)
            (record {
              mdm = more.mdm;
              user = more.user ∙ ground (arith, p.find-remove s.user k key, eq_iff k key);
            })
    ]
  ]

  step-Keeps :
      (key : String) (c : SettingsCall) (s : Settings S)
      → is_locked s.mdm key ≡ true
      → Keeps key s (settings_step prefs c s)
  unfolding settings_step set_user_preference reset_to_defaults
  step-Keeps key resets s locked = reset_keys-Keeps key defaults s false locked
  step-Keeps key (sets k v) s locked = elim (Bool-cases (is_locked s.mdm k)) [
    | inl skip ↦ rw (skip, settings_step, set_user_preference) (record { mdm = refl; user = refl })
    | inr free ↦
        rw (free, settings_step, set_user_preference)
          (record { mdm = refl; user = ground (arith, p.find-set s.user k key v, eq_iff k key) })
  ]

  run-Keeps :
      (key : String) (cs : List SettingsCall) (s : Settings S)
      → is_locked s.mdm key ≡ true
      → Keeps key s (settings_run prefs cs s)
  unfolding settings_run
  run-Keeps key [] s locked = record { mdm = refl; user = refl }
  run-Keeps key (c ∷ cs) s locked =
      let one = step-Keeps key c s locked in
      let more = run-Keeps key cs (settings_step prefs c s) (rw (one.mdm) locked) in
      record { mdm = more.mdm ∙ one.mdm; user = more.user ∙ one.user }

  -- A key that the policy locks resolves to the same value, from the same source, after any
  -- preferences that the user sets and any resets to the defaults.
  pub settings_run-locked :
      (key : String) (compiled : Variant) (cs : List SettingsCall) (s : Settings S)
      → is_locked s.mdm key ≡ true
      → (resolve prefs (settings_run prefs cs s) key compiled ≡ resolve prefs s key compiled)
        × (setting_source prefs (settings_run prefs cs s) key ≡ setting_source prefs s key)
  unfolding resolve setting_source
  settings_run-locked key compiled cs s locked =
      let kept = run-Keeps key cs s locked in
      (ground (arith, kept.mdm, kept.user), ground (arith, kept.mdm, kept.user))
