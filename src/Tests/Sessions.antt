-- ===== src/Tests/Sessions.antt =====
-- The deployments and the settings of app/src on concrete inputs.
use coder_desktop_linux.Common.{
  ◌≡◌, inl, inr, refl, true, false, some, List, [], ◌∷◌, arith, String, Dict, lookup, insert, erase,
  contains, lookup-insert, lookup-erase,
}
use coder_desktop_linux.Desktop.Secrets.{Keyring, Codec, store_token}
use coder_desktop_linux.Desktop.Secrets.RoundTrip.{IsKeyring, IsCodec}
use coder_desktop_linux.Desktop.Deployments.{
  Deployment, no_deployment, Manager, user, login, login_replied, new_manager, chop_slashes,
  SessionEvent, logs_in, replies, switches, restarts, session_run,
}
use coder_desktop_linux.Desktop.Deployments.Active.{session_run-IsConsistent}
use coder_desktop_linux.Desktop.Deployments.Flags.{IsConsistent, actives}
use coder_desktop_linux.Desktop.Deployments.Credentials.{login-restart}
use coder_desktop_linux.Desktop.Settings.{
  Variant, flag, Mdm, Preferences, Settings, is_locked, resolve, setting_source, text, sets, resets,
  settings_run,
}
use coder_desktop_linux.Desktop.Settings.Layers.{IsPreferences, settings_run-locked}

abbrev pub ring : Keyring (Dict String)
ring = record {
  store = λ url token k. some (insert k url token);
  find = λ url k. lookup k url;
  clear = λ url k. (contains k url, erase k url);
}

abbrev pub plain : Codec
plain = record { encode = λ s. s; decode = λ s. s }

ring-IsKeyring : IsKeyring ring
ring-IsKeyring = record {
  find-store = λ url token name k k' e. ground (arith, lookup-insert k url name token);
  find-clear = λ url name k. lookup-erase k url name;
}

plain-IsCodec : IsCodec plain
plain-IsCodec = record { decode-encode = λ s. refl; encode_empty = λ s h. h }

abbrev old_deployment : Deployment
old_deployment = record no_deployment { id = "1"; url = "https://old"; is_active = true }

abbrev pub manager : Manager (Dict String)
manager = record {
  active = old_deployment;
  deployments = old_deployment ∷ [];
  client = record { base_url = "https://old"; session_token = "t1" };
  storage = record { secure = true; keyring = ("https://old", "t1") ∷ []; file = [] };
  saved = old_deployment ∷ [];
  validating = true;
}

abbrev session : List SessionEvent
session =
    logs_in "https://new/" "t2"
    ∷ replies true "https://new/" "t2" (user "me" "" "2" "now")
    ∷ switches "https://old"
    ∷ restarts
    ∷ []

session_run-IsConsistent_example : IsConsistent (session_run ring plain session manager).0
unfolding actives
session_run-IsConsistent_example =
    session_run-IsConsistent ring plain session manager
      (record { follows = (inr refl, tt); single = omega arith; stored = refl })

login-restart_example :
    let logged_in =
      (login_replied ring plain true "https://new/" "t2"
        (user "me" "" "2" "now")
        (login "https://new/" "t2" manager)).0 in
    let restarted = new_manager ring plain logged_in.saved logged_in.storage in
    (logged_in.client ≡ record { base_url = chop_slashes "https://new/"; session_token = "t2" })
    × (logged_in.active.url ≡ "https://new/")
    × (restarted.client ≡ logged_in.client)
    × (restarted.active ≡ logged_in.active)
unfolding store_token
login-restart_example =
    login-restart ring plain ring-IsKeyring plain-IsCodec true "https://new/" "t2" "me" "" "2" "now"
      manager refl refl (inl (λ e. cc)) refl

abbrev pub preferences : Preferences (Dict Variant)
preferences = record {
  find = λ s key. lookup s key;
  set_value = λ s key v. insert s key v;
  remove = λ s key. erase s key;
}

preferences-IsPreferences : IsPreferences preferences
preferences-IsPreferences = record {
  find-set = λ s key name v. lookup-insert s key name v;
  find-remove = λ s key name. lookup-erase s key name;
}

abbrev mdm : Mdm
mdm = record {
  enabled = true;
  settings = ("dlpWatermark", some (record { value = some (flag true); locked = true })) ∷ [];
}

abbrev pub settings : Settings (Dict Variant)
settings = record { mdm = mdm; user = ("theme", text "dark") ∷ ("dlpWatermark", flag false) ∷ [] }

settings_run-locked_example :
    let after =
      settings_run preferences (sets "dlpWatermark" (flag false) ∷ resets ∷ []) settings in
    (resolve preferences after "dlpWatermark" (flag false)
      ≡ resolve preferences settings "dlpWatermark" (flag false))
    × (setting_source preferences after "dlpWatermark"
        ≡ setting_source preferences settings "dlpWatermark")
unfolding is_locked lookup
settings_run-locked_example =
    settings_run-locked preferences preferences-IsPreferences "dlpWatermark" (flag false)
      (sets "dlpWatermark" (flag false) ∷ resets ∷ []) settings refl
