-- ===== src/Desktop/Settings.antt =====
-- app/src/settings/SettingsManager.cpp and app/src/settings/MdmConfigManager.cpp: the policy that an
-- administrator sets, the user's preferences and the compiled defaults.
mod PolicyFiles
pub mod Layers
pub mod Reset
use coder_desktop_linux.Common.{
  ℕ, Bool, true, false, not, ◌&&◌, Option, none, some, List, [], ◌∷◌, if◌then◌else◌, ℤ, pos,
  same_int, String, is_empty, Dict, lookup,
}
unfoldable pub use coder_desktop_linux.Desktop.Settings.PolicyFiles.*

-- `QSettings` over its state: `find` is the value of a key that it contains.
pub record Preferences (S : Type 0) : Type 0 where
  pub find : S → String → Option Variant
  pub set_value : S → String → Variant → S
  pub remove : S → String → S

pub record Settings (S : Type 0) : Type 0 where
  pub mdm : Mdm
  pub user : S

-- `kDefaults`.
abbrev pub defaults : Dict Variant
defaults =
    ("deploymentUrl", text "")
    ∷ ("allowedDeployments", texts [])
    ∷ ("disableMultiDeployment", flag false)
    ∷ ("requireVpn", flag false)
    ∷ ("autoConnectVpn", flag false)
    ∷ ("dlpEnabled", flag false)
    ∷ ("dlpClipboardBlock", flag false)
    ∷ ("dlpScreenshotBlock", flag false)
    ∷ ("dlpFileSandbox", flag false)
    ∷ ("dlpNetworkSandbox", flag false)
    ∷ ("dlpForceInAppBrowser", flag false)
    ∷ ("dlpDisableExternalBrowser", flag false)
    ∷ ("dlpWatermark", flag false)
    ∷ ("dlpDbusFilter", flag false)
    ∷ ("dlpDbusAllowedNames", texts [])
    ∷ ("disableFileUpload", flag false)
    ∷ ("disableFileDownload", flag false)
    ∷ ("theme", text "system")
    ∷ ("notificationsEnabled", flag true)
    ∷ ("checkForUpdates", flag true)
    ∷ ("logLevel", text "info")
    ∷ ("refreshIntervalSec", number (pos 10))
    ∷ ("disableDataCache", flag false)
    ∷ []

unfoldable pub compiled_default : String → Option Variant
compiled_default key = lookup defaults key

pub data Source : Type 0 where
  from_default from_user from_mdm : Source

-- The setting whose getter is meant.
pub data Setting : Type 0 where
  deployment_url allowed_deployments disable_multi_deployment require_vpn auto_connect_vpn : Setting
  dlp_enabled dlp_clipboard_block dlp_screenshot_block dlp_file_sandbox : Setting
  dlp_network_sandbox dlp_force_in_app_browser dlp_disable_external_browser : Setting
  dlp_watermark dlp_dbus_filter dlp_dbus_allowed_names : Setting
  disable_file_upload disable_file_download theme notifications_enabled : Setting
  check_for_updates log_level refresh_interval_sec disable_data_cache : Setting

-- The key that a getter, and the one that says whether it is locked, asks for.
unfoldable pub setting_key : Setting → String
setting_key deployment_url = "deploymentUrl"
setting_key allowed_deployments = "allowedDeployments"
setting_key disable_multi_deployment = "disableMultiDeployment"
setting_key require_vpn = "requireVpn"
setting_key auto_connect_vpn = "autoConnectVpn"
setting_key dlp_enabled = "dlpEnabled"
setting_key dlp_clipboard_block = "dlpClipboardBlock"
setting_key dlp_screenshot_block = "dlpScreenshotBlock"
setting_key dlp_file_sandbox = "dlpFileSandbox"
setting_key dlp_network_sandbox = "dlpNetworkSandbox"
setting_key dlp_force_in_app_browser = "dlpForceInAppBrowser"
setting_key dlp_disable_external_browser = "dlpDisableExternalBrowser"
setting_key dlp_watermark = "dlpWatermark"
setting_key dlp_dbus_filter = "dlpDbusFilter"
setting_key dlp_dbus_allowed_names = "dlpDbusAllowedNames"
setting_key disable_file_upload = "disableFileUpload"
setting_key disable_file_download = "disableFileDownload"
setting_key theme = "theme"
setting_key notifications_enabled = "notificationsEnabled"
setting_key check_for_updates = "checkForUpdates"
setting_key log_level = "logLevel"
setting_key refresh_interval_sec = "refreshIntervalSec"
setting_key disable_data_cache = "disableDataCache"

-- The default that a getter names itself.
unfoldable pub setting_default : Setting → Variant
setting_default deployment_url = text ""
setting_default allowed_deployments = texts []
setting_default dlp_dbus_allowed_names = texts []
setting_default theme = text "system"
setting_default notifications_enabled = flag true
setting_default check_for_updates = flag true
setting_default log_level = text "info"
setting_default refresh_interval_sec = number (pos 10)
setting_default _ = flag false

module _ {S : Type 0} (prefs : Preferences S) where
  -- `resolve`.
  unfoldable pub resolve : Settings S → String → Variant → Variant
  resolve s key compiled = elim (mdm_value s.mdm key) [
    | some value ↦ value
    | none ↦ elim (prefs.find s.user key) [ some value ↦ value | none ↦ compiled ]
  ]

  unfoldable pub setting_source : Settings S → String → Source
  setting_source s key = elim (mdm_value s.mdm key) [
    | some value ↦ from_mdm
    | none ↦ elim (prefs.find s.user key) [ some value ↦ from_user | none ↦ from_default ]
  ]

  -- A getter, before its conversion.
  unfoldable pub get_setting : Settings S → Setting → Variant
  unfolding resolve
  get_setting s g = resolve s (setting_key g) (setting_default g)

  -- `setUserPreference`, with whether it emits `settingsChanged`.
  unfoldable pub set_user_preference : String → Variant → Settings S → Settings S × Bool
  set_user_preference key value s =
      if is_locked s.mdm key
      then (s, false)
      else (record s { user = prefs.set_value s.user key value }, true)

  -- The loop of `resetToDefaults`.
  unfoldable pub reset_keys : Dict Variant → Settings S → Bool → Settings S × Bool
  reset_keys [] s changed = (s, changed)
  reset_keys ((key, value) ∷ rest) s changed =
      let kept = reset_keys rest s changed in
      let removed = reset_keys rest (record s { user = prefs.remove s.user key }) true in
      if is_locked s.mdm key
      then kept
      else elim (prefs.find s.user key) [ none ↦ kept | some old ↦ removed ]

  unfoldable pub reset_to_defaults : Settings S → Settings S × Bool
  reset_to_defaults s = reset_keys defaults s false

-- `dlpDbusAllowedNames`, of the value that is resolved.
unfoldable pub allowed_names : Conversions → Variant → List String
allowed_names conv (text s) = if is_empty s then [] else s ∷ []
allowed_names conv v = conv.to_texts v

module _ {S : Type 0} (prefs : Preferences S) (conv : Conversions) where
  -- The getters of one type, with their conversion.
  unfoldable pub bool_setting : Settings S → Setting → Bool
  bool_setting s g = conv.to_bool (get_setting prefs s g)

  unfoldable pub dlp_dbus_allowed_names_of : Settings S → List String
  dlp_dbus_allowed_names_of s = allowed_names conv (get_setting prefs s dlp_dbus_allowed_names)

  -- `externalBrowserAllowed`.
  unfoldable pub external_browser_allowed : Settings S → Bool
  external_browser_allowed s =
      not (bool_setting s dlp_force_in_app_browser)
      && not (bool_setting s dlp_disable_external_browser)

-- What the user interface asks for.
pub data SettingsCall : Type 0 where
  sets : String → Variant → SettingsCall
  resets : SettingsCall

module _ {S : Type 0} (prefs : Preferences S) where
  unfoldable pub settings_step : SettingsCall → Settings S → Settings S
  settings_step (sets key value) s = (set_user_preference prefs key value s).0
  settings_step resets s = (reset_to_defaults prefs s).0

  unfoldable pub settings_run : List SettingsCall → Settings S → Settings S
  settings_run [] s = s
  settings_run (c ∷ cs) s = settings_run cs (settings_step c s)
