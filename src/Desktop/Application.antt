-- ===== src/Desktop/Application.antt =====
-- app/src/main.cpp: how the settings, the sessions, the launcher, the polls and the synchronisation of
-- files are connected. The signals are handled in the order in which they are connected.
pub mod Policies
pub mod Kept
pub mod Applied
use coder_desktop_linux.Common.{
  ℕ, Bool, true, false, not, Option, none, some, List, [], ◌∷◌, if◌then◌else◌, ℤ, String, concat,
  ◌>>=◌,
}
use coder_desktop_linux.Output.{Policy}
use coder_desktop_linux.Clients.{Clients}
use coder_desktop_linux.Desktop.Launcher.{
  Launcher, LogLevel, log_error, LaunchAnswers, LaunchRequest, LauncherEvent, launches, stops,
  stops_all, monitor_ticks, no_apps, set_log_level, update_policy, set_identity_of, launcher_step,
  fresh_marking,
}
use coder_desktop_linux.Desktop.Secrets.{Keyring, Codec}
use coder_desktop_linux.Desktop.Deployments.{
  Manager, is_authenticated, SessionSignal, auth_state_changed, token_expired, login_succeeded,
  login_failed, SessionEvent, session_step,
}
use coder_desktop_linux.Desktop.Settings.{
  Variant, Conversions, Preferences, Settings, dlp_clipboard_block, dlp_file_sandbox,
  dlp_network_sandbox, dlp_watermark, disable_file_upload, disable_file_download,
  notifications_enabled, disable_data_cache, refresh_interval_sec, get_setting, bool_setting,
  set_user_preference, reset_to_defaults,
}
use coder_desktop_linux.Desktop.Polling.{Polling, start, stop, settings_changed}
use coder_desktop_linux.Desktop.Sync.{Sync}

-- The components that `main` constructs and connects.
pub record Application (S K : Type 0) : Type 0 where
  pub settings : Settings S
  pub sessions : Manager K
  pub launcher : Launcher
  pub polling : Polling
  pub sync : Sync

-- `isRunning` of the launcher.
abbrev pub is_running : Launcher → Bool
is_running launcher = not (no_apps launcher.apps)

module _ {S : Type 0} (prefs : Preferences S) (conv : Conversions) where
  -- The policy that the settings ask for.
  unfoldable pub policy_of : Settings S → Policy
  policy_of settings = record {
    clipboard_block_outgoing = bool_setting prefs conv settings dlp_clipboard_block;
    clipboard_block_incoming = bool_setting prefs conv settings dlp_clipboard_block;
    screenshot_block = true;
    file_sandbox = bool_setting prefs conv settings dlp_file_sandbox;
    network_sandbox = bool_setting prefs conv settings dlp_network_sandbox;
    watermark_enabled = bool_setting prefs conv settings dlp_watermark;
  }

  -- The handlers of `settingsChanged`; `removed` says of each file of the cache whether it can be
  -- removed.
  unfoldable pub on_settings_changed :
      {K : Type 0} → (removed : Bool × Bool) → Application S K → Application S K
  unfolding policy_of
  on_settings_changed removed app =
      let settings = app.settings in
      record app {
        sync = record app.sync {
          disable_file_upload = bool_setting prefs conv settings disable_file_upload;
          disable_file_download = bool_setting prefs conv settings disable_file_download;
        };
        polling =
            (settings_changed removed
              (conv.to_int (get_setting prefs settings refresh_interval_sec))
              (bool_setting prefs conv settings notifications_enabled)
              (bool_setting prefs conv settings disable_data_cache) app.polling).0;
        launcher =
            if is_running app.launcher
            then update_policy (policy_of settings) app.launcher
            else app.launcher;
      }

  -- `setUserPreference` and `resetToDefaults`, with what their signal does.
  unfoldable pub change_preference :
      {K : Type 0} → (removed : Bool × Bool) → String → Variant → Application S K → Application S K
  unfolding on_settings_changed
  change_preference removed key value app =
      let (settings, changed) = set_user_preference prefs key value app.settings in
      let app' = record app { settings = settings } in
      if changed then on_settings_changed removed app' else app'

  unfoldable pub restore_defaults :
      {K : Type 0} → (removed : Bool × Bool) → Application S K → Application S K
  unfolding on_settings_changed
  restore_defaults removed app =
      let (settings, changed) = reset_to_defaults prefs app.settings in
      let app' = record app { settings = settings } in
      if changed then on_settings_changed removed app' else app'

module _ {S K : Type 0} (utf8 : String → List ℕ) where
  -- `updateWatermarkIdentity`; `scratch` as in the launcher.
  unfoldable pub update_watermark_identity :
      (scratch : List ℕ) → Application S K → Option (Application S K)
  update_watermark_identity scratch app =
      let identity =
        utf8 (concat (app.sessions.active.username ∷ "@" ∷ app.sessions.active.url ∷ [])) in
      if is_authenticated app.sessions.client
      then (do
        launcher ← set_identity_of scratch identity app.launcher
        some (record app { launcher = launcher }))
      else some app

  -- The handlers of `authStateChanged` and of `tokenExpired`.
  unfoldable pub on_auth_state_changed :
      (scratch : List ℕ) → Application S K → Option (Application S K)
  unfolding update_watermark_identity
  on_auth_state_changed scratch app =
      let polls =
        if is_authenticated app.sessions.client then start app.polling else stop app.polling in
      update_watermark_identity scratch (record app { polling = polls.0 })

  unfoldable pub on_signal :
      (scratch : List ℕ) → SessionSignal → Application S K → Option (Application S K)
  unfolding on_auth_state_changed
  on_signal scratch auth_state_changed app = on_auth_state_changed scratch app
  on_signal scratch token_expired app = some (record app { polling = (stop app.polling).0 })
  on_signal scratch (login_succeeded username) app = some app
  on_signal scratch (login_failed error) app = some app

  unfoldable pub on_signals :
      (scratch : List ℕ) → List SessionSignal → Application S K → Option (Application S K)
  unfolding on_signal
  on_signals scratch [] app = some app
  on_signals scratch (signal ∷ signals) app = do
    app' ← on_signal scratch signal app
    on_signals scratch signals app'

  -- The start of the program, with the level of its log.
  unfoldable pub start_up :
      (scratch : List ℕ)
      → (level : String) → Settings S
      → Manager K
      → Polling
      → Sync
      → Option (Application S K)
  unfolding update_watermark_identity
  start_up scratch level settings sessions polling sync = do
    app ← update_watermark_identity scratch (record {
      settings = settings;
      sessions = sessions;
      launcher = set_log_level level (record {
        apps = [];
        entries = [];
        log_level = log_error;
        current_policy = fresh_marking.policy;
        watermark_identity = [];
      });
      polling = polling;
      sync = sync;
    })
    some (
        if is_authenticated app.sessions.client
        then record app { polling = (start app.polling).0 }
        else app)

-- What the user, the network and the timers do.
pub data AppEvent : Type 0 where
  prefers : (removed : Bool × Bool) → String → Variant → AppEvent
  restores : (removed : Bool × Bool) → AppEvent
  in_session : (scratch : List ℕ) → SessionEvent → AppEvent
  launch_requested : LaunchAnswers → LaunchRequest → AppEvent
  stop_requested : ℤ → AppEvent
  stop_all_requested : AppEvent
  monitored : (exited : ℤ → Bool) → (clients : ℕ → Clients) → AppEvent

module _ {S K : Type 0} where
  -- A call of the launcher.
  unfoldable pub on_launcher : LauncherEvent → Application S K → Option (Application S K)
  on_launcher e app = do
    (launcher, calls) ← launcher_step e app.launcher
    some (record app { launcher = launcher })

module _ {S K : Type 0} (prefs : Preferences S) (conv : Conversions) (ring : Keyring K)
    (codec : Codec) (utf8 : String → List ℕ) where
  unfoldable pub app_step : AppEvent → Application S K → Option (Application S K)
  unfolding change_preference restore_defaults on_signals on_launcher
  app_step (prefers removed key value) app =
      some (change_preference prefs conv removed key value app)
  app_step (restores removed) app = some (restore_defaults prefs conv removed app)
  app_step (in_session scratch e) app =
      let (sessions, signals) = session_step ring codec e app.sessions in
      on_signals utf8 scratch signals (record app { sessions = sessions })
  app_step (launch_requested a r) app = on_launcher (launches a r) app
  app_step (stop_requested pid) app = on_launcher (stops pid) app
  app_step stop_all_requested app = on_launcher stops_all app
  app_step (monitored exited clients) app = on_launcher (monitor_ticks exited clients) app

  unfoldable pub app_run : List AppEvent → Application S K → Option (Application S K)
  unfolding app_step
  app_run [] app = some app
  app_run (e ∷ es) app = do app' ← app_step e app; app_run es app'
