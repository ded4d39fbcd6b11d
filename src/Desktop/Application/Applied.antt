-- ===== src/Desktop/Application/Applied.antt =====
-- What the launched applications have of the settings and of the identity, over the events that
-- app/src/main.cpp connects.
use coder_desktop_linux.Common.{
  ℕ, ◌≡◌, refl, sym, subst, ap, ◌∙◌, Bool, true, false, some, List, [], ◌∷◌, length, if◌then◌else◌,
  All, String,
}
use coder_desktop_linux.Output.{Policy}
use coder_desktop_linux.Desktop.Launcher.{
  Launcher, launches, stops, stops_all, monitor_ticks, update_policy, fresh_marking, set_log_level,
  log_error,
}
use coder_desktop_linux.Desktop.Launcher.Enforced.{update_policy-Enforced}
use coder_desktop_linux.Desktop.Launcher.Marks.{Enforces, IsEnforced}
use coder_desktop_linux.Desktop.Secrets.{Keyring, Codec}
use coder_desktop_linux.Desktop.Deployments.{Manager, is_authenticated, session_step}
use coder_desktop_linux.Desktop.Settings.{
  Variant, Conversions, Preferences, Settings, is_locked, set_user_preference,
}
use coder_desktop_linux.Desktop.Polling.{Polling, start}
use coder_desktop_linux.Desktop.Sync.{Sync}
use coder_desktop_linux.Desktop.Application.{
  Application, is_running, policy_of, on_settings_changed, change_preference, start_up, AppEvent,
  prefers, restores, in_session, launch_requested, stop_requested, stop_all_requested, monitored,
  app_step, app_run,
}
use coder_desktop_linux.Desktop.Application.Policies.{IsQuiet}
use coder_desktop_linux.Desktop.Application.Kept.{
  Returns, then_Kept, started-Kept, on_launcher-Kept, identity-Kept, on_signals-Kept,
}

module _ {S K : Type 0} (prefs : Preferences S) (conv : Conversions) (ring : Keyring K)
    (codec : Codec) (utf8 : String → List ℕ) where
  app_step-Kept :
      (e : AppEvent) (app : Application S K)
      → IsQuiet e
      → IsEnforced app.launcher
      → Returns app (app_step prefs conv ring codec utf8 e app)
  unfolding app_step
  app_step-Kept (prefers removed key value) app q h = cc
  app_step-Kept (restores removed) app q h = cc
  app_step-Kept (in_session scratch e) app q h =
      let (sessions, signals) = session_step ring codec e app.sessions in
      let (app', returns, kept) =
        on_signals-Kept utf8 scratch q signals (record app { sessions = sessions }) h in
      (
        app',
        returns,
        record { enforced = kept.enforced; policy = kept.policy; settings = kept.settings },
      )
  app_step-Kept (launch_requested a r) app q h = on_launcher-Kept (launches a r) app refl q h
  app_step-Kept (stop_requested pid) app q h = on_launcher-Kept (stops pid) app refl tt h
  app_step-Kept stop_all_requested app q h = on_launcher-Kept stops_all app refl tt h
  app_step-Kept (monitored exited clients) app q h =
      on_launcher-Kept (monitor_ticks exited clients) app refl tt h

  app_run-Kept :
      (es : List AppEvent) (app : Application S K)
      → All IsQuiet es
      → IsEnforced app.launcher
      → Returns app (app_run prefs conv ring codec utf8 es app)
  unfolding app_run
  app_run-Kept [] app q h = (app, refl, record { enforced = h; policy = refl; settings = refl })
  app_run-Kept (e ∷ es) app (q, more) h =
      let (app', first, kept) = app_step-Kept e app q h in
      let (app'', rest, kept') = app_run-Kept es app' more kept.enforced in
      (app'', rw (first, rest, app_run) refl, then_Kept app app' app'' kept kept')

  change_preference-Applied :
      (removed : Bool × Bool) (key : String) (value : Variant) (app : Application S K)
      → is_running app.launcher ≡ true
      → is_locked app.settings.mdm key ≡ false
      → IsEnforced app.launcher
      → let app' = change_preference prefs conv removed key value app in
        IsEnforced app'.launcher
        × (app'.launcher.current_policy ≡ policy_of prefs conv app'.settings)
        × (app'.settings.user ≡ prefs.set_value app.settings.user key value)
  unfolding change_preference on_settings_changed set_user_preference update_policy
  change_preference-Applied removed key value app runs free h =
      let settings : Settings S = record app.settings {
        user = prefs.set_value app.settings.user key value;
      } in
      rw (free, runs, change_preference, set_user_preference, on_settings_changed)
        (
          update_policy-Enforced (policy_of prefs conv settings) app.launcher.current_policy
              app.launcher.watermark_identity app.launcher.apps h,
          refl,
          refl,
        )

  -- While an application runs, a preference that the policy does not lock is changed; whatever then
  -- happens that changes no setting, with 256 bytes to fingerprint in: nothing is accessed out of
  -- bounds, and every launched application, those launched later too, has the policy that the settings
  -- ask for and, where it is not empty, the launcher's identity.
  pub applied_policy :
      (removed : Bool × Bool) (key : String) (value : Variant) (es : List AppEvent)
      (app : Application S K)
      → is_running app.launcher ≡ true
      → is_locked app.settings.mdm key ≡ false
      → IsEnforced app.launcher
      → All IsQuiet es
      → (app' : Application S K) × (app_run prefs conv ring codec utf8
            (prefers removed key value ∷ es)
            app
          ≡ some app')
        × (app'.settings.user ≡ prefs.set_value app.settings.user key value)
        × Enforces
            (policy_of prefs conv app'.settings)
            app'.launcher.watermark_identity
            app'.launcher.apps
  unfolding app_run app_step
  applied_policy removed key value es app runs free h q =
      let changed = change_preference prefs conv removed key value app in
      let (enforced, policy, user) = change_preference-Applied removed key value app runs free h in
      let (app', returns, kept) = app_run-Kept es changed q enforced in
      let same : app'.launcher.current_policy ≡ policy_of prefs conv app'.settings =
        kept.policy ∙ policy ∙ ap (policy_of prefs conv) (sym kept.settings) in
      (
        app',
        returns,
        ap (λ (s : Settings S). s.user) kept.settings ∙ user,
        subst (λ (p : Policy). Enforces p app'.launcher.watermark_identity app'.launcher.apps) same
            kept.enforced,
      )

  -- From the start of the program, over any events that change no setting, with 256 bytes to
  -- fingerprint in: nothing is accessed out of bounds, and the policy of every launched application's
  -- compositor forbids nothing and asks for no watermark, whatever the settings and the administrator's
  -- policy say.
  pub unapplied_policy :
      (scratch : List ℕ) (level : String) (settings : Settings S) (sessions : Manager K)
      → (polling : Polling) (sync : Sync) (es : List AppEvent) → length scratch ≡ 256
      → All IsQuiet es
      → (app app' : Application S K) × (start_up utf8 scratch level settings sessions polling sync
          ≡ some app)
        × (app_run prefs conv ring codec utf8 es app ≡ some app')
        × (app'.settings ≡ settings)
        × Enforces fresh_marking.policy app'.launcher.watermark_identity app'.launcher.apps
  unfolding start_up set_log_level
  unapplied_policy scratch level settings sessions polling sync es full q =
      let launcher : Launcher = set_log_level level (record {
        apps = [];
        entries = [];
        log_level = log_error;
        current_policy = fresh_marking.policy;
        watermark_identity = [];
      }) in
      let before : Application S K = record {
        settings = settings;
        sessions = sessions;
        launcher = launcher;
        polling = polling;
        sync = sync;
      } in
      let (named, known, first) = identity-Kept utf8 scratch full before tt in
      let app : Application S K =
        if is_authenticated named.sessions.client
        then record named { polling = (start named.polling).0 }
        else named in
      let ready = started-Kept before named first in
      let (app', returns, kept) = app_run-Kept es app q ready.enforced in
      let all = then_Kept before app app' ready kept in
      (
        app,
        app',
        rw (known, start_up) refl,
        returns,
        all.settings,
        subst (λ (p : Policy). Enforces p app'.launcher.watermark_identity app'.launcher.apps)
            all.policy all.enforced,
      )
