-- ===== src/Desktop/Application/Kept.antt =====
-- What the connections of app/src/main.cpp keep of the policy.
use coder_desktop_linux.Common.{
  ℕ, ◌≡◌, refl, ◌∙◌, inl, inr, false, Option, some, List, [], ◌∷◌, length, if◌then◌else◌,
  Bool-cases, String, concat,
}
use coder_desktop_linux.Desktop.Launcher.{LauncherEvent, set_identity_of}
use coder_desktop_linux.Desktop.Launcher.Enforced.{identify_apps-Enforced, step-Enforced}
use coder_desktop_linux.Desktop.Launcher.Marks.{IsEnforced, HasScratch}
use coder_desktop_linux.Desktop.Deployments.{
  is_authenticated, SessionSignal, auth_state_changed, token_expired, login_succeeded, login_failed,
}
use coder_desktop_linux.Desktop.Polling.{start, stop}
use coder_desktop_linux.Desktop.Application.{
  Application, update_watermark_identity, on_auth_state_changed, on_signal, on_signals, on_launcher,
}
use coder_desktop_linux.Desktop.Application.Policies.{changes_policy, step_policy}

module _ {S K : Type 0} where
  -- Compositors are as the launcher says, and neither its policy nor the settings are others.
  pub record Kept (app app' : Application S K) : Type 0 where
    pub enforced : IsEnforced app'.launcher
    pub policy : app'.launcher.current_policy ≡ app.launcher.current_policy
    pub settings : app'.settings ≡ app.settings

  abbrev pub Returns : Application S K → Option (Application S K) → Type 0
  Returns app r = (app' : Application S K) × (r ≡ some app') × Kept app app'

  pub then_Kept :
      (app app' app'' : Application S K) → Kept app app' → Kept app' app'' → Kept app app''
  then_Kept app app' app'' h h' = record {
    enforced = h'.enforced;
    policy = h'.policy ∙ h.policy;
    settings = h'.settings ∙ h.settings;
  }

  -- The start of the polls where the session is known.
  pub started-Kept :
      (before app : Application S K)
      → Kept before app
      → Kept before (
          if is_authenticated app.sessions.client
          then record app { polling = (start app.polling).0 }
          else app)
  started-Kept before app h = elim (Bool-cases (is_authenticated app.sessions.client)) [
    | inl known ↦
        rw known (record { enforced = h.enforced; policy = h.policy; settings = h.settings })
    | inr anonymous ↦ rw anonymous h
  ]

  pub on_launcher-Kept :
      (e : LauncherEvent) (app : Application S K)
      → changes_policy e ≡ false
      → HasScratch e
      → IsEnforced app.launcher
      → Returns app (on_launcher e app)
  unfolding on_launcher
  on_launcher-Kept e app q scratch h =
      let (launcher, calls, stepped, kept) = step-Enforced e app.launcher scratch h in
      (
        record app { launcher = launcher },
        rw (stepped, on_launcher) refl,
        record {
          enforced = kept;
          policy = step_policy e app.launcher launcher calls q stepped;
          settings = refl;
        },
      )

module _ {S K : Type 0} (utf8 : String → List ℕ) (scratch : List ℕ)
    (full : length scratch ≡ 256) where
  pub identity-Kept :
      (app : Application S K)
      → IsEnforced app.launcher
      → Returns app (update_watermark_identity utf8 scratch app)
  unfolding update_watermark_identity set_identity_of
  identity-Kept app h = elim (Bool-cases (is_authenticated app.sessions.client)) [
    | inr anonymous ↦ (
      app,
      rw (anonymous, update_watermark_identity) refl,
      record { enforced = h; policy = refl; settings = refl },
    )
    | inl known ↦
        let identity =
          utf8 (concat (app.sessions.active.username ∷ "@" ∷ app.sessions.active.url ∷ [])) in
        let (apps, returns, kept) =
          identify_apps-Enforced scratch identity app.launcher.watermark_identity
            app.launcher.current_policy app.launcher.apps full h in
        (
          record app {
            launcher = record app.launcher { apps = apps; watermark_identity = identity };
          },
          rw (known, returns, update_watermark_identity, set_identity_of) refl,
          record { enforced = kept; policy = refl; settings = refl },
        )
  ]

  on_signal-Kept :
      (signal : SessionSignal) (app : Application S K)
      → IsEnforced app.launcher
      → Returns app (on_signal utf8 scratch signal app)
  unfolding on_signal on_auth_state_changed
  on_signal-Kept auth_state_changed app h =
      let polls =
        if is_authenticated app.sessions.client then start app.polling else stop app.polling in
      let (app', returns, kept) = identity-Kept (record app { polling = polls.0 }) h in
      (
        app',
        returns,
        record { enforced = kept.enforced; policy = kept.policy; settings = kept.settings },
      )
  on_signal-Kept token_expired app h = (
    record app { polling = (stop app.polling).0 },
    refl,
    record { enforced = h; policy = refl; settings = refl },
  )
  on_signal-Kept (login_succeeded username) app h =
      (app, refl, record { enforced = h; policy = refl; settings = refl })
  on_signal-Kept (login_failed error) app h =
      (app, refl, record { enforced = h; policy = refl; settings = refl })

  pub on_signals-Kept :
      (signals : List SessionSignal) (app : Application S K)
      → IsEnforced app.launcher
      → Returns app (on_signals utf8 scratch signals app)
  unfolding on_signals
  on_signals-Kept [] app h = (app, refl, record { enforced = h; policy = refl; settings = refl })
  on_signals-Kept (signal ∷ signals) app h =
      let (app', first, kept) = on_signal-Kept signal app h in
      let (app'', rest, more) = on_signals-Kept signals app' kept.enforced in
      (app'', rw (first, rest, on_signals) refl, then_Kept app app' app'' kept more)
