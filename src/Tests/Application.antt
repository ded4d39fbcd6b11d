-- ===== src/Tests/Application.antt =====
-- The application as app/src/main.cpp connects it, on concrete inputs.
use coder_desktop_linux.Common.{
  ℕ, ◌≡◌, refl, inl, Bool, true, false, some, List, [], ◌∷◌, replicate, ℤ, pos, String, insert,
  lookup,
}
use coder_desktop_linux.Desktop.Launcher.{RunningApp, Launcher, log_error, fresh_marking}
use coder_desktop_linux.Desktop.Launcher.Marks.{Enforces}
use coder_desktop_linux.Desktop.Deployments.{logs_out}
use coder_desktop_linux.Desktop.Settings.{
  Variant, Conversions, flag, text, texts, number, is_locked,
}
use coder_desktop_linux.Desktop.Application.{
  Application, AppEvent, prefers, in_session, launch_requested, stop_requested, start_up, policy_of,
  app_run,
}
use coder_desktop_linux.Desktop.Application.Applied.{applied_policy, unapplied_policy}
use coder_desktop_linux.Tests.Desktop.{xterm, answers}
use coder_desktop_linux.Tests.Sessions.{ring, plain, manager, preferences, settings}
use coder_desktop_linux.Tests.Polls.{sync, polling}

abbrev to_text : Variant → String
to_text (text s) = s
to_text v = ""

abbrev to_texts : Variant → List String
to_texts (texts ss) = ss
to_texts v = []

abbrev to_bool : Variant → Bool
to_bool (flag b) = b
to_bool v = false

abbrev to_number : Variant → ℤ
to_number (number n) = n
to_number v = pos 0

abbrev conversions : Conversions
conversions = record {
  to_text = to_text;
  to_texts = to_texts;
  to_bool = to_bool;
  to_int = to_number;
}

-- An encoding of names; its bytes do not matter here.
abbrev bytes : String → List ℕ
bytes s = 109 ∷ 101 ∷ []

abbrev running_app : RunningApp
running_app = record {
  pid = pos 7;
  app_name = "xterm";
  command = "xterm";
  address = 4096;
  compositor = some fresh_marking;
  bwrap_exited = false;
}

abbrev one_running : Launcher
one_running = record {
  apps = running_app ∷ [];
  entries = record { pid = pos 7; app_name = "xterm"; command = "xterm" } ∷ [];
  log_level = log_error;
  current_policy = fresh_marking.policy;
  watermark_identity = [];
}

abbrev application : Application (List (String × Variant)) (List (String × String))
application = record {
  settings = settings;
  sessions = manager;
  launcher = one_running;
  polling = polling;
  sync = sync;
}

abbrev events : List AppEvent
events =
    launch_requested answers xterm
    ∷ in_session (replicate 256 7) (logs_out true)
    ∷ stop_requested (pos 7)
    ∷ []

applied_policy_example :
    (app' : Application (List (String × Variant)) (List (String × String))) × (app_run preferences
        conversions ring plain bytes
        (prefers (true, true) "theme" (text "dark") ∷ events)
        application
      ≡ some app')
    × (app'.settings.user ≡ insert settings.user "theme" (text "dark"))
    × Enforces
        (policy_of preferences conversions app'.settings)
        app'.launcher.watermark_identity
        app'.launcher.apps
unfolding is_locked lookup
applied_policy_example =
    applied_policy preferences conversions ring plain bytes (true, true) "theme" (text "dark")
      events application refl refl ((fresh_marking, refl, (refl, refl, inl refl)), tt)
      (refl, (refl, (refl, tt)))

unapplied_policy_example :
    (app app' : Application (List (String × Variant)) (List (String × String))) × (start_up bytes
        (replicate 256 7)
        "info"
        settings
        manager
        polling
        sync
      ≡ some app)
    × (app_run preferences conversions ring plain bytes events app ≡ some app')
    × (app'.settings ≡ settings)
    × Enforces fresh_marking.policy app'.launcher.watermark_identity app'.launcher.apps
unapplied_policy_example =
    unapplied_policy preferences conversions ring plain bytes (replicate 256 7) "info" settings
      manager polling sync events refl (refl, (refl, (refl, tt)))
