-- ===== src/Tests/Desktop.antt =====
-- The launcher of app/src on concrete inputs.
use coder_desktop_linux.Common.{
  ℕ, ◌≡◌, refl, Bool, true, false, some, List, [], ◌∷◌, replicate, ℤ, pos, same_int, concat,
}
use coder_desktop_linux.Watermark.Identity.{digest}
use coder_desktop_linux.Watermark.Apply.{IsWatermarked, with_pixels, blues}
use coder_desktop_linux.Output.{
  Policy, Marking, set_policy, commit_state, frame_done, handle_output_frame,
}
use coder_desktop_linux.Output.Frame.{set_watermark_identity_lem}
use coder_desktop_linux.Clients.{get_client_count, no_clients}
use coder_desktop_linux.Tests.Compositor.{mapping, buffer, writable, policy}
use coder_desktop_linux.Desktop.Launcher.{
  RunningApp, Launcher, LauncherCall, LauncherEvent, LaunchRequest, LaunchAnswers, log_error,
  set_log_callback, set_output_title, destroy_compositor, app_count_changed, running_changed,
  count_changed, launches, policy_changes, monitor_ticks, fresh_marking, update_policy,
  launcher_step, launcher_run, launch_app, launch_in, prepare, add_entry, remove_app, remove_found,
  stop_app, stops, find_pid, sigterm, remove_entry, has_pid, without_pid, check_child_processes,
  check_apps, check_app,
}
use coder_desktop_linux.Desktop.Launcher.Frames.{launched_frame}
use coder_desktop_linux.Desktop.Launcher.EntryRows.{rows_with, IsTracked}
use coder_desktop_linux.Desktop.Launcher.Tracks.{launcher_run-IsTracked}

abbrev identity : List ℕ
identity = 109 ∷ 101 ∷ []

abbrev pub xterm : LaunchRequest
xterm = record {
  command = "xterm";
  app_name = "";
  workspace_path = "/home/me/work";
  isolate_pid = true;
  isolate_ipc = true;
  isolate_network = false;
  isolate_filesystem = true;
  bind_home_rw = false;
  extra_bind_paths = [];
  filter_dbus = false;
  dbus_allowed_names = [];
}

abbrev pub answers : LaunchAnswers
answers = record {
  is_available = true;
  created = some 4096;
  launch = λ command config. pos 42;
  scratch = replicate 256 7;
}

abbrev idle : Launcher
idle = record {
  apps = [];
  entries = [];
  log_level = log_error;
  current_policy = record policy { watermark_enabled = false };
  watermark_identity = identity;
}

abbrev events : List LauncherEvent
events = launches answers xterm ∷ policy_changes policy ∷ []

-- The application as it is launched, with a policy.
abbrev launched : Policy → RunningApp
launched p = record {
  pid = pos 42;
  app_name = "xterm";
  command = "xterm";
  address = 4096;
  compositor = some (record {
    policy = p;
    watermark = record { enabled = false; fingerprint = digest identity; has_identity = true };
  });
  bwrap_exited = false;
}

abbrev running_state : Launcher
running_state = record {
  apps = launched policy ∷ [];
  entries = record { pid = pos 42; app_name = "xterm"; command = "xterm" } ∷ [];
  log_level = log_error;
  current_policy = policy;
  watermark_identity = identity;
}

abbrev calls : List LauncherCall
calls =
    set_log_callback 4096
    ∷ set_output_title 4096 "Coder Secure - xterm"
    ∷ count_changed
    ∷ app_count_changed
    ∷ running_changed
    ∷ []

prepared :
    prepare (replicate 256 7) (record policy { watermark_enabled = false }) identity
    ≡ some (launched (record policy { watermark_enabled = false })).compositor
unfolding prepare set_policy
prepared =
    set_watermark_identity_lem (replicate 256 7) identity
      (record fresh_marking { policy = record policy { watermark_enabled = false } }) refl refl

ran : launcher_run events idle ≡ some (running_state, calls)
unfolding launcher_run launcher_step launch_app launch_in add_entry update_policy set_policy concat
ran = rw (prepared, launch_app) refl

launched_frame_example :
    (m : Marking) × (after : List ℕ) × ((launched policy).compositor ≡ some m)
    × (handle_output_frame true m (some (some buffer))
        ≡ some (commit_state (some (with_pixels buffer mapping after)) ∷ frame_done ∷ []))
    × IsWatermarked (digest identity) (blues buffer mapping 0) mapping.pixels after
launched_frame_example =
    launched_frame events idle running_state calls 0 (launched policy) buffer mapping 0 tt
      (refl, (tt, tt)) ran refl refl refl writable

abbrev second : RunningApp
second = record (launched policy) { pid = pos 43; address = 8192 }

abbrev two_apps : Launcher
two_apps = record running_state {
  apps = launched policy ∷ second ∷ [];
  entries =
      record { pid = pos 42; app_name = "xterm"; command = "xterm" }
      ∷ record { pid = pos 43; app_name = "xterm"; command = "xterm" }
      ∷ [];
}

abbrev exits : ℤ → Bool
exits pid = same_int pid (pos 42)

abbrev one_app : Launcher
one_app = record two_apps {
  apps = second ∷ [];
  entries = record { pid = pos 43; app_name = "xterm"; command = "xterm" } ∷ [];
}

-- The first of two applications has exited and has no client left.
reaped :
    launcher_step (monitor_ticks exits (λ address. no_clients)) two_apps
    ≡ some (one_app, destroy_compositor 4096 ∷ count_changed ∷ app_count_changed ∷ [])
unfolding launcher_step check_child_processes check_apps check_app remove_app remove_found
    remove_entry has_pid without_pid get_client_count
reaped = refl

-- Two applications with one process id, as after a reuse: stopping it takes one of them and one row.
abbrev twins : Launcher
twins = record two_apps {
  apps = launched policy ∷ record second { pid = pos 42 } ∷ [];
  entries =
      record { pid = pos 42; app_name = "xterm"; command = "xterm" }
      ∷ record { pid = pos 42; app_name = "xterm"; command = "xterm" }
      ∷ [];
}

abbrev one_twin : Launcher
one_twin = record twins {
  apps = record second { pid = pos 42 } ∷ [];
  entries = record { pid = pos 42; app_name = "xterm"; command = "xterm" } ∷ [];
}

twin_stopped :
    launcher_run (stops (pos 42) ∷ []) twins
    ≡ some (
      one_twin,
      sigterm (pos 42) ∷ destroy_compositor 4096 ∷ count_changed ∷ app_count_changed ∷ [],
    )
unfolding launcher_run launcher_step stop_app find_pid remove_app remove_found remove_entry has_pid
    without_pid
twin_stopped = refl

launcher_run-IsTracked_example : IsTracked one_twin
unfolding rows_with
launcher_run-IsTracked_example =
    launcher_run-IsTracked (stops (pos 42) ∷ []) twins one_twin
      (sigterm (pos 42) ∷ destroy_compositor 4096 ∷ count_changed ∷ app_count_changed ∷ [])
      (λ pid. refl) twin_stopped
