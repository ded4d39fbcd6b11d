-- ===== src/Lib.antt =====
-- Models and proofs for Coder Desktop for Linux: the library in coder-dlp-compositor/ that runs an
-- application in a sandbox, under a nested Wayland compositor which marks what it shows, and the core
-- of the Qt application in app/ that uses it.
--
-- The library has four parts with logic of their own.
-- - The sandbox launcher (coder-dlp-compositor/src/sandbox_launcher.c) builds the command line of
--   bwrap from a configuration, starts xdg-dbus-proxy where the bus is to be filtered, starts the
--   application and keeps a table of the proxies until the compositor is destroyed.
-- - The watermark (coder-dlp-compositor/src/watermark.c) hashes an identity and writes the hash into
--   the lowest bits of the blue channel of a frame, at places that a generator picks.
-- - The input handlers (coder-dlp-compositor/src/input.c) forward events to the seat and move the
--   focus; xwayland.c and shell.c, there, move it too when a window appears.
-- - The compositor itself (coder-dlp-compositor/src/compositor.c and the rest) creates and connects
--   all of this.
--
-- The application has components of its own, each an object of Qt that keeps a state.
-- - The launcher (app/src/dlp/DlpCompositorManager.cpp) gives each application a compositor of the
--   library, the policy and the identity for its watermark.
-- - The sessions (app/src/data/SessionManager.cpp, over app/src/data/SecureStorage.cpp and the client in
--   app/src/api/CoderApiClient.cpp) keep the deployments and which one is in use.
-- - The settings (app/src/settings/SettingsManager.cpp and MdmConfigManager.cpp) put an administrator's
--   policy over the preferences of the user and the defaults.
-- - Files are copied by app/src/filesync/FileTransferManager.cpp and kept in step by
--   app/src/filesync/FileSyncManager.cpp with the daemon of MutagenDaemon.cpp.
-- - The lists that are shown (app/src/models) are polled for by app/src/api/PollingController.cpp, and
--   app/src/updater/AutoUpdater.cpp asks for a newer release.
-- - app/src/auth/LoginFlowController.cpp takes a token from the embedded browser, and
--   app/src/api/WebSocketBase.cpp keeps a connection open.
-- - app/src/main.cpp constructs these and connects them.
--
-- Files.
-- - Common and the files under it: the library names that are shared, lists with the native numbers,
--   bit operations, copies of bytes with their bounds, and the text functions of C that the code uses
--   (snprintf cuts its result, split_on is the loop over strtok_r).
-- - Watermark: fnv1a_64, dlp_watermark_set_identity, xorshift128_next, blue_offset and
--   dlp_watermark_apply, as fnv1a_64, set_identity, xorshift128_next, blue_offset and apply. A read
--   or write outside an array is `none`, so a result `some` says that there was none. Under it,
--   Identity, Rng, Walk, Stamp, Apply, Again and Digest hold the proofs.
-- - Sandbox/Config: coder_dlp_sandbox_config and what the launcher reads of its environment.
--   Sandbox/Words: the words that dlp_build_bwrap_args pushes, one function for each block.
--   Sandbox/Build: the PUSH macro with its allocations and the bounds of its array, the exits, and
--   dlp_free_bwrap_args.
--   Sandbox/Grammar: a reader of bwrap options, which models no code but states what the words mean.
--   Sandbox/Options: the options that the words are to be, and Sandbox/Ops: that they are.
--   Sandbox/Environment and Sandbox/Mounts: what the options make of variables and mounts, since bwrap
--   carries its options out in order.
-- - Sandbox/Effects: the system calls that take or give back something. Sandbox/Proxy: find_in_path,
--   dlp_start_dbus_proxy, dlp_reap_dbus_proxies and dlp_cleanup_dbus_proxies. Sandbox/Launch:
--   coder_dlp_launch_app, and the table over any sequence of launches and ticks of reap_timer_cb.
--   Sandbox/Accounts, Sandbox/Covered and Sandbox/Teardown: which proxy answers for which resource.
--   Sandbox/Filter: the arguments of the proxy. Sandbox/Started: when a proxy is up, and what a filtered
--   sandbox gets of the bus.
-- - Scene: what the handlers read from wlroots and the calls that they make. Focus: the handlers that
--   move the focus (dlp_handle_cursor_button, touch_focus_at, focus_xwayland_surface,
--   handle_toplevel_map). Input: the other handlers of input.c. Focus/Exclusive, Input/Devices and
--   Input/Session hold the proofs.
-- - ActiveList: compositor_list_add, compositor_list_remove and the loop of custom_wlr_log. Clients:
--   handle_client_created and handle_client_destroyed. Wiring: wl_signal_add and wl_list_remove.
--   Compositor: coder_dlp_create, coder_dlp_destroy and the handlers that connect listeners, with a
--   link for each listener, which may be added only where it is in no list and removed only where it is
--   in one. Output: handle_output_frame, coder_dlp_set_policy and coder_dlp_set_watermark_identity.
--   Surfaces: the handlers of coder-dlp-compositor/src/xwayland.c and shell.c that move and resize
--   windows. Links: the listeners of one object. SurfaceLinks: those of a surface of X11. Shell: the
--   toplevels and popups that come and go; under it, History says what is to stand, and Objects,
--   Steps and Windows hold the proofs. ActiveList/Order and ActiveList/Count: what an
--   addition and a removal make of the order of the compositors and of how often one is listed.
-- - Desktop/Launcher: DlpCompositorManager and RunningAppModel, over Output of the library; under it,
--   State and Start are parts of the model, and Marks and Enforced (policy and identity), Frames (what is
--   committed), EntryRows and Tracks (rows and applications) hold the proofs.
--   Desktop/Secrets: SecureStorage. Desktop/Deployments: SessionManager, with setBaseUrl and
--   setSessionToken of CoderApiClient in Deployments/State. Desktop/Settings: SettingsManager, with
--   MdmConfigManager in Settings/PolicyFiles.
--   Desktop/Transfers: FileTransferManager, under it the parts Table, Output and Cleanup of the model, and
--   the proofs in Valid and Life (processes and states), States, Over and Fate (final states), Progress (the
--   output of scp) and Purge. Desktop/Sync: FileSyncManager, with FileSyncSession in Sync/Sessions and
--   MutagenDaemon in Sync/Daemon, and the proofs about its polls in Stuck, Poll and Returns.
--   Desktop/Rows: WorkspaceModel and TaskModel, whose operations on rows are the same code; Rows/Known
--   has the rows as a map.
--   Desktop/Polling: PollingController. Desktop/Updates: AutoUpdater.
--   Desktop/LoginFlow: LoginFlowController. Desktop/WebSocket: WebSocketBase. Desktop/Application: the
--   connections of main.cpp, with Policies, Kept and Applied under it. A method is the function of its
--   name with underscores: launchApp is launch_app, parseScpProgress is parse_scp_progress.
-- - Tests: the theorems and a few functions on concrete inputs.
--
-- How the code is modelled. A function of C is a function here, with its state and every answer of the
-- system (getenv, access, fork, mkdtemp, waitpid, realloc) as arguments. What it asks of the system or
-- of wlroots is a list in the order of the calls: Effect for system calls, Call for wlroots. A null
-- pointer is `none`. Bytes and 32-bit or 64-bit words are natural numbers with the wrap-around written
-- out. The coordinates of wlroots are a type without structure, since the code hands them on and
-- multiplies them once.
--
-- A method of Qt is a function from the object's state to its state and the signals and calls that it
-- makes, in their order. What Qt, the network, a process or the file system answers is an argument, and
-- what happens between two calls is an event; a run is a list of events. libsecret, QSettings, Base64
-- and the pattern of a line of scp are parameters, with the laws that the code relies on in the records
-- IsKeyring, IsPreferences and IsCodec. A reply of the network may come at any later event.
--
-- Bounds. The loops of the watermark recurse on the rows and pixels that are left, and the wait for
-- the socket on its 200 rounds, as the code counts them; no fuel is involved. The reader of options in
-- Sandbox/Grammar has as fuel the number of options, which is enough for what the launcher prints.
-- Sizes of the frame are such that `y * stride` does not wrap, as they are for memory that is mapped.
--
-- The loop of Desktop/Transfers over the output of scp has as fuel the bytes of its buffer and one
-- more, which is enough since each round takes a line with its end away. Identifiers of transfers and
-- counts of bytes are taken to stay within `int` and `qint64`; the parts of a version become 0 above
-- `int`, as `toInt` has it.
--
-- Not modelled: the wlroots objects that the compositor creates and destroys; the scene tree, but for
-- which tree a toplevel or a popup hangs in; the configuration and the title of a new output; wlroots,
-- Wayland, bwrap and xdg-dbus-proxy themselves; the children between `fork` and `exec` (signal masks, process
-- group, log file); log messages; the descriptor of inotify, which is closed where it is opened; the
-- clipboard handlers, which forward every request. Of the application: the command line, the log and
-- the windows of app/src/main.cpp, the discovery of applications and their profiles (app/src/apps), the
-- objects of the API as JSON (app/src/api/dto), what the web sockets carry, the external browser,
-- the bridge to the VPN, the tray, the notifications, the terminal, the web view, and the roles that
-- the models show to QML. And the rest of the repository (the VPN helper in coder-vpn-linux/,
-- packaging).
mod Common
pub mod Watermark
pub mod Sandbox
pub mod Scene
pub mod Focus
pub mod Input
pub mod ActiveList
pub mod Wiring
pub mod Compositor
pub mod Output
pub mod Surfaces
pub mod Clients
pub mod Links
pub mod SurfaceLinks
pub mod Shell
pub mod Desktop
mod Tests
