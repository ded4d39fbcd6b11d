-- ===== src/Sandbox/Filter.antt =====
-- The D-Bus filter of coder-dlp-compositor/src/sandbox_launcher.c: the arguments of the proxy, and
-- what a failed start leaves behind.
use coder_desktop_linux.Common.{
  ℕ, zero, suc, ◌+◌, ◌≤◌, ◌≡◌, inl, inr, refl, Bool, true, false, ◌&&◌, not, Option, none, some,
  List, [], ◌∷◌, ◌++◌, String, if◌then◌else◌, length, arith, map, take, snprintf, length-map,
  str_eq, eq_refl, Option-cases,
}
use coder_desktop_linux.Sandbox.Config.{SandboxConfig, present}
use coder_desktop_linux.Sandbox.Effects.{Effect, make_dir, remove_dir, held}
use coder_desktop_linux.Sandbox.Proxy.{
  Startup, find_in_path, talk_loop, talk_words, default_words, proxy_args, start_dbus_proxy,
}
use coder_desktop_linux.Sandbox.Launch.{no_proxy}

-- The argument for a further name.
abbrev pub talk : String → String
talk name = snprintf 256 ("--talk=" ∷ name ∷ [])

-- The names that get through: those of the first 16 entries that are not null.
abbrev pub allowed : Option SandboxConfig → List String
allowed none = []
allowed (some config) = elim config.dbus_talk_names [
  | none ↦ []
  | some names ↦ present (some (take 16 names))
]

talk_loop-allowed :
    (names : List (Option String)) (left i ac : ℕ)
    → i + left ≡ 16
    → ac + left ≤ 60
    → talk_loop names i ac ≡ map talk (present (some (take left names)))
unfolding talk_loop present
talk_loop-allowed [] zero i ac e h = refl
talk_loop-allowed [] (suc left) i ac e h = refl
talk_loop-allowed (name ∷ names) zero i ac e h = ground arith
talk_loop-allowed (none ∷ names) (suc left) i ac e h =
    ground (arith, talk_loop-allowed names left (i + 1) ac)
talk_loop-allowed (some name ∷ names) (suc left) i ac e h =
    ground (arith, talk_loop-allowed names left (i + 1) (ac + 1))

length-present : (names : List (Option String)) (n : ℕ) → length (present (some (take n names))) ≤ n
unfolding present
length-present [] zero = omega arith
length-present [] (suc n) = omega arith
length-present (name ∷ names) zero = omega arith
length-present (none ∷ names) (suc n) = omega (arith, length-present names n)
length-present (some name ∷ names) (suc n) = omega (arith, length-present names n)

talk_words-allowed :
    (sandbox : Option SandboxConfig) → talk_words sandbox 12 ≡ map talk (allowed sandbox)
unfolding talk_words
talk_words-allowed none = refl
talk_words-allowed (some config) = elim (Option-cases config.dbus_talk_names) [
  | inl unset ↦ rw (unset, talk_words)
  | inr (names, set) ↦ rw (set, talk_words) (talk_loop-allowed names 16 0 12 refl (omega arith))
]

length-allowed : (sandbox : Option SandboxConfig) → length (allowed sandbox) ≤ 16
length-allowed none = omega arith
length-allowed (some config) = elim (Option-cases config.dbus_talk_names) [
  | inl unset ↦ rw unset (omega arith)
  | inr (names, set) ↦ rw set (length-present names 16)
]

-- The guard against too many arguments never fires: the child always executes the proxy, with the
-- default rules and one --talk rule for each of the first 16 names that is not null, and with at most
-- 28 arguments, which leave room for the null in an array of 128.
pub proxy_args-allowed :
    (dbus_addr socket_path fd : String) (sandbox : Option SandboxConfig)
    → (argv : List String) × (proxy_args dbus_addr socket_path fd sandbox ≡ some argv)
      × (argv ≡ default_words dbus_addr socket_path fd ++ map talk (allowed sandbox))
      × (length argv ≤ 28)
unfolding proxy_args
proxy_args-allowed dbus_addr socket_path fd sandbox = (
  default_words dbus_addr socket_path fd ++ map talk (allowed sandbox),
  rw (talk_words-allowed sandbox)
      (ground (arith, length-map (allowed sandbox) talk, length-allowed sandbox)),
  refl,
  omega (arith, length-map (allowed sandbox) talk, length-allowed sandbox),
)

abbrev pub has {ℓ} : {A : Type ℓ} → Option A → Bool
has none = false
has (some a) = true

-- The last call on a directory says whether it is there.
abbrev pub dir_effect : String → Effect → Option Bool
dir_effect dir (make_dir d) = if str_eq d dir then some true else none
dir_effect dir (remove_dir d) = if str_eq d dir then some false else none
dir_effect dir _ = none

-- A start that gets as far as its temporary directory fails in one of three ways. After a proxy that
-- does not come up the directory is removed; after a failed `pipe2` or `fork` it is left behind.
pub start_directory :
    (s : Startup) (address dir : String)
    → s.bus_address ≡ some address
    → find_in_path s.path s.path_copied s.executable "xdg-dbus-proxy" ≡ true
    → s.mkdtemp ≡ some dir
    → (start_dbus_proxy s no_proxy).0 ≡ false
    → held (dir_effect dir) false (start_dbus_proxy s no_proxy).2 ≡ not (has s.pipe && has s.fork)
unfolding start_dbus_proxy held
start_directory s address dir a f m h = ground (arith, eq_refl dir)
