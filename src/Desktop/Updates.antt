-- ===== src/Desktop/Updates.antt =====
-- app/src/updater/AutoUpdater.cpp: the versions that it compares and what it makes of a release.
pub mod Checks
pub mod Newer
use coder_desktop_linux.Common.{
  ℕ, zero, suc, ℤ, pos, negsuc, ◌+◌, ◌-◌, ◌*◌, ◌^◌, Bool, true, false, not, ◌&&◌, Option, none,
  some, List, [], ◌∷◌, ltb, leb, ◌==◌, if◌then◌else◌, String, is_empty, skip_first, ◌>>=◌,
}
use Prim.Native.Char.{code}

-- The values of the digits that a text begins with, and the rest.
unfoldable pub span_digits : String → List ℕ × String
span_digits String.[] = ([], "")
span_digits (String.◌∷◌ c s) =
    let (digits, rest) = span_digits s in
    if leb b'0' (code c) && leb (code c) b'9'
    then ((code c - b'0') ∷ digits, rest)
    else ([], String.◌∷◌ c s)

unfoldable pub digits_value : ℕ → List ℕ → ℕ
digits_value acc [] = acc
digits_value acc (d ∷ ds) = digits_value (acc * 10 + d) ds

-- `toInt`, which gives 0 for what is no `int`.
abbrev pub to_int : ℕ → ℕ
to_int n = if ltb n (2 ^ 31) then n else 0

-- `(\d+)` of the pattern.
unfoldable pub number : String → Option (ℕ × String)
unfolding span_digits digits_value
number s =
    let (digits, rest) = span_digits s in
    elim digits [ [] ↦ none | ◌∷◌ d ds ↦ some (to_int (digits_value 0 (d ∷ ds)), rest) ]

-- `\.` of the pattern.
unfoldable pub dot : String → Option String
dot String.[] = none
dot (String.◌∷◌ c s) = if code c == b'.' then some s else none

pub record Version : Type 0 where
  pub major : ℕ
  pub minor : ℕ
  pub patch : ℕ

-- `parseSemver`.
unfoldable pub parse_semver : String → Option Version
unfolding number dot skip_first
parse_semver tag = do
  (major, after_major) ← number (skip_first b'v' tag)
  minor_text ← dot after_major
  (minor, after_minor) ← number minor_text
  patch_text ← dot after_minor
  (patch, after) ← number patch_text
  some (record { major = major; minor = minor; patch = patch })

-- The comparison at the end of `isNewerVersion`.
unfoldable pub newer : (local remote : Version) → Bool
newer l r =
    if not (r.major == l.major)
    then ltb l.major r.major
    else if not (r.minor == l.minor)
    then ltb l.minor r.minor
    else ltb l.patch r.patch

-- `isNewerVersion`; `above a b` is Qt's `a > b` of texts.
unfoldable pub is_newer_version : (above : String → String → Bool) → (local remote : String) → Bool
unfolding newer
is_newer_version above local remote = elim (parse_semver local) [
  | none ↦ above remote local
  | some l ↦ elim (parse_semver remote) [ none ↦ above remote local | some r ↦ newer l r ]
]

pub record Updater : Type 0 where
  pub current_version : String
  pub latest_version : String
  pub download_url : String
  pub update_ready : Bool

-- The fields that are read of a release; `assets` has the download URLs of its assets.
pub record Release : Type 0 where
  pub tag_name : String
  pub assets : List String
  pub html_url : String

pub data UpdateReply : Type 0 where
  network_error not_an_object : UpdateReply
  a_release : Release → UpdateReply

pub data UpdateSignal : Type 0 where
  check_finished : UpdateSignal
  update_available : (version url : String) → UpdateSignal

abbrev pub first_asset : List String → String
first_asset [] = ""
first_asset (url ∷ urls) = url

abbrev pub release_url : Release → String
release_url r = if is_empty (first_asset r.assets) then r.html_url else first_asset r.assets

-- `checkNow`: whether a request is sent.
unfoldable pub check_now : (check_for_updates : Bool) → Bool × List UpdateSignal
check_now true = (true, [])
check_now false = (false, check_finished ∷ [])

-- The timers of the checks: whether the shot of the constructor is still to come, the interval in
-- milliseconds, and whether the periodic timer runs. The constructor sets the interval alone.
pub record CheckTimers : Type 0 where
  pub first_pending : Bool
  pub interval : ℕ
  pub running : Bool

abbrev pub new_timers : CheckTimers
new_timers = record { first_pending = true; interval = 86400000; running = false }

-- `setCheckInterval`, of milliseconds.
unfoldable pub set_check_interval : ℤ → CheckTimers → CheckTimers
set_check_interval (pos zero) t = record t { running = false }
set_check_interval (pos (suc n)) t = record t { interval = suc n; running = true }
set_check_interval (negsuc n) t = record t { running = false }

-- A timer calls `checkNow`; `allowed` is what the settings say.
pub data TimerEvent : Type 0 where
  first_shot fires : (allowed : Bool) → TimerEvent
  sets_interval : ℤ → TimerEvent

-- The requests that are sent.
unfoldable pub timer_step : TimerEvent → CheckTimers → CheckTimers × ℕ
unfolding check_now
timer_step (first_shot allowed) t =
    (record t { first_pending = false }, if t.first_pending && (check_now allowed).0 then 1 else 0)
timer_step (fires allowed) t = (t, if t.running && (check_now allowed).0 then 1 else 0)
timer_step (sets_interval n) t = (set_check_interval n t, 0)

unfoldable pub timer_run : List TimerEvent → CheckTimers → ℕ
timer_run [] t = 0
timer_run (e ∷ es) t = let (t', sent) = timer_step e t in sent + timer_run es t'

-- `onReplyFinished`.
unfoldable pub on_reply_finished :
    (above : String → String → Bool) → UpdateReply → Updater → Updater × List UpdateSignal
on_reply_finished above network_error u = (u, check_finished ∷ [])
on_reply_finished above not_an_object u = (u, check_finished ∷ [])
on_reply_finished above (a_release r) u =
    if is_empty r.tag_name
    then (u, check_finished ∷ [])
    else if is_newer_version above u.current_version r.tag_name
    then (
      record u { latest_version = r.tag_name; download_url = release_url r; update_ready = true },
      update_available r.tag_name (release_url r) ∷ [],
    )
    else (u, check_finished ∷ [])

unfoldable pub updater_run : (above : String → String → Bool) → List UpdateReply → Updater → Updater
updater_run above [] u = u
updater_run above (r ∷ rs) u = updater_run above rs (on_reply_finished above r u).0
