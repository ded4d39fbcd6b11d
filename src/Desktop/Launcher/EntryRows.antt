-- ===== src/Desktop/Launcher/EntryRows.antt =====
-- The rows of app/src/apps/RunningAppModel.cpp as a list.
use coder_desktop_linux.Common.{
  same_int_eq, Bool-cases, ◌+◌, ◌-◌, if◌then◌else◌, ℕ, zero, suc, ◌≡◌, refl, sym, ap, Bool, false,
  some, List, [], ◌∷◌, ◌++◌, map, get_elem?, set, arith, Option-cases, ℤ, same_int, inl, inr,
}
use coder_desktop_linux.Output.{Policy, set_policy, set_watermark_identity}
use coder_desktop_linux.Desktop.Launcher.{
  Entry, RunningApp, Launcher, without_pid, remove_at, identify_apps,
}

abbrev pub entry_of : RunningApp → Entry
entry_of app = record { pid = app.pid; app_name = app.app_name; command = app.command }

abbrev pub entries_of : List RunningApp → List Entry
entries_of apps = map entry_of apps

-- How many rows have this process id.
unfoldable pub rows_with : ℤ → List Entry → ℕ
rows_with pid [] = 0
rows_with pid (e ∷ es) = (if same_int e.pid pid then 1 else 0) + rows_with pid es

-- Every process id has as many rows as applications.
abbrev pub IsTracked : Launcher → Type 0
IsTracked s = (pid : ℤ) → rows_with pid s.entries ≡ rows_with pid (entries_of s.apps)

pub rows_with-append :
    (pid : ℤ) (es : List Entry) (e : Entry)
    → rows_with pid (es ++ e ∷ []) ≡ rows_with pid es + rows_with pid (e ∷ [])
unfolding rows_with
rows_with-append pid [] e = omega arith
rows_with-append pid (x ∷ es) e = omega (arith, rows_with-append pid es e)

-- The first row of a process id goes, where there is one.
pub rows_with-without_pid :
    (pid q : ℤ) (es : List Entry)
    → rows_with pid (without_pid q es)
      ≡ (if same_int q pid then rows_with pid es - 1 else rows_with pid es)
unfolding rows_with without_pid
rows_with-without_pid pid q [] = ground arith
rows_with-without_pid pid q (e ∷ es) = elim (Bool-cases (same_int e.pid q)) [
  | inl gone ↦
      let same : e.pid ≡ q = same_int_eq e.pid q gone in
      let alike : same_int e.pid pid ≡ same_int q pid = ap (λ p. same_int p pid) same in
      rw (gone, without_pid) (ground (arith, alike))
  | inr stays ↦ elim (Bool-cases (same_int q pid)) [
    | inl asked ↦
        let same : q ≡ pid = same_int_eq q pid asked in
        let other : same_int e.pid pid ≡ false = rw (← same) stays in
        rw (stays, without_pid) (ground (arith, other, rows_with-without_pid pid q es, asked))
    | inr unasked ↦
        rw (stays, without_pid) (ground (arith, rows_with-without_pid pid q es, unasked))
  ]
]

pub rows_with-remove_at :
    (pid : ℤ) (i : ℕ) (apps : List RunningApp) (app : RunningApp)
    → get_elem? apps i ≡ some app
    → rows_with pid (entries_of apps)
      ≡ rows_with pid (entries_of (remove_at i apps)) + (if same_int app.pid pid then 1 else 0)
unfolding rows_with
rows_with-remove_at pid i [] app e = cc
rows_with-remove_at pid zero (x ∷ xs) app e = let same : x ≡ app = cc in rw (← same) (omega arith)
rows_with-remove_at pid (suc i) (x ∷ xs) app e = omega (arith, rows_with-remove_at pid i xs app e)

module _ (app : RunningApp) where
  pub entries_of-set :
      (i : ℕ) (b : Bool) (apps : List RunningApp)
      → get_elem? apps i ≡ some app
      → entries_of (set apps i (record app { bwrap_exited = b })) ≡ entries_of apps
  entries_of-set i b [] e = cc
  entries_of-set zero b (x ∷ xs) e =
      let same : x ≡ app = cc in ap (λ (y : RunningApp). entry_of y ∷ entries_of xs) (sym same)
  entries_of-set (suc i) b (x ∷ xs) e = ap (λ es. entry_of x ∷ es) (entries_of-set i b xs e)

pub entries_of-append :
    (apps : List RunningApp) (app : RunningApp)
    → entries_of (apps ++ app ∷ []) ≡ entries_of apps ++ entry_of app ∷ []
entries_of-append [] app = refl
entries_of-append (x ∷ xs) app = ap (λ es. entry_of x ∷ es) (entries_of-append xs app)

pub entries_of-policy :
    (policy : Policy) (apps : List RunningApp)
    → entries_of (
        map
          (λ (app : RunningApp). record app {
            compositor = set_policy app.compositor (some policy);
          })
          apps)
      ≡ entries_of apps
entries_of-policy policy [] = refl
entries_of-policy policy (x ∷ xs) = ap (λ es. entry_of x ∷ es) (entries_of-policy policy xs)

pub entries_of-identify :
    (scratch identity : List ℕ) (apps apps' : List RunningApp)
    → identify_apps scratch identity apps ≡ some apps'
    → entries_of apps' ≡ entries_of apps
unfolding identify_apps
entries_of-identify scratch identity [] apps' e = let same : apps' ≡ [] = cc in rw same refl
entries_of-identify scratch identity (app ∷ apps) apps' e =
    elim (Option-cases (set_watermark_identity scratch app.compositor (some identity))) [
      | inl refused ↦ absurd (ground arith)
      | inr (comp, named) ↦ elim (Option-cases (identify_apps scratch identity apps)) [
        | inl refused ↦ absurd (ground arith)
        | inr (rest, more) ↦
            let same : apps' ≡ record app { compositor = comp } ∷ rest = ground arith in
            rw same
              (ap (λ es. entry_of app ∷ es) (entries_of-identify scratch identity apps rest more))
      ]
    ]
