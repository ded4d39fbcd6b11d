-- ===== src/Shell/Windows.antt =====
-- The windows that coder-dlp-compositor/src/shell.c keeps, against what clients did.
use coder_desktop_linux.Common.{
  ◌≡◌, refl, ap, ◌∙◌, true, none, some, List, [], ◌∷◌, All, append-nil, ap₂,
}
use coder_desktop_linux.Shell.{Shell, free_toplevels, ShellEvent, shell_run, no_windows}
use coder_desktop_linux.Shell.History.{
  trees_after, toplevel_made, popup_made, toplevel_ends, popup_ends, without, standing, kept,
  kept-standing,
}
use coder_desktop_linux.Shell.Objects.{surfaces, IsLinked, freed}
use coder_desktop_linux.Shell.Steps.{is_drawn, IsWhole, shell_step-Followed}

shell_run_lem :
    (es : List ShellEvent) (s : Shell)
    → IsWhole s
    → All (λ e. is_drawn e ≡ true) es
    → (after : Shell) × (shell_run es s ≡ some after)
      × IsWhole after
      × (surfaces after.toplevels
          ≡ kept toplevel_made toplevel_ends es s.tree_of (surfaces s.toplevels))
      × (surfaces after.popups ≡ kept popup_made popup_ends es s.tree_of (surfaces s.popups))
      × (after.tree_of ≡ trees_after es s.tree_of)
unfolding shell_run kept trees_after
shell_run_lem [] s whole d = (s, refl, whole, refl, refl, refl)
shell_run_lem (e ∷ es) s whole (drawn, d) =
    let (next, stepped, whole', f) = shell_step-Followed e s whole drawn in
    let (after, ran, whole'', t, p, trees) = shell_run_lem es next whole' d in
    (
      after,
      rw (stepped, shell_run) ran,
      whole'',
      t ∙ ap₂ (kept toplevel_made toplevel_ends es) f.trees f.toplevels,
      p ∙ ap₂ (kept popup_made popup_ends es) f.trees f.popups,
      trees ∙ ap (trees_after es) f.trees,
    )

-- Whatever clients do, if every toplevel with an object has a scene tree: no link is added or removed
-- twice; the compositor keeps exactly the toplevels whose object could be allocated and that are not
-- destroyed, the newest first, and the popups for which this holds and whose parent had a scene tree
-- when they came; every listener of these is connected, and the destruction of the compositor takes
-- each of those of a toplevel out once; and each surface hangs in the tree of its parent.
pub shell_run-IsLinked :
    (es : List ShellEvent)
    → All (λ e. is_drawn e ≡ true) es
    → (after : Shell) × (shell_run es no_windows ≡ some after)
      × All IsLinked after.toplevels
      × All IsLinked after.popups
      × (surfaces after.toplevels ≡ standing toplevel_made toplevel_ends es (λ s. none))
      × (surfaces after.popups ≡ standing popup_made popup_ends es (λ s. none))
      × (free_toplevels after.toplevels ≡ some [])
      × (after.tree_of ≡ trees_after es (λ s. none))
unfolding without
shell_run-IsLinked es d =
    let (after, ran, whole, t, p, trees) =
      shell_run_lem es no_windows (record { toplevels_linked = tt; popups_linked = tt }) d in
    (
      after,
      ran,
      whole.toplevels_linked,
      whole.popups_linked,
      t ∙ kept-standing toplevel_made toplevel_ends es (λ s. none) [] ∙ append-nil _,
      p ∙ kept-standing popup_made popup_ends es (λ s. none) [] ∙ append-nil _,
      freed after.toplevels whole.toplevels_linked,
      trees,
    )
