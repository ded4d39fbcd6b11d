-- ===== src/Tests/Windows.antt =====
-- Toplevels and popups on concrete inputs (coder-dlp-compositor/src/shell.c).
use coder_desktop_linux.Common.{◌≡◌, refl, true, false, none, some, List, [], ◌∷◌, All, arith}
use coder_desktop_linux.Shell.{
  scene_root, below, Shell, ShellEvent, toplevel_comes, popup_comes, toplevel_goes, popup_goes,
  free_toplevels, shell_run, no_windows,
}
use coder_desktop_linux.Shell.History.{
  tree_step, trees_after, toplevel_made, popup_made, toplevel_ends, popup_ends, without, ended,
  standing,
}
use coder_desktop_linux.Shell.Objects.{surfaces, IsLinked}
use coder_desktop_linux.Shell.Windows.{shell_run-IsLinked}

-- The toplevel 2 has no object, so its popup 4 is not shown; the popup 5 hangs in the popup 3.
abbrev clicks : List ShellEvent
clicks =
    toplevel_comes true true true 1
    ∷ toplevel_comes false true true 2
    ∷ popup_comes true true (some 1) 3
    ∷ popup_comes true true (some 2) 4
    ∷ popup_comes true true (some 3) 5
    ∷ toplevel_comes true true false 6
    ∷ popup_goes 3
    ∷ toplevel_goes 6
    ∷ []

shell_run-IsLinked_example :
    (after : Shell) × (shell_run clicks no_windows ≡ some after)
    × All IsLinked after.toplevels
    × All IsLinked after.popups
    × (surfaces after.toplevels ≡ 1 ∷ [])
    × (surfaces after.popups ≡ 5 ∷ [])
    × (free_toplevels after.toplevels ≡ some [])
    × (after.tree_of ≡ trees_after clicks (λ s. none))
unfolding trees_after tree_step standing ended without toplevel_made toplevel_ends popup_made
    popup_ends
shell_run-IsLinked_example = shell_run-IsLinked clicks (ground arith)

nested_popup : trees_after clicks (λ s. none) 5 ≡ some (below (below (below scene_root 1) 3) 5)
unfolding trees_after tree_step
nested_popup = refl
