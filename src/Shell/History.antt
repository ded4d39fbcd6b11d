-- ===== src/Shell/History.antt =====
-- What clients did to the windows of coder-dlp-compositor/src/shell.c: which windows are to stand after
-- it, in which scene trees.
use coder_desktop_linux.Common.{
  ℕ, ◌≡◌, refl, ap, sym, Bool, false, ◌||◌, Option, none, some, List, [], ◌∷◌, ◌++◌, ◌==◌,
  if◌then◌else◌, append_assoc, arith,
}
use coder_desktop_linux.Shell.{
  Tree, scene_root, below, set_tree, ShellEvent, toplevel_comes, popup_comes, toplevel_goes,
  popup_goes,
}

-- What an event makes of the scene trees of the surfaces.
unfoldable pub tree_step : ShellEvent → (ℕ → Option Tree) → ℕ → Option Tree
tree_step (toplevel_comes allocated drawn has_callback w) trees =
    if allocated then set_tree w (some (below scene_root w)) trees else trees
tree_step (popup_comes allocated drawn none w) trees = trees
tree_step (popup_comes allocated drawn (some parent) w) trees = elim (trees parent) [
  | none ↦ trees
  | some tree ↦
      if allocated then set_tree w (if drawn then some (below tree w) else none) trees else trees
]
tree_step (toplevel_goes w) trees = set_tree w none trees
tree_step (popup_goes w) trees = set_tree w none trees

unfoldable pub trees_after : List ShellEvent → (ℕ → Option Tree) → ℕ → Option Tree
trees_after [] trees = trees
trees_after (e ∷ es) trees = trees_after es (tree_step e trees)

-- The toplevel or the popup that an event makes, under the trees so far, and whether it ends one.
unfoldable pub toplevel_made : ShellEvent → (ℕ → Option Tree) → List ℕ
toplevel_made (toplevel_comes allocated drawn has_callback w) trees =
    if allocated then w ∷ [] else []
toplevel_made _ trees = []

unfoldable pub popup_made : ShellEvent → (ℕ → Option Tree) → List ℕ
popup_made (popup_comes allocated drawn (some parent) w) trees = elim (trees parent) [
  | none ↦ []
  | some tree ↦ if allocated then w ∷ [] else []
]
popup_made _ trees = []

unfoldable pub toplevel_ends : ShellEvent → ℕ → Bool
toplevel_ends (toplevel_goes w) v = v == w
toplevel_ends _ v = false

unfoldable pub popup_ends : ShellEvent → ℕ → Bool
popup_ends (popup_goes w) v = v == w
popup_ends _ v = false

unfoldable pub without : (ℕ → Bool) → List ℕ → List ℕ
without gone [] = []
without gone (w ∷ ws) = if gone w then without gone ws else w ∷ without gone ws

unfoldable pub ended : (ends : ShellEvent → ℕ → Bool) → List ShellEvent → ℕ → Bool
ended ends [] w = false
ended ends (e ∷ es) w = ends e w || ended ends es w

module _ (made : ShellEvent → (ℕ → Option Tree) → List ℕ) (ends : ShellEvent → ℕ → Bool) where
  -- What the events make and do not end later, the last one first.
  unfoldable pub standing : List ShellEvent → (ℕ → Option Tree) → List ℕ
  standing [] trees = []
  standing (e ∷ es) trees =
      standing es (tree_step e trees) ++ without (ended ends es) (made e trees)

  -- The same, kept up event by event.
  unfoldable pub kept : List ShellEvent → (ℕ → Option Tree) → List ℕ → List ℕ
  kept [] trees ws = ws
  kept (e ∷ es) trees ws = kept es (tree_step e trees) (made e trees ++ without (ends e) ws)

without-append :
    (gone : ℕ → Bool) (xs ys : List ℕ)
    → without gone (xs ++ ys) ≡ without gone xs ++ without gone ys
unfolding without
without-append gone [] ys = refl
without-append gone (x ∷ xs) ys = ground (arith, without-append gone xs ys)

without-without :
    (gone later : ℕ → Bool) (ws : List ℕ)
    → without later (without gone ws) ≡ without (λ w. gone w || later w) ws
unfolding without
without-without gone later [] = refl
without-without gone later (w ∷ ws) = ground (arith, without-without gone later ws)

pub without-none : (ws : List ℕ) → without (λ w. false) ws ≡ ws
unfolding without
without-none [] = refl
without-none (w ∷ ws) = ap (λ l. w ∷ l) (without-none ws)

module _ (made : ShellEvent → (ℕ → Option Tree) → List ℕ) (ends : ShellEvent → ℕ → Bool) where
  pub kept-standing :
      (es : List ShellEvent) (trees : ℕ → Option Tree) (ws : List ℕ)
      → kept made ends es trees ws ≡ standing made ends es trees ++ without (ended ends es) ws
  unfolding kept standing ended
  kept-standing [] trees ws = sym (without-none ws)
  kept-standing (e ∷ es) trees ws =
      rw
        (
          kept-standing es (tree_step e trees) (made e trees ++ without (ends e) ws),
          without-append (ended ends es) (made e trees) (without (ends e) ws),
          without-without (ends e) (ended ends es) ws,
          append_assoc,
        )
        refl
