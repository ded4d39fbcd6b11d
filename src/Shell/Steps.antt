-- ===== src/Shell/Steps.antt =====
-- One event at the windows of coder-dlp-compositor/src/shell.c: what it makes of the lists and the trees.
use coder_desktop_linux.Common.{
  ℕ, ◌≡◌, refl, ap, sym, Bool, true, false, Option, none, some, [], ◌∷◌, ◌++◌, if◌then◌else◌, All,
  arith, inl, inr, Option-cases, not, ◌||◌,
}
use coder_desktop_linux.Links.{joined}
use coder_desktop_linux.Shell.{
  destroy_toplevel, toplevel_index, toplevel_links, popup_destroy, popup_index, popup_links, Tree,
  scene_root, below, Shell, set_tree, handle_new_xdg_toplevel, handle_new_xdg_popup,
  handle_toplevel_destroy, handle_popup_destroy, ShellEvent, toplevel_comes, popup_comes,
  toplevel_goes, popup_goes, forget, shell_step,
}
use coder_desktop_linux.Shell.History.{
  tree_step, toplevel_made, popup_made, toplevel_ends, popup_ends, without, without-none,
}
use coder_desktop_linux.Shell.Objects.{
  surfaces, IsLinked, emit_destroy-linked, toplevel_joined, toplevel_loose, popup_joined,
  popup_loose,
}

-- wlroots gives a scene tree to every toplevel that has its object.
abbrev pub is_drawn : ShellEvent → Bool
is_drawn (toplevel_comes allocated drawn has_callback w) = not allocated || drawn
is_drawn _ = true

pub record IsWhole (s : Shell) : Type 0 where
  pub toplevels_linked : All IsLinked s.toplevels
  pub popups_linked : All IsLinked s.popups

pub record Follows (e : ShellEvent) (s after : Shell) : Type 0 where
  pub toplevels :
      surfaces after.toplevels
      ≡ toplevel_made e s.tree_of ++ without (toplevel_ends e) (surfaces s.toplevels)
  pub popups :
      surfaces after.popups ≡ popup_made e s.tree_of ++ without (popup_ends e) (surfaces s.popups)
  pub trees : after.tree_of ≡ tree_step e s.tree_of

abbrev pub Followed : ShellEvent → Shell → Type 0
Followed e s = (after : Shell) × (shell_step e s ≡ some after) × IsWhole after × Follows e s after

-- An event that leaves everything as it is.
pub unchanged :
    (e : ShellEvent) (s : Shell)
    → IsWhole s
    → shell_step e s ≡ some s
    → toplevel_made e s.tree_of ≡ []
    → popup_made e s.tree_of ≡ []
    → toplevel_ends e ≡ (λ v. false)
    → popup_ends e ≡ (λ v. false)
    → tree_step e s.tree_of ≡ s.tree_of
    → Followed e s
unchanged e s w stays t p te pe trees = (
  s,
  stays,
  w,
  record {
    toplevels = rw (t, te) (sym (without-none _));
    popups = rw (p, pe) (sym (without-none _));
    trees = sym trees;
  },
)

pub toplevel-Followed :
    (allocated drawn has_callback : Bool) (w : ℕ) (s : Shell)
    → IsWhole s
    → is_drawn (toplevel_comes allocated drawn has_callback w) ≡ true
    → Followed (toplevel_comes allocated drawn has_callback w) s
unfolding shell_step handle_new_xdg_toplevel toplevel_made popup_made toplevel_ends popup_ends
    tree_step
toplevel-Followed false drawn has_callback w s whole d =
    unchanged (toplevel_comes false drawn has_callback w) s whole refl refl refl refl refl refl
toplevel-Followed true false has_callback w s whole d = absurd (ground arith)
toplevel-Followed true true has_callback w s whole d =
    let after : Shell = record {
      toplevels = record { surface = w; links = λ l. joined } ∷ s.toplevels;
      popups = s.popups;
      tree_of = set_tree w (some (below scene_root w)) s.tree_of;
      told = if has_callback then w ∷ s.told else s.told;
    } in
    (
      after,
      rw toplevel_joined refl,
      record {
        toplevels_linked = (refl, whole.toplevels_linked);
        popups_linked = whole.popups_linked;
      },
      record {
        toplevels = ap (λ l. w ∷ l) (sym (without-none _));
        popups = sym (without-none _);
        trees = refl;
      },
    )

pub popup_inside :
    (allocated drawn : Bool) (parent w : ℕ) (s : Shell)
    → IsWhole s
    → (tree : Tree) → s.tree_of parent ≡ some tree
    → Followed (popup_comes allocated drawn (some parent) w) s
unfolding shell_step handle_new_xdg_popup toplevel_made popup_made toplevel_ends popup_ends
    tree_step
popup_inside false drawn parent w s whole tree inside =
    unchanged (popup_comes false drawn (some parent) w) s whole
      (rw (inside, shell_step, handle_new_xdg_popup) refl) refl (rw (inside, popup_made) refl) refl
      refl (rw (inside, tree_step) refl)
popup_inside true drawn parent w s whole tree inside =
    let after : Shell = record s {
      popups = record { surface = w; links = λ l. joined } ∷ s.popups;
      tree_of = set_tree w (if drawn then some (below tree w) else none) s.tree_of;
    } in
    (
      after,
      rw (inside, popup_joined, shell_step, handle_new_xdg_popup) refl,
      record {
        toplevels_linked = whole.toplevels_linked;
        popups_linked = (refl, whole.popups_linked);
      },
      record {
        toplevels = sym (without-none _);
        popups = rw (inside, popup_made) (ap (λ l. w ∷ l) (sym (without-none _)));
        trees = rw (inside, tree_step) refl;
      },
    )

pub popup-Followed :
    (allocated drawn : Bool) (parent : Option ℕ) (w : ℕ) (s : Shell)
    → IsWhole s
    → Followed (popup_comes allocated drawn parent w) s
unfolding shell_step handle_new_xdg_popup toplevel_made popup_made toplevel_ends popup_ends
    tree_step
popup-Followed allocated drawn none w s whole =
    unchanged (popup_comes allocated drawn none w) s whole refl refl refl refl refl refl
popup-Followed allocated drawn (some parent) w s whole = elim (Option-cases (s.tree_of parent)) [
  | inl outside ↦
      unchanged (popup_comes allocated drawn (some parent) w) s whole
        (rw (outside, shell_step, handle_new_xdg_popup) refl) refl (rw (outside, popup_made) refl)
        refl refl (rw (outside, tree_step) refl)
  | inr (tree, inside) ↦ popup_inside allocated drawn parent w s whole tree inside
]

pub toplevel_gone : (w : ℕ) (s : Shell) → IsWhole s → Followed (toplevel_goes w) s
unfolding shell_step handle_toplevel_destroy forget toplevel_made popup_made toplevel_ends
    popup_ends tree_step
toplevel_gone w s whole =
    let (left, e, linked, same) =
      emit_destroy-linked toplevel_index destroy_toplevel toplevel_links w s.toplevels
        toplevel_loose whole.toplevels_linked in
    let after : Shell = record s { toplevels = left; tree_of = set_tree w none s.tree_of } in
    (
      after,
      rw (e, shell_step, handle_toplevel_destroy) refl,
      record { toplevels_linked = linked; popups_linked = whole.popups_linked },
      record { toplevels = same; popups = sym (without-none _); trees = refl },
    )

pub popup_gone : (w : ℕ) (s : Shell) → IsWhole s → Followed (popup_goes w) s
unfolding shell_step handle_popup_destroy forget toplevel_made popup_made toplevel_ends popup_ends
    tree_step
popup_gone w s whole =
    let (left, e, linked, same) =
      emit_destroy-linked popup_index popup_destroy popup_links w s.popups popup_loose
        whole.popups_linked in
    let after : Shell = record s { popups = left; tree_of = set_tree w none s.tree_of } in
    (
      after,
      rw (e, shell_step, handle_popup_destroy) refl,
      record { toplevels_linked = whole.toplevels_linked; popups_linked = linked },
      record { toplevels = sym (without-none _); popups = same; trees = refl },
    )

pub shell_step-Followed :
    (e : ShellEvent) (s : Shell) → IsWhole s → is_drawn e ≡ true → Followed e s
shell_step-Followed (toplevel_comes allocated drawn has_callback w) s whole d =
    toplevel-Followed allocated drawn has_callback w s whole d
shell_step-Followed (popup_comes allocated drawn parent w) s whole d =
    popup-Followed allocated drawn parent w s whole
shell_step-Followed (toplevel_goes w) s whole d = toplevel_gone w s whole
shell_step-Followed (popup_goes w) s whole d = popup_gone w s whole
