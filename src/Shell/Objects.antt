-- ===== src/Shell/Objects.antt =====
-- The links of a toplevel or a popup of coder-dlp-compositor/src/shell.c, over its life.
use coder_desktop_linux.Common.{
  ℕ, ◌≡◌, refl, ap, fun_ext, none, some, List, [], ◌∷◌, ◌==◌, All, inl, inr, Bool-cases,
}
use coder_desktop_linux.Common.{map as map_list}
use coder_desktop_linux.Links.{loose, joined, add_link, remove_link, add_links, remove_links}
use coder_desktop_linux.Shell.{
  ToplevelLink, map, toplevel_index, toplevel_links, PopupLink, popup_commit, popup_index,
  popup_links, Linked, emit_destroy, free_toplevels,
}
use coder_desktop_linux.Shell.History.{without}

module _ {L : Type 0} where
  abbrev pub surfaces : List (Linked L) → List ℕ
  surfaces = map_list (λ o. o.surface)

  -- Every listener of the object is connected.
  abbrev pub IsLinked : Linked L → Type 0
  IsLinked o = o.links ≡ (λ l. joined)

  pub emit_destroy-linked :
      (index : L → ℕ) (listener : L) (all : List L) (surface : ℕ) (os : List (Linked L))
      → remove_links index all (λ l. joined) ≡ some (λ l. loose)
      → All IsLinked os
      → (left : List (Linked L)) × (emit_destroy index listener all surface os ≡ some left)
        × All IsLinked left
        × (surfaces left ≡ without (λ v. v == surface) (surfaces os))
  unfolding emit_destroy without
  emit_destroy-linked index listener all surface [] whole h = ([], refl, tt, refl)
  emit_destroy-linked index listener all surface (o ∷ os) whole (linked, h) =
      let (left, e, linked', same) = emit_destroy-linked index listener all surface os whole h in
      elim (Bool-cases (o.surface == surface)) [
        | inl goes ↦
            (left, rw (e, linked, goes, whole, emit_destroy) refl, linked', rw (goes, without) same)
        | inr stays ↦ (
          o ∷ left,
          rw (e, stays, emit_destroy) refl,
          (linked, linked'),
          rw (stays, same, without) refl,
        )
      ]

toplevel_joined_at :
    (l : ToplevelLink)
    → elim (add_links toplevel_index toplevel_links (λ m. loose)) [
      | none ↦ loose
      | some links ↦ links l
    ]
      ≡ joined
unfolding add_links add_link
toplevel_joined_at map = refl
toplevel_joined_at _ = refl

toplevel_loose_at :
    (l : ToplevelLink)
    → elim (remove_links toplevel_index toplevel_links (λ m. joined)) [
      | none ↦ joined
      | some links ↦ links l
    ]
      ≡ loose
unfolding remove_links remove_link
toplevel_loose_at map = refl
toplevel_loose_at _ = refl

popup_joined_at :
    (l : PopupLink)
    → elim (add_links popup_index popup_links (λ m. loose)) [ none ↦ loose | some links ↦ links l ]
      ≡ joined
unfolding add_links add_link
popup_joined_at popup_commit = refl
popup_joined_at _ = refl

popup_loose_at :
    (l : PopupLink)
    → elim (remove_links popup_index popup_links (λ m. joined)) [
      | none ↦ joined
      | some links ↦ links l
    ]
      ≡ loose
unfolding remove_links remove_link
popup_loose_at popup_commit = refl
popup_loose_at _ = refl

-- All links of an object, added one by one from zero, and removed one by one.
pub toplevel_joined : add_links toplevel_index toplevel_links (λ l. loose) ≡ some (λ l. joined)
unfolding add_links add_link
toplevel_joined = ap some (fun_ext toplevel_joined_at)

pub toplevel_loose : remove_links toplevel_index toplevel_links (λ l. joined) ≡ some (λ l. loose)
unfolding remove_links remove_link
toplevel_loose = ap some (fun_ext toplevel_loose_at)

pub popup_joined : add_links popup_index popup_links (λ l. loose) ≡ some (λ l. joined)
unfolding add_links add_link
popup_joined = ap some (fun_ext popup_joined_at)

pub popup_loose : remove_links popup_index popup_links (λ l. joined) ≡ some (λ l. loose)
unfolding remove_links remove_link
popup_loose = ap some (fun_ext popup_loose_at)

pub freed : (ts : List (Linked ToplevelLink)) → All IsLinked ts → free_toplevels ts ≡ some []
unfolding free_toplevels
freed [] h = refl
freed (t ∷ ts) (linked, h) = rw (linked, toplevel_loose, free_toplevels) (freed ts h)
