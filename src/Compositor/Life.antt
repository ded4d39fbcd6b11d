-- ===== src/Compositor/Life.antt =====
-- The links of a compositor from its creation to its destruction
-- (coder-dlp-compositor/src/compositor.c).
use coder_desktop_linux.Common.{ℕ, ◌≡◌, refl, ◌∙◌, ap, true, false, some, List, [], ◌∷◌}
use coder_desktop_linux.ActiveList.{ActiveList, compositor_list_add, compositor_list_remove}
use coder_desktop_linux.Wiring.{link_all, unlinked}
use coder_desktop_linux.Compositor.{
  Compositor, Creation, create_globals, create_on_display, created, create, destroy, Happening,
  happen_all,
}
use coder_desktop_linux.Compositor.Linked.{expected, connected, removed}
use coder_desktop_linux.Compositor.Events.{orderly, expected_of, orderly_after, happened}

record Lived (comp : Compositor) (hs : List Happening) : Type 0 where
  comp' : Compositor
  returns : happen_all hs comp ≡ some comp'
  linked : comp'.links ≡ expected_of comp'
  same : comp'.address ≡ comp.address

lived :
    (comp : Compositor) (hs : List Happening)
    → comp.links ≡ expected_of comp
    → orderly_after comp hs ≡ true
    → Lived comp hs
unfolding happen_all
lived comp [] linked ok = record { comp' = comp; returns = refl; linked = linked; same = refl }
lived comp (h ∷ hs) linked ok =
    let one = happened comp h hs linked ok in
    let more = lived one.comp' hs one.linked one.still in
    record {
      comp' = more.comp';
      returns = rw (one.returns, happen_all) more.returns;
      linked = more.linked;
      same = more.same ∙ one.same;
    }

destroy_lem :
    (comp : Compositor) (active : ActiveList)
    → comp.links ≡ expected_of comp
    → destroy (some comp) active ≡ some (unlinked, compositor_list_remove comp.address active)
unfolding destroy
destroy_lem comp active linked = rw (linked, removed, destroy) refl

-- The answers of a creation that succeeds, with the manager of security contexts.
pub record IsGranted (c : Creation) (address : ℕ) : Type 0 where
  pub calloc : c.calloc ≡ some address
  pub display : c.display ≡ true
  pub backend : c.backend ≡ true
  pub renderer : c.renderer ≡ true
  pub allocator : c.allocator ≡ true
  pub security : c.security_context_mgr ≡ true
  pub started : c.started ≡ true
  pub socket : c.socket ≡ true

create_lem :
    (c : Creation) (active : ActiveList) (address : ℕ)
    → IsGranted c address
    → create c active
      ≡ some (
        some (created c address (expected false false false c.xwayland)),
        (compositor_list_add c.realloc address active).1,
      )
unfolding create create_on_display create_globals link_all
create_lem c active address g =
    rw
      (
        g.calloc,
        g.display,
        g.backend,
        g.renderer,
        g.allocator,
        g.security,
        g.started,
        g.socket,
        connected c.xwayland,
        create,
        create_on_display,
        create_globals,
      )
      refl

-- A compositor that is created with all that it asks for, the manager of security contexts too, then
-- sees an orderly sequence of outputs and devices and is destroyed: no link is added to a signal that
-- it is in or removed from one that it is not in, and in the end none is left.
pub create-destroy :
    (c : Creation) (active : ActiveList) (address : ℕ) (hs : List Happening)
    → IsGranted c address
    → orderly false false false hs ≡ true
    → (comp : Compositor) × (comp' : Compositor) × (active' : ActiveList) × (create c active
        ≡ some (some comp, active'))
      × (happen_all hs comp ≡ some comp')
      × (destroy (some comp') active' ≡ some (unlinked, compositor_list_remove address active'))
unfolding expected orderly
create-destroy c active address hs g ok =
    let comp = created c address (expected false false false c.xwayland) in
    let active' = (compositor_list_add c.realloc address active).1 in
    let l = lived comp hs refl ok in
    (
      comp,
      l.comp',
      active',
      create_lem c active address g,
      l.returns,
      destroy_lem l.comp' active' l.linked
          ∙ ap (λ a. some (unlinked, compositor_list_remove a active')) l.same,
    )
