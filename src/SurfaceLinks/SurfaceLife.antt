-- ===== src/SurfaceLinks/SurfaceLife.antt =====
-- A surface of X11 from its creation to its destruction (coder-dlp-compositor/src/xwayland.c).
use coder_desktop_linux.Common.{
  ℕ, zero, suc, ◌≡◌, refl, ap, fun_ext, Bool, true, false, none, some, ◌>>=◌,
}
use coder_desktop_linux.Links.{
  loose, alone, joined, init_link, add_link, remove_link, add_links, remove_links,
}
use coder_desktop_linux.SurfaceLinks.{
  SurfaceListener, map, unmap, SurfaceLinks, new_surface, surface_associate, surface_dissociate,
  surface_destroy, turns,
}

-- The links of a living surface.
unfoldable pub living : (associated : Bool) → SurfaceLinks
living true _ = joined
living false map = alone
living false unmap = alone
living false _ = joined

born_at :
    (l : SurfaceListener)
    → elim new_surface [ none ↦ loose | some links ↦ links l ] ≡ living false l
unfolding new_surface add_links add_link init_link living
born_at map = refl
born_at _ = refl

born : new_surface ≡ some (living false)
unfolding new_surface add_links add_link init_link living
born = ap some (fun_ext born_at)

associated_at :
    (l : SurfaceListener)
    → elim (surface_associate (living false)) [ none ↦ loose | some links ↦ links l ]
      ≡ living true l
unfolding surface_associate add_links add_link living
associated_at map = refl
associated_at _ = refl

associated : surface_associate (living false) ≡ some (living true)
unfolding surface_associate add_links add_link living
associated = ap some (fun_ext associated_at)

dissociated_at :
    (l : SurfaceListener)
    → elim (surface_dissociate (living true)) [ none ↦ loose | some links ↦ links l ]
      ≡ living false l
unfolding surface_dissociate remove_link init_link living
dissociated_at map = refl
dissociated_at _ = refl

dissociated : surface_dissociate (living true) ≡ some (living false)
unfolding surface_dissociate remove_link init_link living
dissociated = ap some (fun_ext dissociated_at)

destroyed_at :
    (b : Bool) (l : SurfaceListener)
    → elim (surface_destroy (living b)) [ none ↦ alone | some links ↦ links l ] ≡ loose
unfolding surface_destroy remove_links remove_link living
destroyed_at true map = refl
destroyed_at true _ = refl
destroyed_at false map = refl
destroyed_at false _ = refl

destroyed : (b : Bool) → surface_destroy (living b) ≡ some (λ l. loose)
unfolding surface_destroy remove_links remove_link living
destroyed true = ap some (fun_ext (destroyed_at true))
destroyed false = ap some (fun_ext (destroyed_at false))

turned : (n : ℕ) (b : Bool) → (b' : Bool) × (turns n b (living b) ≡ some (living b'))
unfolding turns
turned zero b = (b, refl)
turned (suc n) true = let (b', e) = turned n false in (b', rw (dissociated, turns) e)
turned (suc n) false = let (b', e) = turned n true in (b', rw (associated, turns) e)

-- However often a surface of X11 is associated and dissociated in turn before it is destroyed, and
-- also if it never is: no link is added twice or removed twice, and in the end none is left.
pub surface_life :
    (n : ℕ)
    → (new_surface >>= λ links. (turns n false links >>= surface_destroy)) ≡ some (λ l. loose)
surface_life n = let (b', e) = turned n false in rw (born, e) (destroyed b')
