-- ===== src/SurfaceLinks.antt =====
-- The listeners of a window: `handle_xwayland_new_surface`, `handle_xwayland_surface_associate`,
-- `handle_xwayland_surface_dissociate` and `handle_xwayland_surface_destroy` of
-- coder-dlp-compositor/src/xwayland.c.
--
-- A surface of X11 gets and loses its `wlr_surface` while it lives, so its map and unmap listeners are
-- connected and disconnected on the way.
pub mod SurfaceLife
use coder_desktop_linux.Common.{ℕ, zero, suc, Bool, true, false, Option, some, List, [], ◌∷◌, ◌>>=◌}
use coder_desktop_linux.Links.{Link, loose, init_link, add_links, remove_link, remove_links}

pub data SurfaceListener : Type 0 where
  map unmap associate dissociate destroy_surface request_configure request_move : SurfaceListener
  request_resize request_maximize request_fullscreen request_activate : SurfaceListener
  set_override_redirect set_title set_class : SurfaceListener

abbrev pub surface_index : SurfaceListener → ℕ
surface_index map = 0
surface_index unmap = 1
surface_index associate = 2
surface_index dissociate = 3
surface_index destroy_surface = 4
surface_index request_configure = 5
surface_index request_move = 6
surface_index request_resize = 7
surface_index request_maximize = 8
surface_index request_fullscreen = 9
surface_index request_activate = 10
surface_index set_override_redirect = 11
surface_index set_title = 12
surface_index set_class = 13

abbrev pub SurfaceLinks : Type 0
SurfaceLinks = SurfaceListener → Link

-- `calloc`, the two `wl_list_init` and the listeners of `handle_xwayland_new_surface`.
unfoldable pub new_surface : Option SurfaceLinks
new_surface =
    add_links surface_index
      (associate ∷ dissociate ∷ destroy_surface ∷ request_configure ∷ request_move ∷ request_resize
        ∷ request_maximize ∷ request_fullscreen ∷ request_activate ∷ set_override_redirect
        ∷ set_title ∷ set_class ∷ [])
      (init_link surface_index unmap (init_link surface_index map (λ l. loose)))

unfoldable pub surface_associate : SurfaceLinks → Option SurfaceLinks
surface_associate links = add_links surface_index (map ∷ unmap ∷ []) links

unfoldable pub surface_dissociate : SurfaceLinks → Option SurfaceLinks
surface_dissociate links = do
  one ← remove_link surface_index map links
  two ← remove_link surface_index unmap (init_link surface_index map one)
  some (init_link surface_index unmap two)

-- Also the body of the loop of `dlp_xwayland_destroy`.
unfoldable pub surface_destroy : SurfaceLinks → Option SurfaceLinks
surface_destroy links =
    remove_links surface_index
      (map ∷ unmap ∷ associate ∷ dissociate ∷ destroy_surface ∷ request_configure ∷ request_move
        ∷ request_resize ∷ request_maximize ∷ request_fullscreen ∷ request_activate
        ∷ set_override_redirect ∷ set_title ∷ set_class ∷ [])
      links

-- `n` times an association, a dissociation and so on in turn, from a surface that is associated or not.
unfoldable pub turns : ℕ → (associated : Bool) → SurfaceLinks → Option SurfaceLinks
turns zero associated links = some links
turns (suc n) true links = surface_dissociate links >>= turns n false
turns (suc n) false links = surface_associate links >>= turns n true
