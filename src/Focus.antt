-- ===== src/Focus.antt =====
-- Focus: `dlp_handle_cursor_button` and `touch_focus_at` of coder-dlp-compositor/src/input.c,
-- `focus_xwayland_surface` of xwayland.c and `handle_toplevel_map` of shell.c, there.
pub mod Exclusive
use coder_desktop_linux.Common.{
  ℕ, ◌≡◌, refl, Bool, true, false, ◌&&◌, Option, none, some, List, [], ◌∷◌, ◌++◌, ◌==◌,
  if◌then◌else◌,
}
use coder_desktop_linux.Scene.{
  Window, xdg, xwayland, Surface, of_window, other, Owner, toplevel, xsurface, Call, set_activated,
  offer_focus, raise_to_top, keyboard_enter, pointer_button,
}

-- The seat, as the handlers read it: the surface with the keyboard's focus, and whether the seat has a
-- keyboard.
pub record Seat : Type 0 where
  pub focused_surface : Option Surface
  pub has_keyboard : Bool

-- What `wlr_scene_node_at` finds: `node->type` is a buffer, the surface of that buffer, the position in
-- it, and `node.data` of the trees above, from the parent up.
pub record Node (F : Type 0) : Type 0 where
  pub is_buffer : Bool
  pub surface : Option Surface
  pub sx : F
  pub sy : F
  pub trees : List (Option Owner)

-- The walk up to the first tree with an owner.
unfoldable pub owner_above : List (Option Owner) → Option Owner
owner_above [] = none
owner_above (none ∷ trees) = owner_above trees
owner_above (some owner ∷ trees) = some owner

module _ {F : Type 0} where
  -- The previously focused window, XDG or Xwayland, is deactivated.
  unfoldable pub deactivate : Option Surface → List (Call F)
  deactivate none = []
  deactivate (some (of_window w)) = set_activated w false ∷ []
  deactivate (some (other id)) = []

  unfoldable pub enter : Bool → Surface → List (Call F)
  enter has_keyboard surface = if has_keyboard then keyboard_enter surface ∷ [] else []

  -- The window under the press gets the focus.
  unfoldable pub focus_owner : Seat → Owner → List (Call F)
  unfolding enter
  focus_owner seat (toplevel id) =
      raise_to_top (xdg id)
      ∷ set_activated (xdg id) true
      ∷ enter seat.has_keyboard (of_window (xdg id))
  focus_owner seat (xsurface id attached) =
      raise_to_top (xwayland id)
      ∷ set_activated (xwayland id) true
      ∷ (if attached then enter seat.has_keyboard (of_window (xwayland id)) else [])

  unfoldable pub focus_node : Seat → Option (Node F) → List (Call F)
  unfolding deactivate focus_owner owner_above
  focus_node seat none = []
  focus_node seat (some node) = elim (owner_above node.trees) [
    | none ↦ []
    | some owner ↦ deactivate seat.focused_surface ++ focus_owner seat owner
  ]

  -- `dlp_handle_cursor_button`: the event, and what lies under the cursor.
  unfoldable pub handle_cursor_button :
      Seat → (time button : ℕ) → (pressed : Bool) → Option (Node F) → List (Call F)
  unfolding focus_node
  handle_cursor_button seat time button pressed node =
      pointer_button time button pressed ∷ (if pressed then focus_node seat node else [])

  -- `touch_focus_at`, with what lies under the touch.
  unfoldable pub touch_focus_at : Seat → Option (Node F) → List (Call F)
  unfolding deactivate enter owner_above
  touch_focus_at seat none = []
  touch_focus_at seat (some node) = elim (owner_above node.trees) [
    | none ↦ []
    | some (toplevel id) ↦
        deactivate seat.focused_surface
        ++ (raise_to_top (xdg id)
            ∷ set_activated (xdg id) true
            ∷ enter seat.has_keyboard (of_window (xdg id)))
    | some (xsurface id attached) ↦
        deactivate seat.focused_surface
        ++ (raise_to_top (xwayland id)
            ∷ set_activated (xwayland id) true
            ∷ (if attached then enter seat.has_keyboard (of_window (xwayland id)) else []))
  ]

  -- `focus_xwayland_surface`: `global` is the answer of the ICCCM input model.
  unfoldable pub focus_xwayland_surface : Seat → (id : ℕ) → (attached global : Bool) → List (Call F)
  unfolding deactivate enter
  focus_xwayland_surface seat id attached global =
      if attached
      then raise_to_top (xwayland id)
        ∷ (deactivate seat.focused_surface
            ++ ((if global then offer_focus id else set_activated (xwayland id) true)
                ∷ enter seat.has_keyboard (of_window (xwayland id))))
      else []

  -- `handle_toplevel_map` asks for an XDG toplevel only.
  unfoldable pub deactivate_xdg : Option Surface → List (Call F)
  deactivate_xdg none = []
  deactivate_xdg (some (of_window (xdg id))) = set_activated (xdg id) false ∷ []
  deactivate_xdg (some (of_window (xwayland id))) = []
  deactivate_xdg (some (other id)) = []

  unfoldable pub handle_toplevel_map : Seat → ℕ → List (Call F)
  unfolding deactivate_xdg enter
  handle_toplevel_map seat id =
      raise_to_top (xdg id)
      ∷ (deactivate_xdg seat.focused_surface
          ++ (set_activated (xdg id) true ∷ enter seat.has_keyboard (of_window (xdg id))))
