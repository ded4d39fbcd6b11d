-- ===== src/Surfaces/Fill.antt =====
-- The geometry and the focus of the windows of X11 applications, after what they ask for
-- (coder-dlp-compositor/src/xwayland.c).
use coder_desktop_linux.Common.{
  ℕ, ℤ, pos, ◌≡◌, refl, ◌∙◌, Bool, true, false, Option, none, some, List, [], ◌∷◌, ◌++◌,
  if◌then◌else◌, arith,
}
use coder_desktop_linux.Scene.{Window, xwayland, Call, configure, same_window, active}
use coder_desktop_linux.Focus.{Seat, deactivate, enter, focus_xwayland_surface}
use coder_desktop_linux.Focus.Exclusive.{OnlyFocused, xwayland-Exclusive}
use coder_desktop_linux.Surfaces.{
  XwaylandSurface, fill, focus_xsurface, handle_xwayland_surface_map, handle_xwayland_surface_unmap,
  handle_xwayland_request_configure, handle_xwayland_request_maximize,
  handle_xwayland_request_fullscreen, handle_xwayland_request_activate,
}

-- The place and the size of a window.
pub record Geometry : Type 0 where
  pub x : ℤ
  pub y : ℤ
  pub width : ℕ
  pub height : ℕ

abbrev pub configure_effect : {F : Type 0} → Window → Call F → Option Geometry → Option Geometry
configure_effect w (configure v x y width height) before =
    if same_window v w
    then some (record { x = x; y = y; width = width; height = height })
    else before
configure_effect w _ before = before

-- The geometry of a window after the calls.
unfoldable pub geometry : {F : Type 0} → Window → Option Geometry → List (Call F) → Option Geometry
geometry w before [] = before
geometry w before (c ∷ cs) = geometry w (configure_effect w c before) cs

pub geometry-append :
    {F : Type 0} (w : Window) (before : Option Geometry) (xs ys : List (Call F))
    → geometry w before (xs ++ ys) ≡ geometry w (geometry w before xs) ys
unfolding geometry
geometry-append w before [] ys = refl
geometry-append w before (c ∷ xs) ys = geometry-append w (configure_effect w c before) xs ys

-- What an X11 application can ask for its window, with the seat of the moment.
pub data Request : Type 0 where
  map_again unmap maximize fullscreen activate : Seat → Request
  resize : (x y : ℤ) (width height : ℕ) → Request

module _ (F : Type 0) where
  unfoldable pub request : Option (ℕ × ℕ) → XwaylandSurface → Request → List (Call F)
  request output xs (map_again seat) = handle_xwayland_surface_map seat output xs
  request output xs (unmap seat) = handle_xwayland_surface_unmap xs
  request output xs (maximize seat) = handle_xwayland_request_maximize output xs
  request output xs (fullscreen seat) = handle_xwayland_request_fullscreen output xs
  request output xs (activate seat) = handle_xwayland_request_activate seat xs
  request output xs (resize x y width height) =
      handle_xwayland_request_configure output xs x y width height

  unfoldable pub requests : Option (ℕ × ℕ) → XwaylandSurface → List Request → List (Call F)
  requests output xs [] = []
  requests output xs (r ∷ rs) = request output xs r ++ requests output xs rs

  -- To take the focus does not move a window.
  focus-geometry :
      (w : Window) (g : Option Geometry) (seat : Seat) (xs : XwaylandSurface)
      → geometry w g (focus_xsurface {F = F} seat xs) ≡ g
  unfolding geometry focus_xsurface focus_xwayland_surface deactivate enter
  focus-geometry w g seat xs = ground arith

  abbrev full : ℕ → ℕ → Geometry
  full width height = record { x = pos 0; y = pos 0; width = width; height = height }

  request-geometry :
      (xs : XwaylandSurface) (width height : ℕ) (r : Request)
      → xs.override_redirect ≡ false
      → geometry (xwayland xs.id) (some (full width height)) (request (some (width, height)) xs r)
        ≡ some (full width height)
  unfolding geometry request fill handle_xwayland_surface_map handle_xwayland_surface_unmap
      handle_xwayland_request_configure handle_xwayland_request_maximize
      handle_xwayland_request_fullscreen handle_xwayland_request_activate
  request-geometry xs width height (map_again seat) managed =
      ground (arith, focus-geometry (xwayland xs.id) (some (full width height)) seat xs)
  request-geometry xs width height (unmap seat) managed = refl
  request-geometry xs width height (maximize seat) managed = ground arith
  request-geometry xs width height (fullscreen seat) managed = ground arith
  request-geometry xs width height (activate seat) managed =
      focus-geometry (xwayland xs.id) (some (full width height)) seat xs
  request-geometry xs width height (resize x y w h) managed = ground arith

  requests-geometry :
      (xs : XwaylandSurface) (width height : ℕ) (rs : List Request)
      → xs.override_redirect ≡ false
      → geometry (xwayland xs.id) (some (full width height)) (requests (some (width, height)) xs rs)
        ≡ some (full width height)
  unfolding geometry requests
  requests-geometry xs width height [] managed = refl
  requests-geometry xs width height (r ∷ rs) managed =
      geometry-append _ _ (request (some (width, height)) xs r)
        (requests (some (width, height)) xs rs)
      ∙ rw (request-geometry xs width height r managed)
          (requests-geometry xs width height rs managed)

  map-geometry :
      (seat : Seat) (xs : XwaylandSurface) (width height : ℕ) (before : Option Geometry)
      → xs.override_redirect ≡ false
      → geometry
          (xwayland xs.id)
          before
          (handle_xwayland_surface_map {F = F} seat (some (width, height)) xs)
        ≡ some (full width height)
  unfolding geometry fill handle_xwayland_surface_map
  map-geometry seat xs width height before managed =
      ground (arith, focus-geometry (xwayland xs.id) (some (full width height)) seat xs)

  -- A managed window of an X11 application, whatever geometry it had, fills the output once it is mapped,
  -- and whatever it asks for afterwards it still does: it cannot move or resize itself.
  pub requests-fill :
      (seat : Seat) (xs : XwaylandSurface) (width height : ℕ) (before : Option Geometry)
      → (rs : List Request) → xs.override_redirect ≡ false
      → geometry (xwayland xs.id) before (
          handle_xwayland_surface_map {F = F} seat (some (width, height)) xs
          ++ requests (some (width, height)) xs rs)
        ≡ some (full width height)
  requests-fill seat xs width height before rs managed =
      geometry-append (xwayland xs.id) before
        (handle_xwayland_surface_map seat (some (width, height)) xs)
        (requests (some (width, height)) xs rs)
      ∙ rw (map-geometry seat xs width height before managed)
          (requests-geometry xs width height rs managed)

  -- A managed window with a surface that is mapped takes the focus, where only the focused window can
  -- have been active: that window is active afterwards and no other is, or none, where its input model
  -- is global.
  pub managed-Exclusive :
      (seat : Seat) (on : Window → Bool) (output : Option (ℕ × ℕ)) (xs : XwaylandSurface)
      (w : Window)
      → OnlyFocused on seat.focused_surface
      → xs.override_redirect ≡ false
      → xs.attached ≡ true
      → active w (on w) (handle_xwayland_surface_map {F = F} seat output xs)
        ≡ (if xs.global then false else same_window (xwayland xs.id) w)
  unfolding active fill handle_xwayland_surface_map focus_xsurface
  managed-Exclusive seat on none xs w only managed attached =
      ground (arith, xwayland-Exclusive F seat on xs.id xs.global w only)
  managed-Exclusive seat on (some (width, height)) xs w only managed attached =
      ground (arith, xwayland-Exclusive F seat on xs.id xs.global w only)
