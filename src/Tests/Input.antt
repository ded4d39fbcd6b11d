-- ===== src/Tests/Input.antt =====
-- Focus and input on concrete windows (coder-dlp-compositor/src/input.c, xwayland.c, shell.c).
use coder_desktop_linux.Common.{ℕ, ◌≡◌, refl, Bool, true, false, none, some, List, [], ◌∷◌, arith}
use coder_desktop_linux.Scene.{Window, xdg, xwayland, of_window, toplevel, same_window}
use coder_desktop_linux.Focus.{Seat, Node, owner_above}
use coder_desktop_linux.Focus.Exclusive.{OnlyFocused}
use coder_desktop_linux.Input.{InputState}
use coder_desktop_linux.Input.Session.{
  Event, button, down, key, Attached, AttachedNode, Activation, after, session,
}
use coder_desktop_linux.Input.Session.Invariant.{session-OnlyFocused}

abbrev seat : Seat
seat = record { focused_surface = some (of_window (xwayland 1)); has_keyboard = true }

abbrev on_focused : Window → Bool
on_focused w = same_window (xwayland 1) w

only : OnlyFocused on_focused seat.focused_surface
only (xdg n) act = cc
only (xwayland n) act = ground arith

abbrev node : Node ℕ
node = record {
  is_buffer = true;
  surface = some (of_window (xdg 2));
  sx = 3;
  sy = 4;
  trees = none ∷ some (toplevel 2) ∷ [];
}

abbrev idle : InputState
idle = record {
  is_x11_backend = false;
  keyboard_device = none;
  touch_device = none;
  capabilities = record { has_pointer = false; has_keyboard = false; has_touch = false };
}

abbrev scale : ℕ → ℕ → ℕ
scale x width = x

abbrev presses : List (Event scale)
presses =
    button 10 272 true (some node)
    ∷ key false 1 false 11 30 true
    ∷ down none (λ x y. some node) (λ x y. none) 1 2 12 0
    ∷ []

abbrev at_start : Activation scale
at_start = record { has_keyboard = true; on = on_focused; focus = some (of_window (xwayland 1)) }

session-OnlyFocused_example : (session scale at_start presses).focus ≡ some (of_window (xdg 2))
unfolding session after Attached AttachedNode owner_above
session-OnlyFocused_example =
    session-OnlyFocused scale at_start presses (xdg 2) (tt, (tt, (tt, tt))) refl only refl
