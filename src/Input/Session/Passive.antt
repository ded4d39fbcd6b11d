-- ===== src/Input/Session/Passive.antt =====
-- Input handlers of coder-dlp-compositor/src/input.c that move no focus.
use coder_desktop_linux.Common.{ℕ, ◌≡◌, refl, Bool, Option, none, some, List, [], ◌∷◌, arith}
use coder_desktop_linux.Scene.{Window, Surface, Call, touch_notify_down, active, focused}
use coder_desktop_linux.Focus.{Seat, Node}
use coder_desktop_linux.Input.{
  handle_keyboard_key, buffer_surface, process_cursor_motion, handle_request_set_cursor,
  handle_touch_motion, handle_touch_cancel,
}

module _ {F : Type 0} where
  -- Calls that leave the activation of every window and the focus as they are.
  unfoldable pub IsPassive : List (Call F) → Type 0
  unfolding active focused
  IsPassive cs =
      ((w : Window) (b : Bool) → active w b cs ≡ b) × ((f : Option Surface) → focused f cs ≡ f)

module _ (F : Type 0) where
  pub cancel-IsPassive : (points : List (Option ℕ)) → IsPassive (handle_touch_cancel {F = F} points)
  unfolding handle_touch_cancel active focused IsPassive
  cancel-IsPassive [] = (λ w b. refl, λ f. refl)
  cancel-IsPassive (none ∷ points) = cancel-IsPassive points
  cancel-IsPassive (some client ∷ points) = cancel-IsPassive points

  pub motion-IsPassive :
      (place : Option (Node F)) (time : ℕ) → IsPassive (process_cursor_motion place time)
  unfolding process_cursor_motion buffer_surface active focused IsPassive
  motion-IsPassive none time = (λ w b. refl, λ f. refl)
  motion-IsPassive (some n) time = (λ w b. ground arith, λ f. ground arith)

  pub key-IsPassive :
      (is_x11 : Bool) (seat : Seat) (k : ℕ) (logo : Bool) (time code : ℕ) (pressed : Bool)
      → IsPassive (handle_keyboard_key {F = F} is_x11 seat k logo time code pressed)
  unfolding handle_keyboard_key active focused IsPassive
  key-IsPassive is_x11 seat k logo time code pressed = (λ w b. ground arith, λ f. ground arith)

  pub request-IsPassive :
      (focus client : Option ℕ) (surface : ℕ)
      → IsPassive (handle_request_set_cursor {F = F} focus client surface)
  unfolding handle_request_set_cursor active focused IsPassive
  request-IsPassive focus client surface = (λ w b. ground arith, λ f. ground arith)

  pub touch_motion-IsPassive :
      (times : F → ℕ → F) (output : Option (ℕ × ℕ)) (node_at : F → F → Option (Node F)) (x y : F)
      (time id : ℕ)
      → IsPassive (handle_touch_motion times output node_at x y time id)
  unfolding handle_touch_motion buffer_surface active focused IsPassive
  touch_motion-IsPassive times output node_at x y time id = (λ w b. ground arith, λ f. ground arith)

  -- What follows the focus when a touch comes down.
  unfoldable pub notice : Option (Node F) → (time id : ℕ) → List (Call F)
  unfolding buffer_surface
  notice place time id = elim (buffer_surface place) [
    | none ↦ []
    | some (surface, sx, sy) ↦ touch_notify_down surface time id sx sy ∷ []
  ]

  pub notice-IsPassive : (place : Option (Node F)) (time id : ℕ) → IsPassive (notice place time id)
  unfolding notice buffer_surface active focused IsPassive
  notice-IsPassive none time id = (λ w b. refl, λ f. refl)
  notice-IsPassive (some n) time id = (λ w b. ground arith, λ f. ground arith)
