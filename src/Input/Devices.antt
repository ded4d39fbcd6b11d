-- ===== src/Input/Devices.antt =====
-- What the seat offers and which devices the compositor keeps, after any sequence of new devices:
-- `dlp_compositor_handle_new_input` of coder-dlp-compositor/src/input.c.
use coder_desktop_linux.Common.{
  ℕ, ◌≡◌, refl, ◌∙◌, ap, Bool, true, false, ◌||◌, Option, some, List, [], ◌∷◌, arith,
}
use coder_desktop_linux.Input.{
  Device, keyboard, pointer, touch, InputState, add_capability, setup_keyboard, setup_touch,
  setup_device, handle_new_input,
}

-- A new device, and whether XKB gives a context and a keymap when it comes.
pub record Arrival : Type 0 where
  pub context : Bool
  pub keymap : Bool
  pub device : Device

abbrev pub is_keyboard : Device → Bool
is_keyboard (keyboard k) = true
is_keyboard _ = false

abbrev pub is_pointer : Device → Bool
is_pointer (pointer p) = true
is_pointer _ = false

abbrev pub is_touch : Device → Bool
is_touch (touch t) = true
is_touch _ = false

abbrev pub any_device : (Device → Bool) → List Arrival → Bool
any_device p [] = false
any_device p (a ∷ rest) = p a.device || any_device p rest

abbrev pub kept_keyboard : (context keymap : Bool) → Device → Option ℕ → Option ℕ
kept_keyboard true true (keyboard k) before = some k
kept_keyboard _ _ _ before = before

abbrev pub kept_touch : Device → Option ℕ → Option ℕ
kept_touch (touch t) before = some t
kept_touch _ before = before

-- The value that the last device to set it leaves.
abbrev pub last_kept : (Arrival → Option ℕ → Option ℕ) → Option ℕ → List Arrival → Option ℕ
last_kept kept before [] = before
last_kept kept before (a ∷ rest) = last_kept kept (kept a before) rest

module _ (F : Type 0) where
  unfoldable pub connect : List Arrival → InputState → InputState
  unfolding handle_new_input
  connect [] comp = comp
  connect (a ∷ rest) comp =
      connect rest ((handle_new_input {F = F} a.context a.keymap a.device comp).0)

  one-capabilities :
      (context keymap : Bool) (device : Device) (comp : InputState)
      → let after = (handle_new_input {F = F} context keymap device comp).0.capabilities in
        (after.has_pointer ≡ comp.capabilities.has_pointer || is_pointer device)
        × (after.has_keyboard ≡ comp.capabilities.has_keyboard || is_keyboard device)
        × (after.has_touch ≡ comp.capabilities.has_touch || is_touch device)
  unfolding handle_new_input setup_device add_capability setup_keyboard setup_touch
  one-capabilities context keymap device comp = ground arith

  one-devices :
      (context keymap : Bool) (device : Device) (comp : InputState)
      → let after = (handle_new_input {F = F} context keymap device comp).0 in
        (after.keyboard_device ≡ kept_keyboard context keymap device comp.keyboard_device)
        × (after.touch_device ≡ kept_touch device comp.touch_device)
  unfolding handle_new_input setup_device add_capability setup_keyboard setup_touch
  one-devices context keymap device comp = ground arith

  -- What the seat offers after the devices have come: each capability that it had or that a device
  -- brings, also that of a keyboard that could not be set up.
  pub connect-capabilities :
      (devices : List Arrival) (comp : InputState)
      → let after = (connect devices comp).capabilities in
        (after.has_pointer ≡ comp.capabilities.has_pointer || any_device is_pointer devices)
        × (after.has_keyboard ≡ comp.capabilities.has_keyboard || any_device is_keyboard devices)
        × (after.has_touch ≡ comp.capabilities.has_touch || any_device is_touch devices)
  unfolding connect
  connect-capabilities [] comp = ground arith
  connect-capabilities (a ∷ rest) comp =
      let comp' = (handle_new_input {F = F} a.context a.keymap a.device comp).0 in
      let one = one-capabilities a.context a.keymap a.device comp in
      let after = connect-capabilities rest comp' in ground arith

  -- The devices that the compositor keeps after the devices have come: the last keyboard for which XKB
  -- gave a context and a keymap, and the last touch screen, or those it had.
  pub connect-devices :
      (devices : List Arrival) (comp : InputState)
      → let after = connect devices comp in
        (after.keyboard_device
          ≡ last_kept (λ a. kept_keyboard a.context a.keymap a.device) comp.keyboard_device devices)
        × (after.touch_device ≡ last_kept (λ a. kept_touch a.device) comp.touch_device devices)
  unfolding connect
  connect-devices [] comp = (refl, refl)
  connect-devices (a ∷ rest) comp =
      let comp' = (handle_new_input {F = F} a.context a.keymap a.device comp).0 in
      let (k, t) = one-devices a.context a.keymap a.device comp in
      let (ks, ts) = connect-devices rest comp' in
      (
        ks ∙ ap (λ b. last_kept (λ a'. kept_keyboard a'.context a'.keymap a'.device) b rest) k,
        ts ∙ ap (λ b. last_kept (λ a'. kept_touch a'.device) b rest) t,
      )
