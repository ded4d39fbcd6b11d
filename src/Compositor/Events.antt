-- ===== src/Compositor/Events.antt =====
-- Outputs and devices that come and go: what their handlers (coder-dlp-compositor/src/output.c, input.c)
-- make of the links of a compositor.
use coder_desktop_linux.Common.{
  ℕ, ◌≡◌, refl, Bool, true, false, not, ◌&&◌, none, some, List, [], ◌∷◌, arith, inl, inr,
  Bool-cases,
}
use coder_desktop_linux.Input.{
  Device, keyboard, pointer, touch, other_device, InputState, handle_new_input, setup_device,
  add_capability, setup_keyboard, setup_pointer, setup_touch,
}
use coder_desktop_linux.Wiring.{Links, link_all}
use coder_desktop_linux.Compositor.{
  Compositor, is_some, Happening, output_comes, output_goes, device_comes, listened, happen,
}
use coder_desktop_linux.Compositor.Linked.{
  expected, link_output, unlink_output, link_keyboard, link_touch,
}

-- A sequence in which an output comes only where there is none and goes only where there is one, and
-- in which one keyboard that XKB can set up and one touch screen come at most; `o`, `k` and `t` say
-- which are there at the start.
unfoldable pub orderly : (o k t : Bool) → List Happening → Bool
orderly o k t [] = true
orderly o k t (output_comes id ∷ hs) = not o && orderly true k t hs
orderly o k t (output_goes ∷ hs) = o && orderly false k t hs
orderly o k t (device_comes (keyboard i) true true ∷ hs) = not k && orderly o true t hs
orderly o k t (device_comes (touch i) _ _ ∷ hs) = not t && orderly o k true hs
orderly o k t (_ ∷ hs) = orderly o k t hs

abbrev pub expected_of : Compositor → Links
expected_of comp =
    expected (is_some comp.output) (is_some comp.input.keyboard_device)
      (is_some comp.input.touch_device) comp.xwayland

abbrev pub orderly_after : Compositor → List Happening → Bool
orderly_after comp hs =
    orderly (is_some comp.output) (is_some comp.input.keyboard_device)
      (is_some comp.input.touch_device) hs

pub record Happened (comp : Compositor) (h : Happening) (hs : List Happening) : Type 0 where
  pub comp' : Compositor
  pub returns : happen h comp ≡ some comp'
  pub linked : comp'.links ≡ expected_of comp'
  pub still : orderly_after comp' hs ≡ true
  pub same : comp'.address ≡ comp.address

output_came :
    (comp : Compositor) (id : ℕ) (hs : List Happening)
    → comp.links ≡ expected_of comp
    → orderly_after comp (output_comes id ∷ hs) ≡ true
    → Happened comp (output_comes id) hs
unfolding happen expected orderly
output_came comp id hs linked ok = elim (Bool-cases (is_some comp.output)) [
  | inl there ↦ absurd (ground arith)
  | inr free ↦ record {
    comp' = record comp {
      output = some id;
      links =
          expected true (is_some comp.input.keyboard_device) (is_some comp.input.touch_device)
            comp.xwayland;
    };
    returns = rw (linked, free, link_output, happen) refl;
    linked = refl;
    still = ground arith;
    same = refl;
  }
]

output_went :
    (comp : Compositor) (hs : List Happening)
    → comp.links ≡ expected_of comp
    → orderly_after comp (output_goes ∷ hs) ≡ true
    → Happened comp output_goes hs
unfolding happen expected orderly
output_went comp hs linked ok = elim (Bool-cases (is_some comp.output)) [
  | inr free ↦ absurd (ground arith)
  | inl there ↦ record {
    comp' = record comp {
      output = none;
      links =
          expected false (is_some comp.input.keyboard_device) (is_some comp.input.touch_device)
            comp.xwayland;
    };
    returns = rw (linked, there, unlink_output, happen) refl;
    linked = refl;
    still = ground arith;
    same = refl;
  }
]

-- A device that connects no listener.
abbrev with_input : Compositor → InputState → Compositor
with_input comp input = record comp { input = input }

quiet :
    (comp : Compositor) (context keymap : Bool) (device : Device) (hs : List Happening)
    → (input : InputState)
    → listened ((handle_new_input {F = ℕ} context keymap device comp.input).1) ≡ []
    → (handle_new_input {F = ℕ} context keymap device comp.input).0 ≡ input
    → input.keyboard_device ≡ comp.input.keyboard_device
    → input.touch_device ≡ comp.input.touch_device
    → comp.links ≡ expected_of comp
    → orderly_after comp hs ≡ true
    → Happened comp (device_comes device context keymap) hs
unfolding happen link_all
quiet comp context keymap device hs input silent gives k t linked ok = record {
  comp' = with_input comp input;
  returns = rw (silent, gives, happen, link_all) refl;
  linked = rw (k, t) linked;
  still = rw (k, t) ok;
  same = refl;
}

keyboard_came :
    (comp : Compositor) (i : ℕ) (hs : List Happening)
    → comp.links ≡ expected_of comp
    → orderly_after comp (device_comes (keyboard i) true true ∷ hs) ≡ true
    → Happened comp (device_comes (keyboard i) true true) hs
unfolding happen expected orderly handle_new_input setup_device setup_keyboard add_capability
    listened
keyboard_came comp i hs linked ok = elim (Bool-cases (is_some comp.input.keyboard_device)) [
  | inl there ↦ absurd (ground arith)
  | inr free ↦ record {
    comp' = record comp {
      input = (handle_new_input {F = ℕ} true true (keyboard i) comp.input).0;
      links = expected (is_some comp.output) true (is_some comp.input.touch_device) comp.xwayland;
    };
    returns = rw (linked, free, link_keyboard, happen) refl;
    linked = refl;
    still = ground arith;
    same = refl;
  }
]

touch_came :
    (comp : Compositor) (context keymap : Bool) (i : ℕ) (hs : List Happening)
    → comp.links ≡ expected_of comp
    → orderly_after comp (device_comes (touch i) context keymap ∷ hs) ≡ true
    → Happened comp (device_comes (touch i) context keymap) hs
unfolding happen expected orderly handle_new_input setup_device setup_touch add_capability listened
touch_came comp context keymap i hs linked ok =
    elim (Bool-cases (is_some comp.input.touch_device)) [
      | inl there ↦ absurd (ground arith)
      | inr free ↦ record {
        comp' = record comp {
          input = (handle_new_input {F = ℕ} context keymap (touch i) comp.input).0;
          links =
              expected (is_some comp.output) (is_some comp.input.keyboard_device) true
                comp.xwayland;
        };
        returns = rw (linked, free, link_touch, happen) refl;
        linked = refl;
        still = ground arith;
        same = refl;
      }
    ]

pub happened :
    (comp : Compositor) (h : Happening) (hs : List Happening)
    → comp.links ≡ expected_of comp
    → orderly_after comp (h ∷ hs) ≡ true
    → Happened comp h hs
unfolding orderly handle_new_input setup_device setup_keyboard setup_pointer add_capability listened
happened comp (output_comes id) hs linked ok = output_came comp id hs linked ok
happened comp output_goes hs linked ok = output_went comp hs linked ok
happened comp (device_comes (keyboard i) true true) hs linked ok = keyboard_came comp i hs linked ok
happened comp (device_comes (keyboard i) true false) hs linked ok =
    quiet comp true false (keyboard i) hs _ refl refl refl refl linked ok
happened comp (device_comes (keyboard i) false keymap) hs linked ok =
    quiet comp false keymap (keyboard i) hs _ refl refl refl refl linked ok
happened comp (device_comes (touch i) context keymap) hs linked ok =
    touch_came comp context keymap i hs linked ok
happened comp (device_comes (pointer i) context keymap) hs linked ok =
    quiet comp context keymap (pointer i) hs _ refl refl refl refl linked ok
happened comp (device_comes (other_device i) context keymap) hs linked ok =
    quiet comp context keymap (other_device i) hs _ refl refl refl refl linked ok
