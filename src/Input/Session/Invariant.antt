-- ===== src/Input/Session/Invariant.antt =====
-- The activation of windows against the keyboard's focus, over the events of a session that
-- coder-dlp-compositor/src/input.c handles.
use coder_desktop_linux.Common.{
  ℕ, ◌≡◌, refl, sym, ◌∙◌, ap, subst, true, false, Option, none, some, List, [], ◌∷◌, ◌++◌, arith,
}
use coder_desktop_linux.Scene.{
  Window, Surface, of_window, other, Owner, toplevel, xsurface, Call, same_window, active,
  active-append, focused, focused-append,
}
use coder_desktop_linux.Focus.{
  Seat, Node, enter, owner_above, deactivate, focus_owner, focus_node, handle_cursor_button,
  touch_focus_at,
}
use coder_desktop_linux.Focus.Exclusive.{
  OnlyFocused, window_of, same_window_eq, deactivate-inactive, focus_owner-active, focus_node-found,
  focus-touch,
}
use coder_desktop_linux.Input.{
  handle_keyboard_key, handle_keyboard_modifiers, process_cursor_motion, handle_cursor_motion,
  handle_cursor_motion_absolute, handle_cursor_axis, handle_cursor_frame, handle_request_set_cursor,
  handle_touch_down, handle_touch_up, handle_touch_motion, handle_touch_cancel, handle_touch_frame,
}
use coder_desktop_linux.Input.Session.{
  Event, key, modifiers, motion, motion_absolute, button, axis, frame, request_set_cursor, down, up,
  touch_move, cancel, touch_frame, handle, Activation, after, session, seat_of, AttachedOwner,
  AttachedNode, Attached,
}
use coder_desktop_linux.Common.{All}
use coder_desktop_linux.Input.Session.Passive.{
  IsPassive, notice, cancel-IsPassive, motion-IsPassive, key-IsPassive, request-IsPassive,
  touch_motion-IsPassive, notice-IsPassive,
}

module _ {F : Type 0} (times : F → ℕ → F) where
  -- The focus that a press gives to a window.
  focus_owner-focused :
      (seat : Seat) (owner : Owner) (f : Option Surface)
      → AttachedOwner times (some owner)
      → seat.has_keyboard ≡ true
      → focused {F = F} f (focus_owner seat owner) ≡ some (of_window (window_of owner))
  unfolding focused focus_owner enter
  focus_owner-focused seat (toplevel id) f attached has = ground arith
  focus_owner-focused seat (xsurface id attached_now) f attached has = ground arith

  deactivate-focused : (f before : Option Surface) → focused {F = F} before (deactivate f) ≡ before
  unfolding focused deactivate
  deactivate-focused none before = refl
  deactivate-focused (some (of_window w)) before = refl
  deactivate-focused (some (other id)) before = refl

  owner-OnlyFocused :
      (s : Activation times) (owner : Owner)
      → AttachedOwner times (some owner)
      → s.has_keyboard ≡ true
      → OnlyFocused s.on s.focus
      → let calls = deactivate {F = F} s.focus ++ focus_owner (seat_of times s) owner in
        OnlyFocused (λ w. active w (s.on w) calls) (focused s.focus calls)
  owner-OnlyFocused s owner attached has only w act =
      focused-append s.focus (deactivate s.focus) (focus_owner (seat_of times s) owner)
      ∙ focus_owner-focused (seat_of times s) owner _ attached has
      ∙ ap (λ v. some (of_window v)) (same_window_eq (window_of owner) w now)
    where
      now : same_window (window_of owner) w ≡ true
      now =
          sym (
            active-append w (s.on w) (deactivate s.focus) (focus_owner (seat_of times s) owner)
            ∙ ap (λ b. active w b (focus_owner {F = F} (seat_of times s) owner))
                (deactivate-inactive F s.on s.focus w only)
            ∙ focus_owner-active F (seat_of times s) owner w)
          ∙ act

  -- The calls of a press leave only the focused window active.
  focus_node-OnlyFocused :
      (s : Activation times) (node : Option (Node F))
      → AttachedNode times node
      → s.has_keyboard ≡ true
      → OnlyFocused s.on s.focus
      → OnlyFocused
          (λ w. active w (s.on w) (focus_node (seat_of times s) node))
          (focused s.focus (focus_node (seat_of times s) node))
  unfolding focus_node active focused AttachedNode
  focus_node-OnlyFocused s none attached has only = only
  focus_node-OnlyFocused s (some n) attached has only = go (owner_above n.trees) refl attached
    where
      go :
          (o : Option Owner)
          → owner_above n.trees ≡ o
          → AttachedOwner times o
          → OnlyFocused
              (λ w. active w (s.on w) (focus_node (seat_of times s) (some n)))
              (focused s.focus (focus_node (seat_of times s) (some n)))
      go none nobody _ =
          subst
            (λ calls. OnlyFocused (λ w. active w (s.on w) calls) (focused {F = F} s.focus calls))
            (sym (unfocused nobody)) only
        where
          unfocused : owner_above n.trees ≡ none → focus_node (seat_of times s) (some n) ≡ []
          unfocused eq = rw (eq, focus_node) refl
      go (some owner) found ok =
          subst
            (λ calls. OnlyFocused (λ w. active w (s.on w) calls) (focused {F = F} s.focus calls))
            (sym (focus_node-found F (seat_of times s) n owner found))
            (owner-OnlyFocused s owner ok has only)

  IsPassive-OnlyFocused :
      (s : Activation times) (cs : List (Call F))
      → IsPassive cs
      → OnlyFocused s.on s.focus
      → OnlyFocused (λ w. active w (s.on w) cs) (focused s.focus cs)
  unfolding IsPassive
  IsPassive-OnlyFocused s cs (same_active, same_focus) only w act =
      same_focus s.focus ∙ only w (sym (same_active w (s.on w)) ∙ act)

  pressed-OnlyFocused :
      (s : Activation times) (place place' : Option (Node F)) (time id : ℕ)
      → AttachedNode times place
      → s.has_keyboard ≡ true
      → OnlyFocused s.on s.focus
      → let calls = touch_focus_at (seat_of times s) place ++ notice F place' time id in
        OnlyFocused (λ w. active w (s.on w) calls) (focused s.focus calls)
  pressed-OnlyFocused s place place' time id ok has only w act =
      focused-append s.focus (touch_focus_at (seat_of times s) place) (notice F place' time id)
      ∙ IsPassive-OnlyFocused
          (record {
            has_keyboard = s.has_keyboard;
            on = λ v. active v (s.on v) (touch_focus_at (seat_of times s) place);
            focus = focused s.focus (touch_focus_at (seat_of times s) place);
          })
          (notice F place' time id) (notice-IsPassive F place' time id) focused_only w
          (sym (
              active-append w (s.on w) (touch_focus_at (seat_of times s) place)
                (notice F place' time id))
            ∙ act)
    where
      focused_only :
          OnlyFocused
            (λ v. active v (s.on v) (touch_focus_at (seat_of times s) place))
            (focused s.focus (touch_focus_at (seat_of times s) place))
      focused_only =
          subst
            (λ calls. OnlyFocused (λ v. active v (s.on v) calls) (focused {F = F} s.focus calls))
            (focus-touch F (seat_of times s) place) (focus_node-OnlyFocused s place ok has only)

  down-OnlyFocused :
      (s : Activation times) (output : Option (ℕ × ℕ))
      (node_at node_after : F → F → Option (Node F))
      → (x y : F) (time id : ℕ) → Attached times (down output node_at node_after x y time id)
      → s.has_keyboard ≡ true
      → OnlyFocused s.on s.focus
      → let calls =
          handle_touch_down times output (seat_of times s) node_at node_after x y time id in
        OnlyFocused (λ w. active w (s.on w) calls) (focused s.focus calls)
  unfolding handle_touch_down notice AttachedNode Attached
  down-OnlyFocused s none node_at node_after x y time id ok has only =
      pressed-OnlyFocused s (node_at x y) (node_after x y) time id ok has only
  down-OnlyFocused s (some (width, height)) node_at node_after x y time id ok has only =
      pressed-OnlyFocused s (node_at (times x width) (times y height))
        (node_after (times x width) (times y height)) time id ok has only

  after-OnlyFocused :
      (s : Activation times) (e : Event times)
      → Attached times e
      → s.has_keyboard ≡ true
      → OnlyFocused s.on s.focus
      → OnlyFocused (after times s e).on (after times s e).focus
  unfolding after handle handle_cursor_motion handle_cursor_motion_absolute
      handle_keyboard_modifiers handle_cursor_button handle_cursor_axis handle_cursor_frame
      handle_touch_up handle_touch_frame active focused AttachedNode Attached IsPassive
  after-OnlyFocused s (key is_x11 k logo time code pressed) ok has only =
      IsPassive-OnlyFocused s
        (handle_keyboard_key is_x11 (seat_of times s) k logo time code pressed)
        (key-IsPassive F is_x11 (seat_of times s) k logo time code pressed) only
  after-OnlyFocused s (modifiers k) ok has only =
      IsPassive-OnlyFocused s (handle_keyboard_modifiers k) (λ w b. refl, λ f. refl) only
  after-OnlyFocused s (motion dx dy place time) ok has only =
      IsPassive-OnlyFocused s (process_cursor_motion place time) (motion-IsPassive F place time)
        only
  after-OnlyFocused s (motion_absolute x y place time) ok has only =
      IsPassive-OnlyFocused s (process_cursor_motion place time) (motion-IsPassive F place time)
        only
  after-OnlyFocused s (button time code true place) ok has only =
      focus_node-OnlyFocused s place ok has only
  after-OnlyFocused s (button time code false place) ok has only = only
  after-OnlyFocused s axis ok has only = only
  after-OnlyFocused s frame ok has only = only
  after-OnlyFocused s (request_set_cursor focus client surface) ok has only =
      IsPassive-OnlyFocused s (handle_request_set_cursor focus client surface)
        (request-IsPassive F focus client surface) only
  after-OnlyFocused s (down output node_at node_after x y time id) ok has only =
      down-OnlyFocused s output node_at node_after x y time id ok has only
  after-OnlyFocused s (up time id) ok has only = only
  after-OnlyFocused s (touch_move output node_at x y time id) ok has only =
      IsPassive-OnlyFocused s (handle_touch_motion times output node_at x y time id)
        (touch_motion-IsPassive F times output node_at x y time id) only
  after-OnlyFocused s (cancel points) ok has only =
      IsPassive-OnlyFocused s (handle_touch_cancel points) (cancel-IsPassive F points) only
  after-OnlyFocused s touch_frame ok has only = only

  run-OnlyFocused :
      (s : Activation times) (es : List (Event times))
      → All (Attached times) es
      → s.has_keyboard ≡ true
      → OnlyFocused s.on s.focus
      → OnlyFocused (session times s es).on (session times s es).focus
  unfolding session after
  run-OnlyFocused s [] ok has only = only
  run-OnlyFocused s (e ∷ es) (ok, oks) has only =
      run-OnlyFocused (after times s e) es oks has (after-OnlyFocused s e ok has only)

  -- Any session of input events on a seat with a keyboard that stays, each Xwayland window under a press
  -- having a surface, from a state in which only the window with the keyboard's focus may be active: a window
  -- that is active at the end is the one with the keyboard's focus then.
  pub session-OnlyFocused :
      (s : Activation times) (es : List (Event times)) (w : Window)
      → All (Attached times) es
      → s.has_keyboard ≡ true
      → OnlyFocused s.on s.focus
      → (session times s es).on w ≡ true
      → (session times s es).focus ≡ some (of_window w)
  session-OnlyFocused s es w ok has only act = run-OnlyFocused s es ok has only w act
