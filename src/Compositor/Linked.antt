-- ===== src/Compositor/Linked.antt =====
-- The links of a live compositor (coder-dlp-compositor/src/compositor.c, output.c, input.c) by what the
-- compositor has: an output, a keyboard, a touch screen, Xwayland.
use coder_desktop_linux.Common.{
  ◌≡◌, refl, ap, fun_ext, Bool, true, false, none, some, if◌then◌else◌,
}
use coder_desktop_linux.Scene.{
  Listener, client_created, xwayland_surface, xwayland_ready, output_frame, output_request_state,
  output_destroy, keyboard_key, keyboard_modifiers, touch_down, touch_up, touch_motion,
  touch_cancel, touch_frame,
}
use coder_desktop_linux.Wiring.{Links, same_listener, link, unlink, link_all, unlink_all, unlinked}
use coder_desktop_linux.Compositor.{
  connect_globals, security_context_init, clipboard_init, xwayland_init, xwayland_destroy,
  unlink_if, remove_links, output_listeners, keyboard_listeners, touch_listeners,
}

-- The links of a compositor with or without an output, a keyboard, a touch screen and Xwayland.
unfoldable pub expected : (output keyboard touch xwayland : Bool) → Links
expected o k t x output_frame = o
expected o k t x output_request_state = o
expected o k t x output_destroy = o
expected o k t x keyboard_key = k
expected o k t x keyboard_modifiers = k
expected o k t x touch_down = t
expected o k t x touch_up = t
expected o k t x touch_motion = t
expected o k t x touch_cancel = t
expected o k t x touch_frame = t
expected o k t x xwayland_surface = x
expected o k t x xwayland_ready = x
expected o k t x _ = true

link_output_at :
    (k t x : Bool) (l : Listener)
    → elim (link_all output_listeners (expected false k t x)) [
      | none ↦ false
      | some links ↦ links l
    ]
      ≡ expected true k t x l
unfolding link_all link unlink_all unlink expected
link_output_at k t x client_created = refl
link_output_at k t x _ = refl

pub link_output :
    (k t x : Bool) → link_all output_listeners (expected false k t x) ≡ some (expected true k t x)
unfolding link_all link unlink_all unlink expected
link_output k t x = ap some (fun_ext (link_output_at k t x))

unlink_output_at :
    (k t x : Bool) (l : Listener)
    → elim (unlink_all output_listeners (expected true k t x)) [
      | none ↦ false
      | some links ↦ links l
    ]
      ≡ expected false k t x l
unfolding link_all link unlink_all unlink expected
unlink_output_at k t x client_created = refl
unlink_output_at k t x _ = refl

pub unlink_output :
    (k t x : Bool) → unlink_all output_listeners (expected true k t x) ≡ some (expected false k t x)
unfolding link_all link unlink_all unlink expected
unlink_output k t x = ap some (fun_ext (unlink_output_at k t x))

link_keyboard_at :
    (o t x : Bool) (l : Listener)
    → elim (link_all keyboard_listeners (expected o false t x)) [
      | none ↦ false
      | some links ↦ links l
    ]
      ≡ expected o true t x l
unfolding link_all link unlink_all unlink expected
link_keyboard_at o t x client_created = refl
link_keyboard_at o t x _ = refl

pub link_keyboard :
    (o t x : Bool) → link_all keyboard_listeners (expected o false t x) ≡ some (expected o true t x)
unfolding link_all link unlink_all unlink expected
link_keyboard o t x = ap some (fun_ext (link_keyboard_at o t x))

link_touch_at :
    (o k x : Bool) (l : Listener)
    → elim (link_all touch_listeners (expected o k false x)) [ none ↦ false | some links ↦ links l ]
      ≡ expected o k true x l
unfolding link_all link unlink_all unlink expected
link_touch_at o k x client_created = refl
link_touch_at o k x _ = refl

pub link_touch :
    (o k x : Bool) → link_all touch_listeners (expected o k false x) ≡ some (expected o k true x)
unfolding link_all link unlink_all unlink expected
link_touch o k x = ap some (fun_ext (link_touch_at o k x))

-- The link of the listener that creation connects first.
abbrev pub clients : Links
clients l = if same_listener client_created l then true else unlinked l

connected_at :
    (x : Bool) (l : Listener)
    → elim (connect_globals true x clients) [ none ↦ false | some links ↦ links l ]
      ≡ expected false false false x l
unfolding connect_globals clipboard_init security_context_init xwayland_init link_all link expected
connected_at true client_created = refl
connected_at true _ = refl
connected_at false client_created = refl
connected_at false _ = refl

pub connected : (x : Bool) → connect_globals true x clients ≡ some (expected false false false x)
unfolding connect_globals clipboard_init security_context_init xwayland_init link_all link expected
connected true = ap some (fun_ext (connected_at true))
connected false = ap some (fun_ext (connected_at false))

-- No link is added twice, with the manager of security contexts or without.
pub connect_globals_total :
    (s x : Bool) → (links : Links) × (connect_globals s x clients ≡ some links)
unfolding connect_globals clipboard_init security_context_init xwayland_init link_all link
connect_globals_total true true = (_, refl)
connect_globals_total true false = (_, refl)
connect_globals_total false true = (_, refl)
connect_globals_total false false = (_, refl)

-- The removals of `coder_dlp_destroy`, from the links that are expected.
removed_at :
    (o k t x : Bool) (l : Listener)
    → elim (remove_links o k t x (expected o k t x)) [ none ↦ true | some links ↦ links l ] ≡ false
unfolding remove_links unlink_all unlink unlink_if expected xwayland_destroy
removed_at false false false false client_created = refl
removed_at false false false false _ = refl
removed_at false false false true client_created = refl
removed_at false false false true _ = refl
removed_at false false true false client_created = refl
removed_at false false true false _ = refl
removed_at false false true true client_created = refl
removed_at false false true true _ = refl
removed_at false true false false client_created = refl
removed_at false true false false _ = refl
removed_at false true false true client_created = refl
removed_at false true false true _ = refl
removed_at false true true false client_created = refl
removed_at false true true false _ = refl
removed_at false true true true client_created = refl
removed_at false true true true _ = refl
removed_at true false false false client_created = refl
removed_at true false false false _ = refl
removed_at true false false true client_created = refl
removed_at true false false true _ = refl
removed_at true false true false client_created = refl
removed_at true false true false _ = refl
removed_at true false true true client_created = refl
removed_at true false true true _ = refl
removed_at true true false false client_created = refl
removed_at true true false false _ = refl
removed_at true true false true client_created = refl
removed_at true true false true _ = refl
removed_at true true true false client_created = refl
removed_at true true true false _ = refl
removed_at true true true true client_created = refl
removed_at true true true true _ = refl

pub removed : (o k t x : Bool) → remove_links o k t x (expected o k t x) ≡ some unlinked
unfolding remove_links unlink_all unlink unlink_if expected xwayland_destroy
removed false false false false = ap some (fun_ext (removed_at false false false false))
removed false false false true = ap some (fun_ext (removed_at false false false true))
removed false false true false = ap some (fun_ext (removed_at false false true false))
removed false false true true = ap some (fun_ext (removed_at false false true true))
removed false true false false = ap some (fun_ext (removed_at false true false false))
removed false true false true = ap some (fun_ext (removed_at false true false true))
removed false true true false = ap some (fun_ext (removed_at false true true false))
removed false true true true = ap some (fun_ext (removed_at false true true true))
removed true false false false = ap some (fun_ext (removed_at true false false false))
removed true false false true = ap some (fun_ext (removed_at true false false true))
removed true false true false = ap some (fun_ext (removed_at true false true false))
removed true false true true = ap some (fun_ext (removed_at true false true true))
removed true true false false = ap some (fun_ext (removed_at true true false false))
removed true true false true = ap some (fun_ext (removed_at true true false true))
removed true true true false = ap some (fun_ext (removed_at true true true false))
removed true true true true = ap some (fun_ext (removed_at true true true true))
