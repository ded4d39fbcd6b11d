-- ===== src/Desktop/Launcher/Frames.antt =====
-- The frames of the launched applications: app/src/dlp/DlpCompositorManager.cpp with the library's
-- coder-dlp-compositor/src/output.c.
use coder_desktop_linux.Common.{
  ℕ, ◌≡◌, sym, subst, inl, inr, Bool, true, false, Option, some, List, ◌∷◌, [], get_elem?, arith,
  All,
}
use coder_desktop_linux.Watermark.{Buffer, Mapping, apply}
use coder_desktop_linux.Watermark.Identity.{digest}
use coder_desktop_linux.Watermark.Digest.{digest-IsBytes}
use coder_desktop_linux.Watermark.Walk.{IsBytes}
use coder_desktop_linux.Watermark.Apply.{
  IsWritable, IsWatermarked, with_pixels, blues, apply-IsWatermarked,
}
use coder_desktop_linux.Output.{
  Policy, Marking, commit_state, frame_done, marked_frame, handle_output_frame,
}
use coder_desktop_linux.Desktop.Launcher.{
  RunningApp, Launcher, LauncherCall, LauncherEvent, no_bytes, launcher_run,
}
use coder_desktop_linux.Desktop.Launcher.Enforced.{launcher_run-IsEnforced}
use coder_desktop_linux.Desktop.Launcher.Marks.{Shows, IsEnforced, HasScratch, All-get_elem?}

commit_marked :
    (m : Marking) (buffer : Buffer) (done : Bool) (buffer' : Option Buffer)
    → m.policy.watermark_enabled ≡ true
    → m.watermark.has_identity ≡ true
    → apply (some buffer) (some m.watermark) ≡ some (done, buffer')
    → handle_output_frame true m (some (some buffer))
      ≡ some (commit_state buffer' ∷ frame_done ∷ [])
unfolding handle_output_frame marked_frame
commit_marked m buffer done buffer' on has applied = ground arith

shown_frame :
    (m : Marking) (policy : Policy) (identity : List ℕ) (buffer : Buffer) (mapping : Mapping)
    → (boff : ℕ) → Shows policy identity m
    → policy.watermark_enabled ≡ true
    → no_bytes identity ≡ false
    → IsWritable buffer mapping boff
    → (after : List ℕ) × (handle_output_frame true m (some (some buffer))
        ≡ some (commit_state (some (with_pixels buffer mapping after)) ∷ frame_done ∷ []))
      × IsWatermarked (digest identity) (blues buffer mapping boff) mapping.pixels after
shown_frame m policy identity buffer mapping boff (same, full, inl empty) enabled named w = cc
shown_frame m policy identity buffer mapping boff (same, full, inr (has, print)) enabled named w =
    let on : m.policy.watermark_enabled ≡ true = rw same enabled in
    let (after, applied, marked) = apply-IsWatermarked buffer mapping m.watermark boff w (record {
      identified = has;
      full = full;
      bytes = subst IsBytes (sym print) (digest-IsBytes identity);
    }) in
    (
      after,
      commit_marked m buffer true (some (with_pixels buffer mapping after)) on has applied,
      subst (λ d. IsWatermarked d (blues buffer mapping boff) mapping.pixels after) print marked,
    )

-- After any calls of the manager, with a policy that asks for watermarks and an identity that is not
-- empty: a frame of any launched application that is built in a buffer that can be written to is
-- committed with that identity's watermark, in that buffer, and nothing else is committed.
pub launched_frame :
    (es : List LauncherEvent) (s s' : Launcher) (calls : List LauncherCall) (i : ℕ)
    → (app : RunningApp) (buffer : Buffer) (mapping : Mapping) (boff : ℕ) → IsEnforced s
    → All HasScratch es
    → launcher_run es s ≡ some (s', calls)
    → get_elem? s'.apps i ≡ some app
    → s'.current_policy.watermark_enabled ≡ true
    → no_bytes s'.watermark_identity ≡ false
    → IsWritable buffer mapping boff
    → (m : Marking) × (after : List ℕ) × (app.compositor ≡ some m)
      × (handle_output_frame true m (some (some buffer))
          ≡ some (commit_state (some (with_pixels buffer mapping after)) ∷ frame_done ∷ []))
      × IsWatermarked
          (digest s'.watermark_identity)
          (blues buffer mapping boff)
          mapping.pixels
          after
launched_frame es s s' calls i app buffer mapping boff h scratch ran at enabled named w =
    let (t, calls', ran', kept) = launcher_run-IsEnforced es s h scratch in
    let same : t ≡ s' = cc in
    let (m, e, shown) = All-get_elem? _ i app s'.apps (subst IsEnforced same kept) at in
    let (after, committed, marked) =
      shown_frame m s'.current_policy s'.watermark_identity buffer mapping boff shown enabled named
        w in
    (m, after, e, committed, marked)
