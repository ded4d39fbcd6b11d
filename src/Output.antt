-- ===== src/Output.antt =====
-- coder-dlp-compositor/src/output.c: what a frame of the output commits, with the policy
-- (dlp_policy.c, there) and the identity (`coder_dlp_set_watermark_identity` of compositor.c).
pub mod Frame
use coder_desktop_linux.Common.{
  ℕ, Bool, true, false, ◌&&◌, Option, none, some, List, [], ◌∷◌, if◌then◌else◌, ◌>>=◌,
}
use coder_desktop_linux.Watermark.{WatermarkState, set_identity, Buffer, apply}

-- `coder_dlp_policy`.
pub record Policy : Type 0 where
  pub clipboard_block_outgoing : Bool
  pub clipboard_block_incoming : Bool
  pub screenshot_block : Bool
  pub file_sandbox : Bool
  pub network_sandbox : Bool
  pub watermark_enabled : Bool

-- The two fields of the compositor that decide how a frame is shown.
pub record Marking : Type 0 where
  pub policy : Policy
  pub watermark : WatermarkState

-- `coder_dlp_set_policy`.
unfoldable pub set_policy : Option Marking → Option Policy → Option Marking
set_policy none policy = none
set_policy (some comp) none = some comp
set_policy (some comp) (some policy) = some (record comp { policy = policy })

-- `coder_dlp_set_watermark_identity`: the outer `none` is an access out of bounds.
unfoldable pub set_watermark_identity :
    List ℕ → Option Marking → Option (List ℕ) → Option (Option Marking)
set_watermark_identity scratch none identity = some none
set_watermark_identity scratch (some comp) none = some (some comp)
set_watermark_identity scratch (some comp) (some identity) = do
  state ← set_identity scratch (some comp.watermark) (some identity)
  elim state [
    | none ↦ some (some comp)
    | some watermark ↦ some (some (record comp { watermark = watermark }))
  ]

-- What a frame asks of wlroots. `commit_state` is a commit of the state that was built, with its
-- buffer; `scene_commit` is one of the scene as it is.
pub data Commit : Type 0 where
  commit_state : Option Buffer → Commit
  scene_commit frame_done : Commit

-- The branch with a watermark. `built` is what `wlr_scene_output_build_state` gives: `none` for a
-- failure, else the buffer of the state, if it has one.
unfoldable pub marked_frame : WatermarkState → Option (Option Buffer) → Option (List Commit)
marked_frame watermark none = some (frame_done ∷ [])
marked_frame watermark (some none) = some (commit_state none ∷ frame_done ∷ [])
marked_frame watermark (some (some buffer)) = do
  (done, buffer') ← apply (some buffer) (some watermark)
  some (commit_state buffer' ∷ frame_done ∷ [])

-- `handle_output_frame`; `scene_output` says whether the output has one.
unfoldable pub handle_output_frame :
    (scene_output : Bool) → Marking → Option (Option Buffer) → Option (List Commit)
handle_output_frame scene_output comp built =
    if scene_output
    then if comp.policy.watermark_enabled && comp.watermark.has_identity
      then marked_frame comp.watermark built
      else some (scene_commit ∷ frame_done ∷ [])
    else some []
