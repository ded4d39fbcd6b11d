-- ===== src/Output/Frame.antt =====
-- The frames of coder-dlp-compositor/src/output.c and their watermark.
use coder_desktop_linux.Common.{
  ℕ, ◌≡◌, refl, true, false, none, some, List, [], ◌∷◌, length, arith, ◌⊎◌, inr,
}
use coder_desktop_linux.Watermark.{WatermarkState, Buffer, Mapping, apply, blue_offset}
use coder_desktop_linux.Watermark.Identity.{digest, set_identity-digest}
use coder_desktop_linux.Watermark.Digest.{length-digest, digest-IsBytes}
use coder_desktop_linux.Watermark.Apply.{
  IsWritable, IsWatermarked, with_pixels, blues, apply-IsWatermarked, apply_refused,
}
use coder_desktop_linux.Output.{
  Policy, Marking, set_policy, set_watermark_identity, commit_state, frame_done, marked_frame,
  handle_output_frame,
}

pub set_watermark_identity_lem :
    (scratch identity : List ℕ) (comp : Marking)
    → length scratch ≡ 256
    → length comp.watermark.fingerprint ≡ 32
    → set_watermark_identity scratch (some comp) (some identity)
      ≡ some (
          some (record comp {
            watermark = record comp.watermark {
              fingerprint = digest identity;
              has_identity = true;
            };
          }))
unfolding set_watermark_identity
set_watermark_identity_lem scratch identity comp s f =
    rw (set_identity-digest scratch identity comp.watermark s f, set_watermark_identity) refl

-- Once an identity is set and a policy with a watermark, in this order, a frame that is built in a
-- buffer that can be written to is committed with the digest of that identity as its watermark, in that
-- buffer, and nothing else is committed.
pub frame-IsWatermarked :
    (scratch identity : List ℕ) (comp : Marking) (policy : Policy) (buffer : Buffer)
    → (mapping : Mapping) (boff : ℕ) → length scratch ≡ 256
    → length comp.watermark.fingerprint ≡ 32
    → policy.watermark_enabled ≡ true
    → IsWritable buffer mapping boff
    → (named marked : Marking) × (after : List ℕ) × (set_watermark_identity scratch
          (some comp)
          (some identity)
        ≡ some (some named))
      × (set_policy (some named) (some policy) ≡ some marked)
      × (handle_output_frame true marked (some (some buffer))
          ≡ some (commit_state (some (with_pixels buffer mapping after)) ∷ frame_done ∷ []))
      × IsWatermarked (digest identity) (blues buffer mapping boff) mapping.pixels after
unfolding set_policy handle_output_frame marked_frame
frame-IsWatermarked scratch identity comp policy buffer mapping boff s f enabled w =
    let watermark : WatermarkState = record comp.watermark {
      fingerprint = digest identity;
      has_identity = true;
    } in
    let named : Marking = record comp { watermark = watermark } in
    let (after, applied, marked) = apply-IsWatermarked buffer mapping watermark boff w (record {
      identified = refl;
      full = length-digest identity;
      bytes = digest-IsBytes identity;
    }) in
    (
      named,
      record named { policy = policy },
      after,
      set_watermark_identity_lem scratch identity comp s f,
      refl,
      rw (enabled, applied, handle_output_frame, marked_frame) refl,
      marked,
    )

unmarked_frame :
    (watermark : WatermarkState) (buffer : Buffer)
    → apply (some buffer) (some watermark) ≡ some (false, some buffer)
    → marked_frame watermark (some (some buffer))
      ≡ some (commit_state (some buffer) ∷ frame_done ∷ [])
unfolding marked_frame
unmarked_frame watermark buffer refused = rw (refused, marked_frame) refl

-- Where the policy asks for a watermark and there is an identity, but the buffer gives no access or has
-- a format that is not supported, the frame is committed without a mark.
pub frame_unmarked :
    (comp : Marking) (buffer : Buffer) (mapping : Mapping)
    → comp.policy.watermark_enabled ≡ true
    → comp.watermark.has_identity ≡ true
    → (buffer.mapping ≡ none)
      ⊎ ((buffer.mapping ≡ some mapping) × (blue_offset mapping.format ≡ none))
    → handle_output_frame true comp (some (some buffer))
      ≡ some (commit_state (some buffer) ∷ frame_done ∷ [])
unfolding handle_output_frame
frame_unmarked comp buffer mapping enabled named unmarked =
    let refused = apply_refused buffer mapping comp.watermark (inr unmarked) in
    ground (arith, unmarked_frame comp.watermark buffer refused)
