-- ===== src/Watermark/Digest.antt =====
-- The digest that `dlp_watermark_set_identity` (coder-dlp-compositor/src/watermark.c) leaves is a
-- fingerprint that `dlp_watermark_apply`, there, can use: 32 bytes.
use coder_desktop_linux.Common.{
  ℕ, zero, suc, ◌*◌, ◌/◌, ◌<◌, ◌≡◌, refl, List, arith, length, le_bytes, length-append, All,
  All-append, get_or-lt,
}
use coder_desktop_linux.Watermark.Identity.{lane, lanes, digest, length-lane}
use coder_desktop_linux.Watermark.Walk.{IsBytes}

length-lanes : (n i : ℕ) (identity : List ℕ) → length (lanes n i identity) ≡ n * 8
unfolding lanes
length-lanes zero i identity = refl
length-lanes (suc n) i identity = omega (
  arith,
  length-append (lane i identity) (lanes n (suc i) identity),
  length-lane i identity,
  length-lanes n (suc i) identity,
)

pub length-digest : (identity : List ℕ) → length (digest identity) ≡ 32
unfolding digest
length-digest identity = length-lanes 4 0 identity

All-le_bytes : (n w : ℕ) → All (λ b. b < 256) (le_bytes n w)
unfolding le_bytes
All-le_bytes zero w = tt
All-le_bytes (suc n) w = (omega arith, All-le_bytes n (w / 256))

All-lanes : (n i : ℕ) (identity : List ℕ) → All (λ b. b < 256) (lanes n i identity)
unfolding lanes lane
All-lanes zero i identity = tt
All-lanes (suc n) i identity =
    All-append (λ b. b < 256) (lane i identity) (lanes n (suc i) identity) (All-le_bytes 8 _)
      (All-lanes n (suc i) identity)

pub digest-IsBytes : (identity : List ℕ) → IsBytes (digest identity)
unfolding digest
digest-IsBytes identity = get_or-lt 256 (digest identity) (omega arith) (All-lanes 4 0 identity)
