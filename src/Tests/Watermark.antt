-- ===== src/Tests/Watermark.antt =====
-- The watermark on concrete buffers (coder-dlp-compositor/src/watermark.c).
use coder_desktop_linux.Common.{
  get_or-lt, ℕ, ◌≡◌, refl, ◌<◌, true, false, some, List, [], ◌∷◌, arith, replicate, All, zero, suc,
}
use coder_desktop_linux.Watermark.{
  WatermarkState, set_identity, XorShift128, argb8888, Mapping, Buffer, apply, blue_offset,
  fnv1a_loop, fnv1a_64,
}
use coder_desktop_linux.Watermark.Identity.{digest, set_identity-digest}
use coder_desktop_linux.Watermark.Walk.{IsBytes}
use coder_desktop_linux.Watermark.Again.{apply-apply}
use coder_desktop_linux.Watermark.Apply.{
  IsWritable, IsIdentified, IsWatermarked, with_pixels, blues, apply-IsWatermarked,
}

abbrev blank : WatermarkState
blank = record { enabled = true; fingerprint = replicate 32 0; has_identity = false }

abbrev marked : WatermarkState
marked = record { enabled = true; fingerprint = replicate 32 165; has_identity = true }

-- Two pixels in one row.
abbrev mapping : Mapping
mapping = record { pixels = 1 ∷ 2 ∷ 3 ∷ 4 ∷ 5 ∷ 6 ∷ 7 ∷ 8 ∷ []; format = argb8888; stride = 8 }

abbrev buffer : Buffer
buffer = record { width = 2; height = 1; mapping = some mapping; accesses = 0 }

-- The published hash of "a".
fnv1a_64_test : fnv1a_64 (97 ∷ []) 1 ≡ some 0xaf63dc4c8601ec8c
unfolding fnv1a_64 fnv1a_loop
fnv1a_64_test = refl

All-replicate : (n b : ℕ) → b < 256 → All (λ x. x < 256) (replicate n b)
All-replicate zero b h = tt
All-replicate (suc n) b h = (h, All-replicate n b h)

IsBytes-replicate : (b : ℕ) → b < 256 → IsBytes (replicate 32 b)
IsBytes-replicate b h = get_or-lt 256 (replicate 32 b) (omega arith) (All-replicate 32 b h)

IsBytes-pixels : IsBytes mapping.pixels
IsBytes-pixels = get_or-lt 256 mapping.pixels (omega arith) (ground arith)

writable : IsWritable buffer mapping 0
unfolding blue_offset
writable = record {
  mapped = refl;
  supported = refl;
  row_fits = omega arith;
  rows_fit = omega arith;
  bytes = IsBytes-pixels;
}

identified : IsIdentified marked
identified = record { identified = refl; full = refl; bytes = IsBytes-replicate 165 (omega arith) }

set_identity-digest_example :
    set_identity (replicate 256 7) (some blank) (some (109 ∷ 101 ∷ []))
    ≡ some (some (record blank { fingerprint = digest (109 ∷ 101 ∷ []); has_identity = true }))
set_identity-digest_example = set_identity-digest (replicate 256 7) (109 ∷ 101 ∷ []) blank refl refl

abbrev one : XorShift128
one = record { s0 = 1; s1 = 0; s2 = 0; s3 = 0 }

apply-IsWatermarked_example :
    (after : List ℕ) × (apply (some buffer) (some marked)
      ≡ some (true, some (with_pixels buffer mapping after)))
    × IsWatermarked marked.fingerprint (blues buffer mapping 0) mapping.pixels after
apply-IsWatermarked_example = apply-IsWatermarked buffer mapping marked 0 writable identified

apply-apply_example :
    (once : Buffer) × (apply (some buffer) (some marked) ≡ some (true, some once))
    × (apply (some once) (some marked) ≡ some (true, some once))
apply-apply_example = apply-apply buffer mapping marked 0 writable identified
