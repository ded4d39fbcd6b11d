-- ===== src/Watermark/Rng.antt =====
-- `xorshift128_next` and the seed of `dlp_watermark_apply` in coder-dlp-compositor/src/watermark.c.
use coder_desktop_linux.Common.{
  ℕ, ◌*◌, ◌/◌, ◌%◌, ◌^◌, ◌<◌, ◌≡◌, arith, bit_xor, bit_xor-lt, bit_xor_cancel, bit_xor-zero,
}
use coder_desktop_linux.Watermark.{XorShift128, xorshift128_next}

-- Each word of the state is a `uint32_t`.
pub record IsWords (rng : XorShift128) : Type 0 where
  pub w0 : rng.s0 < 2 ^ 32
  pub w1 : rng.s1 < 2 ^ 32
  pub w2 : rng.s2 < 2 ^ 32
  pub w3 : rng.s3 < 2 ^ 32

-- The state that a xorshift generator never leaves.
abbrev pub IsZero : XorShift128 → Type 0
IsZero rng = (rng.s0 ≡ 0) × (rng.s1 ≡ 0) × (rng.s2 ≡ 0) × (rng.s3 ≡ 0)

pub next-IsWords : (rng : XorShift128) → IsWords rng → IsWords (xorshift128_next rng).0
unfolding xorshift128_next
next-IsWords rng w = record { w0 = new; w1 = w.w0; w2 = w.w1; w3 = w.w2 }
  where
    t : ℕ
    t = bit_xor rng.s3 (rng.s3 * 2 ^ 11 % 2 ^ 32)

    t_lt : t < 2 ^ 32
    t_lt = bit_xor-lt 32 rng.s3 (rng.s3 * 2 ^ 11 % 2 ^ 32) w.w3 (omega arith)

    t'_lt : bit_xor t (t / 2 ^ 8) < 2 ^ 32
    t'_lt = bit_xor-lt 32 t (t / 2 ^ 8) t_lt (omega (arith, t_lt))

    new : bit_xor (bit_xor (bit_xor t (t / 2 ^ 8)) rng.s0) (rng.s0 / 2 ^ 19) < 2 ^ 32
    new =
        bit_xor-lt 32 (bit_xor (bit_xor t (t / 2 ^ 8)) rng.s0) (rng.s0 / 2 ^ 19)
          (bit_xor-lt 32 (bit_xor t (t / 2 ^ 8)) rng.s0 t'_lt w.w0) (omega arith)

next-IsZero : (rng : XorShift128) → rng.s3 < 2 ^ 32 → IsZero (xorshift128_next rng).0 → IsZero rng
unfolding xorshift128_next
next-IsZero rng w (z0, z1, z2, z3) = (z1, z2, z3, last)
  where
    t : ℕ
    t = bit_xor rng.s3 (rng.s3 * 2 ^ 11 % 2 ^ 32)

    mixed : bit_xor t (t / 2 ^ 8) ≡ 0
    mixed = simp (z1, bit_xor-zero) at z0

    t_zero : t ≡ 0
    t_zero = omega (arith, bit_xor_cancel t (t / 2 ^ 8) mixed)

    last : rng.s3 ≡ 0
    last = omega (arith, bit_xor_cancel rng.s3 (rng.s3 * 2 ^ 11 % 2 ^ 32) t_zero)

-- The generator keeps words of 32 bits and never gets to the all-zero state, from which it could
-- not come back, unless it started there.
pub next-nonzero :
    (rng : XorShift128)
    → IsWords rng
    → ¬ (IsZero rng)
    → IsWords (xorshift128_next rng).0 × ¬ (IsZero (xorshift128_next rng).0)
next-nonzero rng w nz = (next-IsWords rng w, λ z. nz (next-IsZero rng w.w3 z))
