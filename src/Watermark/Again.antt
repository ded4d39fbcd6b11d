-- ===== src/Watermark/Again.antt =====
-- `dlp_watermark_apply` of coder-dlp-compositor/src/watermark.c on a buffer that is marked already.
use coder_desktop_linux.Common.{
  ℕ, ◌%◌, ◌≡◌, ◌≢◌, ◌⊎◌, inl, inr, refl, ◌∙◌, ap, true, some, List, [], ◌∷◌, arith, All, ℕ_discrete,
  get_or_ext, subst,
}
use coder_desktop_linux.Watermark.{WatermarkState, Buffer, Mapping, apply}
use coder_desktop_linux.Watermark.Walk.{sites, fp_bit, byte_at}
use coder_desktop_linux.Watermark.Apply.{
  IsWatermarked, IsWritable, IsIdentified, blues, with_pixels, apply-IsWatermarked,
}

-- Where two lists carry the same bits at all sites, they agree there in the lowest bit.
same_bits :
    (fingerprint xs ys : List ℕ) (ss : List (ℕ × ℕ)) (j : ℕ)
    → All (λ site. byte_at xs site.0 % 2 ≡ fp_bit fingerprint site.1) ss
    → All (λ site. byte_at ys site.0 % 2 ≡ fp_bit fingerprint site.1) ss
    → All (λ site. site.0 ≢ j) ss ⊎ (byte_at xs j % 2 ≡ byte_at ys j % 2)
same_bits fingerprint xs ys [] j a b = inl tt
same_bits fingerprint xs ys ((p, k) ∷ ss) j (h, a) (e, b) = elim (ℕ_discrete p j) [
  | yes here ↦ inr (rw (← here) (omega arith))
  | no ne ↦ elim (same_bits fingerprint xs ys ss j a b) [ inl av ↦ inl (ne, av) | inr s ↦ inr s ]
]

stable :
    (fingerprint bs before xs ys : List ℕ)
    → IsWatermarked fingerprint bs before xs
    → IsWatermarked fingerprint bs xs ys
    → ys ≡ xs
stable fingerprint bs before xs ys a b = get_or_ext 0 ys xs b.same_length same
  where
    one_rng : a.rng ≡ b.rng
    one_rng = cc (a.seeded, b.seeded)

    a_marked : All (λ site. byte_at xs site.0 % 2 ≡ fp_bit fingerprint site.1) (sites bs b.rng 0)
    a_marked =
        subst
          (λ rng. All (λ site. byte_at xs site.0 % 2 ≡ fp_bit fingerprint site.1) (sites bs rng 0))
          one_rng a.marked

    same : (j : ℕ) → byte_at ys j ≡ byte_at xs j
    same j = elim (same_bits fingerprint ys xs (sites bs b.rng 0) j b.marked a_marked) [
      | inl av ↦ b.outside j av
      | inr bit ↦ omega (arith, b.high j)
    ]

-- A buffer that carries the watermark already, as one that is shown again does, is left as it is:
-- `apply` on the result of `apply` gives the same buffer.
pub apply-apply :
    (buffer : Buffer) (mapping : Mapping) (state : WatermarkState) (boff : ℕ)
    → IsWritable buffer mapping boff
    → IsIdentified state
    → (once : Buffer) × (apply (some buffer) (some state) ≡ some (true, some once))
      × (apply (some once) (some state) ≡ some (true, some once))
apply-apply buffer mapping state boff w i =
    let (xs, first, a) = apply-IsWatermarked buffer mapping state boff w i in
    let once = with_pixels buffer mapping xs in
    let again : IsWritable once (record mapping { pixels = xs }) boff = record {
      mapped = refl;
      supported = w.supported;
      row_fits = w.row_fits;
      rows_fit = rw a.same_length w.rows_fit;
      bytes = a.bytes;
    } in
    let (ys, second, b) =
      apply-IsWatermarked once (record mapping { pixels = xs }) state boff again i in
    (
      once,
      first,
      second
          ∙ ap (λ t. some (true, some (with_pixels buffer mapping t)))
              (stable state.fingerprint (blues buffer mapping boff) mapping.pixels xs ys a b),
    )
