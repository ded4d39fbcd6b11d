-- ===== src/Watermark/Apply.antt =====
-- `dlp_watermark_apply` of coder-dlp-compositor/src/watermark.c as a whole.
use coder_desktop_linux.Common.{
  ℕ, ◌+◌, ◌*◌, ◌/◌, ◌%◌, ◌^◌, ◌≤◌, ◌<◌, ◌≡◌, ◌≢◌, ◌⊎◌, true, false, none, some, List, [], ◌∷◌,
  arith, length, get_elem?-eq-get_or, All, if◌then◌else◌, le_word, bit_xor, bit_xor-lt, ◌==◌, ◌&&◌,
}
use coder_desktop_linux.Watermark.{
  WatermarkState, Buffer, Mapping, Format, Scan, XorShift128, blue_offset, seed_word, seed, apply,
  scan_rows,
}
use coder_desktop_linux.Watermark.Rng.{IsWords, IsZero}
use coder_desktop_linux.Watermark.Walk.{
  positions, sites, fp_bit, byte_at, IsBytes, scan_rows-eq-scan_list, positions-Ascending,
  positions-lt,
}
use coder_desktop_linux.Watermark.Stamp.{IsStamped, scan_list-IsStamped}

blue_offset-lt : (format : Format) (boff : ℕ) → blue_offset format ≡ some boff → boff < 4
unfolding blue_offset
blue_offset-lt format boff h = ground arith

le_word_total :
    (bytes : List ℕ) (off : ℕ)
    → off + 3 < length bytes
    → IsBytes bytes
    → (w : ℕ) × (le_word bytes off ≡ some w) × (w < 2 ^ 32)
unfolding le_word
le_word_total bytes off h b = (
  byte_at bytes off
      + byte_at bytes (off + 1) * 256
      + byte_at bytes (off + 2) * 65536
      + byte_at bytes (off + 3) * 16777216,
  rw (
    get_elem?-eq-get_or bytes off 0 (omega arith),
    get_elem?-eq-get_or bytes (off + 1) 0 (omega arith),
    get_elem?-eq-get_or bytes (off + 2) 0 (omega arith),
    get_elem?-eq-get_or bytes (off + 3) 0 (omega arith),
  ),
  omega (arith, b off, b (off + 1), b (off + 2), b (off + 3)),
)

seed_word_total :
    (fingerprint : List ℕ) (i : ℕ)
    → length fingerprint ≡ 32
    → i < 4
    → IsBytes fingerprint
    → (w : ℕ) × (seed_word fingerprint i ≡ some w) × (w < 2 ^ 32)
unfolding seed_word
seed_word_total fingerprint i l h b =
    let (x, ex, lx) = le_word_total fingerprint (i * 4) (omega arith) b in
    let (y, ey, ly) = le_word_total fingerprint (16 + i * 4) (omega arith) b in
    (bit_xor x y, rw (ex, ey), bit_xor-lt 32 x y lx ly)

-- A full fingerprint gives a generator state of four words, and never the all-zero one.
pub seed_total :
    (fingerprint : List ℕ)
    → length fingerprint ≡ 32
    → IsBytes fingerprint
    → (rng : XorShift128) × (seed fingerprint ≡ some rng) × IsWords rng × ¬ (IsZero rng)
unfolding seed
seed_total fingerprint l b =
    let (s0, e0, l0) = seed_word_total fingerprint 0 l (omega arith) b in
    let (s1, e1, l1) = seed_word_total fingerprint 1 l (omega arith) b in
    let (s2, e2, l2) = seed_word_total fingerprint 2 l (omega arith) b in
    let (s3, e3, l3) = seed_word_total fingerprint 3 l (omega arith) b in
    let zeros = s0 == 0 && s1 == 0 && s2 == 0 && s3 == 0 in
    (
      record { s0 = if zeros then 1 else s0; s1 = s1; s2 = s2; s3 = s3 },
      rw (e0, e1, e2, e3),
      ground arith,
      ground arith,
    )

-- What the buffer holds after a watermark. `blues` are the blue bytes of all pixels, row by row.
pub record IsWatermarked (fingerprint blues before after : List ℕ) : Type 0 where
  pub rng : XorShift128
  pub seeded : seed fingerprint ≡ some rng
  pub same_length : length after ≡ length before
  pub bytes : IsBytes after
  pub high : (j : ℕ) → byte_at after j / 2 ≡ byte_at before j / 2
  pub outside :
      (j : ℕ) → All (λ site. site.0 ≢ j) (sites blues rng 0) → byte_at after j ≡ byte_at before j
  pub marked :
      All (λ site. byte_at after site.0 % 2 ≡ fp_bit fingerprint site.1) (sites blues rng 0)

-- A buffer that the code can write to: its format is supported, a row of pixels fits the stride,
-- and the mapped bytes hold all rows.
pub record IsWritable (buffer : Buffer) (mapping : Mapping) (boff : ℕ) : Type 0 where
  pub mapped : buffer.mapping ≡ some mapping
  pub supported : blue_offset mapping.format ≡ some boff
  pub row_fits : buffer.width * 4 ≤ mapping.stride
  pub rows_fit : buffer.height * mapping.stride ≤ length mapping.pixels
  pub bytes : IsBytes mapping.pixels

pub record IsIdentified (state : WatermarkState) : Type 0 where
  pub identified : state.has_identity ≡ true
  pub full : length state.fingerprint ≡ 32
  pub bytes : IsBytes state.fingerprint

abbrev pub blues : Buffer → Mapping → ℕ → List ℕ
blues buffer mapping boff = positions mapping.stride boff buffer.width buffer.height 0

abbrev pub with_pixels : Buffer → Mapping → List ℕ → Buffer
with_pixels buffer mapping pixels = record buffer {
  mapping = some (record mapping { pixels = pixels });
}

All-lt_le : (lo hi : ℕ) (ps : List ℕ) → lo ≤ hi → All (λ p. p < lo) ps → All (λ p. p < hi) ps
All-lt_le lo hi [] h a = tt
All-lt_le lo hi (p ∷ ps) h (lt, a) = ((omega arith), All-lt_le lo hi ps h a)

module _ (buffer : Buffer) (mapping : Mapping) (state : WatermarkState) (boff : ℕ) where
  walk :
      (rng : XorShift128)
      → IsWritable buffer mapping boff
      → IsIdentified state
      → (let scan : Scan = record { rng = rng; bit_idx = 0; pixels = mapping.pixels } in
          IsStamped state.fingerprint
            (blues buffer mapping boff)
            scan
            (scan_rows state.fingerprint mapping.stride boff buffer.width buffer.height 0 scan))
  walk rng w i =
      let small = blue_offset-lt mapping.format boff w.supported in
      rw scan_rows-eq-scan_list (
        scan_list-IsStamped state.fingerprint i.full (blues buffer mapping boff)
          (0 * mapping.stride) _
          (positions-Ascending boff small mapping.stride buffer.width buffer.height 0 w.row_fits)
          (All-lt_le ((0 + buffer.height) * mapping.stride) (length mapping.pixels) _
            (omega (arith, w.rows_fit))
            (positions-lt boff small mapping.stride buffer.width buffer.height 0 w.row_fits))
          (omega arith) w.bytes)

  apply_run :
      (rng : XorShift128) (out : Scan)
      → IsWritable buffer mapping boff
      → IsIdentified state
      → seed state.fingerprint ≡ some rng
      → scan_rows state.fingerprint mapping.stride boff buffer.width buffer.height 0
          (record { rng = rng; bit_idx = 0; pixels = mapping.pixels })
        ≡ some out
      → apply (some buffer) (some state) ≡ some (true, some (with_pixels buffer mapping out.pixels))
  unfolding apply
  apply_run rng out w i seeded run = ground (arith, w.mapped, w.supported, i.identified)

  -- On a buffer that can be written to and a state with an identity, `apply` reads and writes nothing
  -- out of bounds, returns true and closes its access; the pixels change in the lowest bit of blue
  -- bytes only, and the positions that the generator picks carry the bits of the fingerprint in turn.
  pub apply-IsWatermarked :
      IsWritable buffer mapping boff
      → IsIdentified state
      → (after : List ℕ) × (apply (some buffer) (some state)
          ≡ some (true, some (with_pixels buffer mapping after)))
        × IsWatermarked state.fingerprint (blues buffer mapping boff) mapping.pixels after
  unfolding apply
  apply-IsWatermarked w i =
      let (rng, seeded, _, _) = seed_total state.fingerprint i.full i.bytes in
      let r = walk rng w i in
      (
        r.out.pixels,
        apply_run rng r.out w i seeded r.returns,
        record {
          rng = rng;
          seeded = seeded;
          same_length = r.same_length;
          bytes = r.bytes;
          high = r.high;
          outside = r.outside;
          marked = r.marked;
        },
      )

-- Whatever the rest of the input holds, a state with no identity, a buffer that gives no access and a
-- format that is not supported are refused: the result is false and the buffer is as it was.
pub apply_refused :
    (buffer : Buffer) (mapping : Mapping) (state : WatermarkState)
    → (state.has_identity ≡ false)
      ⊎ ((buffer.mapping ≡ none)
          ⊎ ((buffer.mapping ≡ some mapping) × (blue_offset mapping.format ≡ none)))
    → apply (some buffer) (some state) ≡ some (false, some buffer)
unfolding apply
apply_refused buffer mapping state h = ground arith
