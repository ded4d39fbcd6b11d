-- ===== src/Watermark/Walk.antt =====
-- The two loops of `dlp_watermark_apply` in coder-dlp-compositor/src/watermark.c as one walk over
-- the positions of the blue bytes, and what the walk leaves in the buffer.
use coder_desktop_linux.Common.{
  ℕ, zero, suc, ◌+◌, ◌*◌, ◌/◌, ◌%◌, ◌^◌, ◌≤◌, ◌<◌, ◌≡◌, ◌≢◌, inl, inr, refl, ◌∙◌, ap, fun_ext, true,
  false, Option, none, some, List, [], ◌∷◌, ◌++◌, arith, bit_and, bit_and-one, length, set, get_or,
  get_elem?-eq-get_or, All, ◌==◌, if◌then◌else◌, Bool-cases, ◌>>=◌, each_below, each_below_sound,
  ◌&&◌,
}
use coder_desktop_linux.Watermark.{
  Scan, XorShift128, xorshift128_next, set_lsb, visit, scan_row, scan_rows,
}

-- The walk over the positions.
unfoldable pub scan_list : List ℕ → List ℕ → Scan → Option Scan
scan_list fingerprint [] scan = some scan
scan_list fingerprint (pos ∷ rest) scan = visit fingerprint pos scan >>= scan_list fingerprint rest

-- The blue bytes of `left` pixels of a row from `x` on, and of `left` rows from `y` on.
unfoldable pub row_positions : ℕ → ℕ → ℕ → ℕ → List ℕ
row_positions row boff zero x = []
row_positions row boff (suc left) x = (row + x * 4 + boff) ∷ row_positions row boff left (x + 1)

unfoldable pub positions : ℕ → ℕ → ℕ → ℕ → ℕ → List ℕ
positions stride boff width zero y = []
positions stride boff width (suc left) y =
    row_positions (y * stride) boff width 0 ++ positions stride boff width left (y + 1)

bind_assoc :
    {A B C : Type 0} (m : Option A) (f : A → Option B) (g : B → Option C)
    → (m >>= λ a. (f a >>= g)) ≡ ((m >>= f) >>= g)
bind_assoc none f g = refl
bind_assoc (some a) f g = refl

scan_list-append :
    (fingerprint ps qs : List ℕ) (scan : Scan)
    → scan_list fingerprint (ps ++ qs) scan
      ≡ (scan_list fingerprint ps scan >>= scan_list fingerprint qs)
unfolding scan_list
scan_list-append fingerprint [] qs scan = refl
scan_list-append fingerprint (p ∷ ps) qs scan =
    ap (λ k. visit fingerprint p scan >>= k)
      (fun_ext (λ scan'. scan_list-append fingerprint ps qs scan'))
    ∙ bind_assoc (visit fingerprint p scan) (scan_list fingerprint ps) (scan_list fingerprint qs)

scan_row-eq-scan_list :
    (fingerprint : List ℕ) (row boff left x : ℕ) (scan : Scan)
    → scan_row fingerprint row boff left x scan
      ≡ scan_list fingerprint (row_positions row boff left x) scan
unfolding scan_row scan_list row_positions
scan_row-eq-scan_list fingerprint row boff zero x scan = refl
scan_row-eq-scan_list fingerprint row boff (suc left) x scan =
    ap (λ k. visit fingerprint (row + x * 4 + boff) scan >>= k)
      (fun_ext (λ scan'. scan_row-eq-scan_list fingerprint row boff left (x + 1) scan'))

pub scan_rows-eq-scan_list :
    (fingerprint : List ℕ) (stride boff width left y : ℕ) (scan : Scan)
    → scan_rows fingerprint stride boff width left y scan
      ≡ scan_list fingerprint (positions stride boff width left y) scan
unfolding scan_rows scan_list positions
scan_rows-eq-scan_list fingerprint stride boff width zero y scan = refl
scan_rows-eq-scan_list fingerprint stride boff width (suc left) y scan =
    rw (scan_list-append, scan_row-eq-scan_list)
      (ap (λ k. scan_list fingerprint (row_positions (y * stride) boff width 0) scan >>= k)
        (fun_ext
          (λ scan'. scan_rows-eq-scan_list fingerprint stride boff width left (y + 1) scan')))

-- The positions that the generator picks, each with the number of the bit that is written there:
-- the picked positions count through the 256 bits in turn.
unfoldable pub sites : List ℕ → XorShift128 → ℕ → List (ℕ × ℕ)
sites [] rng k = []
sites (pos ∷ rest) rng k =
    let (rng', r) = xorshift128_next rng in
    let picked = (pos, k) ∷ sites rest rng' ((k + 1) % 256) in
    let passed = sites rest rng' k in if bit_and r 0xf == 0 then picked else passed

-- Bit `k` of the fingerprint.
abbrev pub fp_bit : List ℕ → ℕ → ℕ
fp_bit fingerprint k = get_or fingerprint (k / 8) 0 / 2 ^ (k % 8) % 2

abbrev pub byte_at : List ℕ → ℕ → ℕ
byte_at pixels j = get_or pixels j 0

abbrev pub IsBytes : List ℕ → Type 0
IsBytes pixels = (j : ℕ) → byte_at pixels j < 256

-- In order, from `lo` on.
abbrev pub Ascending : ℕ → List ℕ → Type 0
Ascending lo [] = Unit {0}
Ascending lo (p ∷ ps) = (lo ≤ p) × Ascending (suc p) ps

abbrev pub Avoids : ℕ → List ℕ → Type 0
Avoids j ps = All (λ p. p ≢ j) ps

pub below-Avoids : (j lo : ℕ) (ps : List ℕ) → j < lo → Ascending lo ps → Avoids j ps
below-Avoids j lo [] h a = tt
below-Avoids j lo (p ∷ ps) h (le, a) = ((omega arith), below-Avoids j (suc p) ps (omega arith) a)

pub sites-Avoids :
    (j : ℕ) (ps : List ℕ) (rng : XorShift128) (k : ℕ)
    → Avoids j ps
    → All (λ site. site.0 ≢ j) (sites ps rng k)
unfolding sites
sites-Avoids j [] rng k a = tt
sites-Avoids j (p ∷ ps) rng k (ne, a) =
    elim (Bool-cases (bit_and (xorshift128_next rng).1 0xf == 0)) [
      | inl picked ↦ rw picked (ne, sites-Avoids j ps _ _ a)
      | inr passed ↦ rw passed (sites-Avoids j ps _ _ a)
    ]

Ascending-le : (lo hi : ℕ) (ps : List ℕ) → lo ≤ hi → Ascending hi ps → Ascending lo ps
Ascending-le lo hi [] h a = tt
Ascending-le lo hi (p ∷ ps) h (le, a) = ((omega arith), a)

Ascending-append :
    (lo hi : ℕ) (ps qs : List ℕ)
    → lo ≤ hi
    → Ascending lo ps
    → All (λ p. p < hi) ps
    → Ascending hi qs
    → Ascending lo (ps ++ qs)
Ascending-append lo hi [] qs h a b c = Ascending-le lo hi qs h c
Ascending-append lo hi (p ∷ ps) qs h (le, a) (lt, b) c =
    (le, Ascending-append (suc p) hi ps qs (omega arith) a b c)

All-append {ℓ} : (P : ℕ → Type ℓ) (ps qs : List ℕ) → All P ps → All P qs → All P (ps ++ qs)
All-append P [] qs a b = b
All-append P (p ∷ ps) qs (h, a) b = (h, All-append P ps qs a b)

All-lt_le : (lo hi : ℕ) (ps : List ℕ) → lo ≤ hi → All (λ p. p < lo) ps → All (λ p. p < hi) ps
All-lt_le lo hi [] h a = tt
All-lt_le lo hi (p ∷ ps) h (lt, a) = ((omega arith), All-lt_le lo hi ps h a)

module _ (boff : ℕ) (blue : boff < 4) where
  row_positions-Ascending :
      (row left x : ℕ) → Ascending (row + x * 4) (row_positions row boff left x)
  unfolding row_positions
  row_positions-Ascending row zero x = tt
  row_positions-Ascending row (suc left) x = (
    (omega arith),
    Ascending-le _ (row + (x + 1) * 4) _ (omega arith) (row_positions-Ascending row left (x + 1)),
  )

  row_positions-lt :
      (row left x : ℕ) → All (λ p. p < row + (x + left) * 4) (row_positions row boff left x)
  unfolding row_positions
  row_positions-lt row zero x = tt
  row_positions-lt row (suc left) x =
      ((omega arith), All-lt_le _ _ _ (omega arith) (row_positions-lt row left (x + 1)))

  -- Rows do not overlap where the stride holds a row of pixels.
  pub positions-Ascending :
      (stride width left y : ℕ)
      → width * 4 ≤ stride
      → Ascending (y * stride) (positions stride boff width left y)
  unfolding positions
  positions-Ascending stride width zero y h = tt
  positions-Ascending stride width (suc left) y h =
      Ascending-append (y * stride) ((y + 1) * stride) (row_positions (y * stride) boff width 0)
        (positions stride boff width left (y + 1)) (omega arith)
        (Ascending-le _ (y * stride + 0 * 4) _ (omega arith)
          (row_positions-Ascending (y * stride) width 0))
        (All-lt_le (y * stride + (0 + width) * 4) ((y + 1) * stride) _ (omega arith)
          (row_positions-lt (y * stride) width 0))
        (positions-Ascending stride width left (y + 1) h)

  pub positions-lt :
      (stride width left y : ℕ)
      → width * 4 ≤ stride
      → All (λ p. p < (y + left) * stride) (positions stride boff width left y)
  unfolding positions
  positions-lt stride width zero y h = tt
  positions-lt stride width (suc left) y h =
      All-append _ (row_positions (y * stride) boff width 0)
        (positions stride boff width left (y + 1))
        (All-lt_le (y * stride + (0 + width) * 4) ((y + suc left) * stride) _ (grind arith)
          (row_positions-lt (y * stride) width 0))
        (All-lt_le ((y + 1 + left) * stride) ((y + suc left) * stride) _ (grind arith)
          (positions-lt stride width left (y + 1) h))

-- Setting the lowest bit of a byte keeps the other seven.
lsb_table : each_below 256 (λ b. set_lsb b 0 == b / 2 * 2 && set_lsb b 1 == b / 2 * 2 + 1) ≡ true
unfolding each_below
lsb_table = refl

pub set_lsb_lem : (b bit : ℕ) → b < 256 → bit < 2 → set_lsb b bit ≡ b / 2 * 2 + bit
set_lsb_lem b zero h lt = ground (arith, each_below_sound 256 _ b lsb_table h)
set_lsb_lem b (suc zero) h lt = ground (arith, each_below_sound 256 _ b lsb_table h)
set_lsb_lem b (suc (suc n)) h lt = absurd (omega arith)

module _ (fingerprint : List ℕ) (full : length fingerprint ≡ 32) where
  -- A picked position gets the bit whose turn it is; a passed one changes the generator only.
  pub visit_picked :
      (pos : ℕ) (scan : Scan)
      → (bit_and (xorshift128_next scan.rng).1 0xf == 0) ≡ true
      → scan.bit_idx < 256
      → pos < length scan.pixels
      → visit fingerprint pos scan
        ≡ some (record {
          rng = (xorshift128_next scan.rng).0;
          bit_idx = (scan.bit_idx + 1) % 256;
          pixels =
              set scan.pixels pos
                (set_lsb (byte_at scan.pixels pos) (fp_bit fingerprint scan.bit_idx));
        })
  unfolding visit
  visit_picked pos scan picked k h = rw (
    picked,
    get_elem?-eq-get_or fingerprint (scan.bit_idx / 8) 0 (omega arith),
    get_elem?-eq-get_or scan.pixels pos 0 h,
    bit_and-one,
  )

  pub visit_passed :
      (pos : ℕ) (scan : Scan)
      → (bit_and (xorshift128_next scan.rng).1 0xf == 0) ≡ false
      → visit fingerprint pos scan ≡ some (record scan { rng = (xorshift128_next scan.rng).0 })
  unfolding visit
  visit_passed pos scan passed = rw passed
