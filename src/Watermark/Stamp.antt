-- ===== src/Watermark/Stamp.antt =====
-- What the walk of `dlp_watermark_apply` (coder-dlp-compositor/src/watermark.c) leaves in the buffer.
use coder_desktop_linux.Common.{
  ℕ, suc, ◌+◌, ◌*◌, ◌/◌, ◌%◌, ◌<◌, ◌≡◌, ◌≢◌, inl, inr, refl, ◌∙◌, true, false, Option, some, List,
  [], ◌∷◌, arith, bit_and, length, ℕ_discrete, set, length-set, get_or-set_self, get_or-set_ne, All,
  ◌==◌, Bool-cases,
}
use coder_desktop_linux.Watermark.{Scan, xorshift128_next, set_lsb}
use coder_desktop_linux.Watermark.Walk.{
  scan_list, sites, fp_bit, byte_at, IsBytes, Ascending, sites-Avoids, below-Avoids, set_lsb_lem,
  visit_picked, visit_passed,
}

-- The result of a walk over `ps` from `scan`: it returns; only the lowest bit of a byte changes, and
-- only at the picked positions; and each picked position carries its bit.
pub record IsStamped (fingerprint ps : List ℕ) (scan : Scan) (result : Option Scan) : Type 0 where
  pub out : Scan
  pub returns : result ≡ some out
  pub same_length : length out.pixels ≡ length scan.pixels
  pub bytes : IsBytes out.pixels
  pub high : (j : ℕ) → byte_at out.pixels j / 2 ≡ byte_at scan.pixels j / 2
  pub outside :
      (j : ℕ)
      → All (λ site. site.0 ≢ j) (sites ps scan.rng scan.bit_idx)
      → byte_at out.pixels j ≡ byte_at scan.pixels j
  pub marked :
      All
        (λ site. byte_at out.pixels site.0 % 2 ≡ fp_bit fingerprint site.1)
        (sites ps scan.rng scan.bit_idx)

module _ (fingerprint : List ℕ) (full : length fingerprint ≡ 32) where
  -- The state after a picked position.
  abbrev after : ℕ → Scan → Scan
  after pos scan = record {
    rng = (xorshift128_next scan.rng).0;
    bit_idx = (scan.bit_idx + 1) % 256;
    pixels =
        set scan.pixels pos (set_lsb (byte_at scan.pixels pos) (fp_bit fingerprint scan.bit_idx));
  }

  stamped_byte :
      (pos : ℕ) (scan : Scan)
      → IsBytes scan.pixels
      → pos < length scan.pixels
      → byte_at (after pos scan).pixels pos
        ≡ byte_at scan.pixels pos / 2 * 2 + fp_bit fingerprint scan.bit_idx
  stamped_byte pos scan b h =
      get_or-set_self scan.pixels pos _ 0 h
      ∙ set_lsb_lem (byte_at scan.pixels pos) (fp_bit fingerprint scan.bit_idx) (b pos)
          (omega arith)

  after_byte :
      (pos : ℕ) (scan : Scan)
      → IsBytes scan.pixels
      → pos < length scan.pixels
      → (j : ℕ)
      → (byte_at (after pos scan).pixels j < 256)
        × (byte_at (after pos scan).pixels j / 2 ≡ byte_at scan.pixels j / 2)
  after_byte pos scan b h j = elim (ℕ_discrete pos j) [
    | yes e ↦ rw (← e) (omega (arith, stamped_byte pos scan b h, b pos))
    | no ne ↦
        rw
          (get_or-set_ne scan.pixels pos j
            (set_lsb (byte_at scan.pixels pos) (fp_bit fingerprint scan.bit_idx)) 0 ne)
          (b j, refl)
  ]

  IsStamped-picked :
      (pos : ℕ) (rest : List ℕ) (scan : Scan)
      → (bit_and (xorshift128_next scan.rng).1 0xf == 0) ≡ true
      → scan.bit_idx < 256
      → pos < length scan.pixels
      → IsBytes scan.pixels
      → Ascending (suc pos) rest
      → IsStamped fingerprint rest (after pos scan) (scan_list fingerprint rest (after pos scan))
      → IsStamped fingerprint (pos ∷ rest) scan (scan_list fingerprint (pos ∷ rest) scan)
  unfolding scan_list sites
  IsStamped-picked pos rest scan picked k h b a r = record {
    out = r.out;
    returns = rw (visit_picked fingerprint full pos scan picked k h) r.returns;
    same_length = r.same_length ∙ length-set scan.pixels pos _;
    bytes = r.bytes;
    high = λ j. r.high j ∙ (after_byte pos scan b h j).1;
    outside = rw picked λ j av. r.outside j av.1 ∙ get_or-set_ne scan.pixels pos j _ 0 av.0;
    marked = rw picked (
      omega (
        arith,
        r.outside pos (sites-Avoids pos rest _ _ (below-Avoids pos (suc pos) rest (omega arith) a)),
        stamped_byte pos scan b h,
      ),
      r.marked,
    );
  }

  IsStamped-passed :
      (pos : ℕ) (rest : List ℕ) (scan : Scan)
      → (bit_and (xorshift128_next scan.rng).1 0xf == 0) ≡ false
      → (let scan' = record scan { rng = (xorshift128_next scan.rng).0 } in
          IsStamped fingerprint rest scan' (scan_list fingerprint rest scan'))
      → IsStamped fingerprint (pos ∷ rest) scan (scan_list fingerprint (pos ∷ rest) scan)
  unfolding scan_list sites
  IsStamped-passed pos rest scan passed r = record {
    out = r.out;
    returns = rw (visit_passed fingerprint full pos scan passed) r.returns;
    same_length = r.same_length;
    bytes = r.bytes;
    high = r.high;
    outside = rw passed r.outside;
    marked = rw passed r.marked;
  }

  pub scan_list-IsStamped :
      (ps : List ℕ) (lo : ℕ) (scan : Scan)
      → Ascending lo ps
      → All (λ p. p < length scan.pixels) ps
      → scan.bit_idx < 256
      → IsBytes scan.pixels
      → IsStamped fingerprint ps scan (scan_list fingerprint ps scan)
  scan_list-IsStamped [] lo scan a fits k b = record {
    out = scan;
    returns = unfold scan_list in refl;
    same_length = refl;
    bytes = b;
    high = λ j. refl;
    outside = λ j av. refl;
    marked = unfold sites in tt;
  }
  scan_list-IsStamped (pos ∷ rest) lo scan (le, a) (h, fits) k b =
      elim (Bool-cases (bit_and (xorshift128_next scan.rng).1 0xf == 0)) [
        | inl picked ↦ IsStamped-picked pos rest scan picked k h b a (
            scan_list-IsStamped rest (suc pos) (after pos scan) a (rw length-set fits) (omega arith)
              (λ j. (after_byte pos scan b h j).0))
        | inr passed ↦ IsStamped-passed pos rest scan passed (
            scan_list-IsStamped rest (suc pos) (record scan { rng = (xorshift128_next scan.rng).0 })
              a fits k b)
      ]
