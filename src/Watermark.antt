-- ===== src/Watermark.antt =====
-- coder-dlp-compositor/src/watermark.c and watermark.h: the FNV-1a fingerprint of an identity, the
-- xorshift128 generator, and the loop that writes the fingerprint into the blue channel.
--
-- Bytes and words are numbers with the wrap-around written out. `none` is an access outside an
-- array, which C leaves undefined.
pub mod Identity
pub mod Rng
pub mod Walk
pub mod Stamp
pub mod Apply
pub mod Again
pub mod Digest
use coder_desktop_linux.Common.{
  ℕ, zero, suc, ◌+◌, ◌-◌, ◌*◌, ◌/◌, ◌%◌, ◌^◌, bit_and, bit_or, bit_xor, Bool, true, false, ◌&&◌,
  not, Option, none, some, List, [], ◌∷◌, ◌==◌, ltb, if◌then◌else◌, length, get_elem?, take, set,
  memcpy, le_bytes, le_word, ◌>>=◌,
}

-- `struct dlp_watermark_state`.
pub record WatermarkState : Type 0 where
  pub enabled : Bool
  pub fingerprint : List ℕ  -- uint8_t[32]
  pub has_identity : Bool

abbrev pub fnv_offset : ℕ
fnv_offset = 0xcbf29ce484222325

abbrev pub fnv_prime : ℕ
fnv_prime = 0x100000001b3

-- One round of the loop of `fnv1a_64`.
abbrev pub fnv1a_round : ℕ → ℕ → ℕ
fnv1a_round h byte = bit_xor h byte * fnv_prime % 2 ^ 64

-- The loop at index `i`, with `left` rounds to go.
unfoldable pub fnv1a_loop : List ℕ → ℕ → ℕ → ℕ → Option ℕ
fnv1a_loop bytes zero i h = some h
fnv1a_loop bytes (suc left) i h = do
  byte ← get_elem? bytes i
  fnv1a_loop bytes left (i + 1) (fnv1a_round h byte)

unfoldable pub fnv1a_64 : List ℕ → ℕ → Option ℕ
unfolding fnv1a_loop
fnv1a_64 bytes len = fnv1a_loop bytes len 0 fnv_offset

-- One round of the loop of `dlp_watermark_set_identity`. `scratch` is what the 256 bytes of `buf`
-- hold before they are written.
pub identity_round : List ℕ → List ℕ → ℕ → List ℕ → Option (List ℕ)
identity_round scratch identity i fingerprint =
    let len = length identity in
    let copy = if ltb len 255 then len else 255 in
    do
      buf ← memcpy scratch 0 ((i % 256) ∷ [])
      buf' ← memcpy buf 1 (take copy identity)
      h ← fnv1a_64 buf' (copy + 1)
      memcpy fingerprint (i * 8) (le_bytes 8 h)

-- `rounds` goes over the `i` of the loop, from `i` on.
pub identity_loop : List ℕ → List ℕ → ℕ → ℕ → List ℕ → Option (List ℕ)
identity_loop scratch identity zero i fingerprint = some fingerprint
identity_loop scratch identity (suc rounds) i fingerprint = do
  fingerprint' ← identity_round scratch identity i fingerprint
  identity_loop scratch identity rounds (i + 1) fingerprint'

-- A null `state` stays null; a null `identity` leaves the state alone.
pub set_identity : List ℕ → Option WatermarkState → Option (List ℕ) → Option (Option WatermarkState)
set_identity scratch none identity = some none
set_identity scratch (some state) none = some (some state)
set_identity scratch (some state) (some identity) = do
  fingerprint ← identity_loop scratch identity 4 0 state.fingerprint
  some (some (record state { fingerprint = fingerprint; has_identity = true }))

-- `struct xorshift128`, the four words of `s`.
pub record XorShift128 : Type 0 where
  pub s0 : ℕ
  pub s1 : ℕ
  pub s2 : ℕ
  pub s3 : ℕ

pub xorshift128_next : XorShift128 → XorShift128 × ℕ
xorshift128_next rng =
    let t = rng.s3 in
    let t' = bit_xor t (t * 2 ^ 11 % 2 ^ 32) in
    let t'' = bit_xor t' (t' / 2 ^ 8) in
    let r = bit_xor (bit_xor t'' rng.s0) (rng.s0 / 2 ^ 19) in
    (record { s0 = r; s1 = rng.s0; s2 = rng.s1; s3 = rng.s2 }, r)

-- The DRM formats that the code names, and any other.
pub data Format : Type 0 where
  argb8888 xrgb8888 abgr8888 xbgr8888 : Format
  other : ℕ → Format

-- `none` is the -1 of an unsupported format.
unfoldable pub blue_offset : Format → Option ℕ
blue_offset argb8888 = some 0
blue_offset xrgb8888 = some 0
blue_offset abgr8888 = some 2
blue_offset xbgr8888 = some 2
blue_offset (other _) = none

-- What `wlr_buffer_begin_data_ptr_access` gives: the mapped bytes, their format and stride.
pub record Mapping : Type 0 where
  pub pixels : List ℕ
  pub format : Format
  pub stride : ℕ

-- A `wlr_buffer`: its size, the answer to a request for access, and how many accesses are open.
pub record Buffer : Type 0 where
  pub width : ℕ
  pub height : ℕ
  pub mapping : Option Mapping
  pub accesses : ℕ

-- The words of both halves of the fingerprint, joined; all zero becomes 1, 0, 0, 0.
pub seed_word : List ℕ → ℕ → Option ℕ
seed_word fingerprint i = do
  a ← le_word fingerprint (i * 4)
  b ← le_word fingerprint (16 + i * 4)
  some (bit_xor a b)

pub seed : List ℕ → Option XorShift128
unfolding seed_word
seed fingerprint = do
  s0 ← seed_word fingerprint 0
  s1 ← seed_word fingerprint 1
  s2 ← seed_word fingerprint 2
  s3 ← seed_word fingerprint 3
  let zeros = s0 == 0 && s1 == 0 && s2 == 0 && s3 == 0
  some (record { s0 = if zeros then 1 else s0; s1 = s1; s2 = s2; s3 = s3 })

-- What the two loops of `dlp_watermark_apply` carry.
pub record Scan : Type 0 where
  pub rng : XorShift128
  pub bit_idx : ℕ
  pub pixels : List ℕ

-- `(pixel & 0xFE) | fp_bit`.
abbrev pub set_lsb : ℕ → ℕ → ℕ
set_lsb byte bit = bit_or (bit_and byte 0xfe) bit

-- The body of the inner loop, at the blue byte `pos`.
pub visit : List ℕ → ℕ → Scan → Option Scan
visit fingerprint pos scan =
    let (rng, r) = xorshift128_next scan.rng in
    if not (bit_and r 0xf == 0) then some (record scan { rng = rng }) else do
      byte ← get_elem? fingerprint (scan.bit_idx / 8)
      let fp_bit = bit_and (byte / 2 ^ (scan.bit_idx % 8)) 1
      blue ← get_elem? scan.pixels pos
      some (record {
        rng = rng;
        bit_idx = (scan.bit_idx + 1) % 256;
        pixels = set scan.pixels pos (set_lsb blue fp_bit);
      })

-- The inner loop at `x`, with `left` pixels to go.
pub scan_row : List ℕ → ℕ → ℕ → ℕ → ℕ → Scan → Option Scan
scan_row fingerprint row boff zero x scan = some scan
scan_row fingerprint row boff (suc left) x scan = do
  scan' ← visit fingerprint (row + x * 4 + boff) scan
  scan_row fingerprint row boff left (x + 1) scan'

-- The outer loop at `y`, with `left` rows to go.
pub scan_rows : List ℕ → ℕ → ℕ → ℕ → ℕ → ℕ → Scan → Option Scan
scan_rows fingerprint stride boff width zero y scan = some scan
scan_rows fingerprint stride boff width (suc left) y scan = do
  scan' ← scan_row fingerprint (y * stride) boff width 0 scan
  scan_rows fingerprint stride boff width left (y + 1) scan'

-- `wlr_buffer_begin_data_ptr_access` and `wlr_buffer_end_data_ptr_access`, as the code uses them.
pub begin_access : Buffer → Option (Buffer × Mapping)
begin_access buffer = elim buffer.mapping [
  | none ↦ none
  | some mapping ↦ some (record buffer { accesses = buffer.accesses + 1 }, mapping)
]

pub end_access : Buffer → Buffer
end_access buffer = record buffer { accesses = buffer.accesses - 1 }

-- Access is begun: the branches on the format, and the loops.
pub apply_mapped : Buffer → Mapping → WatermarkState → Option (Bool × Buffer)
apply_mapped buffer mapping state = elim (blue_offset mapping.format) [
  | none ↦ some (false, end_access buffer)
  | some boff ↦ do
    rng ← seed state.fingerprint
    scan ←
        scan_rows state.fingerprint mapping.stride boff buffer.width buffer.height 0
          (record { rng = rng; bit_idx = 0; pixels = mapping.pixels })
    let written = some (record mapping { pixels = scan.pixels })
    some (true, end_access (record buffer { mapping = written }))
]

-- The result, and the buffer afterwards. A null buffer stays null.
unfoldable pub apply : Option Buffer → Option WatermarkState → Option (Bool × Option Buffer)
unfolding begin_access end_access apply_mapped seed scan_rows
apply none state = some (false, none)
apply (some buffer) none = some (false, some buffer)
apply (some buffer) (some state) =
    if not state.has_identity then some (false, some buffer) else elim (begin_access buffer) [
      | none ↦ some (false, some buffer)
      | some (buffer', mapping) ↦ do
        (done, buffer'') ← apply_mapped buffer' mapping state
        some (done, some buffer'')
    ]
