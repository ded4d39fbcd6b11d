-- ===== src/Watermark/Identity.antt =====
-- `fnv1a_64` and `dlp_watermark_set_identity` of coder-dlp-compositor/src/watermark.c against a
-- description of the fingerprint with no buffers and no indices.
use coder_desktop_linux.Common.{
  ℕ, zero, suc, ◌+◌, ◌*◌, ◌≤◌, ◌<◌, ◌≡◌, refl, ◌∙◌, ap, true, some, List, [], ◌∷◌, ◌++◌, arith,
  length, take, drop, memcpy, le_bytes, drop-cons, memcpy_at, take-append_length, length-take,
  Bool-cases, ltb, ltb→lt, if◌then◌else◌, inl, inr, sym, length-le_bytes, length-drop, append_assoc,
  append-nil, ◌%◌, length-append,
}
use coder_desktop_linux.Watermark.{
  WatermarkState, fnv_offset, fnv1a_round, fnv1a_loop, fnv1a_64, identity_round, identity_loop,
  set_identity,
}
use native.Mathlib.Numerals.{add-one}
use native.Mathlib.Nat.{zero-add, suc-add}

-- FNV-1a of a whole list.
pub fnv1a : ℕ → List ℕ → ℕ
fnv1a h [] = h
fnv1a h (byte ∷ bytes) = fnv1a (fnv1a_round h byte) bytes

-- The eight bytes that prefix `i` contributes.
unfoldable pub lane : ℕ → List ℕ → List ℕ
lane i identity = le_bytes 8 (fnv1a fnv_offset (i ∷ take 255 identity))

-- The contributions of `n` prefixes, from `i` up.
unfoldable pub lanes : ℕ → ℕ → List ℕ → List ℕ
lanes zero i identity = []
lanes (suc n) i identity = lane i identity ++ lanes n (suc i) identity

unfoldable pub digest : List ℕ → List ℕ
digest identity = lanes 4 0 identity

fnv1a_loop-eq-fnv1a :
    (bytes : List ℕ) (left i h : ℕ)
    → i + left ≤ length bytes
    → fnv1a_loop bytes left i h ≡ some (fnv1a h (take left (drop i bytes)))
unfolding fnv1a_loop fnv1a
fnv1a_loop-eq-fnv1a bytes zero i h fits = refl
fnv1a_loop-eq-fnv1a bytes (suc left) i h fits =
    let (byte, here, cut) = drop-cons bytes i (omega arith) in
    rw (here, cut, add-one)
      (fnv1a_loop-eq-fnv1a bytes left (suc i) (fnv1a_round h byte) (omega arith))

fnv1a_64-prefix :
    (xs ys : List ℕ) (n : ℕ) → n ≡ length xs → fnv1a_64 (xs ++ ys) n ≡ some (fnv1a fnv_offset xs)
unfolding fnv1a_64
fnv1a_64-prefix xs ys n e =
    fnv1a_loop-eq-fnv1a (xs ++ ys) n 0 fnv_offset (omega (arith, length-append xs ys))
    ∙ rw (e, take-append_length xs ys)

take_all : (xs : List ℕ) (n : ℕ) → length xs ≤ n → take n xs ≡ xs
take_all [] zero h = refl
take_all [] (suc n) h = refl
take_all (x ∷ xs) zero h = absurd (omega arith)
take_all (x ∷ xs) (suc n) h = ap (λ t. x ∷ t) (take_all xs n (omega arith))

drop_all : (xs : List ℕ) (n : ℕ) → length xs ≤ n → drop n xs ≡ []
drop_all [] zero h = refl
drop_all [] (suc n) h = refl
drop_all (x ∷ xs) zero h = absurd (omega arith)
drop_all (x ∷ xs) (suc n) h = drop_all xs n (omega arith)

abbrev copied : List ℕ → ℕ
copied identity = if ltb (length identity) 255 then length identity else 255

length-copied : (identity : List ℕ) → length (take (copied identity) identity) ≡ copied identity
length-copied identity = ground (arith, length-take (copied identity) identity)

take-copied : (identity : List ℕ) → take (copied identity) identity ≡ take 255 identity
take-copied identity = elim (Bool-cases (ltb (length identity) 255)) [
  | inl short ↦ rw short (
      take_all identity (length identity) (omega arith)
      ∙ sym (take_all identity 255 (omega (arith, ltb→lt (length identity) 255 short))))
  | inr long ↦ rw long
]

identity_round_lem :
    (scratch identity done rest : List ℕ) (i : ℕ)
    → length scratch ≡ 256
    → i < 4
    → length done ≡ i * 8
    → 8 ≤ length rest
    → identity_round scratch identity i (done ++ rest)
      ≡ some (done ++ (lane i identity ++ drop 8 rest))
unfolding identity_round lane
identity_round_lem [] identity done rest i s h d r = absurd (omega arith)
identity_round_lem (c ∷ junk) identity done rest i s h d r =
    rw (prefixed, copied_in, hashed, take-copied identity, small, ← d) stored
  where
    small : i % 256 ≡ i
    small = omega arith

    text : List ℕ
    text = take (copied identity) identity

    tail_len : length text ≤ length junk
    tail_len = ground (arith, length-copied identity)

    prefixed : memcpy (c ∷ junk) 0 ((i % 256) ∷ []) ≡ some ((i % 256) ∷ junk)
    prefixed = memcpy_at [] (c ∷ junk) ((i % 256) ∷ []) (omega arith)

    copied_in :
        memcpy ((i % 256) ∷ junk) 1 text ≡ some ((i % 256) ∷ (text ++ drop (length text) junk))
    copied_in = memcpy_at ((i % 256) ∷ []) junk text tail_len

    hashed :
        fnv1a_64 ((i % 256) ∷ (text ++ drop (length text) junk)) (copied identity + 1)
        ≡ some (fnv1a fnv_offset ((i % 256) ∷ text))
    hashed =
        fnv1a_64-prefix ((i % 256) ∷ text) (drop (length text) junk) (copied identity + 1)
          (omega (arith, length-copied identity))

    bytes : List ℕ
    bytes = le_bytes 8 (fnv1a fnv_offset (i ∷ take 255 identity))

    stored : memcpy (done ++ rest) (length done) bytes ≡ some (done ++ (bytes ++ drop 8 rest))
    stored =
        rw (length-le_bytes 8 (fnv1a fnv_offset (i ∷ take 255 identity))) at
          (memcpy_at done rest bytes (rw length-le_bytes r))

pub length-lane : (i : ℕ) (identity : List ℕ) → length (lane i identity) ≡ 8
unfolding lane
length-lane i identity = length-le_bytes 8 _

drop-drop : (n m : ℕ) (xs : List ℕ) → drop m (drop n xs) ≡ drop (n + m) xs
drop-drop zero m xs = rw zero-add
drop-drop (suc n) zero [] = rw suc-add
drop-drop (suc n) (suc m) [] = rw suc-add
drop-drop (suc n) m (x ∷ xs) = rw suc-add (drop-drop n m xs)

identity_loop_lem :
    (scratch identity done rest : List ℕ) (n i : ℕ)
    → length scratch ≡ 256
    → i + n ≤ 4
    → length done ≡ i * 8
    → n * 8 ≤ length rest
    → identity_loop scratch identity n i (done ++ rest)
      ≡ some (done ++ (lanes n i identity ++ drop (n * 8) rest))
unfolding identity_loop lanes
identity_loop_lem scratch identity done rest zero i s h d r = refl
identity_loop_lem scratch identity done rest (suc n) i s h d r =
    rw
      (
        identity_round_lem scratch identity done rest i s (omega arith) d (omega arith),
        ← append_assoc done (lane i identity) (drop 8 rest),
        add-one,
      )
      (identity_loop_lem scratch identity (done ++ lane i identity) (drop 8 rest) n (suc i) s
          (omega arith)
          (omega (arith, length-append done (lane i identity), length-lane i identity))
          (omega (arith, length-drop 8 rest))
        ∙ (let e : 8 + n * 8 ≡ suc n * 8 = omega arith in
            rw (drop-drop 8 (n * 8) rest, e) (simp append_assoc)))

-- Given a buffer of 256 bytes with any contents and a 32-byte fingerprint, `set_identity`
-- writes nothing out of bounds and leaves exactly the digest of the identity: the fingerprint that
-- stood there before, the contents of the buffer and all characters after the 255th do not matter.
pub set_identity-digest :
    (scratch identity : List ℕ) (state : WatermarkState)
    → length scratch ≡ 256
    → length state.fingerprint ≡ 32
    → set_identity scratch (some state) (some identity)
      ≡ some (some (record state { fingerprint = digest identity; has_identity = true }))
unfolding set_identity digest
set_identity-digest scratch identity state s f = rw (
  identity_loop_lem scratch identity [] state.fingerprint 4 0 s (omega arith) refl (omega arith),
  drop_all state.fingerprint 32 (omega arith),
  append-nil,
)
