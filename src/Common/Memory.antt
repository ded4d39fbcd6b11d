-- ===== src/Common/Memory.antt =====
-- Byte arrays of C as lists: `memcpy` with its bounds, and words in little-endian order.
use Prim.Native.Nat.{ℕ, zero, suc, ◌+◌, ◌*◌, ◌/◌, ◌%◌, ◌≤◌, ◌<◌}
use mathlib.Core.Path.{◌≡◌, refl, ap}
use mathlib.Core.Bool.{true}
use mathlib.Core.List.{List, [], ◌∷◌, ◌++◌}
use mathlib.Core.Option.{Option, none, some}
use native.Mathlib.Nat.{zero-add, suc-add}
use native.Mathlib.Omega.{arith}
use coder_desktop_linux.Common.Tests.{leb, if◌then◌else◌}
use coder_desktop_linux.Common.Lists.{length, take, drop, get_elem?, length-append}

-- A chain of accesses: the first that is out of bounds stops it.
infixl 5 ◌>>=◌
abbrev pub ◌>>=◌ {ℓ κ} : {A : Type ℓ} {B : Type κ} → Option A → (A → Option B) → Option B
none >>= f = none
some a >>= f = f a

-- `memcpy(dst + off, src, length src)`; `none` where it would write past the end of `dst`.
unfoldable pub memcpy : List ℕ → ℕ → List ℕ → Option (List ℕ)
memcpy dst off src =
    if leb (off + length src) (length dst)
    then some (take off dst ++ (src ++ drop (off + length src) dst))
    else none

-- The bytes of `w` from the lowest up.
unfoldable pub le_bytes : ℕ → ℕ → List ℕ
le_bytes zero w = []
le_bytes (suc n) w = (w % 256) ∷ le_bytes n (w / 256)

-- The `uint32_t` at `off`.
unfoldable pub le_word : List ℕ → ℕ → Option ℕ
le_word bytes off = do
  b0 ← get_elem? bytes off
  b1 ← get_elem? bytes (off + 1)
  b2 ← get_elem? bytes (off + 2)
  b3 ← get_elem? bytes (off + 3)
  some (b0 + b1 * 256 + b2 * 65536 + b3 * 16777216)

pub length-le_bytes : (n w : ℕ) → length (le_bytes n w) ≡ n
unfolding le_bytes
length-le_bytes zero w = refl
length-le_bytes (suc n) w = ap suc (length-le_bytes n (w / 256))

module _ {ℓ} {A : Type ℓ} where
  pub take-append_length : (xs ys : List A) → take (length xs) (xs ++ ys) ≡ xs
  take-append_length [] ys = refl
  take-append_length (x ∷ xs) ys = ap (λ t. x ∷ t) (take-append_length xs ys)

  pub drop-append : (n : ℕ) (xs ys : List A) → drop (length xs + n) (xs ++ ys) ≡ drop n ys
  drop-append n [] ys = rw zero-add
  drop-append n (x ∷ xs) ys = rw suc-add (drop-append n xs ys)

  -- The element at an index inside a list, and what follows it.
  pub drop-cons :
      (xs : List A) (i : ℕ)
      → i < length xs
      → (x : A) × (get_elem? xs i ≡ some x) × (drop i xs ≡ x ∷ drop (suc i) xs)
  drop-cons [] i h = absurd (omega arith)
  drop-cons (x ∷ xs) zero h = (x, refl, refl)
  drop-cons (x ∷ xs) (suc i) h = drop-cons xs i (omega arith)

-- A copy that starts where `done` ends.
pub memcpy_at :
    (done rest src : List ℕ)
    → length src ≤ length rest
    → memcpy (done ++ rest) (length done) src ≡ some (done ++ (src ++ drop (length src) rest))
unfolding memcpy
memcpy_at done rest src h =
    rw (fits, take-append_length done rest, drop-append (length src) done rest)
  where
    fits : leb (length done + length src) (length (done ++ rest)) ≡ true
    fits = ground (arith, length-append done rest)
