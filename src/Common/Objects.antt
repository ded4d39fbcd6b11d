-- ===== src/Common/Objects.antt =====
-- Objects and files of named values, as lists of pairs.
use mathlib.Core.Path.{◌≡◌, refl}
use mathlib.Core.Bool.{Bool, false, ◌||◌}
use mathlib.Core.Option.{Option, none, some}
use mathlib.Core.List.{List, [], ◌∷◌}
use native.Mathlib.Omega.{arith}
use Prim.Native.String.{String}
use text.Mathlib.Text.{◌==◌}
use text.Mathlib.TextEquality.{eq_iff}
use coder_desktop_linux.Common.Tests.{if◌then◌else◌}

abbrev pub Dict {ℓ} : Type ℓ → Type ℓ
Dict V = List (String × V)

module _ {ℓ} {V : Type ℓ} where
  unfoldable pub lookup : Dict V → String → Option V
  lookup [] name = none
  lookup ((k, v) ∷ rest) name = let later = lookup rest name in if k == name then some v else later

  unfoldable pub erase : Dict V → String → Dict V
  erase [] name = []
  erase ((k, v) ∷ rest) name =
      let later = erase rest name in if k == name then later else (k, v) ∷ later

  abbrev pub insert : Dict V → String → V → Dict V
  insert d name v = (name, v) ∷ erase d name

  abbrev pub contains : Dict V → String → Bool
  contains [] name = false
  contains ((k, v) ∷ rest) name = k == name || contains rest name

  pub lookup-erase :
      (d : Dict V) (name key : String)
      → lookup (erase d name) key ≡ (if name == key then none else lookup d key)
  unfolding lookup erase
  lookup-erase [] name key = ground arith
  lookup-erase ((k, v) ∷ rest) name key =
      ground (arith, eq_iff k name, eq_iff k key, eq_iff name key, lookup-erase rest name key)

  pub lookup-insert :
      (d : Dict V) (name key : String) (v : V)
      → lookup (insert d name v) key ≡ (if name == key then some v else lookup d key)
  unfolding lookup
  lookup-insert d name key v = ground (arith, lookup-erase d name key)

  pub contains-lookup :
      (d : Dict V) (name : String) → contains d name ≡ false → lookup d name ≡ none
  unfolding lookup
  contains-lookup [] name h = refl
  contains-lookup ((k, v) ∷ rest) name h = ground (arith, contains-lookup rest name)
