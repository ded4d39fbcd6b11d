-- ===== src/Common/Text.antt =====
-- C strings as native strings, and `snprintf` into a buffer of a given size.
use Prim.Native.Nat.{ℕ, ◌-◌}
use Prim.Native.String.{String, slice, ◌++◌}
use Prim.Native.Char.{code}
use mathlib.Core.Bool.{Bool, true, false}
use coder_desktop_linux.Common.Tests.{◌==◌, if◌then◌else◌}
use mathlib.Core.List.{List, [], ◌∷◌}

abbrev pub path_max : ℕ
path_max = 4096

unfoldable pub concat : List String → String
concat [] = ""
concat (s ∷ ss) = s ++ concat ss

-- The text that the format gives, cut to `size - 1` bytes; the last byte is the terminator.
unfoldable pub snprintf : ℕ → List String → String
unfolding concat
snprintf size parts = slice (concat parts) 0 (size - 1)

-- `s[0] == '\0'`.
abbrev pub is_empty : String → Bool
is_empty String.[] = true
is_empty (String.◌∷◌ c s) = false

-- The text after its first character where that is `mark`, else the text itself.
unfoldable pub skip_first : ℕ → String → String
skip_first mark String.[] = ""
skip_first mark (String.◌∷◌ c s) = if code c == mark then s else String.◌∷◌ c s

-- The tokens that `strtok` gives: runs of characters between marks, none of them empty.
abbrev cons_token : String → List String → List String
cons_token String.[] toks = toks
cons_token (String.◌∷◌ c s) toks = String.◌∷◌ c s ∷ toks

split_step : ℕ → String → String × List String
split_step mark String.[] = ("", [])
split_step mark (String.◌∷◌ c s) =
    let (tok, toks) = split_step mark s in
    if code c == mark then ("", cons_token tok toks) else (String.◌∷◌ c tok, toks)

unfoldable pub split_on : ℕ → String → List String
unfolding split_step
split_on mark s = let (tok, toks) = split_step mark s in cons_token tok toks
