-- ===== src/Sandbox/Build.antt =====
-- The `PUSH` macro, the allocations and the exits of `dlp_build_bwrap_args`, and
-- `dlp_free_bwrap_args`, in coder-dlp-compositor/src/sandbox_launcher.c.
pub mod Exact
use coder_desktop_linux.Common.{
  ltb, false, ℕ, ◌+◌, ◌-◌, ◌*◌, ◌≤◌, ◌<◌, ◌≡◌, ◌≢◌, refl, sym, append-nil, append_assoc,
  length-append, ◌∙◌, ap, Bool, true, Option, none, some, List, [], ◌∷◌, ◌++◌, String,
  if◌then◌else◌, arith, length, leb, map, ◌⊎◌, inl, inr, Bool-cases,
}
use mathlib.Core.Option
use coder_desktop_linux.Sandbox.Config.{SandboxConfig, Displays, Host}
use coder_desktop_linux.Sandbox.Words.{bwrap_words}

-- `argv` with `argc` entries in an array of `capacity` cells; `asked` counts the allocations so far.
-- Whether the n-th allocation succeeds is the `alloc` of each function.
pub record Builder : Type 0 where
  pub argv : List String
  pub capacity : ℕ
  pub asked : ℕ

-- `oom` is the label of that name: the strings that it frees before it returns null. `overrun` is a
-- write past the end of the array.
pub data Built : Type 0 where
  built : Builder → Built
  oom : List String → Built
  overrun : Built

-- `argv[argc] = NULL; return argv;`, or the null result of `oom`; the outer `none` is an overrun.
finish : List (Option String) → Built → Option (Option (List (Option String)))
finish junk (built b) =
    if ltb (length b.argv) b.capacity then some (some (map some b.argv ++ none ∷ junk)) else none
finish junk (oom freed) = some none
finish junk overrun = none

module _ (alloc : ℕ → Bool) where
  -- The `realloc` of a full array.
  grow : Builder → Built
  grow b =
      if leb (b.capacity - 1) (length b.argv)
      then if alloc b.asked
        then built (record b { capacity = b.capacity * 2; asked = b.asked + 1 })
        else oom b.argv
      else built b

  -- The `strdup`. The null that it leaves on failure is freed too, which does nothing.
  append : String → Builder → Built
  append word b =
      if ltb (length b.argv) b.capacity
      then if alloc b.asked
        then built (record b { argv = b.argv ++ word ∷ []; asked = b.asked + 1 })
        else oom b.argv
      else overrun

  push : String → Builder → Built
  unfolding grow append
  push word b = elim (grow b) [
    | built b' ↦ append word b'
    | oom freed ↦ oom freed
    | overrun ↦ overrun
  ]

  push_all : List String → Builder → Built
  push_all [] b = built b
  push_all (word ∷ words) b = elim (push word b) [
    | built b' ↦ push_all words b'
    | oom freed ↦ oom freed
    | overrun ↦ overrun
  ]

  -- Null arguments and the first `calloc`; `some none` is a null result. A result is the array, whose cell
  -- at `argc` is then set to null; the `junk` beyond it is left.
  pub build_bwrap_args :
      (junk : List (Option String))
      → Host
      → Option Displays
      → Option String
      → Option SandboxConfig
      → Option String
      → Option (Option (List (Option String)))
  build_bwrap_args junk host none command sandbox proxy_socket = some none
  build_bwrap_args junk host (some comp) none sandbox proxy_socket = some none
  build_bwrap_args junk host (some comp) (some command) sandbox proxy_socket =
      let words = bwrap_words host comp command sandbox proxy_socket in
      let start : Builder = record { argv = []; capacity = 64; asked = 1 } in
      if alloc 0 then finish junk (push_all words start) else some none

-- The strings that `dlp_free_bwrap_args` frees: those up to the first null. `none` is a walk past the
-- end of the array.
free_cells : List (Option String) → Option (List String)
free_cells [] = none
free_cells (none ∷ rest) = some []
free_cells (some word ∷ rest) = Option.map (λ words. word ∷ words) (free_cells rest)

pub free_bwrap_args : Option (List (Option String)) → Option (List String)
unfolding free_cells
free_bwrap_args none = some []
free_bwrap_args (some cells) = free_cells cells
