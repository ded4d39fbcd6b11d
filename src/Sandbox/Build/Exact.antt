-- ===== src/Sandbox/Build/Exact.antt =====
-- What the `PUSH` macro of coder-dlp-compositor/src/sandbox_launcher.c makes of its array, and what
-- `dlp_free_bwrap_args`, there, frees.
use coder_desktop_linux.Common.{
  ltb, false, ℕ, ◌+◌, ◌-◌, ◌*◌, ◌≤◌, ◌<◌, ◌≡◌, ◌≢◌, refl, sym, append-nil, append_assoc,
  length-append, ◌∙◌, ap, Bool, true, Option, none, some, List, [], ◌∷◌, ◌++◌, String, arith,
  length, leb, map, ◌⊎◌, inl, inr, Bool-cases,
}
use coder_desktop_linux.Sandbox.Config.{SandboxConfig, Displays, Host}
use coder_desktop_linux.Sandbox.Words.{bwrap_words}
use coder_desktop_linux.Sandbox.Build.{
  Builder, Built, built, oom, overrun, finish, append, push, push_all, build_bwrap_args, free_cells,
  free_bwrap_args,
}

-- What a sequence of pushes leaves: the whole sequence in an array with a cell to spare, or no
-- array and all strings of the part that had been pushed freed; an overrun is none of these.
abbrev Pushed : List String → Builder → Built → Type 0
Pushed words b (built b') = (b'.argv ≡ b.argv ++ words) × (length b'.argv < b'.capacity)
Pushed words b (oom freed) = (rest : List String) × (freed ++ rest ≡ b.argv ++ words)
Pushed words b overrun = true ≡ false

-- A successful push.
record IsPushed (word : String) (argv : List String) (result : Built) : Type 0 where
  b' : Builder
  returns : result ≡ built b'
  appended : b'.argv ≡ argv ++ word ∷ []
  fits : length b'.argv < b'.capacity
  room : 2 ≤ b'.capacity

Pushed-cons :
    (word : String) (words : List String) (b : Builder) {first : Built}
    (p : IsPushed word b.argv first) (result : Built)
    → Pushed words p.b' result
    → Pushed (word ∷ words) b result
Pushed-cons word words b p (built b') (e, h) =
    (e ∙ ap (λ t. t ++ words) p.appended ∙ append_assoc b.argv (word ∷ []) words, h)
Pushed-cons word words b p (oom freed) (rest, e) =
    (rest, e ∙ ap (λ t. t ++ words) p.appended ∙ append_assoc b.argv (word ∷ []) words)
Pushed-cons word words b p overrun e = e

free_cells-map :
    (words : List String) (junk : List (Option String))
    → free_cells (map some words ++ none ∷ junk) ≡ some words
unfolding free_cells
free_cells-map [] junk = refl
free_cells-map (word ∷ words) junk = rw (free_cells-map words junk)

abbrev start : Builder
start = record { argv = []; capacity = 64; asked = 1 }

never_oom :
    (words : List String) (b : Builder) (freed : List String)
    → length b.argv < b.capacity
    → 2 ≤ b.capacity
    → push_all (λ n. true) words b ≢ oom freed
unfolding push_all push
never_oom [] b freed fits c h = cc
never_oom (word ∷ words) b freed fits c h =
    elim (Bool-cases (leb (b.capacity - 1) (length b.argv))) [
      | inl full ↦
          let inside : ltb (length b.argv) (b.capacity * 2) ≡ true = ground arith in
          never_oom words _ freed (omega (arith, length-append b.argv (word ∷ []))) (omega arith)
            (rw (full, inside, push, push_all) at h)
      | inr room ↦
          let inside : ltb (length b.argv) b.capacity ≡ true = ground arith in
          let roomy : length b.argv + 1 < b.capacity = ground arith in
          never_oom words _ freed (omega (arith, length-append b.argv (word ∷ []))) c
            (rw (room, inside, push, push_all) at h)
    ]

finish-exact :
    (words : List String) (junk : List (Option String)) (result : Built)
    → Pushed words start result
    → (finish junk result ≡ some none)
      ⊎ (finish junk result ≡ some (some (map some words ++ none ∷ junk)))
unfolding finish
finish-exact words junk (built b) (e, h) =
    let inside : ltb (length b.argv) b.capacity ≡ true = ground arith in inr (rw (inside, e))
finish-exact words junk (oom freed) p = inl refl
finish-exact words junk overrun p = absurd (ground arith)

module _ (alloc : ℕ → Bool) where
  append_cases :
      (word : String) (b : Builder)
      → length b.argv + 1 < b.capacity
      → IsPushed word b.argv (append alloc word b) ⊎ (append alloc word b ≡ oom b.argv)
  unfolding append
  append_cases word b h =
      let inside : ltb (length b.argv) b.capacity ≡ true = ground arith in
      elim (Bool-cases (alloc b.asked)) [
        | inl granted ↦ inl (record {
          b' = record b { argv = b.argv ++ word ∷ []; asked = b.asked + 1 };
          returns = rw (inside, granted);
          appended = refl;
          fits = omega (arith, length-append b.argv (word ∷ []));
          room = omega arith;
        })
        | inr refused ↦ inr (rw (inside, refused))
      ]

  push_cases :
      (word : String) (b : Builder)
      → length b.argv < b.capacity
      → 2 ≤ b.capacity
      → IsPushed word b.argv (push alloc word b) ⊎ (push alloc word b ≡ oom b.argv)
  unfolding push
  push_cases word b h c = elim (Bool-cases (leb (b.capacity - 1) (length b.argv))) [
    | inr room ↦ rw (room, push) (append_cases word b (ground arith))
    | inl full ↦ elim (Bool-cases (alloc b.asked)) [
      | inr refused ↦ inr (rw (full, refused, push))
      | inl granted ↦
          rw (full, granted, push)
            (append_cases word (record b { capacity = b.capacity * 2; asked = b.asked + 1 })
              (omega arith))
    ]
  ]

  push_all-Pushed :
      (words : List String) (b : Builder)
      → length b.argv < b.capacity
      → 2 ≤ b.capacity
      → Pushed words b (push_all alloc words b)
  unfolding push_all
  push_all-Pushed [] b h c = (sym (append-nil b.argv), h)
  push_all-Pushed (word ∷ words) b h c = elim (push_cases word b h c) [
    | inr failed ↦ rw (failed, push_all, Pushed) (word ∷ words, refl)
    | inl p ↦
        rw (p.returns, push_all, Pushed)
          (Pushed-cons word words b p (push_all alloc words p.b')
            (push_all-Pushed words p.b' p.fits p.room))
  ]

  -- Whatever allocations succeed, no word is written past the end of the array. The result is null, or
  -- it holds every word that the blocks push, in order, and a null after the last: a failure never gives
  -- a shorter command line. Freeing the result frees each of the words once.
  pub free-build :
      (junk : List (Option String)) (host : Host) (comp : Displays) (command : String)
      (sandbox : Option SandboxConfig) (proxy_socket : Option String)
      → let words = bwrap_words host comp command sandbox proxy_socket in
        let cells : List (Option String) = map some words ++ none ∷ junk in
        let result =
          build_bwrap_args alloc junk host (some comp) (some command) sandbox proxy_socket in
        ((result ≡ some none) ⊎ (result ≡ some (some cells)))
        × (free_bwrap_args (some cells) ≡ some words)
  unfolding build_bwrap_args free_bwrap_args
  free-build junk host comp command sandbox proxy_socket =
      let words = bwrap_words host comp command sandbox proxy_socket in
      (
        elim (Bool-cases (alloc 0)) [
          | inl granted ↦ rw granted (
              finish-exact words junk (push_all alloc words start)
                (push_all-Pushed words start (omega arith) (omega arith)))
          | inr refused ↦ inl (rw refused)
        ],
        free_cells-map words junk,
      )

finish-total :
    (words : List String) (junk : List (Option String)) (result : Built)
    → Pushed words start result
    → ((freed : List String) → result ≢ oom freed)
    → finish junk result ≡ some (some (map some words ++ none ∷ junk))
unfolding finish
finish-total words junk (built b) (e, h) never =
    let inside : ltb (length b.argv) b.capacity ≡ true = ground arith in rw (inside, e)
finish-total words junk (oom freed) p never = absurd (never freed refl)
finish-total words junk overrun p never = absurd (ground arith)

-- With every allocation granted the command line is built.
pub build_total :
    (junk : List (Option String)) (host : Host) (comp : Displays) (command : String)
    (sandbox : Option SandboxConfig) (proxy_socket : Option String)
    → build_bwrap_args (λ n. true) junk host (some comp) (some command) sandbox proxy_socket
      ≡ some (some (map some (bwrap_words host comp command sandbox proxy_socket) ++ none ∷ junk))
unfolding build_bwrap_args
build_total junk host comp command sandbox proxy_socket =
    let words = bwrap_words host comp command sandbox proxy_socket in
    finish-total words junk (push_all (λ n. true) words start)
      (push_all-Pushed (λ n. true) words start (omega arith) (omega arith))
      (λ freed. never_oom words start freed (omega arith) (omega arith))
