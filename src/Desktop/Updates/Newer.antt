-- ===== src/Desktop/Updates/Newer.antt =====
-- The order of versions of app/src/updater/AutoUpdater.cpp, and the updates that it offers.
use coder_desktop_linux.Common.{
  ◌≡◌, ◌<◌, ◌↔◌, ◌⊎◌, inl, inr, refl, ◌∙◌, Bool, true, false, some, List, [], ◌∷◌, String, is_empty,
  arith, Bool-cases,
}
use coder_desktop_linux.Desktop.Updates.{
  Version, parse_semver, newer, is_newer_version, Updater, UpdateReply, network_error,
  not_an_object, a_release, on_reply_finished, updater_run,
}

newer_irrefl : (a : Version) → newer a a ≡ false
unfolding newer
newer_irrefl a = ground arith

newer_back : (a b : Version) → newer a b ≡ true → newer b a ≡ false
unfolding newer
newer_back a b h = ground arith

newer_chain : (a b c : Version) → newer a b ≡ true → newer b c ≡ true → newer a c ≡ true
unfolding newer
newer_chain a b c h k = ground arith

newer_neither : (a b : Version) → newer a b ≡ false → newer b a ≡ false → a ≡ b
unfolding newer
newer_neither a b h k = ground arith

newer_asymm : (a b : Version) → (newer a b ≡ false) ⊎ (newer b a ≡ false)
newer_asymm a b = elim (Bool-cases (newer a b)) [
  | inr no_ab ↦ inl no_ab
  | inl ab ↦ inr (newer_back a b ab)
]

newer_trans : (a b c : Version) → (newer a b ≡ false) ⊎ ((newer b c ≡ false) ⊎ (newer a c ≡ true))
newer_trans a b c = elim (Bool-cases (newer a b)) [
  | inr no_ab ↦ inl no_ab
  | inl ab ↦ elim (Bool-cases (newer b c)) [
    | inr no_bc ↦ inr (inl no_bc)
    | inl bc ↦ inr (inr (newer_chain a b c ab bc))
  ]
]

newer_total : (a b : Version) → (newer a b ≡ true) ⊎ ((newer b a ≡ true) ⊎ (a ≡ b))
newer_total a b = elim (Bool-cases (newer a b)) [
  | inl ab ↦ inl ab
  | inr no_ab ↦ elim (Bool-cases (newer b a)) [
    | inl ba ↦ inr (inl ba)
    | inr no_ba ↦ inr (inr (newer_neither a b no_ab no_ba))
  ]
]

-- The three numbers of the second version are above those of the first, the first number that differs
-- deciding.
abbrev pub Below : Version → Version → Type 0
Below a b =
    (a.major < b.major)
    ⊎ (((a.major ≡ b.major) × (a.minor < b.minor))
        ⊎ ((a.major ≡ b.major) × (a.minor ≡ b.minor) × (a.patch < b.patch)))

newer-Below : (a b : Version) → newer a b ≡ true → Below a b
unfolding newer
newer-Below a b h = ground arith

Below-newer : (a b : Version) → Below a b → newer a b ≡ true
unfolding newer
Below-newer a b h = ground arith

compared :
    (above : String → String → Bool) (s t : String) {a b : Version}
    → parse_semver s ≡ some a
    → parse_semver t ≡ some b
    → is_newer_version above s t ≡ newer a b
unfolding is_newer_version
compared above s t e f = ground arith

-- Of texts that begin with a version, the second is newer exactly where its three numbers are above those
-- of the first, the first number that differs deciding; what follows the three numbers does not count,
-- and a number above `int` counts as 0. This is a strict order, and texts of which neither is newer have
-- the same three numbers.
pub is_newer_version_order :
    (above : String → String → Bool) (s t u : String) {a b c : Version}
    → parse_semver s ≡ some a
    → parse_semver t ≡ some b
    → parse_semver u ≡ some c
    → let is_newer = is_newer_version above in
      ((is_newer s t ≡ true) ↔ Below a b)
      × (is_newer s s ≡ false)
      × ((is_newer s t ≡ false) ⊎ (is_newer t s ≡ false))
      × ((is_newer s t ≡ false) ⊎ ((is_newer t u ≡ false) ⊎ (is_newer s u ≡ true)))
      × ((is_newer s t ≡ true) ⊎ ((is_newer t s ≡ true) ⊎ (a ≡ b)))
is_newer_version_order above s t u {a} {b} {c} e f g =
    rw
      (
        compared above s s e e,
        compared above s t e f,
        compared above t s f e,
        compared above t u f g,
        compared above s u e g,
      )
      (
        (newer-Below a b, Below-newer a b),
        newer_irrefl a,
        newer_asymm a b,
        newer_trans a b c,
        newer_total a b,
      )

-- An update is offered only where it is newer than the version that runs.
abbrev pub Offers : (above : String → String → Bool) → Updater → Type 0
Offers above u =
    (u.update_ready ≡ false) ⊎ (is_newer_version above u.current_version u.latest_version ≡ true)

reply-Offers :
    (above : String → String → Bool) (r : UpdateReply) (u : Updater)
    → Offers above u
    → Offers above (on_reply_finished above r u).0
      × ((on_reply_finished above r u).0.current_version ≡ u.current_version)
unfolding on_reply_finished
reply-Offers above network_error u h = (h, refl)
reply-Offers above not_an_object u h = (h, refl)
reply-Offers above (a_release r) u h = elim (Bool-cases (is_empty r.tag_name)) [
  | inl unnamed ↦ rw (unnamed, on_reply_finished) (h, refl)
  | inr named ↦ elim (Bool-cases (is_newer_version above u.current_version r.tag_name)) [
    | inl new ↦ rw (named, new, on_reply_finished) (inr new, refl)
    | inr old ↦ rw (named, old, on_reply_finished) (h, refl)
  ]
]

-- An updater that offers nothing, or a version that is newer than the one that runs, does so after any
-- replies, and the version that runs stays the same.
pub updater_run-Offers :
    (above : String → String → Bool) (rs : List UpdateReply) (u : Updater)
    → Offers above u
    → Offers above (updater_run above rs u)
      × ((updater_run above rs u).current_version ≡ u.current_version)
unfolding updater_run
updater_run-Offers above [] u h = (h, refl)
updater_run-Offers above (r ∷ rs) u h =
    let one = reply-Offers above r u h in
    let more = updater_run-Offers above rs (on_reply_finished above r u).0 one.0 in
    (more.0, more.1 ∙ one.1)
