-- ===== src/Desktop/Settings/PolicyFiles.antt =====
-- The policy of an administrator: app/src/settings/MdmConfigManager.cpp.
use coder_desktop_linux.Common.{
  ℕ, Bool, true, false, Option, none, some, List, [], if◌then◌else◌, ℤ, pos, same_int, String, Dict,
  lookup,
}

-- The alternatives of `QVariant` that the settings use; the invalid one is `none` of an option.
pub data Variant : Type 0 where
  text : String → Variant
  texts : List String → Variant
  flag : Bool → Variant
  number : ℤ → Variant
  other : ℕ → Variant

-- Qt's conversions.
pub record Conversions : Type 0 where
  pub to_text : Variant → String
  pub to_texts : Variant → List String
  pub to_bool : Variant → Bool
  pub to_int : Variant → ℤ

-- An object of the policy: `value` is `toVariant` of that field, `locked` is `toBool(false)` of the
-- other. `none` in `PolicySettings` is a value that is no object.
pub record PolicyEntry : Type 0 where
  pub value : Option Variant
  pub locked : Bool

abbrev pub PolicySettings : Type 0
PolicySettings = Dict (Option PolicyEntry)

-- What the parser makes of the file; `none` is a field `settings` that is no object.
pub data PolicyDocument : Type 0 where
  parse_error not_an_object : PolicyDocument
  an_object : (version : ℤ) → (settings : Option PolicySettings) → PolicyDocument

pub record PolicyFile : Type 0 where
  pub exists : Bool
  pub opens : Bool
  pub document : PolicyDocument

-- `m_enabled` and `m_settings`.
pub record Mdm : Type 0 where
  pub enabled : Bool
  pub settings : PolicySettings

abbrev pub no_policy : Mdm
no_policy = record { enabled = false; settings = [] }

-- `parse`.
unfoldable pub parse_document : PolicyDocument → Mdm → Mdm
parse_document parse_error m = m
parse_document not_an_object m = m
parse_document (an_object version settings) m =
    if same_int version (pos 1)
    then elim settings [ none ↦ m | some entries ↦ record { enabled = true; settings = entries } ]
    else m

unfoldable pub parse : PolicyFile → Mdm → Mdm
unfolding parse_document
parse file m = if file.exists then if file.opens then parse_document file.document m else m else m

unfoldable pub reload : PolicyFile → Mdm → Mdm
reload file m = parse file no_policy

-- The object at a name.
abbrev pub entry_at : Mdm → String → Option PolicyEntry
entry_at m key = elim (lookup m.settings key) [ none ↦ none | some entry ↦ entry ]

-- `value` and `isLocked`.
unfoldable pub mdm_value : Mdm → String → Option Variant
mdm_value m key =
    if m.enabled then elim (entry_at m key) [ none ↦ none | some entry ↦ entry.value ] else none

unfoldable pub is_locked : Mdm → String → Bool
is_locked m key =
    if m.enabled then elim (entry_at m key) [ none ↦ false | some entry ↦ entry.locked ] else false
