-- ===== src/Desktop/Secrets.antt =====
-- app/src/data/SecureStorage.cpp, built with libsecret: tokens in a keyring, with a file behind it.
pub mod RoundTrip
use coder_desktop_linux.Common.{
  Bool, true, false, Option, none, some, ◌≡◌, ◌≢◌, if◌then◌else◌, String, is_empty, Dict, lookup,
  insert, erase, contains,
}

-- libsecret over its state: `none` of `store` is an error, `none` of `find` is an error or no entry,
-- and `clear` says whether an entry was removed.
pub record Keyring (K : Type 0) : Type 0 where
  pub store : String → String → K → Option K
  pub find : String → K → Option String
  pub clear : String → K → Bool × K

-- `fromLatin1(toBase64(toUtf8(s)))` and `fromUtf8(fromBase64(toLatin1(s)))`.
pub record Codec : Type 0 where
  pub encode : String → String
  pub decode : String → String

-- `secure` is the backend that was detected, and `file` the object in `credentials.json`.
pub record Storage (K : Type 0) : Type 0 where
  pub secure : Bool
  pub keyring : K
  pub file : Dict String

-- The object at a name, as text.
abbrev pub text_at : Dict String → String → String
text_at file name = elim (lookup file name) [ none ↦ "" | some value ↦ value ]

module _ {K : Type 0} where
  -- `saveFallbackFile`, with its answer; `writable` says whether the file opens.
  unfoldable pub save_fallback_file : (writable : Bool) → Dict String → Storage K → Bool × Storage K
  save_fallback_file writable root s =
      if writable then (true, record s { file = root }) else (false, s)

module _ {K : Type 0} (codec : Codec) where
  unfoldable pub file_store : (writable : Bool) → String → String → Storage K → Bool × Storage K
  unfolding save_fallback_file
  file_store writable key value s =
      save_fallback_file writable (insert s.file key (codec.encode value)) s

  unfoldable pub file_retrieve : String → Storage K → String
  file_retrieve key s =
      if is_empty (text_at s.file key) then "" else codec.decode (text_at s.file key)

module _ {K : Type 0} where
  unfoldable pub file_remove : (writable : Bool) → String → Storage K → Bool × Storage K
  unfolding save_fallback_file
  file_remove writable key s =
      if contains s.file key then save_fallback_file writable (erase s.file key) s else (false, s)

module _ {K : Type 0} (ring : Keyring K) where
  -- What the keyring gives, where it is in use.
  abbrev pub keyring_text : String → Storage K → String
  keyring_text url s =
      if s.secure then elim (ring.find url s.keyring) [ none ↦ "" | some token ↦ token ] else ""

module _ {K : Type 0} (ring : Keyring K) (codec : Codec) where
  unfoldable pub store_token : (writable : Bool) → String → String → Storage K → Bool × Storage K
  unfolding file_store save_fallback_file
  store_token writable url token s =
      if s.secure
      then elim (ring.store url token s.keyring) [
        | none ↦ file_store codec writable url token s
        | some keyring ↦ (
          true,
          (save_fallback_file writable (insert s.file url "libsecret")
              (record s { keyring = keyring })).1,
        )
      ]
      else file_store codec writable url token s

  unfoldable pub retrieve_token : String → Storage K → String
  unfolding file_retrieve
  retrieve_token url s =
      if is_empty (keyring_text ring url s)
      then file_retrieve codec url s
      else keyring_text ring url s

module _ {K : Type 0} (ring : Keyring K) where
  unfoldable pub remove_token : (writable : Bool) → String → Storage K → Bool × Storage K
  unfolding file_remove save_fallback_file
  remove_token writable url s =
      let (removed, keyring) = ring.clear url s.keyring in
      if s.secure
      then (
        removed,
        (save_fallback_file writable (erase s.file url) (record s { keyring = keyring })).1,
      )
      else file_remove writable url s
