-- ===== src/Desktop/Secrets/RoundTrip.antt =====
-- Tokens that app/src/data/SecureStorage.cpp stores and finds again.
use coder_desktop_linux.Common.{
  Bool, true, false, none, some, ◌≡◌, ◌≢◌, refl, ◌∙◌, if◌then◌else◌, String, str_eq, eq_refl,
  is_empty, lookup, lookup-erase, contains-lookup, arith, Bool-cases, Option-cases, inl, inr, ◌⊎◌,
}
use coder_desktop_linux.Desktop.Secrets.{
  Keyring, Codec, Storage, save_fallback_file, file_store, file_retrieve, file_remove, store_token,
  retrieve_token, remove_token, keyring_text,
}

-- libsecret finds what was stored last under a name, nothing where it was cleared, and keeps what is
-- under other names.
pub record IsKeyring {K : Type 0} (ring : Keyring K) : Type 0 where
  pub find-store :
      (url token name : String) (k k' : K)
      → ring.store url token k ≡ some k'
      → ring.find name k' ≡ (if str_eq url name then some token else ring.find name k)
  pub find-clear :
      (url name : String) (k : K)
      → ring.find name (ring.clear url k).1 ≡ (if str_eq url name then none else ring.find name k)

-- Base64 and UTF-8 give a text back, and an empty encoding only of the empty text.
pub record IsCodec (codec : Codec) : Type 0 where
  pub decode-encode : (s : String) → codec.decode (codec.encode s) ≡ s
  pub encode_empty : (s : String) → is_empty s ≡ false → is_empty (codec.encode s) ≡ false

module _ {K : Type 0} (codec : Codec) (c : IsCodec codec) where
  file_store-retrieve :
      (writable : Bool) (url token : String) (s : Storage K)
      → is_empty token ≡ false
      → (file_store codec writable url token s).0 ≡ true
      → file_retrieve codec url (file_store codec writable url token s).1 ≡ token
  unfolding file_store file_retrieve save_fallback_file lookup
  file_store-retrieve true url token s full stored =
      ground (arith, eq_refl url, c.encode_empty token full, c.decode-encode token)
  file_store-retrieve false url token s full stored = cc

module _ {K : Type 0} (ring : Keyring K) (codec : Codec) (r : IsKeyring ring)
    (c : IsCodec codec) where
  retrieve_ring :
      (url token : String) (s : Storage K)
      → is_empty token ≡ false
      → s.secure ≡ true
      → ring.find url s.keyring ≡ some token
      → retrieve_token ring codec url s ≡ token
  unfolding retrieve_token
  retrieve_ring url token s full secure found = ground arith

  retrieve_file :
      (url : String) (s : Storage K)
      → keyring_text ring url s ≡ ""
      → retrieve_token ring codec url s ≡ file_retrieve codec url s
  unfolding retrieve_token
  retrieve_file url s none_there = rw (none_there, retrieve_token) refl

  file_store_text :
      (writable : Bool) (url token : String) (s : Storage K)
      → keyring_text ring url (file_store codec writable url token s).1 ≡ keyring_text ring url s
  unfolding file_store save_fallback_file
  file_store_text true url token s = refl
  file_store_text false url token s = refl

  from_file :
      (writable : Bool) (url token : String) (s : Storage K)
      → is_empty token ≡ false
      → store_token ring codec writable url token s ≡ file_store codec writable url token s
      → (store_token ring codec writable url token s).0 ≡ true
      → keyring_text ring url s ≡ ""
      → retrieve_token ring codec url (store_token ring codec writable url token s).1 ≡ token
  from_file writable url token s full e stored none_there =
      rw
        (
          e,
          retrieve_file url (file_store codec writable url token s).1
              (file_store_text writable url token s ∙ none_there),
        )
        (file_store-retrieve codec c writable url token s full (rw e at stored))

  -- A token that is not empty and that is stored with the answer true is what is found under its URL
  -- afterwards: from the keyring, or from the file where there is no keyring or the keyring refuses
  -- the token and has none for this URL.
  pub store-retrieve :
      (writable : Bool) (url token : String) (s : Storage K)
      → is_empty token ≡ false
      → (ring.store url token s.keyring ≢ none) ⊎ (ring.find url s.keyring ≡ none)
      → (store_token ring codec writable url token s).0 ≡ true
      → retrieve_token ring codec url (store_token ring codec writable url token s).1 ≡ token
  unfolding store_token retrieve_token
  store-retrieve writable url token s full free stored = elim (Bool-cases s.secure) [
    | inr plain ↦ from_file writable url token s full (ground arith) stored (rw plain refl)
    | inl secure ↦ elim (Option-cases (ring.store url token s.keyring)) [
      | inl refused ↦ from_file writable url token s full (ground arith) stored (ground arith)
      | inr (keyring, kept) ↦
          ground (arith, r.find-store url token url s.keyring keyring, eq_refl url)
    ]
  ]

module _ {K : Type 0} (ring : Keyring K) (codec : Codec) (r : IsKeyring ring) where
  -- Where the file opens, a removal leaves no token under its URL, in the keyring or in the file.
  pub remove-retrieve :
      (url : String) (s : Storage K)
      → retrieve_token ring codec url (remove_token ring true url s).1 ≡ ""
  unfolding remove_token retrieve_token file_remove file_retrieve save_fallback_file
  remove-retrieve url s = ground (
    arith,
    contains-lookup s.file url,
    r.find-clear url url s.keyring,
    lookup-erase s.file url url,
    eq_refl url,
  )
