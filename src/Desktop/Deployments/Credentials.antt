-- ===== src/Desktop/Deployments/Credentials.antt =====
-- The credentials of app/src/api/CoderApiClient.cpp after a login through app/src/data/SessionManager.cpp,
-- and in the next run of the program.
use coder_desktop_linux.Common.{
  ◌≡◌, ◌≢◌, refl, ◌⊎◌, Bool, true, false, none, List, [], ◌∷◌, arith, String, is_empty,
}
use coder_desktop_linux.Desktop.Secrets.{Keyring, Codec, store_token}
use coder_desktop_linux.Desktop.Secrets.RoundTrip.{IsKeyring, IsCodec, store-retrieve}
use coder_desktop_linux.Desktop.Deployments.{
  Deployment, no_deployment, chop_slashes, Manager, deactivate_all, replace_or_append, user, login,
  login_replied, last_active, new_manager,
}

last_active_idle : (d : Deployment) (ds : List Deployment) → last_active d (deactivate_all ds) ≡ d
unfolding last_active deactivate_all
last_active_idle d [] = refl
last_active_idle d (x ∷ xs) = last_active_idle d xs

last_active-replaced :
    (d dep : Deployment) (ds : List Deployment)
    → dep.is_active ≡ true
    → last_active d (replace_or_append dep (deactivate_all ds)) ≡ dep
unfolding last_active replace_or_append deactivate_all
last_active-replaced d dep [] on = ground arith
last_active-replaced d dep (x ∷ xs) on =
    ground (arith, last_active_idle dep xs, last_active-replaced d dep xs on)

module _ {K : Type 0} (ring : Keyring K) (codec : Codec) (r : IsKeyring ring)
    (c : IsCodec codec) where
  -- A login with a URL that is not empty and a token that is not empty, whose reply is the user and
  -- whose token is stored with the answer true, the keyring taking it or having none for the URL:
  -- the client has the URL without its slashes at the end, and the token; and a new run of the
  -- program over what is stored has the same client and the same active deployment.
  pub login-restart :
      (writable : Bool) (url token username avatar_url id now : String) (m : Manager K)
      → is_empty url ≡ false
      → is_empty token ≡ false
      → (ring.store url token m.storage.keyring ≢ none) ⊎ (ring.find url m.storage.keyring ≡ none)
      → (store_token ring codec writable url token m.storage).0 ≡ true
      → let logged_in =
          (login_replied ring codec writable url token
            (user username avatar_url id now)
            (login url token m)).0 in
        let restarted = new_manager ring codec logged_in.saved logged_in.storage in
        (logged_in.client ≡ record { base_url = chop_slashes url; session_token = token })
        × (logged_in.active.url ≡ url)
        × (restarted.client ≡ logged_in.client)
        × (restarted.active ≡ logged_in.active)
  unfolding login login_replied new_manager
  login-restart writable url token username avatar_url id now m named full free stored =
      let dep : Deployment = record {
        id = id;
        name = url;
        url = url;
        username = username;
        avatar_url = avatar_url;
        is_active = true;
        added_at = now;
      } in
      let active = last_active-replaced no_deployment dep m.deployments refl in
      let found = store-retrieve ring codec r c writable url token m.storage full free stored in
      (
        refl,
        refl,
        rw (active, named, found, full, new_manager) refl,
        rw (active, named, found, full, new_manager) refl,
      )
