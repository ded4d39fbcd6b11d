-- ===== src/Desktop/Deployments.antt =====
-- app/src/data/SessionManager.cpp with the credentials of app/src/api/CoderApiClient.cpp and the storage
-- of app/src/data/SecureStorage.cpp: the deployments, which one is active, and the requests under way.
mod State
pub mod Flags
pub mod Active
pub mod Credentials
use coder_desktop_linux.Common.{
  ℕ, Bool, true, false, not, ◌||◌, Option, none, some, List, [], ◌∷◌, ◌++◌, map, ◌==◌,
  if◌then◌else◌, String, str_eq, is_empty, concat,
}
use Prim.Native.Char.{code}
use coder_desktop_linux.Desktop.Secrets.{
  Keyring, Codec, Storage, store_token, retrieve_token, remove_token,
}
unfoldable pub use coder_desktop_linux.Desktop.Deployments.State.*

-- The answer to the request for the user: an error, or the fields of the user and the time.
pub data UserReply : Type 0 where
  failed : (error : String) → UserReply
  user : (username avatar_url id now : String) → UserReply

module _ {K : Type 0} where
  -- `saveDeployments`, and `startTokenValidation`.
  unfoldable pub save_deployments : Manager K → Manager K
  save_deployments m = record m { saved = m.deployments }

  unfoldable pub start_token_validation : Manager K → Manager K
  start_token_validation m = record m { validating = true }

  -- `login` up to its request.
  unfoldable pub login : String → String → Manager K → Manager K
  login url token m = record m { client = set_session_token token (set_base_url url m.client) }

  -- The reply to `validateToken`'s request, by its status.
  unfoldable pub validated : ℕ → Manager K → Manager K × List SessionSignal
  validated status m =
      if status == 401 then (record m { validating = false }, token_expired ∷ []) else (m, [])

module _ {K : Type 0} (ring : Keyring K) (codec : Codec) where
  -- The reply to the request of `login`, with the URL and the token that it was called with.
  unfoldable pub login_replied :
      (writable : Bool)
      → (url token : String) → UserReply
      → Manager K
      → Manager K × List SessionSignal
  unfolding save_deployments start_token_validation set_session_token
  login_replied writable url token (failed error) m =
      (record m { client = set_session_token "" m.client }, login_failed error ∷ [])
  login_replied writable url token (user username avatar_url id now) m =
      let dep : Deployment = record {
        id = id;
        name = url;
        url = url;
        username = username;
        avatar_url = avatar_url;
        is_active = true;
        added_at = now;
      } in
      let m' : Manager K = record m {
        storage = (store_token ring codec writable url token m.storage).1;
        deployments = replace_or_append dep (deactivate_all m.deployments);
        active = dep;
      } in
      (
        start_token_validation (save_deployments m'),
        auth_state_changed ∷ login_succeeded username ∷ [],
      )

  -- `switchDeployment`, with an entry of the URL.
  unfoldable pub switch_to : String → Deployment → Manager K → Manager K × List SessionSignal
  unfolding save_deployments start_token_validation set_session_token set_base_url
  switch_to url target m =
      let token = retrieve_token ring codec url m.storage in
      if is_empty token
      then (m, login_failed (concat ("No stored token for " ∷ url ∷ [])) ∷ [])
      else (
        start_token_validation (
            save_deployments (record m {
              deployments = activate_first url (deactivate_all m.deployments);
              active = record target { is_active = true };
              client = set_session_token token (set_base_url url m.client);
            })),
        auth_state_changed ∷ [],
      )

  unfoldable pub switch_deployment : String → Manager K → Manager K × List SessionSignal
  switch_deployment url m = elim (find_url url m.deployments) [
    | none ↦ (m, [])
    | some target ↦ switch_to url target m
  ]

module _ {K : Type 0} (ring : Keyring K) where
  -- `logout`.
  unfoldable pub logout : (writable : Bool) → Manager K → Manager K × List SessionSignal
  unfolding save_deployments set_session_token set_base_url
  logout writable m =
      let m' : Manager K = record m {
        storage =
            if is_empty m.active.url
            then m.storage
            else (remove_token ring writable m.active.url m.storage).1;
        client = set_base_url "" (set_session_token "" m.client);
        deployments = deactivate_url m.active.url m.deployments;
        active = no_deployment;
      } in
      (record (save_deployments m') { validating = false }, auth_state_changed ∷ [])

  -- `removeDeployment`.
  unfoldable pub remove_deployment :
      (writable : Bool) → String → Manager K → Manager K × List SessionSignal
  unfolding save_deployments set_session_token set_base_url
  remove_deployment writable url m =
      let m' : Manager K = record m {
        storage = (remove_token ring writable url m.storage).1;
        deployments = remove_url url m.deployments;
      } in
      if str_eq m.active.url url
      then (
        save_deployments (record m' {
          active = no_deployment;
          client = set_base_url "" (set_session_token "" m.client);
          validating = false;
        }),
        auth_state_changed ∷ [],
      )
      else (save_deployments m', [])

-- `loadDeployments`, of the entries that the settings hold: the last active one counts.
unfoldable pub last_active : Deployment → List Deployment → Deployment
last_active d [] = d
last_active d (x ∷ xs) = last_active (if x.is_active then x else d) xs

module _ {K : Type 0} (ring : Keyring K) (codec : Codec) where
  -- The constructor; `entries` are the entries in the settings.
  unfoldable pub new_manager : List Deployment → Storage K → Manager K
  unfolding last_active set_session_token set_base_url start_token_validation
  new_manager entries storage =
      let m : Manager K = record {
        active = last_active no_deployment entries;
        deployments = entries;
        client = record { base_url = ""; session_token = "" };
        storage = storage;
        saved = entries;
        validating = false;
      } in
      let token = retrieve_token ring codec m.active.url storage in
      if is_empty m.active.url
      then m
      else if is_empty token
      then m
      else start_token_validation
          (record m { client = set_session_token token (set_base_url m.active.url m.client) })

-- What happens to the manager; a reply comes for a request that was made at any time before, and
-- `restarts` is a new run of the program over what is stored.
pub data SessionEvent : Type 0 where
  logs_in : (url token : String) → SessionEvent
  replies : (writable : Bool) → (url token : String) → UserReply → SessionEvent
  logs_out : (writable : Bool) → SessionEvent
  switches : String → SessionEvent
  removes : (writable : Bool) → String → SessionEvent
  validates : ℕ → SessionEvent
  restarts : SessionEvent

module _ {K : Type 0} (ring : Keyring K) (codec : Codec) where
  unfoldable pub session_step : SessionEvent → Manager K → Manager K × List SessionSignal
  session_step (logs_in url token) m = (login url token m, [])
  session_step (replies writable url token reply) m =
      login_replied ring codec writable url token reply m
  session_step (logs_out writable) m = logout ring writable m
  session_step (switches url) m = switch_deployment ring codec url m
  session_step (removes writable url) m = remove_deployment ring writable url m
  session_step (validates status) m = validated status m
  session_step restarts m = (new_manager ring codec m.saved m.storage, [])

  unfoldable pub session_run : List SessionEvent → Manager K → Manager K × List SessionSignal
  session_run [] m = (m, [])
  session_run (e ∷ es) m =
      let (m', signals) = session_step e m in
      let (m'', more) = session_run es m' in (m'', signals ++ more)
