-- ===== src/Desktop/Deployments/State.antt =====
-- The deployments and the client of the API: what app/src/data/SessionManager.cpp keeps, with setBaseUrl and
-- setSessionToken of app/src/api/CoderApiClient.cpp.
use coder_desktop_linux.Common.{
  Bool, true, false, not, Option, none, some, List, [], ◌∷◌, ◌==◌, if◌then◌else◌, String, str_eq,
  is_empty,
}
use Prim.Native.Char.{code}
use coder_desktop_linux.Desktop.Secrets.{Storage}

-- `Deployment`; the time as the text that is written.
pub record Deployment : Type 0 where
  pub id : String
  pub name : String
  pub url : String
  pub username : String
  pub avatar_url : String
  pub is_active : Bool
  pub added_at : String

abbrev pub no_deployment : Deployment
no_deployment = record {
  id = "";
  name = "";
  url = "";
  username = "";
  avatar_url = "";
  is_active = false;
  added_at = "";
}

-- `m_baseUrl` and `m_sessionToken` of the client.
pub record ApiClient : Type 0 where
  pub base_url : String
  pub session_token : String

-- The loop that takes slashes off the end.
unfoldable pub chop_slashes : String → String
chop_slashes String.[] = ""
chop_slashes (String.◌∷◌ c s) =
    let rest = chop_slashes s in
    if is_empty rest then if code c == b'/' then "" else String.◌∷◌ c "" else String.◌∷◌ c rest

unfoldable pub set_base_url : String → ApiClient → ApiClient
set_base_url url client = record client { base_url = chop_slashes url }

unfoldable pub set_session_token : String → ApiClient → ApiClient
set_session_token token client = record client { session_token = token }

abbrev pub is_authenticated : ApiClient → Bool
is_authenticated client = not (is_empty client.session_token)

-- The manager with its client and its storage; `saved` is what was written last, `validating` says
-- whether the timer that validates the token runs.
pub record Manager (K : Type 0) : Type 0 where
  pub active : Deployment
  pub deployments : List Deployment
  pub client : ApiClient
  pub storage : Storage K
  pub saved : List Deployment
  pub validating : Bool

pub data SessionSignal : Type 0 where
  auth_state_changed token_expired : SessionSignal
  login_succeeded : String → SessionSignal
  login_failed : String → SessionSignal

unfoldable pub deactivate_all : List Deployment → List Deployment
deactivate_all [] = []
deactivate_all (d ∷ ds) = record d { is_active = false } ∷ deactivate_all ds

-- The entry of the URL replaced, or the new one at the end.
unfoldable pub replace_or_append : Deployment → List Deployment → List Deployment
replace_or_append dep [] = dep ∷ []
replace_or_append dep (d ∷ ds) =
    let later = replace_or_append dep ds in if str_eq d.url dep.url then dep ∷ ds else d ∷ later

-- The loop of `logout`.
unfoldable pub deactivate_url : String → List Deployment → List Deployment
deactivate_url url [] = []
deactivate_url url (d ∷ ds) =
    (if str_eq d.url url then record d { is_active = false } else d) ∷ deactivate_url url ds

unfoldable pub find_url : String → List Deployment → Option Deployment
find_url url [] = none
find_url url (d ∷ ds) = let later = find_url url ds in if str_eq d.url url then some d else later

-- The first entry of the URL made active, of a list in which none is.
unfoldable pub activate_first : String → List Deployment → List Deployment
activate_first url [] = []
activate_first url (d ∷ ds) =
    let later = activate_first url ds in
    if str_eq d.url url then record d { is_active = true } ∷ ds else d ∷ later

unfoldable pub remove_url : String → List Deployment → List Deployment
remove_url url [] = []
remove_url url (d ∷ ds) =
    let later = remove_url url ds in if str_eq d.url url then later else d ∷ later
