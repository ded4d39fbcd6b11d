-- ===== src/Desktop/LoginFlow.antt =====
-- app/src/auth/LoginFlowController.cpp, built with WebEngine: the login in the embedded browser, with the
-- sessions of app/src/data/SessionManager.cpp that it logs in to.
pub mod Flow
use coder_desktop_linux.Common.{
  ℕ, Bool, true, false, Option, none, some, List, [], ◌∷◌, ◌++◌, ◌==◌, ◌||◌, if◌then◌else◌, String,
  is_empty, concat, str_eq,
}
use Prim.Native.Char.{code}
use coder_desktop_linux.Desktop.Deployments.{chop_slashes, Manager, login}

-- The controller, and the sessions that it refers to.
pub record LoginFlow (K : Type 0) : Type 0 where
  pub deployment_url : String
  pub login_url : String
  pub pending_host : String
  pub flow_active : Bool
  pub probing : Bool
  pub sessions : Manager K

pub data FlowCall : Type 0 where
  probe : (url : String) → FlowCall
  logs_in_to : (url token : String) → FlowCall
  token_obtained : (url token : String) → FlowCall
  clear_cookies probing_changed login_url_changed flow_active_changed probe_failed : FlowCall

-- `startsWith`.
unfoldable pub has_prefix : (prefix s : String) → Bool
has_prefix String.[] s = true
has_prefix (String.◌∷◌ p prefix) String.[] = false
has_prefix (String.◌∷◌ p prefix) (String.◌∷◌ c s) =
    let rest = has_prefix prefix s in if code p == code c then rest else false

module _ {K : Type 0} where
  -- `continueStartFlow`.
  unfoldable pub continue_start_flow : String → LoginFlow K → LoginFlow K × List FlowCall
  continue_start_flow base s = (
    record s {
      deployment_url = base;
      login_url = concat (base ∷ "/login" ∷ []);
      flow_active = true;
    },
    clear_cookies ∷ login_url_changed ∷ flow_active_changed ∷ [],
  )

  -- `probeScheme` up to its request.
  unfoldable pub probe_scheme : String → LoginFlow K → LoginFlow K × List FlowCall
  probe_scheme host s = (
    record s { pending_host = host; probing = true },
    probing_changed ∷ probe (concat ("https://" ∷ host ∷ "/api/v2/buildinfo" ∷ [])) ∷ [],
  )

  -- `startFlow`.
  unfoldable pub start_flow : String → LoginFlow K → LoginFlow K × List FlowCall
  unfolding continue_start_flow probe_scheme
  start_flow url s =
      let base = chop_slashes url in
      if is_empty base
      then (s, [])
      else if has_prefix "http://" base || has_prefix "https://" base
      then continue_start_flow base s
      else probe_scheme base s

  -- The answers to the probes; `reached` says whether the server answered over HTTP.
  unfoldable pub https_replied : (reached : Bool) → LoginFlow K → LoginFlow K × List FlowCall
  unfolding continue_start_flow
  https_replied reached s =
      let (s', calls) =
        continue_start_flow (concat ("https://" ∷ s.pending_host ∷ []))
          (record s { probing = false }) in
      if s.probing
      then if reached
        then (s', probing_changed ∷ calls)
        else (s, probe (concat ("http://" ∷ s.pending_host ∷ "/api/v2/buildinfo" ∷ [])) ∷ [])
      else (s, [])

  unfoldable pub http_replied : (reached : Bool) → LoginFlow K → LoginFlow K × List FlowCall
  unfolding continue_start_flow
  http_replied reached s =
      let idle : LoginFlow K = record s { probing = false } in
      let (s', calls) = continue_start_flow (concat ("http://" ∷ s.pending_host ∷ [])) idle in
      if s.probing
      then if reached
        then (s', probing_changed ∷ calls)
        else (idle, probing_changed ∷ probe_failed ∷ [])
      else (s, [])

  -- `cancelFlow`.
  unfoldable pub cancel_flow : LoginFlow K → LoginFlow K × List FlowCall
  cancel_flow s = (
    record s {
      flow_active = false;
      login_url = "";
      deployment_url = "";
      probing = false;
      pending_host = if s.probing then "" else s.pending_host;
    },
    (if s.probing then probing_changed ∷ [] else [])
        ++ clear_cookies ∷ login_url_changed ∷ flow_active_changed ∷ [],
  )

  -- `handleJsTokenResult`, and the handler of a cookie once its name is the session's.
  unfoldable pub take_token : String → LoginFlow K → LoginFlow K × List FlowCall
  unfolding login
  take_token token s =
      if s.flow_active
      then if is_empty token then (s, []) else (
        record s {
          sessions = login s.deployment_url token s.sessions;
          flow_active = false;
          login_url = "";
        },
        logs_in_to s.deployment_url token
            ∷ login_url_changed
            ∷ flow_active_changed
            ∷ token_obtained s.deployment_url token
            ∷ clear_cookies
            ∷ [],
      )
      else (s, [])

  unfoldable pub cookie_added : (name token : String) → LoginFlow K → LoginFlow K × List FlowCall
  unfolding take_token
  cookie_added name token s =
      if str_eq name "coder_session_token" then take_token token s else (s, [])

-- What the user, the network and the browser do.
pub data FlowEvent : Type 0 where
  starts_flow : (url : String) → FlowEvent
  https_replies http_replies : (reached : Bool) → FlowEvent
  cancels_flow : FlowEvent
  js_token : (token : String) → FlowEvent
  cookie : (name token : String) → FlowEvent

module _ {K : Type 0} where
  unfoldable pub flow_step : FlowEvent → LoginFlow K → LoginFlow K × List FlowCall
  flow_step (starts_flow url) s = start_flow url s
  flow_step (https_replies reached) s = https_replied reached s
  flow_step (http_replies reached) s = http_replied reached s
  flow_step cancels_flow s = cancel_flow s
  flow_step (js_token token) s = take_token token s
  flow_step (cookie name token) s = cookie_added name token s

  unfoldable pub flow_run : List FlowEvent → LoginFlow K → LoginFlow K × List FlowCall
  flow_run [] s = (s, [])
  flow_run (e ∷ es) s =
      let (s', calls) = flow_step e s in let (s'', more) = flow_run es s' in (s'', calls ++ more)
