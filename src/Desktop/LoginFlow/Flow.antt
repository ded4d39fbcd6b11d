-- ===== src/Desktop/LoginFlow/Flow.antt =====
-- Where app/src/auth/LoginFlowController.cpp logs in to, and when it does not.
use coder_desktop_linux.Common.{
  ◌≡◌, refl, ◌⊎◌, inl, inr, Bool, true, false, List, [], ◌∷◌, ◌||◌, arith, All, All-append,
  Bool-cases, String, is_empty, concat, str_eq,
}
use Prim.Native.String.{◌++◌}
use text.Mathlib.TextLemmas.{cons-append}
use coder_desktop_linux.Desktop.Deployments.{chop_slashes}
use coder_desktop_linux.Desktop.LoginFlow.{
  LoginFlow, FlowCall, logs_in_to, has_prefix, continue_start_flow, probe_scheme, start_flow,
  https_replied, http_replied, cancel_flow, take_token, cookie_added, FlowEvent, starts_flow,
  https_replies, http_replies, cancels_flow, js_token, cookie, flow_step, flow_run,
}

abbrev pub has_scheme : String → Bool
has_scheme url = has_prefix "http://" url || has_prefix "https://" url

-- A login is to a URL with a scheme, with a token that is not empty.
abbrev pub Addressed : FlowCall → Type 0
Addressed (logs_in_to url token) = (has_scheme url ≡ true) × (is_empty token ≡ false)
Addressed _ = Unit

-- A call that is no login.
abbrev pub IsOther : FlowCall → Type 0
IsOther (logs_in_to url token) = true ≡ false
IsOther _ = Unit

has_prefix-append : (p s : String) → has_prefix p (p ++ s) ≡ true
unfolding has_prefix
has_prefix-append String.[] s = refl
has_prefix-append (String.◌∷◌ c p) s =
    let grown = cons-append c p s in ground (arith, grown, has_prefix-append p s)

-- No flow is started.
abbrev pub IsLate : FlowEvent → Type 0
IsLate (starts_flow url) = true ≡ false
IsLate _ = Unit

with_https : (host : String) → has_scheme (concat ("https://" ∷ host ∷ [])) ≡ true
unfolding concat
with_https host = ground (arith, has_prefix-append "https://" (host ++ ""))

with_http : (host : String) → has_scheme (concat ("http://" ∷ host ∷ [])) ≡ true
unfolding concat
with_http host = ground (arith, has_prefix-append "http://" (host ++ ""))

module _ {K : Type 0} where
  -- The deployment of a flow that is active has a scheme.
  abbrev pub IsAddressed : LoginFlow K → Type 0
  IsAddressed s = (s.flow_active ≡ false) ⊎ (has_scheme s.deployment_url ≡ true)

  abbrev Fine : LoginFlow K × List FlowCall → Type 0
  Fine out = IsAddressed out.0 × All Addressed out.1

  start_flow-Fine : (url : String) (s : LoginFlow K) → IsAddressed s → Fine (start_flow url s)
  unfolding start_flow continue_start_flow probe_scheme
  start_flow-Fine url s h =
      let base = chop_slashes url in
      elim (Bool-cases (is_empty base)) [
        | inl nothing ↦ rw (nothing, start_flow) (h, tt)
        | inr something ↦ elim (Bool-cases (has_scheme base)) [
          | inl whole ↦ rw (something, whole, start_flow) (inr whole, (tt, (tt, (tt, tt))))
          | inr bare ↦ rw (something, bare, start_flow) (h, (tt, (tt, tt)))
        ]
      ]

  https_replied-Fine :
      (reached : Bool) (s : LoginFlow K) → IsAddressed s → Fine (https_replied reached s)
  unfolding https_replied continue_start_flow
  https_replied-Fine reached s h = elim (Bool-cases s.probing) [
    | inr late ↦ rw (late, https_replied) (h, tt)
    | inl awaited ↦ elim (Bool-cases reached) [
      | inl there ↦
          rw (awaited, there, https_replied)
            (inr (with_https s.pending_host), (tt, (tt, (tt, (tt, tt)))))
      | inr silent ↦ rw (awaited, silent, https_replied) (h, (tt, tt))
    ]
  ]

  http_replied-Fine :
      (reached : Bool) (s : LoginFlow K) → IsAddressed s → Fine (http_replied reached s)
  unfolding http_replied continue_start_flow
  http_replied-Fine reached s h = elim (Bool-cases s.probing) [
    | inr late ↦ rw (late, http_replied) (h, tt)
    | inl awaited ↦ elim (Bool-cases reached) [
      | inl there ↦
          rw (awaited, there, http_replied)
            (inr (with_http s.pending_host), (tt, (tt, (tt, (tt, tt)))))
      | inr silent ↦ rw (awaited, silent, http_replied) (h, (tt, (tt, tt)))
    ]
  ]

  take_token-Fine : (token : String) (s : LoginFlow K) → IsAddressed s → Fine (take_token token s)
  unfolding take_token
  take_token-Fine token s h = elim (Bool-cases s.flow_active) [
    | inr idle ↦ rw (idle, take_token) (inl refl, tt)
    | inl active ↦
        let scheme : has_scheme s.deployment_url ≡ true = ground arith in
        elim (Bool-cases (is_empty token)) [
          | inl empty ↦ rw (active, empty, take_token) (inr scheme, tt)
          | inr full ↦
              rw (active, full, take_token) (inl refl, ((scheme, full), (tt, (tt, (tt, (tt, tt))))))
        ]
  ]

  cancel_flow-Fine : (s : LoginFlow K) → Fine (cancel_flow s)
  unfolding cancel_flow
  cancel_flow-Fine s = elim (Bool-cases s.probing) [
    | inl awaited ↦ rw (awaited, cancel_flow) (inl refl, (tt, (tt, (tt, (tt, tt)))))
    | inr idle ↦ rw (idle, cancel_flow) (inl refl, (tt, (tt, (tt, tt))))
  ]

  step-Fine : (e : FlowEvent) (s : LoginFlow K) → IsAddressed s → Fine (flow_step e s)
  unfolding flow_step cookie_added
  step-Fine (starts_flow url) s h = start_flow-Fine url s h
  step-Fine (https_replies reached) s h = https_replied-Fine reached s h
  step-Fine (http_replies reached) s h = http_replied-Fine reached s h
  step-Fine cancels_flow s h = cancel_flow-Fine s
  step-Fine (js_token token) s h = take_token-Fine token s h
  step-Fine (cookie name token) s h = elim (Bool-cases (str_eq name "coder_session_token")) [
    | inl named ↦ rw (named, flow_step, cookie_added) (take_token-Fine token s h)
    | inr other ↦ rw (other, flow_step, cookie_added) (h, tt)
  ]

  -- From a state in which the deployment of an active flow has a scheme, whatever the user, the network
  -- and the browser do: every login is to a URL that begins with http:// or https://, with a token that
  -- is not empty, and the state is such a state again.
  pub flow_run-Addressed :
      (es : List FlowEvent) (s : LoginFlow K)
      → IsAddressed s
      → IsAddressed (flow_run es s).0 × All Addressed (flow_run es s).1
  unfolding flow_run
  flow_run-Addressed [] s h = (h, tt)
  flow_run-Addressed (e ∷ es) s h =
      let one = step-Fine e s h in
      let more = flow_run-Addressed es (flow_step e s).0 one.0 in
      (
        more.0,
        All-append Addressed (flow_step e s).1 (flow_run es (flow_step e s).0).1 one.1 more.1,
      )

  record IsIdle (s : LoginFlow K) : Type 0 where
    inactive : s.flow_active ≡ false
    unawaited : s.probing ≡ false

  cancel_flow-Idle : (s : LoginFlow K) → IsIdle (cancel_flow s).0 × All IsOther (cancel_flow s).1
  unfolding cancel_flow
  cancel_flow-Idle s = elim (Bool-cases s.probing) [
    | inl awaited ↦
        rw (awaited, cancel_flow)
          (record { inactive = refl; unawaited = refl }, (tt, (tt, (tt, (tt, tt)))))
    | inr idle ↦
        rw (idle, cancel_flow) (record { inactive = refl; unawaited = refl }, (tt, (tt, (tt, tt))))
  ]

  step-Idle :
      (e : FlowEvent) (s : LoginFlow K)
      → IsLate e
      → IsIdle s
      → IsIdle (flow_step e s).0 × All IsOther (flow_step e s).1
  unfolding flow_step https_replied http_replied cookie_added take_token
  step-Idle (starts_flow url) s q h = cc
  step-Idle (https_replies reached) s q h =
      rw (h.unawaited, flow_step, https_replied)
        (record { inactive = h.inactive; unawaited = refl }, tt)
  step-Idle (http_replies reached) s q h =
      rw (h.unawaited, flow_step, http_replied)
        (record { inactive = h.inactive; unawaited = refl }, tt)
  step-Idle cancels_flow s q h = cancel_flow-Idle s
  step-Idle (js_token token) s q h =
      rw (h.inactive, flow_step, take_token)
        (record { inactive = refl; unawaited = h.unawaited }, tt)
  step-Idle (cookie name token) s q h = elim (Bool-cases (str_eq name "coder_session_token")) [
    | inl named ↦
        rw (named, h.inactive, flow_step, cookie_added, take_token)
          (record { inactive = refl; unawaited = h.unawaited }, tt)
    | inr other ↦ rw (other, flow_step, cookie_added) (h, tt)
  ]

  run-Idle :
      (es : List FlowEvent) (s : LoginFlow K)
      → All IsLate es
      → IsIdle s
      → All IsOther (flow_run es s).1
  unfolding flow_run
  run-Idle [] s q h = tt
  run-Idle (e ∷ es) s (q, qs) h =
      let one = step-Idle e s q h in
      All-append IsOther (flow_step e s).1 (flow_run es (flow_step e s).0).1 one.1
        (run-Idle es (flow_step e s).0 qs one.0)

  -- After a cancellation, whatever answers, cookies and tokens still come, nothing is logged in to until a
  -- flow is started.
  pub cancelled_flow :
      (es : List FlowEvent) (s : LoginFlow K)
      → All IsLate es
      → All IsOther (flow_run (cancels_flow ∷ es) s).1
  unfolding flow_run flow_step
  cancelled_flow es s q =
      let one = cancel_flow-Idle s in
      All-append IsOther (cancel_flow s).1 (flow_run es (cancel_flow s).0).1 one.1
        (run-Idle es (cancel_flow s).0 q one.0)
