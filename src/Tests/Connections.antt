-- ===== src/Tests/Connections.antt =====
-- Web sockets and the login in the browser of app/src, on concrete inputs.
use coder_desktop_linux.Common.{
  ◌≤◌, ◌-◌, refl, inl, Bool, true, false, none, List, [], ◌∷◌, All, String,
}
use coder_desktop_linux.Desktop.WebSocket.{
  WebSocket, SocketEvent, unconnected, drops, fires, fails, socket_run,
}
use coder_desktop_linux.Desktop.WebSocket.Reconnect.{IsTimed, opens, socket_run_bounded}
use coder_desktop_linux.Desktop.LoginFlow.{
  LoginFlow, FlowEvent, starts_flow, https_replies, http_replies, cookie, flow_run,
}
use coder_desktop_linux.Desktop.LoginFlow.Flow.{Addressed, IsAddressed, flow_run-Addressed}
use coder_desktop_linux.Tests.Sessions.{manager}

abbrev socket : WebSocket
socket = record {
  base_url = "https://dev";
  session_token = "t1";
  auto_reconnect = true;
  max_reconnect_attempts = 5;
  reconnect_attempt = 0;
  timer = none;
  last_path = "/api/v2/x";
  state = unconnected;
}

abbrev outage : List SocketEvent
outage = drops ∷ fires ∷ fails "refused" ∷ drops ∷ fires ∷ []

abbrev any_url : String → Bool
any_url url = true

socket_run_bounded_example :
    (opens (socket_run any_url outage socket).1 ≤ 5 - 0)
    × IsTimed (socket_run any_url outage socket).0
socket_run_bounded_example =
    socket_run_bounded any_url outage socket (tt, (tt, (tt, (tt, (tt, tt))))) tt

abbrev flow : LoginFlow (List (String × String))
flow = record {
  deployment_url = "";
  login_url = "";
  pending_host = "";
  flow_active = false;
  probing = false;
  sessions = manager;
}

abbrev browsing : List FlowEvent
browsing =
    starts_flow "dev.coder.com/"
    ∷ https_replies false
    ∷ http_replies true
    ∷ cookie "coder_session_token" "t2"
    ∷ []

flow_run-Addressed_example :
    IsAddressed (flow_run browsing flow).0 × All Addressed (flow_run browsing flow).1
flow_run-Addressed_example = flow_run-Addressed browsing flow (inl refl)
