-- ===== src/Desktop/WebSocket.antt =====
-- app/src/api/WebSocketBase.cpp, built with web sockets: one connection to a deployment, and when it is
-- opened again.
--
-- The attempts are taken to stay within `int`.
pub mod Reconnect
use coder_desktop_linux.Common.{
  ℕ, zero, suc, ◌+◌, ◌*◌, Bool, true, false, not, ◌&&◌, Option, none, some, List, [], ◌∷◌, ◌++◌,
  ltb, leb, ◌==◌, if◌then◌else◌, String, is_empty, concat,
}
use Prim.Native.Char.{code}
use coder_desktop_linux.Desktop.Deployments.{chop_slashes}

-- The states of the socket, as far as they are asked for.
pub data SocketState : Type 0 where
  unconnected connecting connected closing : SocketState

-- `timer` is the delay of the timer while it runs.
pub record WebSocket : Type 0 where
  pub base_url : String
  pub session_token : String
  pub auto_reconnect : Bool
  pub max_reconnect_attempts : ℕ
  pub reconnect_attempt : ℕ
  pub timer : Option ℕ
  pub last_path : String
  pub state : SocketState

pub data SocketCall : Type 0 where
  opened : (url session_token : String) → SocketCall
  close connected_signal disconnected_signal connection_state_changed : SocketCall
  error_occurred : String → SocketCall

-- `startsWith` of a lower-case word, whatever the case, and what follows it.
unfoldable pub after_word : (word s : String) → Option String
after_word String.[] s = some s
after_word (String.◌∷◌ w word) String.[] = none
after_word (String.◌∷◌ w word) (String.◌∷◌ c s) =
    let rest = after_word word s in
    let lower = if leb b'A' (code c) && leb (code c) b'Z' then code c + 32 else code c in
    if lower == code w then rest else none

abbrev begins_with_slash : String → Bool
begins_with_slash String.[] = false
begins_with_slash (String.◌∷◌ c s) = code c == b'/'

-- `buildWsUrl`, as a text.
unfoldable pub build_ws_url : (base path : String) → String
unfolding after_word
build_ws_url base path =
    let scheme : String = elim (after_word "https://" base) [
      | some rest ↦ concat ("wss://" ∷ rest ∷ [])
      | none ↦ elim (after_word "http://" base) [
        | some rest ↦ concat ("ws://" ∷ rest ∷ [])
        | none ↦ base
      ]
    ] in
    concat (scheme ∷ (if begins_with_slash path then [] else "/" ∷ []) ++ path ∷ [])

-- `setBaseUrl`, `setSessionToken`, `setAutoReconnect` and `setMaxReconnectAttempts`; a negative number of
-- attempts acts as 0.
unfoldable pub set_socket_url : String → WebSocket → WebSocket
set_socket_url url s = record s { base_url = chop_slashes url }

unfoldable pub set_socket_token : String → WebSocket → WebSocket
set_socket_token token s = record s { session_token = token }

unfoldable pub set_auto_reconnect : Bool → WebSocket → WebSocket
set_auto_reconnect enabled s = record s { auto_reconnect = enabled }

unfoldable pub set_max_reconnect_attempts : ℕ → WebSocket → WebSocket
set_max_reconnect_attempts max s = record s { max_reconnect_attempts = max }

module _ (is_valid : String → Bool) where
  -- `connectToEndpoint`; `is_valid` is Qt's.
  unfoldable pub connect_to_endpoint : String → WebSocket → WebSocket × List SocketCall
  unfolding build_ws_url
  connect_to_endpoint path s =
      let s' : WebSocket = record s { last_path = path; reconnect_attempt = 0; timer = none } in
      let url = build_ws_url s.base_url path in
      if is_valid url
      then (record s' { state = connecting }, opened url s.session_token ∷ [])
      else (s', error_occurred "Invalid WebSocket URL" ∷ [])

  -- `attemptReconnect`, when the timer fires.
  unfoldable pub attempt_reconnect : WebSocket → WebSocket × List SocketCall
  unfolding connect_to_endpoint
  attempt_reconnect s =
      let fired : WebSocket = record s { timer = none } in
      let (s', calls) = connect_to_endpoint s.last_path fired in
      if is_empty s.last_path
      then (fired, [])
      else (record s' { reconnect_attempt = s.reconnect_attempt + 1 }, calls)

abbrev is_unconnected : SocketState → Bool
is_unconnected unconnected = true
is_unconnected _ = false

-- `disconnect`.
unfoldable pub disconnect : WebSocket → WebSocket × List SocketCall
disconnect s =
    let s' : WebSocket = record s { auto_reconnect = false; timer = none } in
    if is_unconnected s.state then (s', []) else (record s' { state = closing }, close ∷ [])

-- `onConnected`, `onDisconnected` and `onError`.
unfoldable pub on_connected : WebSocket → WebSocket × List SocketCall
on_connected s = (
  record s { state = connected; reconnect_attempt = 0 },
  connected_signal ∷ connection_state_changed ∷ [],
)

-- `onDisconnected`. The two signals are emitted before the test; nothing that is connected to them changes
-- the socket, so the test reads the same values.
unfoldable pub on_disconnected : WebSocket → WebSocket × List SocketCall
on_disconnected s =
    let s' : WebSocket = record s { state = unconnected } in
    (
      if s.auto_reconnect && ltb s.reconnect_attempt s.max_reconnect_attempts
          then record s' { timer = some ((s.reconnect_attempt + 1) * 1000) }
          else s',
      disconnected_signal ∷ connection_state_changed ∷ [],
    )

unfoldable pub on_error : String → WebSocket → WebSocket × List SocketCall
on_error message s = (s, error_occurred message ∷ [])

-- What the client, the socket and the timer do; the timer fires only while it runs.
pub data SocketEvent : Type 0 where
  connects_to : (path : String) → SocketEvent
  disconnects connects drops fires : SocketEvent
  fails : (message : String) → SocketEvent

module _ (is_valid : String → Bool) where
  unfoldable pub socket_step : SocketEvent → WebSocket → WebSocket × List SocketCall
  socket_step (connects_to path) s = connect_to_endpoint is_valid path s
  socket_step disconnects s = disconnect s
  socket_step connects s = on_connected s
  socket_step drops s = on_disconnected s
  socket_step fires s = elim s.timer [ none ↦ (s, []) | some delay ↦ attempt_reconnect is_valid s ]
  socket_step (fails message) s = on_error message s

  unfoldable pub socket_run : List SocketEvent → WebSocket → WebSocket × List SocketCall
  socket_run [] s = (s, [])
  socket_run (e ∷ es) s =
      let (s', calls) = socket_step e s in
      let (s'', more) = socket_run es s' in (s'', calls ++ more)
