-- ===== src/Desktop/WebSocket/Reconnect.antt =====
-- How often app/src/api/WebSocketBase.cpp opens a connection again, and when it does not.
use coder_desktop_linux.Common.{
  ℕ, ◌+◌, ◌-◌, ◌*◌, ◌≤◌, ◌<◌, ◌≡◌, refl, sym, subst, inl, inr, Bool, true, false, ◌&&◌, Option,
  none, some, List, [], ◌∷◌, ◌++◌, ltb, ltb→lt, arith, All, Bool-cases, Option-cases, String,
  is_empty,
}
use coder_desktop_linux.Desktop.WebSocket.{
  WebSocket, SocketCall, opened, build_ws_url, connect_to_endpoint, attempt_reconnect,
  is_unconnected, disconnect, on_connected, on_disconnected, on_error, SocketEvent, connects_to,
  disconnects, connects, drops, fires, fails, socket_step, socket_run,
}

abbrev is_open : SocketCall → ℕ
is_open (opened url token) = 1
is_open _ = 0

-- How many connections are opened.
unfoldable pub opens : List SocketCall → ℕ
opens [] = 0
opens (c ∷ cs) = is_open c + opens cs

opens-append : (cs ds : List SocketCall) → opens (cs ++ ds) ≡ opens cs + opens ds
unfolding opens
opens-append [] ds = omega arith
opens-append (c ∷ cs) ds = ground (arith, opens-append cs ds)

-- The client asks for no connection, and none comes up.
abbrev pub IsOutage : SocketEvent → Type 0
IsOutage (connects_to path) = false ≡ true
IsOutage connects = false ≡ true
IsOutage e = Unit

-- The client asks for no connection.
abbrev pub IsUnasked : SocketEvent → Type 0
IsUnasked (connects_to path) = false ≡ true
IsUnasked e = Unit

abbrev TimerAt : Option ℕ → ℕ → ℕ → Type 0
TimerAt none attempt max = Unit
TimerAt (some delay) attempt max = (delay ≡ (attempt + 1) * 1000) × (attempt < max)

-- The timer runs only where an attempt is left, with a second for each attempt.
abbrev pub IsTimed : WebSocket → Type 0
IsTimed s = TimerAt s.timer s.reconnect_attempt s.max_reconnect_attempts

module _ (is_valid : String → Bool) where
  -- What one event of an outage does: what is opened is taken off the attempts that are left.
  record IsCounted (s s' : WebSocket) (calls : List SocketCall) : Type 0 where
    timed : IsTimed s'
    limit : s'.max_reconnect_attempts ≡ s.max_reconnect_attempts
    counted :
        opens calls + (s'.max_reconnect_attempts - s'.reconnect_attempt)
        ≤ s.max_reconnect_attempts - s.reconnect_attempt

  attempt-IsCounted :
      (s : WebSocket)
      → s.reconnect_attempt < s.max_reconnect_attempts
      → IsCounted s (attempt_reconnect is_valid s).0 (attempt_reconnect is_valid s).1
  unfolding attempt_reconnect connect_to_endpoint opens
  attempt-IsCounted s left = elim (Bool-cases (is_empty s.last_path)) [
    | inl nowhere ↦
        rw (nowhere, attempt_reconnect) (record { timed = tt; limit = refl; counted = omega arith })
    | inr somewhere ↦ elim (Bool-cases (is_valid (build_ws_url s.base_url s.last_path))) [
      | inl fine ↦
          rw (somewhere, fine, attempt_reconnect, connect_to_endpoint)
            (record { timed = tt; limit = refl; counted = omega (arith, left) })
      | inr bad ↦
          rw (somewhere, bad, attempt_reconnect, connect_to_endpoint)
            (record { timed = tt; limit = refl; counted = omega (arith, left) })
    ]
  ]

  fires_lem :
      (s : WebSocket) (delay : ℕ)
      → s.timer ≡ some delay
      → socket_step is_valid fires s ≡ attempt_reconnect is_valid s
  unfolding socket_step attempt_reconnect
  fires_lem s delay runs = rw (runs, socket_step) refl

  step-IsCounted :
      (e : SocketEvent) (s : WebSocket)
      → IsOutage e
      → IsTimed s
      → IsCounted s (socket_step is_valid e s).0 (socket_step is_valid e s).1
  unfolding socket_step disconnect on_disconnected on_error opens
  step-IsCounted (connects_to path) s q h = cc
  step-IsCounted connects s q h = cc
  step-IsCounted disconnects s q h = elim (Bool-cases (is_unconnected s.state)) [
    | inl over ↦
        rw (over, socket_step, disconnect)
          (record { timed = tt; limit = refl; counted = omega arith })
    | inr there ↦
        rw (there, socket_step, disconnect)
          (record { timed = tt; limit = refl; counted = omega arith })
  ]
  step-IsCounted drops s q h =
      elim (Bool-cases (s.auto_reconnect && ltb s.reconnect_attempt s.max_reconnect_attempts)) [
        | inl again ↦
            rw (again, socket_step, on_disconnected)
              (record {
                timed = (refl, ground (arith, ltb→lt s.reconnect_attempt s.max_reconnect_attempts));
                limit = refl;
                counted = omega arith;
              })
        | inr never ↦
            rw (never, socket_step, on_disconnected)
              (record { timed = h; limit = refl; counted = omega arith })
      ]
  step-IsCounted (fails message) s q h = record { timed = h; limit = refl; counted = omega arith }
  step-IsCounted fires s q h = elim (Option-cases s.timer) [
    | inl idle ↦ rw (idle, socket_step) (record { timed = h; limit = refl; counted = omega arith })
    | inr (delay, runs) ↦
        let now : TimerAt (some delay) s.reconnect_attempt s.max_reconnect_attempts =
          subst (λ (t : Option ℕ). TimerAt t s.reconnect_attempt s.max_reconnect_attempts) runs h in
        subst (λ (out : WebSocket × List SocketCall). IsCounted s out.0 out.1)
          (sym (fires_lem s delay runs)) (attempt-IsCounted s now.1)
  ]

  -- From a state in which the timer runs only where an attempt is left, over an outage, in which the
  -- client asks for no connection and none comes up: connections are opened at most as often as there
  -- are attempts left, and the timer still runs only where one is left, with a second for each.
  pub socket_run_bounded :
      (es : List SocketEvent) (s : WebSocket)
      → All IsOutage es
      → IsTimed s
      → (opens (socket_run is_valid es s).1 ≤ s.max_reconnect_attempts - s.reconnect_attempt)
        × IsTimed (socket_run is_valid es s).0
  unfolding socket_run opens
  socket_run_bounded [] s q h = (omega arith, h)
  socket_run_bounded (e ∷ es) s (q, qs) h =
      let one = step-IsCounted e s q h in
      let s' = (socket_step is_valid e s).0 in
      let calls = (socket_step is_valid e s).1 in
      let more = socket_run_bounded es s' qs one.timed in
      (omega (arith, opens-append calls (socket_run is_valid es s').1, one.counted, more.0), more.1)

  record IsOff (s : WebSocket) : Type 0 where
    auto : s.auto_reconnect ≡ false
    timer : s.timer ≡ none

  disconnect-IsOff : (s : WebSocket) → IsOff (disconnect s).0 × (opens (disconnect s).1 ≡ 0)
  unfolding disconnect opens
  disconnect-IsOff s = elim (Bool-cases (is_unconnected s.state)) [
    | inl over ↦ rw (over, disconnect) (record { auto = refl; timer = refl }, refl)
    | inr there ↦ rw (there, disconnect) (record { auto = refl; timer = refl }, refl)
  ]

  step-IsOff :
      (e : SocketEvent) (s : WebSocket)
      → IsUnasked e
      → IsOff s
      → IsOff (socket_step is_valid e s).0 × (opens (socket_step is_valid e s).1 ≡ 0)
  unfolding socket_step on_connected on_disconnected on_error opens
  step-IsOff (connects_to path) s q h = cc
  step-IsOff disconnects s q h = disconnect-IsOff s
  step-IsOff connects s q h = (record { auto = h.auto; timer = h.timer }, refl)
  step-IsOff drops s q h =
      rw (h.auto, socket_step, on_disconnected) (record { auto = refl; timer = h.timer }, refl)
  step-IsOff fires s q h = rw (h.timer, socket_step) (h, refl)
  step-IsOff (fails message) s q h = (h, refl)

  run-IsOff :
      (es : List SocketEvent) (s : WebSocket)
      → All IsUnasked es
      → IsOff s
      → opens (socket_run is_valid es s).1 ≡ 0
  unfolding socket_run opens
  run-IsOff [] s q h = refl
  run-IsOff (e ∷ es) s (q, qs) h =
      let one = step-IsOff e s q h in
      let s' = (socket_step is_valid e s).0 in
      let more = run-IsOff es s' qs one.0 in
      omega (
        arith,
        opens-append (socket_step is_valid e s).1 (socket_run is_valid es s').1,
        one.1,
        more,
      )

  -- After a disconnection that the client asks for, whatever the socket and the timer do, no connection
  -- is opened until the client asks for one.
  pub disconnect-silent :
      (es : List SocketEvent) (s : WebSocket)
      → All IsUnasked es
      → opens (socket_run is_valid (disconnects ∷ es) s).1 ≡ 0
  unfolding socket_run socket_step
  disconnect-silent es s q =
      let off = disconnect-IsOff s in
      omega (
        arith,
        opens-append (disconnect s).1 (socket_run is_valid es (disconnect s).0).1,
        off.1,
        run-IsOff es (disconnect s).0 q off.0,
      )
