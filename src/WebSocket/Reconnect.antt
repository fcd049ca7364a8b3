-- ===== src/WebSocket/Reconnect.antt =====
-- `_handle_disconnect` with `_restore_subscriptions`: the loop that reconnects. `tries` tells what each
-- try meets: a websocket that does not open, or one that opens, with which of the messages of the
-- restored subscriptions it takes. Nothing else runs during the loop.
use bt_api_base.Prelude.{
  ℕ, zero, suc, ◌*◌, String, Bool, true, false, ◌&&◌, Option, none, some, List, [], ◌∷◌, ltb,
  if◌then◌else◌,
}
use bt_api_base.Prelude.Dict.{values}
use bt_api_base.WebSocket.Config.{WebSocketConfig, Subscription}
use bt_api_base.WebSocket.Connection.{
  WebSocketConnection, Outcome, done, web_socket_error, rate_limit_error, message_of, connect,
  close_websocket, send_message,
}

pub data Try : Type 0 where
  refused : Try
  opens : (ℕ → Bool) → Try

abbrev pub power : ℕ → ℕ
power zero = 1
power (suc n) = 2 * power n

abbrev min : ℕ → ℕ → ℕ
min a b = if ltb b a then b else a

-- What the loop ends with: the connection and the times it slept.
pub record Reconnection (X : Type 0) : Type 0 where
  pub connection : WebSocketConnection X
  pub waits : List ℕ
  pub returned : Bool

-- `min(self.config.reconnect_interval * (2**self._reconnect_attempts), 60)`
abbrev pub wait_time : WebSocketConfig → ℕ → ℕ
wait_time config attempts = min (config.reconnect_interval * power attempts) 60

module _ {X : Type 0} where
  abbrev pub after_wait : ℕ → Option (Reconnection X) → Option (Reconnection X)
  after_wait wait none = none
  after_wait wait (some r) = some (record r { waits = wait ∷ r.waits })

  -- The end of a turn of the loop that slept `wait`: it returns, or goes on with `rest`.
  abbrev pub end_turn :
      ℕ → WebSocketConnection X → Outcome → Option (Reconnection X) → Option (Reconnection X)
  end_turn wait c done rest = some (record { connection = c; waits = wait ∷ []; returned = true })
  end_turn wait c rate_limit_error rest = after_wait wait rest
  end_turn wait c web_socket_error rest = after_wait wait rest

  abbrev pub unless_error :
      WebSocketConnection X
      → Outcome
      → WebSocketConnection X × Outcome
      → WebSocketConnection X × Outcome
  unless_error c done more = more
  unless_error c rate_limit_error more = (c, rate_limit_error)
  unless_error c web_socket_error more = (c, web_socket_error)

module _ {X : Type 0} (starts_with : String → String → Bool) (lower : String → String)
    (config : WebSocketConfig) where
  -- The subscriptions from message `i` on; the first message that is not taken ends it.
  abbrev pub restore_from :
      (ℕ → Bool)
      → ℕ
      → List (Subscription X)
      → WebSocketConnection X
      → WebSocketConnection X × Outcome
  restore_from taken i [] c = (c, done)
  restore_from taken i (s ∷ rest) c =
      let sent = send_message (taken i) (message_of starts_with lower config true s) c in
      let more = restore_from taken (suc i) rest sent.0 in unless_error sent.0 sent.1 more

  unfoldable pub restore_subscriptions :
      (ℕ → Bool) → WebSocketConnection X → WebSocketConnection X × Outcome
  unfolding send_message message_of
  restore_subscriptions taken c = restore_from taken 0 (values c.subscriptions) c

  -- The body of `try`: connect, then restore.
  unfoldable pub attempt : Try → WebSocketConnection X → WebSocketConnection X × Outcome
  unfolding connect restore_subscriptions
  attempt refused c = connect false c
  attempt (opens taken) c = restore_subscriptions taken (connect true c).0

  -- `except WebSocketError`
  unfoldable pub dropped : WebSocketConnection X → WebSocketConnection X
  unfolding close_websocket
  dropped c = close_websocket (record c { connected = false })

  abbrev pub counted : WebSocketConnection X → WebSocketConnection X
  counted c = record c {
    reconnect_attempts = suc c.reconnect_attempts;
    reconnects = suc c.reconnects;
  }

  abbrev pub may_try : WebSocketConnection X → Bool
  may_try c = c.running && ltb c.reconnect_attempts config.max_reconnect_attempts

  -- The loop from try `i` on; it has no result when the fuel runs out.
  unfoldable pub reconnect :
      (fuel : ℕ) → (ℕ → Try) → ℕ → WebSocketConnection X → Option (Reconnection X)
  reconnect zero tries i c = none
  reconnect (suc fuel) tries i c =
      let tried = attempt (tries i) (counted c) in
      let rest = reconnect fuel tries (suc i) (dropped tried.0) in
      let wait = wait_time config (suc c.reconnect_attempts) in
      if may_try c
      then end_turn wait tried.0 tried.1 rest
      else some (record { connection = record c { running = false }; waits = []; returned = false })

  unfoldable pub handle_disconnect :
      (fuel : ℕ) → (ℕ → Try) → WebSocketConnection X → Option (Reconnection X)
  unfolding reconnect close_websocket
  handle_disconnect fuel tries c =
      reconnect fuel tries 0 (close_websocket (record c { connected = false }))
