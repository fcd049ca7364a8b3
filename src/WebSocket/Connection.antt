-- ===== src/WebSocket/Connection.antt =====
-- `WebSocketConnection`: its state, its messages, and the calls on its subscriptions. Whether the
-- network takes a message is told to each call. `starts_with` and `lower` are Python's methods of texts.
use Prim.Native.String.{◌++◌ as append}
use bt_api_base.Prelude.{
  ℕ, suc, ◌-◌, String, Bool, true, false, not, ◌||◌, Option, none, some, List, [], ◌∷◌, ◌++◌, leb,
  if◌then◌else◌, string_key,
}
use bt_api_base.Prelude.Dict.{Dict, lookup, insert, erase}
use bt_api_base.WebSocket.Config.{WebSocketConfig, Subscription, limit_of}

-- The three formats of a message; the flag tells a subscription from its end.
pub data Message (X : Type 0) : Type 0 where
  binance : (subscribes : Bool) → (param id : String) → Message X
  okx : (subscribes : Bool) → (channel inst_id : String) → Message X
  generic : (subscribes : Bool) → (topic symbol : String) → Option X → Message X

-- `processing_task` is the number of the task that `connect` started last to receive messages, of the
-- `tasks_started` so far; `disconnect` cancels it. What the tasks do is not modelled. `wire` are the
-- messages that the websocket took, in order.
pub record WebSocketConnection (X : Type 0) : Type 0 where
  pub connection_id : String
  pub has_websocket : Bool
  pub connected : Bool
  pub running : Bool
  pub processing_task : Option ℕ
  pub tasks_started : ℕ
  pub subscriptions : Dict String (Subscription X)
  pub subscription_count : Dict String ℕ
  pub reconnect_attempts : ℕ
  pub messages_sent : ℕ
  pub subscriptions_added : ℕ
  pub subscriptions_removed : ℕ
  pub reconnects : ℕ
  pub wire : List (Message X)

pub data Outcome : Type 0 where
  done rate_limit_error web_socket_error : Outcome

abbrev pub or_zero : Option ℕ → ℕ
or_zero none = 0
or_zero (some n) = n

module _ {X : Type 0} where
  abbrev pub new : String → WebSocketConnection X
  new connection_id = record {
    connection_id = connection_id;
    has_websocket = false;
    connected = false;
    running = false;
    processing_task = none;
    tasks_started = 0;
    subscriptions = [];
    subscription_count = [];
    reconnect_attempts = 0;
    messages_sent = 0;
    subscriptions_added = 0;
    subscriptions_removed = 0;
    reconnects = 0;
    wire = [];
  }

  -- A read of the defaultdict.
  abbrev pub count_of : String → WebSocketConnection X → ℕ
  count_of topic c = or_zero (lookup topic c.subscription_count)

  unfoldable pub close_websocket : WebSocketConnection X → WebSocketConnection X
  close_websocket c = record c { has_websocket = false }

  -- `opens` tells whether the websocket opens; if not, `WebSocketError` is raised. A websocket that is
  -- there is closed first.
  unfoldable pub connect : Bool → WebSocketConnection X → WebSocketConnection X × Outcome
  unfolding close_websocket
  connect opens c =
      if c.connected
      then (c, done)
      else if opens
      then (
        record (close_websocket c) {
          has_websocket = true;
          connected = true;
          running = true;
          processing_task = some c.tasks_started;
          tasks_started = suc c.tasks_started;
          reconnect_attempts = 0;
        },
        done,
      )
      else (close_websocket c, web_socket_error)

  unfoldable pub disconnect : WebSocketConnection X → WebSocketConnection X
  unfolding close_websocket
  disconnect c = record (close_websocket c) {
    running = false;
    connected = false;
    processing_task = none;
  }

  -- `taken` tells whether the websocket takes the message.
  unfoldable pub send_message :
      Bool → Message X → WebSocketConnection X → WebSocketConnection X × Outcome
  send_message taken message c =
      if not c.connected || not c.has_websocket
      then (c, web_socket_error)
      else if taken
      then (record c { messages_sent = suc c.messages_sent; wire = c.wire ++ message ∷ [] }, done)
      else (c, web_socket_error)

  module _ (starts_with : String → String → Bool) (lower : String → String)
      (config : WebSocketConfig) where
    -- The messages of `_send_subscription` and `_send_unsubscription`.
    unfoldable pub message_of : Bool → Subscription X → Message X
    message_of subscribes s =
        if starts_with config.exchange_name "BINANCE"
        then binance subscribes (append (lower s.symbol) (append "@" s.topic)) s.id
        else if starts_with config.exchange_name "OKX"
        then okx subscribes s.topic s.symbol
        else generic subscribes s.topic s.symbol (if subscribes then some s.params else none)

    -- The subscription is kept when its message is not taken.
    unfoldable pub subscribe :
        Bool → Subscription X → WebSocketConnection X → WebSocketConnection X × Outcome
    unfolding send_message message_of
    subscribe taken s c =
        if leb (limit_of config s.topic) (count_of s.topic c)
        then (c, rate_limit_error)
        else send_message taken (message_of true s) (record c {
          subscriptions = insert s.id s c.subscriptions;
          subscription_count = insert s.topic (suc (count_of s.topic c)) c.subscription_count;
          subscriptions_added = suc c.subscriptions_added;
        })

    -- `_subscriptions.pop`, and the rest of `unsubscribe`. The count of the topic was raised when the
    -- subscription was stored, so it is not zero.
    abbrev pub unsubscribe_found :
        Bool
        → String
        → WebSocketConnection X
        → Option (Subscription X)
        → WebSocketConnection X × Outcome
    unsubscribe_found taken subscription_id c none = (c, done)
    unsubscribe_found taken subscription_id c (some s) =
        send_message taken (message_of false s) (record c {
          subscriptions = erase subscription_id c.subscriptions;
          subscription_count = insert s.topic (count_of s.topic c - 1) c.subscription_count;
          subscriptions_removed = suc c.subscriptions_removed;
        })

    unfoldable pub unsubscribe :
        Bool → String → WebSocketConnection X → WebSocketConnection X × Outcome
    unfolding send_message message_of
    unsubscribe taken subscription_id c =
        unsubscribe_found taken subscription_id c (lookup subscription_id c.subscriptions)
