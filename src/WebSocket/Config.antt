-- ===== src/WebSocket/Config.antt =====
-- `WebSocketConfig` and `Subscription`. Intervals are whole numbers; `scheme` and `netloc` are what
-- urlparse gives for the url, and `strip` is Python's.
use bt_api_base.Prelude.{
  ℕ, String, Bool, not, ◌||◌, Option, none, some, [], ◌∷◌, if◌then◌else◌, ◌==◌, nat_key, string_key,
}
use bt_api_base.Prelude.Dict.{Dict, lookup}

pub record WebSocketConfig : Type 0 where
  pub url : String
  pub exchange_name : String
  pub max_connections : ℕ
  pub heartbeat_interval : ℕ
  pub reconnect_interval : ℕ
  pub max_reconnect_attempts : ℕ
  pub message_queue_size : ℕ
  pub compression : Bool
  pub subscription_limits : Dict String ℕ

abbrev pub default_limits : Dict String ℕ
default_limits = ("ticker", 100) ∷ ("depth", 50) ∷ ("trades", 100) ∷ ("kline", 200) ∷ []

pub data Invalid : Type 0 where
  url_invalid exchange_name_empty max_connections_invalid heartbeat_invalid : Invalid
  reconnect_invalid message_queue_invalid : Invalid

-- `__post_init__`, with the `ValueError` it raises. A number of the model is an int and is not
-- negative.
unfoldable pub post_init :
    (String → String) → (String → String) → (String → String) → WebSocketConfig → Option Invalid
post_init scheme netloc strip c =
    if not (scheme c.url == "ws" || scheme c.url == "wss") || netloc c.url == ""
    then some url_invalid
    else if strip c.exchange_name == ""
    then some exchange_name_empty
    else if c.max_connections == 0
    then some max_connections_invalid
    else if c.heartbeat_interval == 0
    then some heartbeat_invalid
    else if c.reconnect_interval == 0
    then some reconnect_invalid
    else if c.message_queue_size == 0
    then some message_queue_invalid
    else none

-- `params` is of a type that the connection does not read; a callback is known by a number.
pub record Subscription (X : Type 0) : Type 0 where
  pub id : String
  pub topic : String
  pub symbol : String
  pub params : X
  pub callback : Option ℕ

abbrev or_hundred : Option ℕ → ℕ
or_hundred none = 100
or_hundred (some n) = n

-- `subscription_limits.get(topic, 100)`
abbrev pub limit_of : WebSocketConfig → String → ℕ
limit_of c topic = or_hundred (lookup topic c.subscription_limits)
