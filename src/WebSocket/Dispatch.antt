-- ===== src/WebSocket/Dispatch.antt =====
-- How a message reaches the callbacks: `_handle_message`, `_handle_data_message` and
-- `_extract_topic_symbol`. The methods of Python's texts are parameters; `split` parts a text at "@".
use bt_api_base.Prelude.{
  ℕ, String, Bool, true, false, ◌||◌, ◌&&◌, Option, none, some, List, [], ◌∷◌, if◌then◌else◌, ◌==◌,
  string_key,
}
use bt_api_base.Prelude.Dict.{values}
use bt_api_base.WebSocket.Config.{WebSocketConfig, Subscription}
use bt_api_base.WebSocket.Connection.{WebSocketConnection}

-- The keys of a message that are read: whether "result", "data" and "event" are there, the text of
-- "stream", and the channel and instrument of "arg".
pub record Incoming : Type 0 where
  pub has_result : Bool
  pub has_data : Bool
  pub event : Option String
  pub stream : Option String
  pub arg : Option (Option String × Option String)

abbrev pub called_back : Option ℕ → List ℕ → List ℕ
called_back none rest = rest
called_back (some callback) rest = callback ∷ rest

module _ {X : Type 0} where
  -- The callbacks of the subscriptions to the topic and symbol, in order; an exception of one is logged
  -- and the next is called.
  abbrev pub callbacks_of : String → String → List (Subscription X) → List ℕ
  callbacks_of topic symbol [] = []
  callbacks_of topic symbol (s ∷ subs) =
      let rest = callbacks_of topic symbol subs in
      if s.topic == topic && s.symbol == symbol then called_back s.callback rest else rest

  -- `if topic and symbol:`
  abbrev pub to_callbacks : Option String × Option String → List (Subscription X) → List ℕ
  to_callbacks (some topic, some symbol) subs =
      if topic == "" || symbol == "" then [] else callbacks_of topic symbol subs
  to_callbacks (some topic, none) subs = []
  to_callbacks (none, symbol) subs = []

module _ (starts_with : String → String → Bool) (upper : String → String)
    (split : String → List String) (config : WebSocketConfig) where
  abbrev of_parts : List String → Option String × Option String
  of_parts (symbol ∷ topic ∷ []) = (some topic, some (upper symbol))
  of_parts (symbol ∷ topic ∷ more ∷ rest) = (none, none)
  of_parts (symbol ∷ []) = (none, none)
  of_parts [] = (none, none)

  abbrev of_stream : Option String → Option String × Option String
  of_stream none = (none, none)
  of_stream (some stream) = of_parts (split stream)

  abbrev of_arg : Bool → Option (Option String × Option String) → Option String × Option String
  of_arg has_data none = (none, none)
  of_arg has_data (some arg) = if has_data then arg else (none, none)

  abbrev is_some : Option String → Bool
  is_some none = false
  is_some (some stream) = true

  -- A venue is at most one of the two; the second branch is also reached by BINANCE without "stream".
  unfoldable pub extract_topic_symbol : Incoming → Option String × Option String
  extract_topic_symbol m =
      if starts_with config.exchange_name "BINANCE" && is_some m.stream
      then of_stream m.stream
      else if starts_with config.exchange_name "OKX"
      then of_arg m.has_data m.arg
      else (none, none)

  unfoldable pub handle_data_message : {X : Type 0} → Incoming → WebSocketConnection X → List ℕ
  unfolding extract_topic_symbol
  handle_data_message m c = to_callbacks (extract_topic_symbol m) (values c.subscriptions)

  -- The callbacks that a message calls; an event is only logged.
  unfoldable pub handle_message : {X : Type 0} → Incoming → WebSocketConnection X → List ℕ
  unfolding handle_data_message
  handle_message m c = if m.has_result || m.has_data then handle_data_message m c else []
