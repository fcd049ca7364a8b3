-- ===== src/WebSocket/Delivery.antt =====
-- Which messages reach the callback of a subscription.
use bt_api_base.Prelude.{
  ℕ, ◌<◌, String, Bool, true, false, ◌||◌, ◌&&◌, Option, none, some, List, [], ◌∷◌, ◌≡◌, refl, ap,
  ◌∙◌, if◌then◌else◌, ◌==◌, ==_self, string_key, nat_key, arith, Bool-cases, inl, inr,
}
use bt_api_base.Prelude.Set.{contains, contains_self}
use bt_api_base.Prelude.Dict.{Dict, values, insert}
use bt_api_base.WebSocket.Config.{WebSocketConfig, Subscription, limit_of}
use bt_api_base.WebSocket.Connection.{WebSocketConnection, binance, message_of, count_of, subscribe}
use bt_api_base.WebSocket.Leak.{subscribe-count}
use bt_api_base.WebSocket.Dispatch.{
  Incoming, extract_topic_symbol, callbacks_of, called_back, handle_data_message, handle_message,
}

called_back_keeps :
    (k : ℕ) (callback : Option ℕ) (rest : List ℕ)
    → contains rest k ≡ true
    → contains (called_back callback rest) k ≡ true
called_back_keeps k none rest h = h
called_back_keeps k (some j) rest h = ground arith

module _ {X : Type 0} where
  callbacks_of_head :
      (k : ℕ) (s : Subscription X) (subs : List (Subscription X))
      → s.callback ≡ some k
      → contains (callbacks_of s.topic s.symbol (s ∷ subs)) k ≡ true
  callbacks_of_head k s subs h =
      rw (h, ==_self s.topic, ==_self s.symbol)
        (contains_self k (callbacks_of s.topic s.symbol subs))

  callbacks_of_tail :
      (k : ℕ) (topic symbol : String) (s : Subscription X) (subs : List (Subscription X))
      → contains (callbacks_of topic symbol subs) k ≡ true
      → contains (callbacks_of topic symbol (s ∷ subs)) k ≡ true
  callbacks_of_tail k topic symbol s subs h =
      elim (Bool-cases (s.topic == topic && s.symbol == symbol)) [
        | inl same ↦ rw same (called_back_keeps k s.callback (callbacks_of topic symbol subs) h)
        | inr other ↦ rw other h
      ]

  callbacks_of-insert :
      (k : ℕ) (s : Subscription X) (d : Dict String (Subscription X))
      → s.callback ≡ some k
      → contains (callbacks_of s.topic s.symbol (values (insert s.id s d))) k ≡ true
  callbacks_of-insert k s [] h = callbacks_of_head k s [] h
  callbacks_of-insert k s ((id, r) ∷ d) h = elim (Bool-cases (id == s.id)) [
    | inl same ↦ rw same (callbacks_of_head k s (values d) h)
    | inr other ↦ rw other (
        callbacks_of_tail k s.topic s.symbol r (values (insert s.id s d))
          (callbacks_of-insert k s d h))
  ]

module _ {X : Type 0} (starts_with : String → String → Bool) (lower upper : String → String)
    (split : String → List String) (config : WebSocketConfig) where
  -- After a subscription of BINANCE within the limit of its topic, whether or not its message is
  -- taken, each message with a result or data on the stream that its own message names calls its
  -- callback. This is where `split` parts the name of the stream at the "@" that joins symbol and topic,
  -- the symbol is in capitals, and neither is empty.
  pub delivered :
      (taken : Bool) (k : ℕ) (s : Subscription X) (c : WebSocketConnection X) (m : Incoming)
      (stream : String)
      → s.callback ≡ some k
      → count_of s.topic c < limit_of config s.topic
      → starts_with config.exchange_name "BINANCE" ≡ true
      → message_of starts_with lower config true s ≡ binance true stream s.id
      → m.stream ≡ some stream
      → (m.has_result || m.has_data) ≡ true
      → split stream ≡ lower s.symbol ∷ s.topic ∷ []
      → upper (lower s.symbol) ≡ s.symbol
      → (s.topic == "") ≡ false
      → (s.symbol == "") ≡ false
      → contains
          (handle_message starts_with upper split config m
            (subscribe starts_with lower config taken s c).0)
          k
        ≡ true
  unfolding handle_message handle_data_message extract_topic_symbol
  delivered taken k s c m stream called below venue sent on content parts capitals named valued =
      let (stored, counted) = subscribe-count starts_with lower config taken s c below in
      let found : contains
            (callbacks_of s.topic s.symbol
              (values (subscribe starts_with lower config taken s c).0.subscriptions))
            k
          ≡ true =
        ap (λ d. contains (callbacks_of s.topic s.symbol (values d)) k) stored
        ∙ callbacks_of-insert k s c.subscriptions called in
      rw (handle_message, content, venue, on, parts, capitals, named, valued) found

if_same {ℓ} : {A : Type ℓ} (b : Bool) (x : A) → (if b then x else x) ≡ x
if_same true x = refl
if_same false x = refl

module _ {X : Type 0} (starts_with : String → String → Bool) (upper : String → String)
    (split : String → List String) (config : WebSocketConfig) where
  -- A connection to a venue that is neither BINANCE nor OKX calls no callback, whatever the message and
  -- the subscriptions.
  pub never_delivered :
      (m : Incoming) (c : WebSocketConnection X)
      → starts_with config.exchange_name "BINANCE" ≡ false
      → starts_with config.exchange_name "OKX" ≡ false
      → handle_message starts_with upper split config m c ≡ []
  unfolding handle_message handle_data_message extract_topic_symbol
  never_delivered m c not_binance not_okx =
      rw (handle_message, not_binance, not_okx) (if_same (m.has_result || m.has_data) [])
