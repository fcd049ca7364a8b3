-- ===== src/WebSocket/Limits.antt =====
-- The limits on the subscriptions of a connection, after any calls.
use bt_api_base.Prelude.{
  ℕ, suc, ◌+◌, ◌-◌, ◌≤◌, String, Bool, false, some, List, [], ◌∷◌, ◌≡◌, leb, if◌then◌else◌, ◌==◌,
  ==_iff, string_key, arith, Option-cases, Bool-cases, inl, inr,
}
use bt_api_base.Prelude.Dict.{Dict, lookup, insert, erase, lookup-insert}
use bt_api_base.WebSocket.Config.{WebSocketConfig, Subscription, limit_of}
use bt_api_base.WebSocket.Connection.{
  WebSocketConnection, new, or_zero, count_of, Message, connect, disconnect, close_websocket,
  send_message, subscribe, unsubscribe,
}

pub count_of-insert :
    (topic k : String) (n : ℕ) (counts : Dict String ℕ)
    → or_zero (lookup topic (insert k n counts))
      ≡ (if k == topic then n else or_zero (lookup topic counts))
count_of-insert topic k n counts = ground (arith, lookup-insert k topic n counts)

pub data Call (X : Type 0) : Type 0 where
  connects : Bool → Call X
  disconnects : Call X
  subscribes : Bool → Subscription X → Call X
  unsubscribes : Bool → String → Call X

module _ {X : Type 0} where
  -- The number of subscriptions to a topic.
  abbrev pub number_in : String → Dict String (Subscription X) → ℕ
  number_in topic [] = 0
  number_in topic ((id, s) ∷ d) = (if s.topic == topic then 1 else 0) + number_in topic d

  number_in-insert :
      (topic id : String) (s : Subscription X) (d : Dict String (Subscription X))
      → number_in topic (insert id s d) ≤ (if s.topic == topic then 1 else 0) + number_in topic d
  number_in-insert topic id s [] = omega arith
  number_in-insert topic id s ((j, r) ∷ d) = ground (arith, number_in-insert topic id s d)

  number_in-erase_le :
      (topic id : String) (d : Dict String (Subscription X))
      → number_in topic (erase id d) ≤ number_in topic d
  number_in-erase_le topic id [] = omega arith
  number_in-erase_le topic id ((j, r) ∷ d) = ground (arith, number_in-erase_le topic id d)

  number_in-erase :
      (topic id : String) (s : Subscription X) (d : Dict String (Subscription X))
      → lookup id d ≡ some s
      → (if s.topic == topic then 1 else 0) + number_in topic (erase id d) ≤ number_in topic d
  number_in-erase topic id s ((j, r) ∷ d) found =
      ground (arith, number_in-erase topic id s d, number_in-erase_le topic id d)
  number_in-erase topic id s [] found = ground arith

  pub send_message-subscriptions :
      (taken : Bool) (m : Message X) (c : WebSocketConnection X)
      → ((send_message taken m c).0.subscriptions ≡ c.subscriptions)
        × ((send_message taken m c).0.subscription_count ≡ c.subscription_count)
  unfolding send_message
  send_message-subscriptions taken m c = ground arith

  -- What the invariant reads of a connection.
  abbrev BoundedAt :
      WebSocketConfig → Dict String (Subscription X) → Dict String ℕ → String → Type 0
  BoundedAt config subscriptions counts topic =
      (number_in topic subscriptions ≤ or_zero (lookup topic counts))
      × (or_zero (lookup topic counts) ≤ limit_of config topic)

  abbrev pub IsBounded : WebSocketConfig → WebSocketConnection X → Type 0
  IsBounded config c =
      (topic : String) → BoundedAt config c.subscriptions c.subscription_count topic

  module _ (config : WebSocketConfig) where
    insert-BoundedAt :
        (s : Subscription X) (c : WebSocketConnection X) (topic : String)
        → leb (limit_of config s.topic) (count_of s.topic c) ≡ false
        → BoundedAt config c.subscriptions c.subscription_count topic
        → BoundedAt config
            (insert s.id s c.subscriptions)
            (insert s.topic (suc (count_of s.topic c)) c.subscription_count)
            topic
    insert-BoundedAt s c topic below b =
        let e = number_in-insert topic s.id s c.subscriptions in
        let f = count_of-insert topic s.topic (suc (count_of s.topic c)) c.subscription_count in
        ground (arith, e, f, ==_iff s.topic topic)

    erase-BoundedAt :
        (id : String) (s : Subscription X) (c : WebSocketConnection X) (topic : String)
        → lookup id c.subscriptions ≡ some s
        → BoundedAt config c.subscriptions c.subscription_count topic
        → BoundedAt config
            (erase id c.subscriptions)
            (insert s.topic (count_of s.topic c - 1) c.subscription_count)
            topic
    erase-BoundedAt id s c topic found b =
        let e = number_in-erase topic id s c.subscriptions found in
        let f = count_of-insert topic s.topic (count_of s.topic c - 1) c.subscription_count in
        ground (arith, e, f, ==_iff s.topic topic)

module _ {X : Type 0} (starts_with : String → String → Bool) (lower : String → String)
    (config : WebSocketConfig) where
  unfoldable pub step : WebSocketConnection X → Call X → WebSocketConnection X
  unfolding connect disconnect subscribe unsubscribe
  step c (connects opens) = (connect opens c).0
  step c disconnects = disconnect c
  step c (subscribes taken s) = (subscribe starts_with lower config taken s c).0
  step c (unsubscribes taken id) = (unsubscribe starts_with lower config taken id c).0

  unfoldable pub run : WebSocketConnection X → List (Call X) → WebSocketConnection X
  unfolding step
  run c [] = c
  run c (call ∷ calls) = run (step c call) calls

  step-IsBounded :
      (c : WebSocketConnection X) (call : Call X)
      → IsBounded config c
      → IsBounded config (step c call)
  unfolding step connect disconnect close_websocket subscribe unsubscribe
  step-IsBounded c (connects opens) b topic = ground (arith, b topic)
  step-IsBounded c disconnects b topic = b topic
  step-IsBounded c (subscribes taken s) b topic =
      elim (Bool-cases (leb (limit_of config s.topic) (count_of s.topic c))) [
        | inl full ↦ rw (step, full) (b topic)
        | inr below ↦
            let stored = insert-BoundedAt config s c topic below (b topic) in
            rw (step, below)
              (rw (send_message-subscriptions taken _ _).0
                (rw (send_message-subscriptions taken _ _).1 stored))
      ]
  step-IsBounded c (unsubscribes taken id) b topic =
      elim (Option-cases (lookup id c.subscriptions)) [
        | inl missing ↦ rw (step, missing) (b topic)
        | inr (s, found) ↦
            let taken_out = erase-BoundedAt config id s c topic found (b topic) in
            rw (step, found)
              (rw (send_message-subscriptions taken _ _).0
                (rw (send_message-subscriptions taken _ _).1 taken_out))
      ]

  run-IsBounded :
      (c : WebSocketConnection X) (calls : List (Call X))
      → IsBounded config c
      → IsBounded config (run c calls)
  unfolding run
  run-IsBounded c [] b = b
  run-IsBounded c (call ∷ calls) b = run-IsBounded (step c call) calls (step-IsBounded c call b)

  -- After any calls on a new connection, whether or not the network takes the messages, the number of
  -- subscriptions to a topic is at most the count that the connection keeps for it, and that count is
  -- at most the limit of the topic.
  pub subscription_bound :
      (connection_id : String) (calls : List (Call X)) (topic : String)
      → let c = run (new connection_id) calls in
        (number_in topic c.subscriptions ≤ count_of topic c)
        × (count_of topic c ≤ limit_of config topic)
  subscription_bound connection_id calls topic =
      run-IsBounded (new connection_id) calls (λ t. (omega arith, omega arith)) topic
