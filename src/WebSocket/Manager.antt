-- ===== src/WebSocket/Manager.antt =====
-- `WebSocketManager`: the pools of connections. A connection is known by its place in its exchange's
-- pool. What the network does (`opens`, `taken`), the clock of an identifier and the texts are told to
-- each call; the events that are published and the tasks that monitor connections are not here.
use bt_api_base.Prelude.{
  ℕ, zero, suc, ◌%◌, String, Bool, ◌&&◌, Option, none, some, List, [], ◌∷◌, ◌++◌, map, length, ltb,
  if◌then◌else◌, string_key,
}
use bt_api_base.Prelude.Dict.{Dict, keys, values, lookup, has, insert}
use bt_api_base.WebSocket.Config.{WebSocketConfig, Subscription}
use bt_api_base.WebSocket.Connection.{
  WebSocketConnection, Outcome, done, rate_limit_error, web_socket_error, new, connect, disconnect,
  subscribe, unsubscribe,
}

pub record WebSocketManager (X : Type 0) : Type 0 where
  pub pools : Dict String (List (WebSocketConnection X))
  pub pool_configs : Dict String WebSocketConfig
  pub round_robin : Dict String ℕ

-- A call gives a connection's place, or raises.
pub data Found : Type 0 where
  connection : ℕ → Found
  not_configured : Found
  connection_failed : Found

abbrev pub or_zero : Option ℕ → ℕ
or_zero none = 0
or_zero (some n) = n

abbrev pub concat : {A : Type 0} → List (List A) → List A
concat [] = []
concat (l ∷ ls) = l ++ concat ls

abbrev pub or_none : {A : Type 0} → Option (List A) → List A
or_none none = []
or_none (some l) = l

abbrev pub restart : List String → Dict String ℕ → Dict String ℕ
restart [] d = d
restart (name ∷ names) d = restart names (insert name 0 d)

module _ {X : Type 0} where
  abbrev pub empty : WebSocketManager X
  empty = record { pools = []; pool_configs = []; round_robin = [] }

  unfoldable pub add_exchange : WebSocketConfig → WebSocketManager X → WebSocketManager X
  add_exchange config m = record m {
    pools = insert config.exchange_name [] m.pools;
    pool_configs = insert config.exchange_name config m.pool_configs;
  }

  -- `conn.connected and conn.subscription_count < 50`
  abbrev pub is_available : WebSocketConnection X → Bool
  is_available c = c.connected && ltb (length c.subscriptions) 50

  -- The place of the first available connection, from place `i` on.
  abbrev pub first_available : ℕ → List (WebSocketConnection X) → Option ℕ
  first_available i [] = none
  first_available i (c ∷ pool) =
      let rest = first_available (suc i) pool in if is_available c then some i else rest

  -- A new connection that opens joins the pool; if it does not, its error is raised.
  abbrev pub joined :
      String
      → List (WebSocketConnection X)
      → WebSocketManager X
      → WebSocketConnection X × Outcome
      → WebSocketManager X × Found
  joined exchange_name pool m (c, done) =
      (record m { pools = insert exchange_name (pool ++ c ∷ []) m.pools }, connection (length pool))
  joined exchange_name pool m (c, rate_limit_error) = (m, connection_failed)
  joined exchange_name pool m (c, web_socket_error) = (m, connection_failed)

  -- `id_of` writes the identifier of the new connection.
  abbrev pub get_from :
      (ℕ → String)
      → Bool
      → String
      → List (WebSocketConnection X)
      → WebSocketConfig
      → WebSocketManager X
      → Option ℕ
      → WebSocketManager X × Found
  get_from id_of opens exchange_name pool config m (some i) = (m, connection i)
  get_from id_of opens exchange_name pool config m none =
      let index = or_zero (lookup exchange_name m.round_robin) in
      if ltb (length pool) config.max_connections
      then joined exchange_name pool m (connect opens (new (id_of (length pool))))
      else (
        record m { round_robin = insert exchange_name (suc index) m.round_robin },
        connection (index % length pool),
      )

  abbrev pub get_configured :
      (ℕ → String)
      → Bool
      → String
      → WebSocketManager X
      → Option (List (WebSocketConnection X))
      → Option WebSocketConfig
      → WebSocketManager X × Found
  get_configured id_of opens exchange_name m (some pool) (some config) =
      get_from id_of opens exchange_name pool config m (first_available 0 pool)
  get_configured id_of opens exchange_name m none config = (m, not_configured)
  get_configured id_of opens exchange_name m (some pool) none = (m, not_configured)

  -- The pools and the configurations have the same keys.
  unfoldable pub get_connection :
      (ℕ → String) → Bool → String → WebSocketManager X → WebSocketManager X × Found
  unfolding connect
  get_connection id_of opens exchange_name m =
      get_configured id_of opens exchange_name m (lookup exchange_name m.pools)
        (lookup exchange_name m.pool_configs)

  -- Beside the manager it gives the connections as they are left.
  unfoldable pub close_all : WebSocketManager X → WebSocketManager X × List (WebSocketConnection X)
  unfolding disconnect
  close_all m = (
    record m {
      pools = map (λ e. (e.0, [])) m.pools;
      round_robin = restart (keys m.pools) m.round_robin;
    },
    map disconnect (concat (values m.pools)),
  )

  abbrev pub at : ℕ → List (WebSocketConnection X) → Option (WebSocketConnection X)
  at i [] = none
  at zero (c ∷ pool) = some c
  at (suc i) (c ∷ pool) = at i pool

  abbrev pub set_at :
      ℕ → WebSocketConnection X → List (WebSocketConnection X) → List (WebSocketConnection X)
  set_at i c [] = []
  set_at zero c (b ∷ pool) = c ∷ pool
  set_at (suc i) c (b ∷ pool) = b ∷ set_at i c pool

  -- The pools after the connection at a place has changed.
  abbrev pub changed :
      String
      → ℕ
      → List (WebSocketConnection X)
      → WebSocketManager X
      → WebSocketConnection X × Outcome
      → WebSocketManager X × Outcome
  changed exchange_name i pool m (c, outcome) =
      (record m { pools = insert exchange_name (set_at i c pool) m.pools }, outcome)

-- What `subscribe` and `unsubscribe` raise, or that they are done.
pub data Result : Type 0 where
  not_there no_connection : Result
  ends_as : Outcome → Result

module _ {X : Type 0} (starts_with : String → String → Bool) (lower : String → String) where
  abbrev pub subscribe_at :
      Bool
      → Subscription X
      → String
      → ℕ
      → WebSocketManager X
      → Option (List (WebSocketConnection X))
      → Option WebSocketConfig
      → Option (WebSocketConnection X)
      → WebSocketManager X × Result
  subscribe_at taken s name i m (some pool) (some config) (some c) =
      let r = changed name i pool m (subscribe starts_with lower config taken s c) in
      (r.0, ends_as r.1)
  subscribe_at taken s name i m (some pool) (some config) none = (m, not_there)
  subscribe_at taken s name i m (some pool) none c = (m, not_there)
  subscribe_at taken s name i m none config c = (m, not_there)

  abbrev pub subscribe_found :
      Bool → Subscription X → String → WebSocketManager X × Found → WebSocketManager X × Result
  subscribe_found taken s name (m, connection i) =
      let pool = lookup name m.pools in
      subscribe_at taken s name i m pool (lookup name m.pool_configs) (at i (or_none pool))
  subscribe_found taken s name (m, not_configured) = (m, not_there)
  subscribe_found taken s name (m, connection_failed) = (m, no_connection)

  -- `s` is the new subscription, with its identifier. `opens` is whether a new connection would open.
  unfoldable pub manager_subscribe :
      (ℕ → String)
      → (opens taken : Bool) → String
      → Subscription X
      → WebSocketManager X
      → WebSocketManager X × Result
  unfolding get_connection subscribe
  manager_subscribe id_of opens taken name s m =
      subscribe_found taken s name (get_connection id_of opens name m)

  -- The first connection of the pool that has the subscription ends it.
  abbrev pub end_in :
      Bool
      → String
      → WebSocketConfig
      → List (WebSocketConnection X)
      → List (WebSocketConnection X) × Outcome
  end_in taken id config [] = ([], done)
  end_in taken id config (c ∷ pool) =
      let rest = end_in taken id config pool in
      let ended = unsubscribe starts_with lower config taken id c in
      if has id c.subscriptions then (ended.0 ∷ pool, ended.1) else (c ∷ rest.0, rest.1)

  abbrev pub unsubscribe_in :
      Bool
      → String
      → String
      → WebSocketManager X
      → Option (List (WebSocketConnection X))
      → Option WebSocketConfig
      → WebSocketManager X × Result
  unsubscribe_in taken name id m (some pool) (some config) =
      let (left, outcome) = end_in taken id config pool in
      (record m { pools = insert name left m.pools }, ends_as outcome)
  unsubscribe_in taken name id m (some pool) none = (m, not_there)
  unsubscribe_in taken name id m none config = (m, not_there)

  unfoldable pub manager_unsubscribe :
      Bool → String → String → WebSocketManager X → WebSocketManager X × Result
  unfolding unsubscribe
  manager_unsubscribe taken name id m =
      unsubscribe_in taken name id m (lookup name m.pools) (lookup name m.pool_configs)
