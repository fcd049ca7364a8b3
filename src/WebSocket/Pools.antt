-- ===== src/WebSocket/Pools.antt =====
-- The sizes of the pools after any calls.
use bt_api_base.Prelude.{
  ℕ, suc, String, Bool, Option, none, some, List, [], ◌∷◌, length, ◌≡◌, refl, ap, inl, inr,
  string_key, Option-cases, Bool-cases,
}
use bt_api_base.Prelude.Dict.{lookup, has}
use bt_api_base.WebSocket.Config.{WebSocketConfig, Subscription}
use bt_api_base.WebSocket.Connection.{WebSocketConnection, subscribe}
use bt_api_base.WebSocket.Manager.{
  WebSocketManager, empty, add_exchange, Found, connection, not_configured, connection_failed,
  get_connection, close_all, at, set_at, subscribe_at, subscribe_found, manager_subscribe, end_in,
  unsubscribe_in, manager_unsubscribe,
}
use bt_api_base.WebSocket.Fits.{
  IsValid, add_exchange-FitsAt, get_connection-IsValid, set_pool-IsValid, length-set_at,
  close_all-IsValid,
}

pub data Call (X : Type 0) : Type 0 where
  adds : WebSocketConfig → Call X
  gets : (opens : Bool) → String → Call X
  subscribes : (opens taken : Bool) → String → Subscription X → Call X
  unsubscribes : (taken : Bool) → (name id : String) → Call X
  closes : Call X

module _ {X : Type 0} (starts_with : String → String → Bool) (lower : String → String)
    (id_of : ℕ → String) where
  length-end_in :
      (taken : Bool) (id : String) (config : WebSocketConfig) (pool : List (WebSocketConnection X))
      → length (end_in starts_with lower taken id config pool).0 ≡ length pool
  length-end_in taken id config [] = refl
  length-end_in taken id config (c ∷ pool) = elim (Bool-cases (has id c.subscriptions)) [
    | inl there ↦ rw there refl
    | inr other ↦ rw other (ap suc (length-end_in taken id config pool))
  ]

  subscribe_at-IsValid :
      (taken : Bool) (s : Subscription X) (name : String) (i : ℕ) (m : WebSocketManager X)
      (pool : List (WebSocketConnection X)) (config : Option WebSocketConfig)
      (c : Option (WebSocketConnection X))
      → lookup name m.pools ≡ some pool
      → IsValid m
      → IsValid (subscribe_at starts_with lower taken s name i m (some pool) config c).0
  subscribe_at-IsValid taken s name i m pool (some config) (some c) there v =
      set_pool-IsValid name (set_at i (subscribe starts_with lower config taken s c).0 pool) pool m
        v there (length-set_at i (subscribe starts_with lower config taken s c).0 pool)
  subscribe_at-IsValid taken s name i m pool (some config) none there v = v
  subscribe_at-IsValid taken s name i m pool none c there v = v

  subscribe_found-IsValid :
      (taken : Bool) (s : Subscription X) (name : String) (r : WebSocketManager X × Found)
      → IsValid r.0
      → IsValid (subscribe_found starts_with lower taken s name r).0
  subscribe_found-IsValid taken s name (m, connection i) v =
      elim (Option-cases (lookup name m.pools)) [
        | inl missing ↦ rw missing v
        | inr (pool, there) ↦ rw there (
            subscribe_at-IsValid taken s name i m pool (lookup name m.pool_configs) (at i pool)
              there v)
      ]
  subscribe_found-IsValid taken s name (m, not_configured) v = v
  subscribe_found-IsValid taken s name (m, connection_failed) v = v

  unsubscribe_in-IsValid :
      (taken : Bool) (name id : String) (m : WebSocketManager X)
      (pool : List (WebSocketConnection X)) (config : Option WebSocketConfig)
      → lookup name m.pools ≡ some pool
      → IsValid m
      → IsValid (unsubscribe_in starts_with lower taken name id m (some pool) config).0
  unsubscribe_in-IsValid taken name id m pool (some config) there v =
      set_pool-IsValid name (end_in starts_with lower taken id config pool).0 pool m v there
        (length-end_in taken id config pool)
  unsubscribe_in-IsValid taken name id m pool none there v = v

  unfoldable pub step : WebSocketManager X → Call X → WebSocketManager X
  unfolding add_exchange get_connection manager_subscribe manager_unsubscribe close_all
  step m (adds config) = add_exchange config m
  step m (gets opens name) = (get_connection id_of opens name m).0
  step m (subscribes opens taken name s) =
      (manager_subscribe starts_with lower id_of opens taken name s m).0
  step m (unsubscribes taken name id) = (manager_unsubscribe starts_with lower taken name id m).0
  step m closes = (close_all m).0

  unfoldable pub run : WebSocketManager X → List (Call X) → WebSocketManager X
  unfolding step
  run m [] = m
  run m (call ∷ calls) = run (step m call) calls

  step-IsValid : (m : WebSocketManager X) (call : Call X) → IsValid m → IsValid (step m call)
  unfolding step manager_subscribe manager_unsubscribe
  step-IsValid m (adds config) v = λ name. add_exchange-FitsAt name config m (v name)
  step-IsValid m (gets opens name) v = get_connection-IsValid id_of opens name m v
  step-IsValid m (subscribes opens taken name s) v =
      subscribe_found-IsValid taken s name (get_connection id_of opens name m)
        (get_connection-IsValid id_of opens name m v)
  step-IsValid m (unsubscribes taken name id) v = elim (Option-cases (lookup name m.pools)) [
    | inl missing ↦ rw (step, missing) v
    | inr (pool, there) ↦
        rw (step, there)
          (unsubscribe_in-IsValid taken name id m pool (lookup name m.pool_configs) there v)
  ]
  step-IsValid m closes v = close_all-IsValid m v

  run_from-IsValid :
      (m : WebSocketManager X) (calls : List (Call X)) → IsValid m → IsValid (run m calls)
  unfolding run
  run_from-IsValid m [] v = v
  run_from-IsValid m (call ∷ calls) v = run_from-IsValid (step m call) calls (step-IsValid m call v)

  -- After any calls on a new manager, whatever the network does, an exchange has a configuration if and
  -- only if it has a pool, which then holds at most the maximum number of connections it sets.
  pub manager_run-IsValid : (calls : List (Call X)) → IsValid (run empty calls)
  manager_run-IsValid calls = run_from-IsValid empty calls (λ name. tt)
