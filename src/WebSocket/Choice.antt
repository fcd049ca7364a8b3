-- ===== src/WebSocket/Choice.antt =====
-- Which connection a call of get_connection gets.
use bt_api_base.Prelude.{
  ℕ, suc, ◌+◌, ◌%◌, ◌≤◌, ◌<◌, String, Bool, true, false, none, some, List, [], ◌∷◌, ◌++◌, All,
  length, ◌≡◌, refl, ap, ◌⊎◌, inl, inr, ltb, ltb→lt, if◌then◌else◌, string_key, arith, Bool-cases,
}
use native.Mathlib.Nat.{mod-lt}
use bt_api_base.Prelude.Dict.{lookup, insert}
use bt_api_base.WebSocket.Config.{WebSocketConfig}
use bt_api_base.WebSocket.Connection.{WebSocketConnection, new, connect, close_websocket}
use bt_api_base.WebSocket.Manager.{
  WebSocketManager, connection, connection_failed, or_zero, is_available, first_available, joined,
  get_connection,
}

ge_of_ltb : (a b : ℕ) → ltb a b ≡ false → b ≤ a
ge_of_ltb a b h = ground arith

module _ {X : Type 0} where
  abbrev pub IsBusy : WebSocketConnection X → Type 0
  IsBusy c = is_available c ≡ false

  -- The connection after those that are all busy.
  abbrev pub Chosen : List (WebSocketConnection X) → ℕ → ℕ → Type 0
  Chosen pool i place =
      (before : List (WebSocketConnection X)) × (c : WebSocketConnection X) × (after : List
        (WebSocketConnection X))
      × (pool ≡ before ++ c ∷ after)
      × All IsBusy before
      × (is_available c ≡ true)
      × (place ≡ i + length before)

  first_available_lem :
      (i : ℕ) (pool : List (WebSocketConnection X))
      → ((first_available i pool ≡ none) × All IsBusy pool)
        ⊎ ((place : ℕ) × (first_available i pool ≡ some place) × Chosen pool i place)
  first_available_lem i [] = inl (refl, tt)
  first_available_lem i (c ∷ pool) = elim (Bool-cases (is_available c)) [
    | inl free ↦ inr (i, rw free refl, ([], c, pool, refl, tt, free, omega arith))
    | inr busy ↦ elim (first_available_lem (suc i) pool) [
      | inl (e, all) ↦ inl (rw busy e, (busy, all))
      | inr (place, e, (before, d, after, split, all, free, same)) ↦ inr (
        place,
        rw busy e,
        (c ∷ before, d, after, ap (λ l. c ∷ l) split, (busy, all), free, omega (arith, same)),
      )
    ]
  ]

  joined-new :
      (opens : Bool) (id name : String) (pool : List (WebSocketConnection X))
      (m : WebSocketManager X)
      → joined name pool m (connect opens (new id)) ≡ (
          if opens
          then (
            record m {
              pools =
                  insert name
                    (pool
                      ++ record (new id) {
                        processing_task = some 0;
                        tasks_started = 1;
                        has_websocket = true;
                        connected = true;
                        running = true;
                      }
                        ∷ [])
                    m.pools;
            },
            connection (length pool),
          )
          else (m, connection_failed))
  unfolding connect close_websocket
  joined-new true id name pool m = refl
  joined-new false id name pool m = refl

  -- A call of get_connection for a configured exchange gets the first connection of its pool that is
  -- connected with fewer than 50 subscriptions. Where there is none and the pool is below its maximum,
  -- it gets a new connection at the end of the pool, or an error if that does not open; where the pool
  -- is at its maximum, which is not zero, it gets the connection whose turn it is in the pool, and the
  -- turn moves on. Nothing else changes.
  pub get_connection_lem :
      (id_of : ℕ → String) (opens : Bool) (name : String) (m : WebSocketManager X)
      (pool : List (WebSocketConnection X)) (config : WebSocketConfig)
      → lookup name m.pools ≡ some pool
      → lookup name m.pool_configs ≡ some config
      → 1 ≤ config.max_connections
      → let r = get_connection id_of opens name m in
        let turn = or_zero (lookup name m.round_robin) in
        ((place : ℕ) × (r ≡ (m, connection place)) × Chosen pool 0 place)
        ⊎ (All IsBusy pool
            × (((length pool < config.max_connections)
                  × (r ≡ (
                      if opens
                      then (
                        record m {
                          pools =
                              insert name
                                (pool
                                  ++ record (new (id_of (length pool))) {
                                    processing_task = some 0;
                                    tasks_started = 1;
                                    has_websocket = true;
                                    connected = true;
                                    running = true;
                                  }
                                    ∷ [])
                                m.pools;
                        },
                        connection (length pool),
                      )
                      else (m, connection_failed))))
                ⊎ ((config.max_connections ≤ length pool)
                    × (turn % length pool < length pool)
                    × (r ≡ (
                      record m { round_robin = insert name (suc turn) m.round_robin },
                      connection (turn % length pool),
                    )))))
  unfolding get_connection
  get_connection_lem id_of opens name m pool config there configured some_allowed =
      elim (first_available_lem 0 pool) [
        | inr (place, found, chosen) ↦
            inl (place, rw (get_connection, there) (rw configured (rw found refl)), chosen)
        | inl (missing, busy) ↦ inr (
          busy,
          elim (Bool-cases (ltb (length pool) config.max_connections)) [
            | inl below ↦ inl (
              ltb→lt (length pool) config.max_connections below,
              rw (get_connection, there)
                  (rw configured
                    (rw missing (rw below (joined-new opens (id_of (length pool)) name pool m)))),
            )
            | inr full ↦ inr (
              ge_of_ltb (length pool) config.max_connections full,
              mod-lt (or_zero (lookup name m.round_robin)) (
                  omega (arith, ge_of_ltb (length pool) config.max_connections full, some_allowed)),
              rw (get_connection, there) (rw configured (rw missing (rw full refl))),
            )
          ],
        )
      ]
