-- ===== src/WebSocket/Tests.antt =====
-- Runs of the WebSocket connections.
use bt_api_base.Prelude.{
  ℕ, zero, suc, ◌+◌, ◌%◌, ◌≤◌, ◌<◌, String, Bool, true, false, none, some, List, [], ◌∷◌, ◌++◌, All,
  map, length, ◌≡◌, ◌⊎◌, refl, arith, if◌then◌else◌, string_key, nat_key,
}
use bt_api_base.Prelude.Set.{contains}
use bt_api_base.Prelude.Dict.{values, lookup, insert}
use bt_api_base.WebSocket.Config.{
  WebSocketConfig, Subscription, default_limits, limit_of, post_init, url_invalid,
}
use bt_api_base.WebSocket.Connection.{
  WebSocketConnection, new, count_of, message_of, subscribe, unsubscribe,
}
use bt_api_base.WebSocket.Limits
use bt_api_base.WebSocket.Limits.{number_in, subscription_bound}
use bt_api_base.WebSocket.Leak.{resubscribe_leaks}
use bt_api_base.WebSocket.Reconnect.{Try, refused, opens, wait_time, handle_disconnect}
use bt_api_base.WebSocket.Reconnects.{waits_from, down, gives_up_after}
use bt_api_base.WebSocket.Restores.{up, comes_back}
use bt_api_base.WebSocket.Dispatch.{Incoming, handle_message}
use bt_api_base.WebSocket.Delivery.{delivered}
use bt_api_base.WebSocket.Manager.{
  WebSocketManager, empty, connection, connection_failed, or_zero, get_connection,
}
use bt_api_base.WebSocket.Fits.{IsValid}
use bt_api_base.WebSocket.Pools
use bt_api_base.WebSocket.Pools.{manager_run-IsValid}
use bt_api_base.WebSocket.Choice.{IsBusy, Chosen, get_connection_lem}

-- The venue's name is BINANCE, and all symbols are BTC.
abbrev starts_with : String → String → Bool
starts_with name prefix = elim (string_key.equals name prefix) [ true ↦ true | false ↦ false ]

abbrev lower : String → String
lower symbol = "btc"

abbrev upper : String → String
upper symbol = "BTC"

abbrev split : String → List String
split stream = "btc" ∷ "ticker" ∷ []

abbrev config_of : String → WebSocketConfig
config_of name = record {
  url = "wss://host";
  exchange_name = name;
  max_connections = 2;
  heartbeat_interval = 30;
  reconnect_interval = 5;
  max_reconnect_attempts = 3;
  message_queue_size = 10;
  compression = true;
  subscription_limits = default_limits;
}

abbrev config : WebSocketConfig
config = config_of "BINANCE"

abbrev ticker : Subscription ℕ
ticker = record { id = "a"; topic = "ticker"; symbol = "BTC"; params = 0; callback = some 7 }

abbrev calls : List (Limits.Call ℕ)
calls =
    Limits.connects true
    ∷ Limits.subscribes true ticker
    ∷ Limits.subscribes false ticker
    ∷ Limits.unsubscribes true "a"
    ∷ Limits.disconnects
    ∷ []

subscription_bound_example :
    let c = Limits.run starts_with lower config (new "c") calls in
    (number_in "ticker" c.subscriptions ≤ count_of "ticker" c)
    × (count_of "ticker" c ≤ limit_of config "ticker")
subscription_bound_example = subscription_bound starts_with lower config "c" calls "ticker"

abbrev fresh : WebSocketConnection ℕ
fresh = new "c"

resubscribe_leaks_example :
    let once = (subscribe starts_with lower config true ticker fresh).0 in
    let twice = (subscribe starts_with lower config true ticker once).0 in
    let ended = (unsubscribe starts_with lower config true "a" twice).0 in
    (lookup "a" ended.subscriptions ≡ none)
    × (count_of "ticker" ended ≡ suc (count_of "ticker" fresh))
resubscribe_leaks_example =
    resubscribe_leaks starts_with lower config true true true ticker fresh (omega arith)

abbrev lost : WebSocketConnection ℕ
lost = record fresh { running = true; subscriptions = ("a", ticker) ∷ [] }

abbrev all_closed : ℕ → Try
all_closed i = refused

gives_up_after_example :
    handle_disconnect starts_with lower config (3 + 1) all_closed lost
    ≡ some (record {
      connection = record (down (0 + 3) (0 + 3) lost) { running = false };
      waits = waits_from config 0 3;
      returned = false;
    })
gives_up_after_example =
    gives_up_after starts_with lower config 3 all_closed lost refl (omega arith)
      (refl, (refl, (refl, tt)))

slept : waits_from config 0 3 ≡ 10 ∷ 20 ∷ 40 ∷ []
slept = refl

abbrev always : ℕ → Bool
always k = true

-- The first try is refused, the others open.
abbrev second_opens : ℕ → Try
second_opens zero = refused
second_opens (suc i) = opens always

comes_back_example :
    handle_disconnect starts_with lower config (1 + 1) second_opens lost
    ≡ some (record {
      connection =
          up
            (suc (0 + 1))
            (0 + length (values lost.subscriptions))
            ([] ++ map (message_of starts_with lower config true) (values lost.subscriptions))
            lost;
      waits = waits_from config 0 1 ++ wait_time config (suc (0 + 1)) ∷ [];
      returned = true;
    })
comes_back_example =
    comes_back starts_with lower config 1 second_opens always lost refl (omega arith) (refl, tt)
      refl (λ k. refl)

abbrev tick : Incoming
tick = record {
  has_result = false;
  has_data = true;
  event = none;
  stream = some "btc@ticker";
  arg = none;
}

delivered_example :
    contains
      (handle_message starts_with upper split config tick
        (subscribe starts_with lower config true ticker fresh).0)
      7
    ≡ true
unfolding message_of
delivered_example =
    delivered starts_with lower upper split config true 7 ticker fresh tick "btc@ticker" refl
      (omega arith) refl refl refl refl refl refl refl refl

abbrev id_of : ℕ → String
id_of i = "x"

abbrev pool_calls : List (Pools.Call ℕ)
pool_calls =
    Pools.adds config
    ∷ Pools.gets true "BINANCE"
    ∷ Pools.subscribes true true "BINANCE" ticker
    ∷ Pools.gets false "OTHER"
    ∷ Pools.unsubscribes true "BINANCE" "a"
    ∷ Pools.closes
    ∷ []

manager_run-IsValid_example : IsValid (Pools.run starts_with lower id_of empty pool_calls)
manager_run-IsValid_example = manager_run-IsValid starts_with lower id_of pool_calls

-- The pool is at its maximum, and none of its connections is connected.
abbrev crowded : WebSocketManager ℕ
crowded = record {
  pools = ("BINANCE", fresh ∷ lost ∷ []) ∷ [];
  pool_configs = ("BINANCE", config) ∷ [];
  round_robin = ("BINANCE", 3) ∷ [];
}

get_connection_lem_example :
    let pool = fresh ∷ lost ∷ [] in
    let r = get_connection id_of true "BINANCE" crowded in
    let turn = or_zero (lookup "BINANCE" crowded.round_robin) in
    ((place : ℕ) × (r ≡ (crowded, connection place)) × Chosen pool 0 place)
    ⊎ (All IsBusy pool
        × (((length pool < 2)
              × (r ≡ (
                  if true
                  then (
                    record crowded {
                      pools =
                          insert "BINANCE"
                            (pool
                              ++ record (new (id_of (length pool))) {
                                processing_task = some 0;
                                tasks_started = 1;
                                has_websocket = true;
                                connected = true;
                                running = true;
                              }
                                ∷ [])
                            crowded.pools;
                    },
                    connection (length pool),
                  )
                  else (crowded, connection_failed))))
            ⊎ ((2 ≤ length pool)
                × (turn % length pool < length pool)
                × (r ≡ (
                  record crowded { round_robin = insert "BINANCE" (suc turn) crowded.round_robin },
                  connection (turn % length pool),
                )))))
get_connection_lem_example =
    get_connection_lem id_of true "BINANCE" crowded (fresh ∷ lost ∷ []) config refl refl
      (omega arith)

bad_url : post_init (λ u. "http") (λ u. "host") (λ s. s) config ≡ some url_invalid
unfolding post_init
bad_url = refl
