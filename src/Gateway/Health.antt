-- ===== src/Gateway/Health.antt =====
-- `GatewayHealth` of gateway/health.py. The clock's reading is told to each call; each method holds the
-- lock. `V` is the type of the extra values.

pub mod Records
mod Tests
use bt_api_base.Prelude.{
  ℕ, zero, suc, ◌-◌, String, Bool, true, false, ◌&&◌, Option, none, some, List, [], ◌∷◌, ◌++◌,
  length, ltb, if◌then◌else◌, ◌==◌, nat_key, string_key,
}
use bt_api_base.Prelude.Dict.{Dict, insert}

pub data GatewayState : Type 0 where
  starting running stopping stopped state_error : GatewayState

pub data ConnectionState : Type 0 where
  disconnected connecting connected reconnecting connection_error : ConnectionState

pub record ErrorRecord : Type 0 where
  pub timestamp : ℕ
  pub source : String
  pub message : String

pub record GatewayHealth (V : Type 0) : Type 0 where
  pub state : GatewayState
  pub market_conn : ConnectionState
  pub trade_conn : ConnectionState
  pub last_heartbeat : ℕ
  pub last_tick_time : ℕ
  pub last_order_time : ℕ
  pub start_time : ℕ
  pub strategy_count : ℕ
  pub symbol_count : ℕ
  pub tick_count : ℕ
  pub order_count : ℕ
  pub max_errors : ℕ
  pub errors : List ErrorRecord
  pub extra : Dict String V

abbrev pub is_running : GatewayState → Bool
is_running starting = false
is_running running = true
is_running stopping = false
is_running stopped = false
is_running state_error = false

abbrev pub is_connected : ConnectionState → Bool
is_connected disconnected = false
is_connected connecting = false
is_connected connected = true
is_connected reconnecting = false
is_connected connection_error = false

-- `append` of a deque with a maximal length drops the first where it is full.
abbrev pub drop_first {ℓ} : {A : Type ℓ} → List A → List A
drop_first [] = []
drop_first (x ∷ xs) = xs

abbrev pub append_within {ℓ} : {A : Type ℓ} → ℕ → List A → A → List A
append_within limit xs x =
    let longer = xs ++ x ∷ [] in if ltb limit (length longer) then drop_first longer else longer

module _ {V : Type 0} where
  abbrev pub new : ℕ → GatewayHealth V
  new max_errors = record {
    state = stopped;
    market_conn = disconnected;
    trade_conn = disconnected;
    last_heartbeat = 0;
    last_tick_time = 0;
    last_order_time = 0;
    start_time = 0;
    strategy_count = 0;
    symbol_count = 0;
    tick_count = 0;
    order_count = 0;
    max_errors = max_errors;
    errors = [];
    extra = [];
  }

  unfoldable pub set_state : ℕ → GatewayState → GatewayHealth V → GatewayHealth V
  set_state now s h = record h {
    state = s;
    start_time = if is_running s then now else h.start_time;
  }

  unfoldable pub update_market_connection : ConnectionState → GatewayHealth V → GatewayHealth V
  update_market_connection s h = record h { market_conn = s }

  unfoldable pub update_trade_connection : ConnectionState → GatewayHealth V → GatewayHealth V
  update_trade_connection s h = record h { trade_conn = s }

  unfoldable pub record_heartbeat : ℕ → GatewayHealth V → GatewayHealth V
  record_heartbeat now h = record h { last_heartbeat = now }

  unfoldable pub record_tick : ℕ → GatewayHealth V → GatewayHealth V
  record_tick now h = record h { tick_count = suc h.tick_count; last_tick_time = now }

  unfoldable pub record_order : ℕ → GatewayHealth V → GatewayHealth V
  record_order now h = record h { order_count = suc h.order_count; last_order_time = now }

  unfoldable pub update_counts :
      (strategy_count symbol_count : ℕ) → GatewayHealth V → GatewayHealth V
  update_counts strategies symbols h = record h {
    strategy_count = strategies;
    symbol_count = symbols;
  }

  unfoldable pub record_error : ℕ → String → String → GatewayHealth V → GatewayHealth V
  record_error now source message h =
      let e : ErrorRecord = record { timestamp = now; source = source; message = message } in
      record h { errors = append_within h.max_errors h.errors e }

  unfoldable pub set_extra : String → V → GatewayHealth V → GatewayHealth V
  set_extra key value h = record h { extra = insert key value h.extra }

  unfoldable pub is_healthy : GatewayHealth V → Bool
  is_healthy h = is_running h.state && is_connected h.market_conn

  -- `snapshot`'s ages: the time since the start, and since the last heartbeat if there was one.
  unfoldable pub uptime : ℕ → GatewayHealth V → ℕ
  uptime now h = if ltb 0 h.start_time then now - h.start_time else 0

  unfoldable pub heartbeat_age : ℕ → GatewayHealth V → Option ℕ
  heartbeat_age now h = if ltb 0 h.last_heartbeat then some (now - h.last_heartbeat) else none
