-- ===== src/Gateway/Health/Tests.antt =====
-- Runs of the gateway's health.
use bt_api_base.Prelude.{ℕ, ◌&&◌, List, [], ◌∷◌, ◌≡◌}
use bt_api_base.Gateway.Health.{
  new, running, stopped, connected, disconnected, is_running, is_connected, is_healthy,
}
use bt_api_base.Gateway.Health.Records.{
  Call, sets_state, market, tick, fails, run, last_of, errors_in, ticks_in, orders_in, last_state,
  last_market, health_run_lem,
}

abbrev calls : List (Call ℕ)
calls =
    sets_state 5 running
    ∷ market connected
    ∷ tick 6
    ∷ fails 7 "feed" "late"
    ∷ fails 8 "feed" "gap"
    ∷ []

health_run_lem_example :
    let h = run (new 1) calls in
    (h.errors ≡ last_of 1 (errors_in calls))
    × (h.tick_count ≡ ticks_in calls)
    × (h.order_count ≡ orders_in calls)
    × (is_healthy h
        ≡ (is_running (last_state stopped calls) && is_connected (last_market disconnected calls)))
health_run_lem_example = health_run_lem 1 calls
