-- ===== src/Gateway/Orders/Tests.antt =====
-- Runs of the order map.
use bt_api_base.Prelude.{
  ℕ, String, ◌≡◌, refl, none, some, List, [], ◌∷◌, map, select, length, ◌==◌, string_key,
}
use bt_api_base.Prelude.Dict.{lookup, keys}
use bt_api_base.Gateway.Orders.{
  OrderEntry, OrderIdentityMap, empty, update_status, register, set_client_order_id,
  set_venue_order_id_by_client, remove, strategy_for_request, count, orders_for_strategy,
}
use bt_api_base.Gateway.Orders.Valid.{
  Call, registers, sets_client, sets_venue_by_client, updates, removes, call, run,
}
use bt_api_base.Gateway.Orders.Owners.{owners, owners_refined}
use bt_api_base.Gateway.Orders.Lookups.{registered}

abbrev calls : List (Call ℕ)
calls =
    registers "r1" "grid" (some "c1") none (some "BTC") 1
    ∷ registers "r2" "trend" (some "c2") (some "v2") none 2
    ∷ sets_venue_by_client "c1" "v1"
    ∷ updates "r1" "filled"
    ∷ sets_client "r1" "c3"
    ∷ removes "r2"
    ∷ registers "r3" "grid" none none none 3
    ∷ []

abbrev orders : OrderIdentityMap ℕ
orders = run empty calls

seen : map (λ e. e.status) (orders_for_strategy orders "grid") ≡ "filled" ∷ "pending" ∷ []
unfolding run call register set_client_order_id set_venue_order_id_by_client orders_for_strategy
    remove update_status
seen = refl

owners_refined_example :
    (strategy_for_request (run empty calls) "r1" ≡ lookup "r1" (owners [] calls))
    × (count (run empty calls) ≡ length (owners [] calls))
    × (map (λ e. e.request_id) (orders_for_strategy (run empty calls) "grid")
        ≡ keys (select (λ owned. owned.1 == "grid") (owners [] calls)))
owners_refined_example = owners_refined calls "r1" "grid"

abbrev r4 : String
r4 = "r4"

abbrev one : OrderIdentityMap ℕ
one = (register empty "r1" "grid" (some "c1") none none 1).0

abbrev entry : OrderEntry ℕ
entry = registered "r1" "grid" (some "c1") none none 1
