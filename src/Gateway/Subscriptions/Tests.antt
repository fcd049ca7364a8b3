-- ===== src/Gateway/Subscriptions/Tests.antt =====
-- Runs of the subscription manager.
use bt_api_base.Prelude.{String, ◌≡◌, refl, List, [], ◌∷◌, string_key}
use bt_api_base.Gateway.Subscriptions.{Subscriptions, empty, ref_count, remove_strategy}
use bt_api_base.Gateway.Subscriptions.Valid.{IsValid}
use bt_api_base.Gateway.Subscriptions.Changes.{Call, subscribe, unsubscribe, run, run-IsValid}

abbrev grid : String
grid = "grid"

abbrev trend : String
trend = "trend"

abbrev btc : String
btc = "BTC"

abbrev eth : String
eth = "ETH"

abbrev calls : List Call
calls =
    subscribe grid (btc ∷ eth ∷ btc ∷ [])
    ∷ subscribe trend (btc ∷ [])
    ∷ unsubscribe grid (eth ∷ "SOL" ∷ [])
    ∷ []

abbrev shared : Subscriptions
shared = run empty calls

counts : ref_count shared btc ≡ 2
unfolding run
counts = refl

released : (remove_strategy (record shared { ref_counts = (btc, 1) ∷ [] }) trend).1 ≡ btc ∷ []
unfolding run remove_strategy
released = refl

run-IsValid_example : IsValid (run empty calls)
run-IsValid_example = run-IsValid calls
