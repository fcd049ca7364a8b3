-- ===== src/Gateway/Subscriptions.antt =====
-- `SubscriptionManager` of gateway/subscription_manager.py: who subscribes to which symbol, and how
-- many subscribers each symbol has. Each method holds the lock to its end, so it is one step.
-- A Python set is the list of its elements; `defaultdict` gives the default on a missing key.
pub mod Counts
pub mod Valid
pub mod Changes
mod Tests
use bt_api_base.Prelude.{
  ℕ, ◌+◌, ◌-◌, String, Bool, Option, none, some, List, [], ◌∷◌, leb, ◌==◌, if◌then◌else◌, length,
  null, nat_key, string_key,
}
use bt_api_base.Prelude.Dict.{Dict, keys, lookup, has, insert, erase}
use bt_api_base.Prelude.Set

pub record Subscriptions : Type 0 where
  pub strategy_symbols : Dict String (List String)
  pub ref_counts : Dict String ℕ

abbrev pub empty : Subscriptions
empty = record { strategy_symbols = []; ref_counts = [] }

-- `d[k]` of a defaultdict(set) and of a defaultdict(int), and `d.get(k, default)`
abbrev pub set_or_empty : Option (List String) → List String
set_or_empty none = []
set_or_empty (some s) = s

abbrev pub count_or_zero : Option ℕ → ℕ
count_or_zero none = 0
count_or_zero (some n) = n

abbrev pub get_strategy_symbols : Subscriptions → String → List String
get_strategy_symbols m strategy = set_or_empty (lookup strategy m.strategy_symbols)

abbrev pub ref_count : Subscriptions → String → ℕ
ref_count m symbol = count_or_zero (lookup symbol m.ref_counts)

unfoldable pub get_active_symbols : Subscriptions → List String
get_active_symbols m = keys m.ref_counts

unfoldable pub get_strategies : Subscriptions → List String
get_strategies m = keys m.strategy_symbols

unfoldable pub symbol_count : Subscriptions → ℕ
symbol_count m = length m.ref_counts

unfoldable pub strategy_count : Subscriptions → ℕ
strategy_count m = length m.strategy_symbols

-- The body of the loop of `add`, on the manager and the symbols that are newly subscribed.
unfoldable pub add_symbol :
    String → String → Subscriptions × List String → Subscriptions × List String
add_symbol strategy symbol (m, newly) =
    let held = get_strategy_symbols m strategy in
    let count = ref_count m symbol + 1 in
    if Set.contains held symbol then (m, newly) else (
      record {
        strategy_symbols = insert strategy (Set.add symbol held) m.strategy_symbols;
        ref_counts = insert symbol count m.ref_counts;
      },
      if count == 1 then Set.add symbol newly else newly,
    )

unfoldable pub add_symbols :
    String → List String → Subscriptions × List String → Subscriptions × List String
add_symbols strategy [] acc = acc
add_symbols strategy (symbol ∷ symbols) acc =
    add_symbols strategy symbols (add_symbol strategy symbol acc)

-- The new state and the set of the newly subscribed symbols.
unfoldable pub add : Subscriptions → String → List String → Subscriptions × List String
unfolding add_symbols add_symbol
add m strategy symbols = add_symbols strategy symbols (m, [])

-- One subscriber of a symbol less, on the counts and the symbols to unsubscribe. The source may
-- count below zero before it tests `<= 0`; here the count stops at zero, and the test is the same.
unfoldable pub drop_ref : String → Dict String ℕ × List String → Dict String ℕ × List String
drop_ref symbol (refs, gone) =
    let count = count_or_zero (lookup symbol refs) - 1 in
    if leb count 0
    then (erase symbol refs, Set.add symbol gone)
    else (insert symbol count refs, gone)

-- The body of the loop of `remove`; `held` is the set that the strategy's key maps to.
unfoldable pub remove_symbol :
    String
    → List String × (Dict String ℕ × List String)
    → List String × (Dict String ℕ × List String)
unfolding drop_ref
remove_symbol symbol (held, acc) =
    if Set.contains held symbol then (Set.discard symbol held, drop_ref symbol acc) else (held, acc)

unfoldable pub remove_symbols :
    List String
    → List String × (Dict String ℕ × List String)
    → List String × (Dict String ℕ × List String)
remove_symbols [] acc = acc
remove_symbols (symbol ∷ symbols) acc = remove_symbols symbols (remove_symbol symbol acc)

-- The loop changes the strategy's set in place; an empty set is deleted at the end.
abbrev pub store_set : String → List String → Dict String (List String) → Dict String (List String)
store_set strategy held d = if null held then erase strategy d else insert strategy held d

unfoldable pub remove_held :
    Subscriptions → String → List String → Option (List String) → Subscriptions × List String
unfolding remove_symbols remove_symbol
remove_held m strategy symbols none = (m, [])
remove_held m strategy symbols (some found) =
    let (held, (refs, gone)) = remove_symbols symbols (found, (m.ref_counts, [])) in
    (
      record { strategy_symbols = store_set strategy held m.strategy_symbols; ref_counts = refs },
      gone,
    )

unfoldable pub remove : Subscriptions → String → List String → Subscriptions × List String
unfolding remove_held
remove m strategy symbols = remove_held m strategy symbols (lookup strategy m.strategy_symbols)

unfoldable pub drop_refs : List String → Dict String ℕ × List String → Dict String ℕ × List String
unfolding drop_ref
drop_refs [] acc = acc
drop_refs (symbol ∷ symbols) acc = drop_refs symbols (drop_ref symbol acc)

-- A Python set is walked in an order of its own; the result does not depend on the order.
unfoldable pub remove_strategy : Subscriptions → String → Subscriptions × List String
unfolding drop_refs
remove_strategy m strategy =
    let (refs, gone) = drop_refs (get_strategy_symbols m strategy) (m.ref_counts, []) in
    (record { strategy_symbols = erase strategy m.strategy_symbols; ref_counts = refs }, gone)

-- Whether somebody subscribes to the symbol, as the counts tell.
abbrev pub is_active : Subscriptions → String → Bool
is_active m symbol = has symbol m.ref_counts
