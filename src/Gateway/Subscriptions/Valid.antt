-- ===== src/Gateway/Subscriptions/Valid.antt =====
-- The invariant of the subscriptions, and the loops of `add`, `remove` and `remove_strategy` on it.
pub mod Draining
use Draining.{IsDraining, drop_refs-IsDraining, remove_symbols-IsDraining, remove_symbols-Distinct}
use bt_api_base.Prelude.{
  ℕ, zero, suc, ◌+◌, ◌-◌, String, ◌≡◌, refl, Bool, true, false, Option, none, some, List, [], ◌∷◌,
  arith, ◌==◌, ==_iff, nat_key, string_key, Option-cases, inl, inr, ap, if◌then◌else◌,
}
use bt_api_base.Prelude.Dict.{
  Dict, lookup, insert, erase, Unique, insert-Unique, erase-Unique, lookup-insert, lookup-erase,
}
use bt_api_base.Prelude.Set
use bt_api_base.Gateway.Subscriptions.{
  Subscriptions, empty, get_strategy_symbols, ref_count, add_symbol, add_symbols, add, remove,
  remove_held, remove_symbols, remove_strategy, drop_refs, store_set, set_or_empty,
}
use bt_api_base.Gateway.Subscriptions.Counts.{
  one_if, holders, stored, holders-insert, holders-erase, stored-count,
}

-- No key stands twice, no set holds a symbol twice, and each symbol is counted once for each
-- strategy that holds it, with no entry for a symbol that nobody holds.
pub record IsValid (m : Subscriptions) : Type 0 where
  pub unique : Unique m.strategy_symbols
  pub unique_refs : Unique m.ref_counts
  pub distinct : (k : String) → Set.Distinct (get_strategy_symbols m k)
  pub counted : (s : String) → lookup s m.ref_counts ≡ stored (holders s m.strategy_symbols)

pub empty-IsValid : IsValid empty
empty-IsValid = record { unique = tt; unique_refs = tt; distinct = λ k. tt; counted = λ s. refl }

pub ref_count_lem :
    {m : Subscriptions} → IsValid m → (s : String) → ref_count m s ≡ holders s m.strategy_symbols
ref_count_lem {m} v s = ground (arith, v.counted s, stored-count (holders s m.strategy_symbols))

pub add_symbol-IsValid :
    (k a : String) (m : Subscriptions) (newly : List String)
    → IsValid m
    → IsValid (add_symbol k a (m, newly)).0
unfolding add_symbol
add_symbol-IsValid k a m newly v = record {
  unique = ground (arith, insert-Unique k (Set.add a held) m.strategy_symbols v.unique, v.unique);
  unique_refs =
      ground (arith, insert-Unique a (ref_count m a + 1) m.ref_counts v.unique_refs, v.unique_refs);
  distinct = λ j. ground (
    arith,
    v.distinct j,
    v.distinct k,
    Set.add-Distinct a held,
    lookup-insert k j (Set.add a held) m.strategy_symbols,
    ==_iff k j,
  );
  counted = λ s. ground (
    arith,
    v.counted s,
    lookup-insert a s (ref_count m a + 1) m.ref_counts,
    holders-insert s k (Set.add a held) m.strategy_symbols,
    Set.contains-add a s held,
    ref_count_lem v a,
    ==_iff a s,
  );
}
  where
    held : List String
    held = get_strategy_symbols m k

pub add_symbols-IsValid :
    (k : String) (symbols : List String) (m : Subscriptions) (newly : List String)
    → IsValid m
    → IsValid (add_symbols k symbols (m, newly)).0
unfolding add_symbols
add_symbols-IsValid k [] m newly v = v
add_symbols-IsValid k (a ∷ symbols) m newly v =
    let (m', newly') = add_symbol k a (m, newly) in
    add_symbols-IsValid k symbols m' newly' (add_symbol-IsValid k a m newly v)

pub add-IsValid :
    (m : Subscriptions) (k : String) (symbols : List String)
    → IsValid m
    → IsValid (add m k symbols).0
unfolding add
add-IsValid m k symbols v = add_symbols-IsValid k symbols m [] v

-- Without the strategy, each symbol has this many subscribers.
abbrev pub others : Subscriptions → String → String → ℕ
others m k s = holders s (erase k m.strategy_symbols)

-- Before the loops, the strategy's set is counted beside the others.
pub start-IsDraining :
    (m : Subscriptions) (k : String)
    → IsValid m
    → IsDraining (others m k) m.ref_counts m.ref_counts (get_strategy_symbols m k) []
start-IsDraining m k v = record {
  unique_refs = v.unique_refs;
  counted = λ s. ground (arith, v.counted s, holders-erase s k m.strategy_symbols v.unique);
  was_there = λ s h. h;
  reported = λ s. ground arith;
}

store_set-Unique :
    (k : String) (held : List String) (m : Subscriptions)
    → IsValid m
    → Unique (store_set k held m.strategy_symbols)
store_set-Unique k held m v = ground (
  arith,
  erase-Unique k m.strategy_symbols v.unique,
  insert-Unique k held m.strategy_symbols v.unique,
)

pub lookup-store_set :
    (k j : String) (held : List String) (m : Subscriptions)
    → set_or_empty (lookup j (store_set k held m.strategy_symbols))
      ≡ (if k == j then held else get_strategy_symbols m j)
lookup-store_set k j held m =
    ground (arith, lookup-erase k j m.strategy_symbols, lookup-insert k j held m.strategy_symbols)

holders-store_set :
    (k s : String) (held : List String) (m : Subscriptions)
    → IsValid m
    → holders s (store_set k held m.strategy_symbols) ≡ others m k s + one_if (Set.contains held s)
holders-store_set k s held m v = ground (
  arith,
  holders-erase s k m.strategy_symbols v.unique,
  holders-insert s k held m.strategy_symbols,
)

-- After the loops, the rest of the set is stored.
finish-IsValid :
    (m : Subscriptions) (k : String) (refs : Dict String ℕ) (held gone : List String)
    → IsValid m
    → Set.Distinct held
    → IsDraining (others m k) m.ref_counts refs held gone
    → IsValid (record { strategy_symbols = store_set k held m.strategy_symbols; ref_counts = refs })
finish-IsValid m k refs held gone v d h = record {
  unique = store_set-Unique k held m v;
  unique_refs = h.unique_refs;
  distinct = λ j. ground (arith, lookup-store_set k j held m, v.distinct j);
  counted = λ s. ground (arith, h.counted s, holders-store_set k s held m v);
}

remove_held-IsValid :
    (m : Subscriptions) (k : String) (symbols : List String) (found : Option (List String))
    → IsValid m
    → lookup k m.strategy_symbols ≡ found
    → IsValid (remove_held m k symbols found).0
unfolding remove_held
remove_held-IsValid m k symbols none v e = v
remove_held-IsValid m k symbols (some found) v e =
    finish-IsValid m k _ _ _ v
      (remove_symbols-Distinct symbols (found, (m.ref_counts, []))
        (rw (ap set_or_empty e) at (v.distinct k)))
      (remove_symbols-IsDraining (others m k) m.ref_counts symbols (found, (m.ref_counts, []))
        (rw (ap set_or_empty e) at (start-IsDraining m k v)))

-- `remove` keeps the invariant.
pub remove-IsValid :
    (m : Subscriptions) (k : String) (symbols : List String)
    → IsValid m
    → IsValid (remove m k symbols).0
unfolding remove
remove-IsValid m k symbols v = remove_held-IsValid m k symbols (lookup k m.strategy_symbols) v refl

pub remove_strategy-IsValid :
    (m : Subscriptions) (k : String) → IsValid m → IsValid (remove_strategy m k).0
unfolding remove_strategy
remove_strategy-IsValid m k v = finish-IsValid m k _ [] _ v tt (
    drop_refs-IsDraining (others m k) m.ref_counts (get_strategy_symbols m k) m.ref_counts []
      (v.distinct k) (start-IsDraining m k v))
