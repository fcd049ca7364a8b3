-- ===== src/Gateway/Subscriptions/Changes.antt =====
-- What the operations of `SubscriptionManager` do to the sets, and what they report.
use bt_api_base.Prelude.{
  ◌+◌, String, ◌≡◌, refl, true, false, not, ◌&&◌, ◌||◌, Option, none, some, List, [], ◌∷◌, arith,
  ltb, ◌==◌, ==_iff, nat_key, string_key, if◌then◌else◌, ap,
}
use bt_api_base.Prelude.Dict.{lookup, lookup-insert, lookup-erase}
use bt_api_base.Prelude.Set
use bt_api_base.Gateway.Subscriptions.{
  Subscriptions, empty, set_or_empty, get_strategy_symbols, ref_count, is_active, add_symbol,
  add_symbols, add, remove, remove_held, remove_strategy, remove_symbols,
}
use bt_api_base.Gateway.Subscriptions.Counts.{holders, has-stored}
use bt_api_base.Gateway.Subscriptions.Valid.{
  IsValid, empty-IsValid, ref_count_lem, add_symbol-IsValid, add-IsValid, remove-IsValid,
  remove_strategy-IsValid, others, start-IsDraining, lookup-store_set,
}
use bt_api_base.Gateway.Subscriptions.Valid.Draining.{
  drop_refs-IsDraining, remove_symbols-IsDraining, contains-remove_symbols,
}

pub is_active_lem :
    {m : Subscriptions} (v : IsValid m) (s : String)
    → is_active m s ≡ ltb 0 (holders s m.strategy_symbols)
is_active_lem {m} v s = has-stored s m.ref_counts _ (v.counted s)

-- The calls that change the manager.
pub data Call : Type 0 where
  subscribe : String → List String → Call
  unsubscribe : String → List String → Call
  unsubscribe_all : String → Call

unfoldable pub call : Subscriptions → Call → Subscriptions
unfolding add remove remove_strategy
call m (subscribe k symbols) = (add m k symbols).0
call m (unsubscribe k symbols) = (remove m k symbols).0
call m (unsubscribe_all k) = (remove_strategy m k).0

unfoldable pub run : Subscriptions → List Call → Subscriptions
unfolding call
run m [] = m
run m (c ∷ cs) = run (call m c) cs

call-IsValid : (m : Subscriptions) (c : Call) → IsValid m → IsValid (call m c)
unfolding call
call-IsValid m (subscribe k symbols) v = add-IsValid m k symbols v
call-IsValid m (unsubscribe k symbols) v = remove-IsValid m k symbols v
call-IsValid m (unsubscribe_all k) v = remove_strategy-IsValid m k v

run_from-IsValid : (m : Subscriptions) (cs : List Call) → IsValid m → IsValid (run m cs)
unfolding run
run_from-IsValid m [] v = v
run_from-IsValid m (c ∷ cs) v = run_from-IsValid (call m c) cs (call-IsValid m c v)

-- After any calls on a new manager: no strategy and no symbol has two entries, no set holds a
-- symbol twice, and a symbol's entry in the counts is the number of strategies whose set holds it,
-- with no entry where that number is zero.
pub run-IsValid : (cs : List Call) → IsValid (run empty cs)
run-IsValid cs = run_from-IsValid empty cs empty-IsValid

-- What `add` has done up to some point of its loop, to the symbol `s` of strategy `j`.
record Added (m m' : Subscriptions) (newly : List String) (s : String) : Type 0 where
  valid : IsValid m'
  kept : is_active m s ≡ true → is_active m' s ≡ true
  reported : Set.contains newly s ≡ (not (is_active m s) && is_active m' s)

add_symbol-Added :
    (k a : String) (m m' : Subscriptions) (newly : List String) (s : String)
    → Added m m' newly s
    → let (m'', newly') = add_symbol k a (m', newly) in Added m m'' newly' s
unfolding add_symbol
add_symbol-Added k a m m' newly s h = record {
  valid = add_symbol-IsValid k a m' newly h.valid;
  kept = ground (arith, h.kept, lookup-insert a s (ref_count m' a + 1) m'.ref_counts);
  reported = ground (
    arith,
    h.kept,
    h.reported,
    lookup-insert a s (ref_count m' a + 1) m'.ref_counts,
    Set.contains-add a s newly,
    ref_count_lem h.valid a,
    is_active_lem h.valid a,
    ==_iff a s,
  );
}

add_symbols-Added :
    (k : String) (symbols : List String) (m : Subscriptions) (acc : Subscriptions × List String)
    (s : String)
    → Added m acc.0 acc.1 s
    → let (m'', newly') = add_symbols k symbols acc in Added m m'' newly' s
unfolding add_symbols
add_symbols-Added k [] m acc s h = h
add_symbols-Added k (a ∷ symbols) m acc s h =
    add_symbols-Added k symbols m (add_symbol k a acc) s (add_symbol-Added k a m acc.0 acc.1 s h)

members-add_symbol :
    (k a : String) (acc : Subscriptions × List String) (j s : String)
    → Set.contains (get_strategy_symbols (add_symbol k a acc).0 j) s
      ≡ (Set.contains (get_strategy_symbols acc.0 j) s || (k == j && a == s))
unfolding add_symbol
members-add_symbol k a (m, newly) j s = ground (
  arith,
  lookup-insert k j (Set.add a (get_strategy_symbols m k)) m.strategy_symbols,
  Set.contains-add a s (get_strategy_symbols m k),
  ==_iff k j,
  ==_iff a s,
  Set.contains_transport (get_strategy_symbols m k) a s,
)

members-add_symbols :
    (k : String) (symbols : List String) (acc : Subscriptions × List String) (j s : String)
    → Set.contains (get_strategy_symbols (add_symbols k symbols acc).0 j) s
      ≡ (Set.contains (get_strategy_symbols acc.0 j) s || (k == j && Set.contains symbols s))
unfolding add_symbols
members-add_symbols k [] acc j s = ground arith
members-add_symbols k (a ∷ symbols) acc j s =
    ground (
      arith,
      members-add_symbols k symbols (add_symbol k a acc) j s,
      members-add_symbol k a acc j s,
    )

-- From a valid manager, `add` puts exactly the given symbols into the set of its strategy and
-- changes no other set, and it returns exactly the symbols that had no subscriber and now have one.
pub add_lem :
    (m : Subscriptions) (k : String) (symbols : List String) (j s : String)
    → IsValid m
    → let (m', newly) = add m k symbols in
      (Set.contains (get_strategy_symbols m' j) s
        ≡ (Set.contains (get_strategy_symbols m j) s || (k == j && Set.contains symbols s)))
      × (Set.contains newly s ≡ (not (is_active m s) && is_active m' s))
unfolding add
add_lem m k symbols j s v = (
  members-add_symbols k symbols (m, []) j s,
  (add_symbols-Added k symbols m (m, []) s
      (record { valid = v; kept = λ h. h; reported = ground arith })).reported,
)

remove_held_lem :
    (m : Subscriptions) (k : String) (symbols : List String) (found : Option (List String))
    (j s : String)
    → IsValid m
    → lookup k m.strategy_symbols ≡ found
    → let (m', gone) = remove_held m k symbols found in
      (Set.contains (get_strategy_symbols m' j) s ≡ (
        if k == j && Set.contains symbols s
        then false
        else Set.contains (get_strategy_symbols m j) s))
      × (Set.contains gone s ≡ (is_active m s && not (is_active m' s)))
unfolding remove_held
remove_held_lem m k symbols none j s v e = ground (arith, ==_iff k j)
remove_held_lem m k symbols (some found) j s v e =
    let l = remove_symbols symbols (found, (m.ref_counts, [])) in
    (
      ground (
        arith,
        lookup-store_set k j l.0 m,
        contains-remove_symbols symbols (found, (m.ref_counts, [])) s,
        ==_iff k j,
      ),
      (remove_symbols-IsDraining (others m k) m.ref_counts symbols (found, (m.ref_counts, []))
            (rw (ap set_or_empty e) at (start-IsDraining m k v))).reported
          s,
    )

-- From a valid manager, `remove` takes exactly the given symbols out of the set of its strategy and
-- changes no other set, and it returns exactly the symbols that had a subscriber and now have none.
pub remove_lem :
    (m : Subscriptions) (k : String) (symbols : List String) (j s : String)
    → IsValid m
    → let (m', gone) = remove m k symbols in
      (Set.contains (get_strategy_symbols m' j) s ≡ (
        if k == j && Set.contains symbols s
        then false
        else Set.contains (get_strategy_symbols m j) s))
      × (Set.contains gone s ≡ (is_active m s && not (is_active m' s)))
unfolding remove
remove_lem m k symbols j s v = remove_held_lem m k symbols (lookup k m.strategy_symbols) j s v refl

-- From a valid manager, `remove_strategy` empties the set of its strategy and changes no other set,
-- and it returns exactly the symbols that had a subscriber and now have none.
pub remove_strategy_lem :
    (m : Subscriptions) (k j s : String)
    → IsValid m
    → let (m', gone) = remove_strategy m k in
      (get_strategy_symbols m' j ≡ (if k == j then [] else get_strategy_symbols m j))
      × (Set.contains gone s ≡ (is_active m s && not (is_active m' s)))
unfolding remove_strategy
remove_strategy_lem m k j s v = (
  ground (arith, lookup-erase k j m.strategy_symbols),
  (drop_refs-IsDraining (others m k) m.ref_counts (get_strategy_symbols m k) m.ref_counts []
        (v.distinct k) (start-IsDraining m k v)).reported
      s,
)
