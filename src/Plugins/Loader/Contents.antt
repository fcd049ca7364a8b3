-- ===== src/Plugins/Loader/Contents.antt =====
-- What a commit of plugins/loader.py leaves under each name, field by field.
use bt_api_base.Prelude.{
  String, ◌≡◌, refl, sym, ◌∙◌, ap, inl, inr, Bool, true, false, Option, none, some, List, [], ◌∷◌,
  arith, string_key, if◌then◌else◌, ◌==◌, ==_iff, Bool-cases,
}
use bt_api_base.Prelude.Dict.{Dict, keys, lookup, has, lookup-insert, contains-keys}
use bt_api_base.Prelude.Set
use bt_api_base.Plugins.Registry.{
  ExchangeRegistry, register_feed, register_exchange_data, register_balance_handler,
  register_stream, get_feed_class, get_exchange_data_class, get_balance_handler, get_stream_classes,
  get_stream_class, dict_or_empty, list_exchanges,
}
use bt_api_base.Plugins.Adapters.{Adapters, register_adapter, keep_first}
use bt_api_base.Plugins.Loader.{
  put, put_streams, commit_exchange, commit_exchanges, commit_registry, commit_runtime,
}
use bt_api_base.Plugins.Loader.Commit.{over}

module _ {C : Type 0} where
  over_assoc : (a b c : Option C) → over (over a b) c ≡ over a (over b c)
  over_assoc none b c = refl
  over_assoc (some x) b c = refl

  over-none : (a : Option C) → over a none ≡ a
  over-none none = refl
  over-none (some x) = refl

  over_twice : (a b : Option C) → over a (over a b) ≡ over a b
  over_twice none b = refl
  over_twice (some x) b = refl

  abbrev if_named : String → String → C → Option C
  if_named name j c = if name == j then some c else none

  -- `o` wins under `name`; every other name keeps what it had.
  abbrev pub wins_at : String → String → Option C → Option C → Option C
  wins_at name j o old = if name == j then over o old else old

  wins_at_twice :
      (name j : String) (a b old : Option C)
      → wins_at name j a (wins_at name j b old) ≡ wins_at name j (over a b) old
  wins_at_twice name j a b old = elim (Bool-cases (name == j)) [
    | inl same ↦ rw same (sym (over_assoc a b old))
    | inr other ↦ rw other refl
  ]

  -- The last entry of a name.
  abbrev pub last_named : String → Dict String C → Option C
  last_named t [] = none
  last_named t ((k, c) ∷ d) = over (last_named t d) (if_named k t c)

  -- The first entry that is registered under a name.
  abbrev pub first_named : (String → String) → String → Adapters C → Option C
  first_named normalize j [] = none
  first_named normalize j ((k, c) ∷ d) =
      over (if_named (normalize k) j c) (first_named normalize j d)

  put_feed-same :
      (name : String) (o : Option C) (r : ExchangeRegistry C)
      → ((put (register_feed name) o r).exchange_data_classes ≡ r.exchange_data_classes)
        × ((put (register_feed name) o r).balance_handlers ≡ r.balance_handlers)
        × ((put (register_feed name) o r).stream_classes ≡ r.stream_classes)
  unfolding register_feed
  put_feed-same name none r = (refl, refl, refl)
  put_feed-same name (some c) r = (refl, refl, refl)

  put_data-same :
      (name : String) (o : Option C) (r : ExchangeRegistry C)
      → ((put (register_exchange_data name) o r).balance_handlers ≡ r.balance_handlers)
        × ((put (register_exchange_data name) o r).stream_classes ≡ r.stream_classes)
  unfolding register_exchange_data
  put_data-same name none r = (refl, refl)
  put_data-same name (some c) r = (refl, refl)

  put_handler-same :
      (name : String) (o : Option C) (r : ExchangeRegistry C)
      → ((put (register_balance_handler name) o r).exchange_data_classes ≡ r.exchange_data_classes)
        × ((put (register_balance_handler name) o r).stream_classes ≡ r.stream_classes)
  unfolding register_balance_handler
  put_handler-same name none r = (refl, refl)
  put_handler-same name (some c) r = (refl, refl)

  put_streams-same :
      (name : String) (streams : Dict String C) (r : ExchangeRegistry C)
      → ((put_streams name streams r).exchange_data_classes ≡ r.exchange_data_classes)
        × ((put_streams name streams r).balance_handlers ≡ r.balance_handlers)
  put_streams-same name [] r = (refl, refl)
  put_streams-same name ((t, c) ∷ streams) r =
      let (d, b) = put_streams-same name streams (register_stream name t c r) in
      (d ∙ (unfold register_stream in refl), b ∙ (unfold register_stream in refl))

  put_data-lookup :
      (name j : String) (o : Option C) (r : ExchangeRegistry C)
      → lookup j (put (register_exchange_data name) o r).exchange_data_classes
        ≡ wins_at name j o (lookup j r.exchange_data_classes)
  unfolding register_exchange_data
  put_data-lookup name j none r = ground arith
  put_data-lookup name j (some c) r = lookup-insert name j c r.exchange_data_classes

  put_handler-lookup :
      (name j : String) (o : Option C) (r : ExchangeRegistry C)
      → lookup j (put (register_balance_handler name) o r).balance_handlers
        ≡ wins_at name j o (lookup j r.balance_handlers)
  unfolding register_balance_handler
  put_handler-lookup name j none r = ground arith
  put_handler-lookup name j (some c) r = lookup-insert name j c r.balance_handlers

  register_stream-lookup :
      (name t j u : String) (c : C) (r : ExchangeRegistry C)
      → get_stream_class (register_stream name t c r) j u
        ≡ wins_at name j (if_named t u c) (get_stream_class r j u)
  unfolding register_stream get_stream_class
  register_stream-lookup name t j u c r = elim (Bool-cases (name == j)) [
    | inl same ↦
        rw (lookup-insert name j _ r.stream_classes, same)
          (lookup-insert t u c (dict_or_empty (lookup name r.stream_classes))
            ∙ here (t == u)
            ∙ ap (λ k. over (if_named t u c) (lookup u (dict_or_empty (lookup k r.stream_classes))))
                ((==_iff name j).0 same))
    | inr other ↦ rw (lookup-insert name j _ r.stream_classes, other) refl
  ]
    where
      here :
          (b : Bool)
          → (if b then some c else lookup u (dict_or_empty (lookup name r.stream_classes)))
            ≡ over
                (if b then some c else none)
                (lookup u (dict_or_empty (lookup name r.stream_classes)))
      here true = refl
      here false = refl

  put_streams-lookup :
      (name j u : String) (streams : Dict String C) (r : ExchangeRegistry C)
      → get_stream_class (put_streams name streams r) j u
        ≡ wins_at name j (last_named u streams) (get_stream_class r j u)
  put_streams-lookup name j u [] r = ground arith
  put_streams-lookup name j u ((t, c) ∷ streams) r =
      put_streams-lookup name j u streams (register_stream name t c r)
      ∙ ap (wins_at name j (last_named u streams)) (register_stream-lookup name t j u c r)
      ∙ wins_at_twice name j (last_named u streams) (if_named t u c) (get_stream_class r j u)

  module _ (isolated : ExchangeRegistry C) (view : ExchangeRegistry C → String → Option C)
      (brought : String → Option C)
      (each : (name j : String) (r : ExchangeRegistry C)
        → view (commit_exchange isolated name r) j ≡ wins_at name j (brought name) (view r j)) where
    commit_exchanges-view :
        (names : List String) (r : ExchangeRegistry C) (j : String)
        → view (commit_exchanges isolated names r) j
          ≡ (if Set.contains names j then over (brought j) (view r j) else view r j)
    unfolding commit_exchanges
    commit_exchanges-view [] r j = refl
    commit_exchanges-view (name ∷ names) r j =
        commit_exchanges-view names (commit_exchange isolated name r) j
        ∙ ap (λ (o : Option C). if Set.contains names j then over (brought j) o else o)
            (each name j r)
        ∙ by_name
      where
        by_name :
            (if Set.contains names j
              then over (brought j) (wins_at name j (brought name) (view r j))
              else wins_at name j (brought name) (view r j))
            ≡ (if Set.contains (name ∷ names) j then over (brought j) (view r j) else view r j)
        by_name = elim (Bool-cases (name == j)) [
          | inl same ↦
              rw (same, ap brought ((==_iff name j).0 same))
                (elim (Bool-cases (Set.contains names j)) [
                  | inl again ↦ rw again (over_twice (brought j) (view r j))
                  | inr once ↦ rw once refl
                ])
          | inr other ↦ rw other refl
        ]

    -- Only the exchanges with a feed are committed.
    commit_registry-view :
        (r : ExchangeRegistry C) (j : String)
        → view (commit_registry isolated r) j
          ≡ (if has j isolated.feed_classes then over (brought j) (view r j) else view r j)
    unfolding commit_registry list_exchanges
    commit_registry-view r j =
        commit_exchanges-view (keys isolated.feed_classes) r j
        ∙ ap (λ b. if b then over (brought j) (view r j) else view r j)
            (contains-keys isolated.feed_classes j)

  pub commit_registry-data :
      (isolated r : ExchangeRegistry C) (j : String)
      → lookup j (commit_registry isolated r).exchange_data_classes ≡ (
          if has j isolated.feed_classes
          then over (lookup j isolated.exchange_data_classes) (lookup j r.exchange_data_classes)
          else lookup j r.exchange_data_classes)
  commit_registry-data isolated =
      commit_registry-view isolated (λ r j. lookup j r.exchange_data_classes)
        (λ name. lookup name isolated.exchange_data_classes) each
    where
      each :
          (name j : String) (r : ExchangeRegistry C)
          → lookup j (commit_exchange isolated name r).exchange_data_classes
            ≡ wins_at name j
                (lookup name isolated.exchange_data_classes)
                (lookup j r.exchange_data_classes)
      each name j r =
          unfold commit_exchange get_exchange_data_class in
          (ap (lookup j) (
              (put_streams-same name (get_stream_classes isolated name) _).0
              ∙ (put_handler-same name (get_balance_handler isolated name) _).0)
            ∙ put_data-lookup name j (lookup name isolated.exchange_data_classes) _
            ∙ ap (λ d. wins_at name j (lookup name isolated.exchange_data_classes) (lookup j d))
                (put_feed-same name (get_feed_class isolated name) r).0)

  pub commit_registry-handler :
      (isolated r : ExchangeRegistry C) (j : String)
      → lookup j (commit_registry isolated r).balance_handlers ≡ (
          if has j isolated.feed_classes
          then over (lookup j isolated.balance_handlers) (lookup j r.balance_handlers)
          else lookup j r.balance_handlers)
  commit_registry-handler isolated =
      commit_registry-view isolated (λ r j. lookup j r.balance_handlers)
        (λ name. lookup name isolated.balance_handlers) each
    where
      each :
          (name j : String) (r : ExchangeRegistry C)
          → lookup j (commit_exchange isolated name r).balance_handlers
            ≡ wins_at name j (lookup name isolated.balance_handlers) (lookup j r.balance_handlers)
      each name j r =
          unfold commit_exchange get_balance_handler in
          (ap (lookup j) (put_streams-same name (get_stream_classes isolated name) _).1
            ∙ put_handler-lookup name j (lookup name isolated.balance_handlers) _
            ∙ ap (λ d. wins_at name j (lookup name isolated.balance_handlers) (lookup j d))
                ((put_data-same name (get_exchange_data_class isolated name) _).0
                  ∙ (put_feed-same name (get_feed_class isolated name) r).1))

  pub commit_registry-stream :
      (isolated : ExchangeRegistry C) (u : String) (r : ExchangeRegistry C) (j : String)
      → get_stream_class (commit_registry isolated r) j u ≡ (
          if has j isolated.feed_classes
          then over (last_named u (get_stream_classes isolated j)) (get_stream_class r j u)
          else get_stream_class r j u)
  commit_registry-stream isolated u =
      commit_registry-view isolated (λ r j. get_stream_class r j u)
        (λ name. last_named u (get_stream_classes isolated name)) each
    where
      each :
          (name j : String) (r : ExchangeRegistry C)
          → get_stream_class (commit_exchange isolated name r) j u
            ≡ wins_at name j
                (last_named u (get_stream_classes isolated name))
                (get_stream_class r j u)
      each name j r =
          unfold commit_exchange get_stream_class in
          (put_streams-lookup name j u (get_stream_classes isolated name) _
            ∙ ap
                (λ d.
                  wins_at name j (last_named u (get_stream_classes isolated name))
                    (lookup u (dict_or_empty (lookup j d))))
                ((put_handler-same name (get_balance_handler isolated name) _).1
                  ∙ (put_data-same name (get_exchange_data_class isolated name) _).1
                  ∙ (put_feed-same name (get_feed_class isolated name) r).2))

  pub keep_first-over :
      (d : Adapters C) (name j : String) (c : C) (o : Option C)
      → lookup name d ≡ o
      → lookup j (keep_first d name c o) ≡ over (lookup j d) (if_named name j c)
  keep_first-over d name j c none e = elim (Bool-cases (name == j)) [
    | inl same ↦
        let free : lookup j d ≡ none = ap (λ k. lookup k d) (sym ((==_iff name j).0 same)) ∙ e in
        rw (lookup-insert name j c d, same, free) refl
    | inr other ↦ rw (lookup-insert name j c d, other) (sym (over-none (lookup j d)))
  ]
  keep_first-over d name j c (some existing) e = elim (Bool-cases (name == j)) [
    | inl same ↦
        let taken : lookup j d ≡ some existing =
          ap (λ k. lookup k d) (sym ((==_iff name j).0 same)) ∙ e in
        rw taken refl
    | inr other ↦ rw other (sym (over-none (lookup j d)))
  ]

  -- An adapter that is there stays, and else the first of its name is registered.
  pub commit_runtime-over :
      (normalize : String → String) (isolated d : Adapters C) (j : String)
      → lookup j (commit_runtime normalize isolated d)
        ≡ over (lookup j d) (first_named normalize j isolated)
  unfolding commit_runtime register_adapter
  commit_runtime-over normalize [] d j = sym (over-none (lookup j d))
  commit_runtime-over normalize ((name, c) ∷ isolated) d j =
      commit_runtime-over normalize isolated
        (keep_first d (normalize name) c (lookup (normalize name) d)) j
      ∙ ap (λ o. over o (first_named normalize j isolated))
          (keep_first-over d (normalize name) j c (lookup (normalize name) d) refl)
      ∙ over_assoc (lookup j d) (if_named (normalize name) j c) (first_named normalize j isolated)
