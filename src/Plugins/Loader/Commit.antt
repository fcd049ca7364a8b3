-- ===== src/Plugins/Loader/Commit.antt =====
-- What a commit writes into the registry and the registrar.
use bt_api_base.Prelude.{
  String, ◌≡◌, refl, sym, ◌∙◌, ap, inl, inr, Option, none, some, List, [], ◌∷◌, arith, string_key,
  if◌then◌else◌, ◌==◌, ==_iff, ==_self, Bool-cases,
}
use bt_api_base.Prelude.Dict.{Dict, keys, lookup, lookup-insert, contains-keys}
use bt_api_base.Prelude.Set
use bt_api_base.Plugins.Registry.{
  ExchangeRegistry, register_feed, register_exchange_data, register_balance_handler,
  register_stream, get_feed_class, get_exchange_data_class, get_balance_handler, get_stream_classes,
  list_exchanges,
}
use bt_api_base.Plugins.Adapters.{Adapters, register_adapter, keep_first}
use bt_api_base.Plugins.Loader.{
  put, put_streams, commit_exchange, commit_exchanges, commit_registry, commit_runtime,
}

module _ {C : Type 0} where
  put_streams-feed_classes :
      (name : String) (streams : Dict String C) (r : ExchangeRegistry C)
      → (put_streams name streams r).feed_classes ≡ r.feed_classes
  put_streams-feed_classes name [] r = refl
  put_streams-feed_classes name ((stream_type, c) ∷ streams) r =
      put_streams-feed_classes name streams (register_stream name stream_type c r)
      ∙ (unfold register_stream in refl)

  put_data-feed_classes :
      (name : String) (o : Option C) (r : ExchangeRegistry C)
      → (put (register_exchange_data name) o r).feed_classes ≡ r.feed_classes
  unfolding register_exchange_data
  put_data-feed_classes name none r = refl
  put_data-feed_classes name (some c) r = refl

  put_handler-feed_classes :
      (name : String) (o : Option C) (r : ExchangeRegistry C)
      → (put (register_balance_handler name) o r).feed_classes ≡ r.feed_classes
  unfolding register_balance_handler
  put_handler-feed_classes name none r = refl
  put_handler-feed_classes name (some c) r = refl

  -- The feed of a name, once a feed or none has been put under another.
  abbrev pub put_at : String → String → Option C → Option C → Option C
  put_at name j none old = old
  put_at name j (some c) old = if name == j then some c else old

  put_feed-lookup :
      (name j : String) (o : Option C) (r : ExchangeRegistry C)
      → lookup j (put (register_feed name) o r).feed_classes
        ≡ put_at name j o (lookup j r.feed_classes)
  unfolding register_feed
  put_feed-lookup name j none r = refl
  put_feed-lookup name j (some c) r = lookup-insert name j c r.feed_classes

  commit_exchange-lookup :
      (isolated r : ExchangeRegistry C) (name j : String)
      → lookup j (commit_exchange isolated name r).feed_classes
        ≡ put_at name j (lookup name isolated.feed_classes) (lookup j r.feed_classes)
  unfolding commit_exchange get_feed_class
  commit_exchange-lookup isolated r name j =
      ap (lookup j) (
        put_streams-feed_classes name (get_stream_classes isolated name) _
        ∙ put_handler-feed_classes name (get_balance_handler isolated name) _
        ∙ put_data-feed_classes name (get_exchange_data_class isolated name) _)
      ∙ put_feed-lookup name j (lookup name isolated.feed_classes) r

  -- The feed of `j` after a commit of the given names.
  commit_exchanges-lookup :
      (isolated : ExchangeRegistry C) (names : List String) (r : ExchangeRegistry C) (j : String)
      → lookup j (commit_exchanges isolated names r).feed_classes ≡ (
          if Set.contains names j
          then put_at j j (lookup j isolated.feed_classes) (lookup j r.feed_classes)
          else lookup j r.feed_classes)
  unfolding commit_exchanges
  commit_exchanges-lookup isolated [] r j = refl
  commit_exchanges-lookup isolated (name ∷ names) r j =
      commit_exchanges-lookup isolated names (commit_exchange isolated name r) j
      ∙ step (lookup j isolated.feed_classes) (lookup name isolated.feed_classes) refl refl
    where
      step :
          (o n : Option C)
          → lookup j isolated.feed_classes ≡ o
          → lookup name isolated.feed_classes ≡ n
          → (if Set.contains names j
              then put_at j j
                  (lookup j isolated.feed_classes)
                  (lookup j (commit_exchange isolated name r).feed_classes)
              else lookup j (commit_exchange isolated name r).feed_classes)
            ≡ (if Set.contains (name ∷ names) j
                then put_at j j (lookup j isolated.feed_classes) (lookup j r.feed_classes)
                else lookup j r.feed_classes)
      step o n e f =
          rw (commit_exchange-lookup isolated r name j)
            (ground (arith, e, f, ==_iff name j, ==_iff j j))

  -- A commit of a plugin's registry: its feeds win.
  abbrev pub over : Option C → Option C → Option C
  over none old = old
  over (some c) old = some c

  pub commit_registry-lookup :
      (isolated r : ExchangeRegistry C) (j : String)
      → lookup j (commit_registry isolated r).feed_classes
        ≡ over (lookup j isolated.feed_classes) (lookup j r.feed_classes)
  unfolding commit_registry list_exchanges
  commit_registry-lookup isolated r j =
      commit_exchanges-lookup isolated (keys isolated.feed_classes) r j
      ∙ by_cases (lookup j isolated.feed_classes) refl
    where
      by_cases :
          (o : Option C)
          → lookup j isolated.feed_classes ≡ o
          → (if Set.contains (keys isolated.feed_classes) j
              then put_at j j (lookup j isolated.feed_classes) (lookup j r.feed_classes)
              else lookup j r.feed_classes)
            ≡ over (lookup j isolated.feed_classes) (lookup j r.feed_classes)
      by_cases none e = ground (arith, e, contains-keys isolated.feed_classes j)
      by_cases (some c) e = ground (arith, e, contains-keys isolated.feed_classes j, ==_self j)

  keep_first-lookup :
      (d : Adapters C) (name j : String) (c a : C) (o : Option C)
      → lookup name d ≡ o
      → lookup j d ≡ some a
      → lookup j (keep_first d name c o) ≡ some a
  keep_first-lookup d name j c a (some existing) e h = h
  keep_first-lookup d name j c a none e h = elim (Bool-cases (name == j)) [
    | inl same ↦ absurd (missing (ap (λ i. lookup i d) (sym ((==_iff name j).0 same)) ∙ e))
    | inr other ↦ rw (lookup-insert name j c d, other) h
  ]
    where
      missing : lookup j d ≡ none → ⊥
      missing m = ground (arith, m, h)

  -- An adapter that is registered stays, whatever a commit adds.
  pub commit_runtime-lookup :
      (normalize : String → String) (isolated d : Adapters C) (j : String) (a : C)
      → lookup j d ≡ some a
      → lookup j (commit_runtime normalize isolated d) ≡ some a
  unfolding commit_runtime register_adapter
  commit_runtime-lookup normalize [] d j a h = h
  commit_runtime-lookup normalize ((name, c) ∷ isolated) d j a h =
      commit_runtime-lookup normalize isolated
        (keep_first d (normalize name) c (lookup (normalize name) d)) j a
        (keep_first-lookup d (normalize name) j c a (lookup (normalize name) d) refl h)
