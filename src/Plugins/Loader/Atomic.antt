-- ===== src/Plugins/Loader/Atomic.antt =====
-- Loading one plugin commits all it brings, or nothing.
use mathlib.Core.Bool.{false≢true}
use bt_api_base.Prelude.{
  String, ◌≡◌, refl, sym, ◌∙◌, ap, inl, inr, ◌⊎◌, Bool, true, false, ◌||◌, Option, none, some, List,
  [], ◌∷◌, string_key, ◌==◌, Bool-cases, Option-cases, null, select, All, ◌&&◌, if◌then◌else◌,
}
use bt_api_base.Prelude.Dict.{Dict, lookup, has, keys, insert}
use bt_api_base.Plugins.Registry.{
  ExchangeRegistry, get_feed_class, get_stream_class, get_stream_classes, has_exchange,
}
use bt_api_base.Plugins.Adapters.{Adapters, get_adapter, list_adapters}
use bt_api_base.Plugins.Loader.{
  PluginInfo, Failure, optional_dependency, import_error, registration, version_mismatch,
  other_error, registers, invalid_metadata, raises, Loading, fails, loads, EntryPoint, PluginLoader,
  with_module, check_core_compatibility, check_duplicate_registration, record_failure, commit,
  commit_registry, is_some, register_plugin, load_entry, load_one,
}
use bt_api_base.Plugins.Loader.Commit.{over, commit_registry-lookup}
use bt_api_base.Plugins.Loader.Contents.{
  last_named, first_named, commit_registry-data, commit_registry-handler, commit_registry-stream,
  commit_runtime-over, keep_first-over,
}
use mathlib.Core.Path.{subst}

pub same_exchanges :
    (entry_module : String) (info : PluginInfo)
    → (with_module entry_module info).supported_exchanges ≡ info.supported_exchanges
same_exchanges entry_module info = elim (Bool-cases (info.plugin_module == "")) [
  | inl e ↦ rw e refl
  | inr e ↦ rw e refl
]

same_requires :
    (entry_module : String) (info : PluginInfo)
    → (with_module entry_module info).core_requires ≡ info.core_requires
same_requires entry_module info = elim (Bool-cases (info.plugin_module == "")) [
  | inl e ↦ rw e refl
  | inr e ↦ rw e refl
]

same_name :
    (entry_module : String) (info : PluginInfo) → (with_module entry_module info).name ≡ info.name
same_name entry_module info = elim (Bool-cases (info.plugin_module == "")) [
  | inl e ↦ rw e refl
  | inr e ↦ rw e refl
]

All-null :
    (test : String → Bool) (P : String → Type 0)
    → ((j : String) → test j ≡ false → P j)
    → (names : List String) → null (select test names) ≡ true
    → All P names
All-null test P f [] h = tt
All-null test P f (name ∷ names) h = elim (Bool-cases (test name)) [
  | inl bad ↦ absurd (false≢true (rw bad at h))
  | inr good ↦ (f name good, All-null test P f names (rw good at h))
]

core_met :
    (accepts : String → Option Bool) (info : PluginInfo) (o : Option Bool)
    → accepts info.core_requires ≡ o
    → check_core_compatibility accepts info ≡ none
    → o ≡ some true
core_met accepts info none e h = cc (rw (check_core_compatibility, e) at h)
core_met accepts info (some true) e h = refl
core_met accepts info (some false) e h = cc (rw (check_core_compatibility, e) at h)

loaded_lookup :
    (d : Dict String PluginInfo) (name k : String) (info : PluginInfo)
    → lookup k (if has name d then d else insert name info d)
      ≡ over (lookup k d) (if name == k then some info else none)
loaded_lookup d name k info = elim (Option-cases (lookup name d)) [
  | inl e ↦ rw (has, e) (keep_first-over d name k info none e)
  | inr (old, e) ↦ rw (has, e) (keep_first-over d name k info (some old) e)
]

module _ {C : Type 0} where
  -- What the registry has for exchange `j` after a plugin with these registrations: where the plugin
  -- registered a feed of it, the plugin's feed, and its data, handler and streams, where it has one,
  -- win over those that were there; else nothing changes.
  abbrev pub Brings : ExchangeRegistry C → ExchangeRegistry C → ExchangeRegistry C → String → Type 0
  Brings isolated r r' j =
      (get_feed_class r' j ≡ over (lookup j isolated.feed_classes) (get_feed_class r j))
      × (lookup j r'.exchange_data_classes ≡ (
          if has j isolated.feed_classes
          then over (lookup j isolated.exchange_data_classes) (lookup j r.exchange_data_classes)
          else lookup j r.exchange_data_classes))
      × (lookup j r'.balance_handlers ≡ (
          if has j isolated.feed_classes
          then over (lookup j isolated.balance_handlers) (lookup j r.balance_handlers)
          else lookup j r.balance_handlers))
      × ((u : String)
          → get_stream_class r' j u ≡ (
              if has j isolated.feed_classes
              then over (last_named u (get_stream_classes isolated j)) (get_stream_class r j u)
              else get_stream_class r j u))

  commit-Brings :
      (isolated r : ExchangeRegistry C) (j : String)
      → Brings isolated r (commit_registry isolated r) j
  unfolding get_feed_class
  commit-Brings isolated r j = (
    commit_registry-lookup isolated r j,
    commit_registry-data isolated r j,
    commit_registry-handler isolated r j,
    λ u. commit_registry-stream isolated u r j,
  )

module _ {C : Type 0} (normalize : String → String) (accepts : String → Option Bool) where
  -- Nothing is registered: the registry, the adapters and the loaded plugins are as before.
  abbrev pub Unregistered : PluginLoader C → PluginLoader C → Type 0
  Unregistered l l' =
      (l'.registry ≡ l.registry)
      × (l'.runtime_registrar ≡ l.runtime_registrar)
      × (l'.loaded ≡ l.loaded)

  -- The commits of a plugin are made, after both checks passed.
  abbrev pub Commits : EntryPoint C → PluginLoader C → PluginLoader C → Type 0
  Commits entry l l' =
      (info : PluginInfo) × (isolated : ExchangeRegistry C) × (adapters : Adapters C)
      × (entry.loading ≡ loads (registers info isolated adapters))
      × (check_core_compatibility accepts (with_module entry.entry_module info) ≡ none)
      × (check_duplicate_registration normalize accepts l (with_module entry.entry_module info)
            adapters
          ≡ none)
      × (l' ≡ commit normalize accepts (with_module entry.entry_module info) isolated adapters l)

  record_failure-Unregistered :
      (key : String) (f : Failure) (l : PluginLoader C)
      → Unregistered l (record_failure normalize accepts key f l)
  record_failure-Unregistered key optional_dependency l = (refl, refl, refl)
  record_failure-Unregistered key import_error l = (refl, refl, refl)
  record_failure-Unregistered key registration l = (refl, refl, refl)
  record_failure-Unregistered key version_mismatch l = (refl, refl, refl)
  record_failure-Unregistered key other_error l = (refl, refl, refl)

  load_entry-atomic :
      (entry : EntryPoint C) (loading : Loading C) (l : PluginLoader C)
      → entry.loading ≡ loading
      → Unregistered l (load_entry normalize accepts entry loading l)
        ⊎ Commits entry l (load_entry normalize accepts entry loading l)
  unfolding register_plugin
  load_entry-atomic entry (fails f) l e = inl (record_failure-Unregistered entry.entry_name f l)
  load_entry-atomic entry (loads (raises f)) l e =
      inl (record_failure-Unregistered entry.entry_name f l)
  load_entry-atomic entry (loads invalid_metadata) l e = inl (refl, refl, refl)
  load_entry-atomic entry (loads (registers info isolated adapters)) l e =
      elim (Option-cases (check_core_compatibility accepts named)) [
        | inr (f, c) ↦ rw c (inl (record_failure-Unregistered named.name f l))
        | inl c ↦
            elim (Option-cases (check_duplicate_registration normalize accepts l named adapters)) [
              | inr (f, d) ↦ rw (c, d) (inl (record_failure-Unregistered named.name f l))
              | inl d ↦ rw (c, d) (inr (info, isolated, adapters, e, c, d, refl))
            ]
      ]
    where
      named : PluginInfo
      named = with_module entry.entry_module info

  pub load_one-Commits :
      (entry : EntryPoint C) (l : PluginLoader C)
      → Unregistered l (load_one normalize accepts entry l)
        ⊎ Commits entry l (load_one normalize accepts entry l)
  unfolding load_one
  load_one-Commits entry l =
      elim (Bool-cases (has entry.entry_name l.failed || has entry.entry_name l.loaded)) [
        | inl known ↦ rw known (inl (refl, refl, refl))
        | inr fresh ↦ rw fresh (load_entry-atomic entry entry.loading l refl)
      ]

  -- The core meets the plugin's requirement, no exchange that the metadata name and no adapter of the
  -- plugin is registered yet, and then each exchange and each adapter has what the plugin brings.
  abbrev pub Committed : EntryPoint C → PluginLoader C → PluginLoader C → Type 0
  Committed entry l l' =
      (info : PluginInfo) × (isolated : ExchangeRegistry C) × (adapters : Adapters C)
      × (entry.loading ≡ loads (registers info isolated adapters))
      × (accepts info.core_requires ≡ some true)
      × All (λ j. has_exchange l.registry j ≡ false) info.supported_exchanges
      × All (λ n. get_adapter normalize l.runtime_registrar n ≡ none) (keys adapters)
      × ((j : String) → Brings isolated l.registry l'.registry j)
      × ((n : String)
          → lookup n l'.runtime_registrar
            ≡ over (lookup n l.runtime_registrar) (first_named normalize n adapters))
      × (l'.failed ≡ l.failed)
      × (l'.skipped ≡ l.skipped)
      × ((k : String)
          → lookup k l'.loaded
            ≡ over (lookup k l.loaded)
                (if info.name == k then some (with_module entry.entry_module info) else none))

  both_free :
      (l : PluginLoader C) (info : PluginInfo) (adapters : Adapters C)
      → check_duplicate_registration normalize accepts l info adapters ≡ none
      → (null (select (has_exchange l.registry) info.supported_exchanges) ≡ true)
        × (null
              (select (λ n. is_some (get_adapter normalize l.runtime_registrar n)) (keys adapters))
            ≡ true)
  unfolding check_duplicate_registration list_adapters
  both_free l info adapters h =
      passes (null (select (has_exchange l.registry) info.supported_exchanges))
        (null (select (λ n. is_some (get_adapter normalize l.runtime_registrar n)) (keys adapters)))
        h
    where
      passes :
          (a b : Bool)
          → (if a && b then none else some registration) ≡ none
          → (a ≡ true) × (b ≡ true)
      passes true true h = (refl, refl)
      passes true false h = cc
      passes false b h = cc

  no_adapter : (o : Option C) → is_some o ≡ false → o ≡ none
  no_adapter none h = refl
  no_adapter (some c) h = cc

  Commits-Committed :
      (entry : EntryPoint C) (l l' : PluginLoader C) → Commits entry l l' → Committed entry l l'
  Commits-Committed entry l l' (info, isolated, adapters, e, core, dup, same) = (
    info,
    isolated,
    adapters,
    e,
    ap accepts (sym (same_requires entry.entry_module info))
        ∙ core_met accepts (with_module entry.entry_module info) _ refl core,
    subst (All (λ j. has_exchange l.registry j ≡ false)) (same_exchanges entry.entry_module info) (
        All-null (has_exchange l.registry) (λ j. has_exchange l.registry j ≡ false) (λ j f. f)
          (with_module entry.entry_module info).supported_exchanges
          (both_free l (with_module entry.entry_module info) adapters dup).0),
    All-null (λ n. is_some (get_adapter normalize l.runtime_registrar n))
        (λ n. get_adapter normalize l.runtime_registrar n ≡ none)
        (λ n. no_adapter (get_adapter normalize l.runtime_registrar n)) (keys adapters)
        (both_free l (with_module entry.entry_module info) adapters dup).1,
    subst (λ (x : PluginLoader C). (j : String) → Brings isolated l.registry x.registry j)
        (sym same) (commit-Brings isolated l.registry),
    subst
        (λ (x : PluginLoader C).
          (n : String)
          → lookup n x.runtime_registrar
            ≡ over (lookup n l.runtime_registrar) (first_named normalize n adapters))
        (sym same) (commit_runtime-over normalize adapters l.runtime_registrar),
    ap (λ (x : PluginLoader C). x.failed) same,
    ap (λ (x : PluginLoader C). x.skipped) same,
    subst
        (λ (x : PluginLoader C).
          (k : String)
          → lookup k x.loaded
            ≡ over (lookup k l.loaded)
                (if info.name == k then some (with_module entry.entry_module info) else none))
        (sym same)
        (λ k.
          subst
            (λ name.
              lookup k (
                if has (with_module entry.entry_module info).name l.loaded
                then l.loaded
                else insert (with_module entry.entry_module info).name
                    (with_module entry.entry_module info) l.loaded)
              ≡ over (lookup k l.loaded)
                  (if name == k then some (with_module entry.entry_module info) else none))
            (same_name entry.entry_module info)
            (loaded_lookup l.loaded (with_module entry.entry_module info).name k
              (with_module entry.entry_module info))),
  )

  -- Loading a plugin is atomic. It leaves the registry, the adapters and the loaded plugins as they
  -- were; or the core meets the plugin's requirement, and no exchange that its metadata name and no
  -- adapter of it was registered: then the registry has, of each exchange that the plugin registered a
  -- feed of, the plugin's feed, exchange data, balance handler and streams, where the plugin has them,
  -- and of every other exchange and for all else what it had; the plugin's adapters stand beside those
  -- that were there, its metadata stand under its name, unless there were some, and no failure is
  -- recorded.
  pub load_one_atomic :
      (entry : EntryPoint C) (l : PluginLoader C)
      → Unregistered l (load_one normalize accepts entry l)
        ⊎ Committed entry l (load_one normalize accepts entry l)
  load_one_atomic entry l = elim (load_one-Commits entry l) [
    | inl none_made ↦ inl none_made
    | inr made ↦ inr (Commits-Committed entry l (load_one normalize accepts entry l) made)
  ]
