-- ===== src/Plugins/Loader/Safety.antt =====
-- What loading plugins leaves of the registry.
use mathlib.Core.Bool.{false≢true}
use bt_api_base.Prelude.{
  String, ◌≡◌, refl, sym, ◌∙◌, ap, inl, inr, Bool, true, false, ◌||◌, Option, none, some, List, [],
  ◌∷◌, string_key, ◌==◌, ==_iff, ==_self, Bool-cases, null, select, All,
}
use bt_api_base.Prelude.Dict.{lookup, has}
use bt_api_base.Prelude.Set
use bt_api_base.Plugins.Registry.{
  ExchangeRegistry, get_feed_class, has_exchange, create_isolated, register_feed,
}
use bt_api_base.Plugins.Adapters.{Adapters, get_adapter, list_adapters}
use bt_api_base.Plugins.Loader.{
  PluginInfo, Failure, registration, registers, invalid_metadata, raises, Loading, fails, loads,
  EntryPoint, PluginLoader, with_module, check_core_compatibility, check_duplicate_registration,
  register_plugin, load_entry, load_one, load_all,
}
use bt_api_base.Plugins.Loader.Commit.{over, commit_registry-lookup, commit_runtime-lookup}
use bt_api_base.Plugins.Loader.Atomic.{same_exchanges, load_one-Commits}

null-select :
    (test : String → Bool) (names : List String) (j : String)
    → null (select test names) ≡ true
    → Set.contains names j ≡ true
    → test j ≡ false
null-select test [] j h m = cc
null-select test (name ∷ names) j h m = elim (Bool-cases (test name)) [
  | inl bad ↦ absurd (false≢true (rw bad at h))
  | inr good ↦ elim (Bool-cases (name == j)) [
    | inl here ↦ ap test (sym ((==_iff name j).0 here)) ∙ good
    | inr other ↦ null-select test names j (rw good at h) (rw other at m)
  ]
]

requires_kept :
    (accepts : String → Option Bool) (entry_module : String) (info : PluginInfo)
    → accepts info.core_requires ≡ some true
    → check_core_compatibility accepts (with_module entry_module info) ≡ none
requires_kept accepts entry_module info h = elim (Bool-cases (info.plugin_module == "")) [
  | inl e ↦ rw (check_core_compatibility, e, h) refl
  | inr e ↦ rw (check_core_compatibility, e, h) refl
]

module _ {C : Type 0} (normalize : String → String) (accepts : String → Option Bool) where
  -- A plugin registers feeds of exchanges only that its metadata name.
  abbrev LoadsDeclared : Loading C → Type 0
  LoadsDeclared (fails f) = Unit
  LoadsDeclared (loads (raises f)) = Unit
  LoadsDeclared (loads invalid_metadata) = Unit
  LoadsDeclared (loads (registers info isolated adapters)) =
      (j : String)
      → has j isolated.feed_classes ≡ true
      → Set.contains info.supported_exchanges j ≡ true

  abbrev pub IsDeclared : EntryPoint C → Type 0
  IsDeclared entry = LoadsDeclared entry.loading

  no_duplicate :
      (l : PluginLoader C) (info : PluginInfo) (adapters : Adapters C) (j : String)
      → check_duplicate_registration normalize accepts l info adapters ≡ none
      → Set.contains info.supported_exchanges j ≡ true
      → has_exchange l.registry j ≡ false
  unfolding check_duplicate_registration
  no_duplicate l info adapters j h m =
      elim (Bool-cases (null (select (has_exchange l.registry) info.supported_exchanges))) [
        | inl free ↦ null-select (has_exchange l.registry) info.supported_exchanges j free m
        | inr taken ↦ absurd (refused (rw taken at h))
      ]
    where
      refused : ◌≡◌ {A = Option Failure} (some registration) none → ⊥
      refused e = cc

  over_free :
      (o : Option C) (isolated r : ExchangeRegistry C) (j : String) (c : C)
      → lookup j isolated.feed_classes ≡ o
      → lookup j r.feed_classes ≡ some c
      → ((has j isolated.feed_classes ≡ true) → has j r.feed_classes ≡ false)
      → over o (lookup j r.feed_classes) ≡ some c
  over_free none isolated r j c e h free = h
  over_free (some d) isolated r j c e h free =
      absurd (false≢true (sym (free (rw (has, e) refl)) ∙ rw (has, h) refl))

  load_one_keeps :
      (entry : EntryPoint C) (l : PluginLoader C) (j : String) (c : C)
      → IsDeclared entry
      → lookup j l.registry.feed_classes ≡ some c
      → (lookup j (load_one normalize accepts entry l).registry.feed_classes ≡ some c)
  load_one_keeps entry l j c declared h = elim (load_one-Commits normalize accepts entry l) [
    | inl (r, _, _) ↦ ap (λ (x : ExchangeRegistry C). lookup j x.feed_classes) r ∙ h
    | inr (info, isolated, adapters, e, _, dup, same) ↦
        ap (λ (x : PluginLoader C). lookup j x.registry.feed_classes) same
        ∙ commit_registry-lookup isolated l.registry j
        ∙ over_free (lookup j isolated.feed_classes) isolated l.registry j c refl h (λ there.
          unfold has_exchange in
          no_duplicate l (with_module entry.entry_module info) adapters j dup (
            ap (λ names. Set.contains names j) (same_exchanges entry.entry_module info)
            ∙ (rw e at declared) j there))
  ]

  load_one_keeps_adapter :
      (entry : EntryPoint C) (l : PluginLoader C) (n : String) (a : C)
      → lookup n l.runtime_registrar ≡ some a
      → lookup n (load_one normalize accepts entry l).runtime_registrar ≡ some a
  load_one_keeps_adapter entry l n a h = elim (load_one-Commits normalize accepts entry l) [
    | inl (_, r, _) ↦ ap (lookup n) r ∙ h
    | inr (info, isolated, adapters, e, _, dup, same) ↦
        ap (λ (x : PluginLoader C). lookup n x.runtime_registrar) same
        ∙ commit_runtime-lookup normalize adapters l.runtime_registrar n a h
  ]

  -- Whatever plugins are loaded, in whatever order, a feed or an adapter that is registered stays the
  -- registered one, where the plugins register feeds of exchanges only that their metadata name.
  pub load_all_keeps :
      (entries : List (EntryPoint C)) (l : PluginLoader C) (j n : String) (c a : C)
      → All IsDeclared entries
      → get_feed_class l.registry j ≡ some c
      → get_adapter normalize l.runtime_registrar n ≡ some a
      → (get_feed_class (load_all normalize accepts entries l).registry j ≡ some c)
        × (get_adapter normalize (load_all normalize accepts entries l).runtime_registrar n
            ≡ some a)
  unfolding load_all get_feed_class get_adapter
  load_all_keeps [] l j n c a declared h k = (h, k)
  load_all_keeps (entry ∷ entries) l j n c a declared h k =
      load_all_keeps entries (load_one normalize accepts entry l) j n c a declared.1
        (load_one_keeps entry l j c declared.0 h) (load_one_keeps_adapter entry l (normalize n) a k)

  nothing_named :
      (l : PluginLoader C) (info : PluginInfo)
      → info.supported_exchanges ≡ []
      → check_duplicate_registration normalize accepts l info [] ≡ none
  unfolding check_duplicate_registration list_adapters
  nothing_named l info h = rw h refl

  register_undeclared :
      (l : PluginLoader C) (entry_name entry_module : String) (info : PluginInfo)
      (isolated : ExchangeRegistry C) (j : String) (c : C)
      → accepts info.core_requires ≡ some true
      → info.supported_exchanges ≡ []
      → lookup j isolated.feed_classes ≡ some c
      → lookup j
          (register_plugin normalize accepts entry_name entry_module
            (registers info isolated [])
            l).registry.feed_classes
        ≡ some c
  unfolding register_plugin
  register_undeclared l entry_name entry_module info isolated j c core none_named there =
      rw
        (
          requires_kept accepts entry_module info core,
          nothing_named l (with_module entry_module info)
              (same_exchanges entry_module info ∙ none_named),
        )
        (commit_registry-lookup isolated l.registry j
          ∙ ap (λ o. over o (lookup j l.registry.feed_classes)) there)

  -- A plugin that the loader has not seen, whose metadata name no exchange and whose requirement the
  -- core meets, replaces the feed that is registered for an exchange by its own.
  pub undeclared_replaces :
      (l : PluginLoader C) (entry : EntryPoint C) (info : PluginInfo) (j : String) (c : C)
      → (has entry.entry_name l.failed || has entry.entry_name l.loaded) ≡ false
      → accepts info.core_requires ≡ some true
      → info.supported_exchanges ≡ []
      → entry.loading ≡ loads (registers info (register_feed j c create_isolated) [])
      → get_feed_class (load_one normalize accepts entry l).registry j ≡ some c
  unfolding load_one get_feed_class register_feed
  undeclared_replaces l entry info j c fresh core none_named e =
      ap (λ (x : PluginLoader C). lookup j x.registry.feed_classes)
        (loaded_fresh ∙ ap (λ loading. load_entry normalize accepts entry loading l) e)
      ∙ register_undeclared l entry.entry_name entry.entry_module info
          (register_feed j c create_isolated) j c core none_named (rw (==_self j) refl)
    where
      loaded_fresh :
          load_one normalize accepts entry l ≡ load_entry normalize accepts entry entry.loading l
      loaded_fresh = rw fresh refl
