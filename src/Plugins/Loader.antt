-- ===== src/Plugins/Loader.antt =====
-- `PluginLoader` of plugins/loader.py. Of a plugin the model has what loading and calling it leaves: an
-- exception, metadata that are none, or metadata with what it registered in the registry and the
-- registrar that it was given, which are empty and its own. `accepts` tells whether the core's version
-- meets a requirement, as the package `packaging` does, or that it cannot read the requirement.

pub mod Atomic
pub mod Commit
pub mod Contents
pub mod Safety
use bt_api_base.Prelude.{
  String, Bool, true, false, not, ◌||◌, ◌&&◌, Option, none, some, List, [], ◌∷◌, ◌++◌, null, select,
  string_key, if◌then◌else◌, ◌==◌,
}
use bt_api_base.Prelude.Dict.{Dict, keys, has, insert}
use bt_api_base.Plugins.Registry.{
  ExchangeRegistry, register_feed, register_exchange_data, register_balance_handler,
  register_stream, get_feed_class, get_exchange_data_class, get_balance_handler, get_stream_classes,
  has_exchange, list_exchanges,
}
use bt_api_base.Plugins.Adapters.{Adapters, register_adapter, get_adapter, list_adapters}

pub record PluginInfo : Type 0 where
  pub name : String
  pub version : String
  pub core_requires : String
  pub supported_exchanges : List String
  pub supported_asset_types : List String
  pub plugin_module : String

-- The exceptions that the loader tells apart.
pub data Failure : Type 0 where
  optional_dependency import_error registration version_mismatch other_error : Failure

pub data Registered (C : Type 0) : Type 0 where
  registers : PluginInfo → ExchangeRegistry C → Adapters C → Registered C
  invalid_metadata : Registered C
  raises : Failure → Registered C

-- An entry point, with its module and what `load` and then the loaded function do.
pub data Loading (C : Type 0) : Type 0 where
  fails : Failure → Loading C
  loads : Registered C → Loading C

pub record EntryPoint (C : Type 0) : Type 0 where
  pub entry_name : String
  pub entry_module : String
  pub loading : Loading C

pub record PluginLoader (C : Type 0) : Type 0 where
  pub registry : ExchangeRegistry C
  pub runtime_registrar : Adapters C
  pub loaded : Dict String PluginInfo
  pub failed : Dict String Failure
  pub skipped : Dict String Failure

abbrev pub is_some {ℓ} : {A : Type ℓ} → Option A → Bool
is_some none = false
is_some (some _) = true

-- `replace(info, plugin_module=entry_module)` where it is empty.
abbrev pub with_module : String → PluginInfo → PluginInfo
with_module entry_module info =
    if info.plugin_module == "" then record info { plugin_module = entry_module } else info

-- What a version test leaves: no exception, the mismatch, or that of an unreadable requirement.
abbrev pub check_core_compatibility : (String → Option Bool) → PluginInfo → Option Failure
check_core_compatibility accepts info = elim (accepts info.core_requires) [
  | none ↦ some other_error
  | some accepted ↦ if accepted then none else some version_mismatch
]

module _ {C : Type 0} where
  -- `if c is not None: register(c)`
  abbrev pub put :
      (C → ExchangeRegistry C → ExchangeRegistry C)
      → Option C
      → ExchangeRegistry C
      → ExchangeRegistry C
  put register none r = r
  put register (some c) r = register c r

  abbrev pub put_streams : String → Dict String C → ExchangeRegistry C → ExchangeRegistry C
  put_streams name [] r = r
  put_streams name ((stream_type, c) ∷ streams) r =
      put_streams name streams (register_stream name stream_type c r)

  -- The body of the loop of `_commit_registry`.
  unfoldable pub commit_exchange :
      ExchangeRegistry C → String → ExchangeRegistry C → ExchangeRegistry C
  commit_exchange isolated name r = put_streams name (get_stream_classes isolated name) (
      put (register_balance_handler name) (get_balance_handler isolated name) (
        put (register_exchange_data name) (get_exchange_data_class isolated name)
          (put (register_feed name) (get_feed_class isolated name) r)))

  unfoldable pub commit_exchanges :
      ExchangeRegistry C → List String → ExchangeRegistry C → ExchangeRegistry C
  commit_exchanges isolated [] r = r
  commit_exchanges isolated (name ∷ names) r =
      commit_exchanges isolated names (commit_exchange isolated name r)

  unfoldable pub commit_registry : ExchangeRegistry C → ExchangeRegistry C → ExchangeRegistry C
  commit_registry isolated r = commit_exchanges isolated (list_exchanges isolated) r

  unfoldable pub commit_runtime : (String → String) → Adapters C → Adapters C → Adapters C
  commit_runtime normalize [] d = d
  commit_runtime normalize ((name, c) ∷ isolated) d =
      commit_runtime normalize isolated (register_adapter normalize name c d)

  module _ (normalize : String → String) (accepts : String → Option Bool) where
    -- The exchanges and the adapters that are there already.
    unfoldable pub check_duplicate_registration :
        PluginLoader C → PluginInfo → Adapters C → Option Failure
    check_duplicate_registration l info isolated =
        if null (select (has_exchange l.registry) info.supported_exchanges)
          && null (
              select (λ name. is_some (get_adapter normalize l.runtime_registrar name))
                (list_adapters isolated))
        then none
        else some registration

    -- An optional dependency that is missing skips the plugin; all else fails it.
    abbrev pub record_failure : String → Failure → PluginLoader C → PluginLoader C
    record_failure key optional_dependency l = record l {
      skipped = insert key optional_dependency l.skipped;
    }
    record_failure key import_error l = record l { failed = insert key import_error l.failed }
    record_failure key registration l = record l { failed = insert key registration l.failed }
    record_failure key version_mismatch l = record l {
      failed = insert key version_mismatch l.failed;
    }
    record_failure key other_error l = record l { failed = insert key other_error l.failed }

    -- The commits, and then the metadata, unless the name is there.
    abbrev pub commit :
        PluginInfo → ExchangeRegistry C → Adapters C → PluginLoader C → PluginLoader C
    commit info isolated_registry isolated_runtime l = record l {
      registry = commit_registry isolated_registry l.registry;
      runtime_registrar = commit_runtime normalize isolated_runtime l.runtime_registrar;
      loaded = if has info.name l.loaded then l.loaded else insert info.name info l.loaded;
    }

    abbrev pub unless_failed :
        Option Failure
        → String
        → (PluginLoader C → PluginLoader C)
        → PluginLoader C
        → PluginLoader C
    unless_failed none key continue l = continue l
    unless_failed (some failure) key continue l = record_failure key failure l

    unfoldable pub register_plugin :
        String → String → Registered C → PluginLoader C → PluginLoader C
    register_plugin entry_name entry_module (raises failure) l = record_failure entry_name failure l
    register_plugin entry_name entry_module invalid_metadata l =
        record_failure entry_name registration l
    register_plugin entry_name entry_module (registers info isolated_registry isolated_runtime) l =
        let named = with_module entry_module info in
        unless_failed (check_core_compatibility accepts named) named.name
          (λ l.
            unless_failed (check_duplicate_registration l named isolated_runtime) named.name
              (commit named isolated_registry isolated_runtime) l)
          l

    abbrev pub load_entry : EntryPoint C → Loading C → PluginLoader C → PluginLoader C
    load_entry entry (fails failure) l = record_failure entry.entry_name failure l
    load_entry entry (loads registered) l =
        register_plugin entry.entry_name entry.entry_module registered l

    unfoldable pub load_one : EntryPoint C → PluginLoader C → PluginLoader C
    load_one entry l =
        if has entry.entry_name l.failed || has entry.entry_name l.loaded
        then l
        else load_entry entry entry.loading l

    unfoldable pub load_all : List (EntryPoint C) → PluginLoader C → PluginLoader C
    load_all [] l = l
    load_all (entry ∷ entries) l = load_all entries (load_one entry l)
