-- ===== src/Plugins/Tests.antt =====
-- Runs of the plugin loader. A class is a number; every requirement is met.
use bt_api_base.Prelude.{
  ℕ, String, ◌≡◌, refl, ◌⊎◌, Bool, true, Option, some, List, [], ◌∷◌, string_key, arith,
}
use bt_api_base.Prelude.Dict.{has}
use bt_api_base.Prelude.Set
use bt_api_base.Plugins.Registry.{
  create_isolated, register_feed, get_feed_class, has_exchange, list_exchanges,
  get_exchange_data_class, get_balance_handler, get_stream_classes,
}
use bt_api_base.Plugins.Adapters.{get_adapter, list_adapters, register_adapter}
use bt_api_base.Plugins.Loader.{
  PluginInfo, registers, raises, version_mismatch, loads, EntryPoint, PluginLoader, load_one,
  load_all, register_plugin, commit_registry, commit_exchanges, commit_exchange, commit_runtime,
  check_duplicate_registration,
}
use bt_api_base.Plugins.Loader.Atomic.{Unregistered, Committed, load_one_atomic}
use bt_api_base.Plugins.Loader.Safety.{load_all_keeps, undeclared_replaces}

abbrev normalize : String → String
normalize s = s

abbrev accepts : String → Option Bool
accepts s = some true

abbrev loader : PluginLoader ℕ
loader = record {
  registry = record (create_isolated {C = ℕ}) { feed_classes = ("OKX", 1) ∷ [] };
  runtime_registrar = ("OKX", 2) ∷ [];
  loaded = [];
  failed = [];
  skipped = [];
}

abbrev info : PluginInfo
info = record {
  name = "okx";
  version = "1.0";
  core_requires = ">=0.1";
  supported_exchanges = [];
  supported_asset_types = [];
  plugin_module = "okx";
}

abbrev entry : EntryPoint ℕ
entry = record {
  entry_name = "okx_entry";
  entry_module = "okx";
  loading = loads (registers info (register_feed "OKX" 5 create_isolated) []);
}

abbrev broken : EntryPoint ℕ
broken = record {
  entry_name = "bad";
  entry_module = "bad";
  loading = loads (raises version_mismatch);
}

load_one_atomic_example :
    Unregistered normalize accepts loader (load_one normalize accepts entry loader)
    ⊎ Committed normalize accepts entry loader (load_one normalize accepts entry loader)
load_one_atomic_example = load_one_atomic normalize accepts entry loader

-- A plugin that names the exchange whose feed it registers.
abbrev declared : EntryPoint ℕ
declared = record {
  entry_name = "binance_entry";
  entry_module = "binance";
  loading = loads (
      registers (record info { name = "binance"; supported_exchanges = "BINANCE" ∷ [] })
        (register_feed "BINANCE" 7 create_isolated) (("BINANCE", 8) ∷ []));
}

abbrev entries : List (EntryPoint ℕ)
entries = broken ∷ declared ∷ []

declares :
    (j : String)
    → has {V = ℕ} j (("BINANCE", 7) ∷ []) ≡ true
    → Set.contains ("BINANCE" ∷ []) j ≡ true
declares j h = ground (arith, h)

loads_both : get_feed_class (load_all normalize accepts entries loader).registry "BINANCE" ≡ some 7
unfolding load_all load_one register_plugin get_feed_class register_feed commit_registry
    commit_exchanges commit_exchange check_duplicate_registration has_exchange list_exchanges
    list_adapters get_adapter get_exchange_data_class get_balance_handler get_stream_classes
    commit_runtime register_adapter
loads_both = refl

load_all_keeps_example :
    (get_feed_class (load_all normalize accepts entries loader).registry "OKX" ≡ some 1)
    × (get_adapter normalize (load_all normalize accepts entries loader).runtime_registrar "OKX"
        ≡ some 2)
unfolding get_feed_class get_adapter register_feed
load_all_keeps_example =
    load_all_keeps normalize accepts entries loader "OKX" "OKX" 1 2 (tt, (declares, tt)) refl refl

undeclared_replaces_example :
    get_feed_class (load_one normalize accepts entry loader).registry "OKX" ≡ some 5
undeclared_replaces_example =
    undeclared_replaces normalize accepts loader entry info "OKX" 5 refl refl refl refl
