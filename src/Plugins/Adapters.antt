-- ===== src/Plugins/Adapters.antt =====
-- The two registrars of gateway adapters: `GatewayRuntimeRegistrar` of gateway/registrar.py, one for the
-- process, and `_IsolatedRuntimeRegistrar` of plugins/loader.py, one for a plugin while it is loaded.
-- `normalize` is `str(name).strip().upper()` of the standard library.
use bt_api_base.Prelude.{String, Option, none, some, List, [], Key, ◌==◌, string_key, if◌then◌else◌}
use bt_api_base.Prelude.Dict.{Dict, keys, lookup, insert}

abbrev pub Adapters : Type 0 → Type 0
Adapters C = Dict String C

module _ {C : Type 0} where
  abbrev pub keep_first : Adapters C → String → C → Option C → Adapters C
  keep_first d name c none = insert name c d
  keep_first d name c (some existing) = d

  -- An adapter that is there stays, with a warning where the new one is another.
  unfoldable pub register_adapter : (String → String) → String → C → Adapters C → Adapters C
  register_adapter normalize exchange_type c d =
      keep_first d (normalize exchange_type) c (lookup (normalize exchange_type) d)

  unfoldable pub get_adapter : (String → String) → Adapters C → String → Option C
  get_adapter normalize d exchange_type = lookup (normalize exchange_type) d

  unfoldable pub list_adapters : Adapters C → List String
  list_adapters d = keys d

  abbrev pub clear_adapters : Adapters C → Adapters C
  clear_adapters d = []

  module _ ⦃k : Key C⦄ where
    abbrev pub same_or_none : Adapters C → String → C → Option C → Option (Adapters C)
    same_or_none d name c none = some (insert name c d)
    same_or_none d name c (some existing) = if existing == c then some (insert name c d) else none

    -- In a plugin's own registrar a second adapter under a name raises `PluginRegistrationError`,
    -- which is `none`.
    unfoldable pub register_isolated :
        (String → String) → String → C → Adapters C → Option (Adapters C)
    register_isolated normalize exchange_type c d =
        same_or_none d (normalize exchange_type) c (lookup (normalize exchange_type) d)
