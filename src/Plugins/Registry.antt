-- ===== src/Plugins/Registry.antt =====
-- `ExchangeRegistry` of registry.py. The class methods call the same ones of the default instance; each
-- method holds the lock.
use bt_api_base.Prelude.{String, Bool, Option, none, some, List, [], string_key}
use bt_api_base.Prelude.Dict.{Dict, keys, lookup, has, insert, erase}

pub record ExchangeRegistry (C : Type 0) : Type 0 where
  pub feed_classes : Dict String C
  pub stream_classes : Dict String (Dict String C)
  pub exchange_data_classes : Dict String C
  pub balance_handlers : Dict String C

-- What `create_feed` and `create_exchange_data` do: construct the class, or raise the error with the
-- names that are there.
pub data Created (C : Type 0) : Type 0 where
  constructs : C → Created C
  not_found : String → List String → Created C

module _ {C : Type 0} where
  abbrev pub create_isolated : ExchangeRegistry C
  create_isolated = record {
    feed_classes = [];
    stream_classes = [];
    exchange_data_classes = [];
    balance_handlers = [];
  }

  abbrev pub dict_or_empty : Option (Dict String C) → Dict String C
  dict_or_empty none = []
  dict_or_empty (some d) = d

  unfoldable pub register_feed : String → C → ExchangeRegistry C → ExchangeRegistry C
  register_feed name c r = record r { feed_classes = insert name c r.feed_classes }

  unfoldable pub register_stream : String → String → C → ExchangeRegistry C → ExchangeRegistry C
  register_stream name stream_type c r =
      let streams = dict_or_empty (lookup name r.stream_classes) in
      record r { stream_classes = insert name (insert stream_type c streams) r.stream_classes }

  unfoldable pub register_exchange_data : String → C → ExchangeRegistry C → ExchangeRegistry C
  register_exchange_data name c r = record r {
    exchange_data_classes = insert name c r.exchange_data_classes;
  }

  unfoldable pub register_balance_handler : String → C → ExchangeRegistry C → ExchangeRegistry C
  register_balance_handler name c r = record r {
    balance_handlers = insert name c r.balance_handlers;
  }

  unfoldable pub unregister_feed : String → ExchangeRegistry C → ExchangeRegistry C × Bool
  unregister_feed name r =
      (record r { feed_classes = erase name r.feed_classes }, has name r.feed_classes)

  unfoldable pub get_feed_class : ExchangeRegistry C → String → Option C
  get_feed_class r name = lookup name r.feed_classes

  abbrev pub created : String → List String → Option C → Created C
  created name available none = not_found name available
  created name available (some c) = constructs c

  unfoldable pub create_feed : ExchangeRegistry C → String → Created C
  create_feed r name = created name (keys r.feed_classes) (lookup name r.feed_classes)

  unfoldable pub create_exchange_data : ExchangeRegistry C → String → Created C
  create_exchange_data r name =
      created name (keys r.exchange_data_classes) (lookup name r.exchange_data_classes)

  unfoldable pub get_exchange_data_class : ExchangeRegistry C → String → Option C
  get_exchange_data_class r name = lookup name r.exchange_data_classes

  unfoldable pub get_stream_classes : ExchangeRegistry C → String → Dict String C
  get_stream_classes r name = dict_or_empty (lookup name r.stream_classes)

  unfoldable pub get_stream_class : ExchangeRegistry C → String → String → Option C
  get_stream_class r name stream_type =
      lookup stream_type (dict_or_empty (lookup name r.stream_classes))

  unfoldable pub get_balance_handler : ExchangeRegistry C → String → Option C
  get_balance_handler r name = lookup name r.balance_handlers

  unfoldable pub has_exchange : ExchangeRegistry C → String → Bool
  has_exchange r name = has name r.feed_classes

  unfoldable pub list_exchanges : ExchangeRegistry C → List String
  list_exchanges r = keys r.feed_classes

  unfoldable pub clear : ExchangeRegistry C → ExchangeRegistry C
  clear r = create_isolated
