-- ===== src/Cache/Exchange.antt =====
-- `ExchangeInfoCache` and `MarketDataCache` of cache.py: caches whose keys are made of the names of
-- an exchange and a symbol. `V` is whatever is stored.
use Prim.Native.String.{◌++◌ as append}
use text.Mathlib.Text.{starts_with}
use bt_api_base.Prelude.{
  ℕ, String, ◌≡◌, refl, false, Option, none, List, [], ◌∷◌, arith, select, if◌then◌else◌,
  string_key,
}
use bt_api_base.Prelude.Dict.{Dict, lookup, keys, lookup-erase}
use bt_api_base.Prelude.Set
use bt_api_base.Cache.{Cache, get, set, delete, cache_keys}

abbrev pub trading_pairs_key : String → String
trading_pairs_key exchange = append exchange ":trading_pairs"

abbrev pub symbol_key : String → String → String → String
symbol_key exchange symbol kind = append exchange (append ":" (append symbol kind))

module _ {V : Type 0} where
  unfoldable pub get_trading_pairs : Cache V → String → ℕ → Cache V × Option V
  get_trading_pairs c exchange now = get c (trading_pairs_key exchange) now

  unfoldable pub set_trading_pairs : Cache V → String → V → ℕ → Cache V
  set_trading_pairs c exchange pairs now = set c (trading_pairs_key exchange) pairs none now

  unfoldable pub get_exchange_info : Cache V → String → String → ℕ → Cache V × Option V
  get_exchange_info c exchange symbol now = get c (symbol_key exchange symbol ":info") now

  unfoldable pub set_exchange_info : Cache V → String → String → V → ℕ → Cache V
  set_exchange_info c exchange symbol info now =
      set c (symbol_key exchange symbol ":info") info none now

  unfoldable pub get_ticker : Cache V → String → String → ℕ → Cache V × Option V
  get_ticker c exchange symbol now = get c (symbol_key exchange symbol ":ticker") now

  unfoldable pub set_ticker : Cache V → String → String → V → ℕ → Cache V
  set_ticker c exchange symbol ticker now =
      set c (symbol_key exchange symbol ":ticker") ticker none now

  unfoldable pub get_orderbook : Cache V → String → String → ℕ → Cache V × Option V
  get_orderbook c exchange symbol now = get c (symbol_key exchange symbol ":orderbook") now

  unfoldable pub set_orderbook : Cache V → String → String → V → ℕ → Cache V
  set_orderbook c exchange symbol orderbook now =
      set c (symbol_key exchange symbol ":orderbook") orderbook none now

  unfoldable pub delete_all : List String → Cache V → Cache V
  delete_all [] c = c
  delete_all (k ∷ ks) c = delete_all ks (delete c k)

  unfoldable pub clear_exchange : Cache V → String → Cache V
  unfolding delete_all delete cache_keys
  clear_exchange c exchange =
      delete_all (select (λ key. starts_with key (append exchange ":")) (cache_keys c)) c

  lookup-delete_all :
      (ks : List String) (c : Cache V) (j : String)
      → lookup j (delete_all ks c).entries
        ≡ (if Set.contains ks j then none else lookup j c.entries)
  unfolding delete_all delete
  lookup-delete_all [] c j = refl
  lookup-delete_all (k ∷ ks) c j =
      ground (arith, lookup-delete_all ks (delete c k) j, lookup-erase k j c.entries)

  absent_key :
      (d : Dict String (V × ℕ)) (j : String) → Set.contains (keys d) j ≡ false → lookup j d ≡ none
  absent_key [] j h = refl
  absent_key ((k, e) ∷ d) j h = ground (arith, absent_key d j)

  -- `clear_exchange` takes out every key that begins with the name of the exchange and a colon, and
  -- changes no other entry.
  pub clear_exchange_lem :
      (c : Cache V) (exchange j : String)
      → lookup j (clear_exchange c exchange).entries
        ≡ (if starts_with j (append exchange ":") then none else lookup j c.entries)
  unfolding clear_exchange cache_keys
  clear_exchange_lem c exchange j = ground (
    arith,
    lookup-delete_all (select (λ key. starts_with key (append exchange ":")) (cache_keys c)) c j,
    Set.contains-select (λ key. starts_with key (append exchange ":")) (cache_keys c) j,
    absent_key c.entries j,
  )
