-- ===== src/WebSocket/Fits.antt =====
-- The bound on the pools, and what the operations of a pool do to it.
use mathlib.Core.Path.{subst}
use bt_api_base.Prelude.{
  ℕ, zero, suc, ◌≤◌, ◌<◌, String, Bool, Option, none, some, List, [], ◌∷◌, ◌++◌, map, length,
  length-append, ◌≡◌, refl, ap, sym, ◌∙◌, inl, inr, ltb, ltb→lt, ◌==◌, ==_iff, string_key, arith,
  Option-cases, Bool-cases,
}
use bt_api_base.Prelude.Dict.{Dict, lookup, insert, lookup-insert}
use bt_api_base.WebSocket.Config.{WebSocketConfig}
use bt_api_base.WebSocket.Connection.{
  WebSocketConnection, Outcome, done, rate_limit_error, web_socket_error, new, connect,
}
use bt_api_base.WebSocket.Manager.{
  WebSocketManager, add_exchange, first_available, joined, get_from, get_connection, close_all,
  set_at,
}

module _ {X : Type 0} where
  -- An exchange has both a pool and a configuration, which bounds it, or neither.
  abbrev pub Fits : Option (List (WebSocketConnection X)) → Option WebSocketConfig → Type 0
  Fits none none = Unit
  Fits (some pool) (some config) = length pool ≤ config.max_connections
  Fits none (some config) = ⊥
  Fits (some pool) none = ⊥

  abbrev pub FitsAt : String → WebSocketManager X → Type 0
  FitsAt name m = Fits (lookup name m.pools) (lookup name m.pool_configs)

  -- A pool is replaced by one that is within the bound of the exchange.
  insert-FitsAt :
      (name k : String) (pool : List (WebSocketConnection X)) (config : WebSocketConfig)
      (m : WebSocketManager X)
      → lookup k m.pool_configs ≡ some config
      → length pool ≤ config.max_connections
      → FitsAt name m
      → FitsAt name (record m { pools = insert k pool m.pools })
  insert-FitsAt name k pool config m configured small f = elim (Bool-cases (k == name)) [
    | inl same ↦
        let e = lookup-insert k name pool m.pools in
        let there = ap (λ n. lookup n m.pool_configs) (sym ((==_iff k name).0 same)) ∙ configured in
        rw e (rw (same, there) small)
    | inr other ↦ let e = lookup-insert k name pool m.pools in rw e (rw other f)
  ]

  pub add_exchange-FitsAt :
      (name : String) (config : WebSocketConfig) (m : WebSocketManager X)
      → FitsAt name m
      → FitsAt name (add_exchange config m)
  unfolding add_exchange
  add_exchange-FitsAt name config m f =
      let e = lookup-insert config.exchange_name name [] m.pools in
      let g = lookup-insert config.exchange_name name config m.pool_configs in
      elim (Bool-cases (config.exchange_name == name)) [
        | inl same ↦ rw (add_exchange, e) (rw g (rw same (omega arith)))
        | inr other ↦ rw (add_exchange, e) (rw g (rw other f))
      ]

  abbrev pub IsValid : WebSocketManager X → Type 0
  IsValid m = (name : String) → FitsAt name m

  Fits-none :
      (pool : List (WebSocketConnection X)) (p : Option (List (WebSocketConnection X)))
      (c : Option WebSocketConfig)
      → p ≡ some pool
      → c ≡ none
      → Fits p c
      → ⊥
  Fits-none pool p c there missing f = subst (λ x. Fits x none) there (subst (Fits p) missing f)

  Fits-some :
      (pool : List (WebSocketConnection X)) (config : WebSocketConfig)
      (p : Option (List (WebSocketConnection X))) (c : Option WebSocketConfig)
      → p ≡ some pool
      → c ≡ some config
      → Fits p c
      → length pool ≤ config.max_connections
  Fits-some pool config p c there configured f =
      subst (λ x. Fits x (some config)) there (subst (Fits p) configured f)

  fits_config :
      (k : String) (pool : List (WebSocketConnection X)) (m : WebSocketManager X)
      → IsValid m
      → lookup k m.pools ≡ some pool
      → (config : WebSocketConfig) × (lookup k m.pool_configs ≡ some config)
        × (length pool ≤ config.max_connections)
  fits_config k pool m v there = elim (Option-cases (lookup k m.pool_configs)) [
    | inl missing ↦ absurd (Fits-none pool _ _ there missing (v k))
    | inr (config, configured) ↦
        (config, configured, Fits-some pool config _ _ there configured (v k))
  ]

  joined-FitsAt :
      (name k : String) (r : WebSocketConnection X × Outcome) (pool : List (WebSocketConnection X))
      (config : WebSocketConfig) (m : WebSocketManager X)
      → lookup k m.pool_configs ≡ some config
      → length pool < config.max_connections
      → FitsAt name m
      → FitsAt name (joined k pool m r).0
  joined-FitsAt name k (c, done) pool config m configured below f =
      insert-FitsAt name k (pool ++ c ∷ []) config m configured
        (omega (arith, length-append pool (c ∷ []), below)) f
  joined-FitsAt name k (c, rate_limit_error) pool config m configured below f = f
  joined-FitsAt name k (c, web_socket_error) pool config m configured below f = f

  get_from-FitsAt :
      (name k : String) (id_of : ℕ → String) (opens : Bool) (pool : List (WebSocketConnection X))
      (config : WebSocketConfig) (m : WebSocketManager X) (o : Option ℕ)
      → lookup k m.pool_configs ≡ some config
      → FitsAt name m
      → FitsAt name (get_from id_of opens k pool config m o).0
  get_from-FitsAt name k id_of opens pool config m (some i) configured f = f
  get_from-FitsAt name k id_of opens pool config m none configured f =
      elim (Bool-cases (ltb (length pool) config.max_connections)) [
        | inl below ↦ rw below (
            joined-FitsAt name k (connect opens (new (id_of (length pool)))) pool config m
              configured (ltb→lt (length pool) config.max_connections below) f)
        | inr full ↦ rw full f
      ]

  pub get_connection-IsValid :
      (id_of : ℕ → String) (opens : Bool) (k : String) (m : WebSocketManager X)
      → IsValid m
      → IsValid (get_connection id_of opens k m).0
  unfolding get_connection
  get_connection-IsValid id_of opens k m v name = elim (Option-cases (lookup k m.pools)) [
    | inl missing ↦ rw (get_connection, missing) (v name)
    | inr (pool, there) ↦
        let (config, configured, small) = fits_config k pool m v there in
        rw (get_connection, there)
          (rw configured (
            get_from-FitsAt name k id_of opens pool config m (first_available 0 pool) configured
              (v name)))
  ]

  pub length-set_at :
      (i : ℕ) (c : WebSocketConnection X) (pool : List (WebSocketConnection X))
      → length (set_at i c pool) ≡ length pool
  length-set_at i c [] = refl
  length-set_at zero c (b ∷ pool) = refl
  length-set_at (suc i) c (b ∷ pool) = ap suc (length-set_at i c pool)

  abbrev emptied : Option (List (WebSocketConnection X)) → Option (List (WebSocketConnection X))
  emptied none = none
  emptied (some pool) = some []

  lookup-emptied :
      (name : String) (d : Dict String (List (WebSocketConnection X)))
      → lookup name (map (λ e. (e.0, [])) d) ≡ emptied (lookup name d)
  lookup-emptied name [] = refl
  lookup-emptied name ((k, pool) ∷ d) = elim (Bool-cases (k == name)) [
    | inl same ↦ rw same refl
    | inr other ↦ rw other (lookup-emptied name d)
  ]

  Fits-emptied :
      (p : Option (List (WebSocketConnection X))) (o : Option WebSocketConfig)
      → Fits p o
      → Fits (emptied p) o
  Fits-emptied none none f = f
  Fits-emptied none (some config) f = f
  Fits-emptied (some pool) none f = f
  Fits-emptied (some pool) (some config) f = omega arith

  pub close_all-IsValid : (m : WebSocketManager X) → IsValid m → IsValid (close_all m).0
  unfolding close_all
  close_all-IsValid m v name =
      rw (close_all, lookup-emptied name m.pools) (Fits-emptied _ _ (v name))

  pub set_pool-IsValid :
      (k : String) (pool : List (WebSocketConnection X)) (old : List (WebSocketConnection X))
      (m : WebSocketManager X)
      → IsValid m
      → lookup k m.pools ≡ some old
      → length pool ≡ length old
      → IsValid (record m { pools = insert k pool m.pools })
  set_pool-IsValid k pool old m v there same name =
      let (config, configured, small) = fits_config k old m v there in
      insert-FitsAt name k pool config m configured (omega (arith, small, same)) (v name)
