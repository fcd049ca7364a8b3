-- ===== src/Gateway/Health/Records.antt =====
-- What a GatewayHealth shows after any calls.
use bt_api_base.Prelude.{
  ℕ, zero, suc, ◌+◌, ◌-◌, ◌≤◌, ◌<◌, String, false, ◌&&◌, List, [], ◌∷◌, ◌++◌, append_assoc,
  append-nil, length, length-append, ltb, ltb→lt, ◌≡◌, refl, ap, sym, ◌∙◌, inl, inr, Bool-cases,
  arith,
}
use bt_api_base.Gateway.Health.{
  GatewayHealth, GatewayState, ConnectionState, stopped, disconnected, ErrorRecord, is_running,
  is_connected, drop_first, append_within, new, set_state, update_market_connection,
  update_trade_connection, record_heartbeat, record_tick, record_order, update_counts, record_error,
  set_extra, is_healthy,
}

pub data Call (V : Type 0) : Type 0 where
  sets_state : ℕ → GatewayState → Call V
  market trade : ConnectionState → Call V
  heartbeat tick order : ℕ → Call V
  counts : ℕ → ℕ → Call V
  fails : ℕ → String → String → Call V
  sets_extra : String → V → Call V

-- The list without its first `n`.
abbrev pub drop {ℓ} : {A : Type ℓ} → ℕ → List A → List A
drop zero xs = xs
drop (suc n) [] = []
drop (suc n) (x ∷ xs) = drop n xs

-- The last `n` of a list, or all of them.
abbrev pub last_of {ℓ} : {A : Type ℓ} → ℕ → List A → List A
last_of n xs = drop (length xs - n) xs

drop-append {ℓ} :
    {A : Type ℓ} (n : ℕ) (xs ys : List A) → n ≤ length xs → drop n (xs ++ ys) ≡ drop n xs ++ ys
drop-append zero xs ys h = refl
drop-append (suc n) [] ys h = absurd (omega (arith, h))
drop-append (suc n) (x ∷ xs) ys h = drop-append n xs ys (omega (arith, h))

drop_first-drop {ℓ} : {A : Type ℓ} (n : ℕ) (xs : List A) → drop_first (drop n xs) ≡ drop (suc n) xs
drop_first-drop zero [] = refl
drop_first-drop zero (x ∷ xs) = refl
drop_first-drop (suc n) [] = refl
drop_first-drop (suc n) (x ∷ xs) = drop_first-drop n xs

length-drop {ℓ} : {A : Type ℓ} (n : ℕ) (xs : List A) → length (drop n xs) ≡ length xs - n
length-drop zero xs = omega arith
length-drop (suc n) [] = omega arith
length-drop (suc n) (x ∷ xs) = omega (arith, length-drop n xs)

ge_of_ltb : (a b : ℕ) → ltb a b ≡ false → b ≤ a
ge_of_ltb a b h = ground arith

append_within-last_of {ℓ} :
    {A : Type ℓ} (limit : ℕ) (xs : List A) (x : A)
    → append_within limit (last_of limit xs) x ≡ last_of limit (xs ++ x ∷ [])
append_within-last_of limit xs x =
    let n = length xs - limit in
    let kept = length-drop n xs in
    let split = drop-append n xs (x ∷ []) (omega arith) in
    let grown = length-append (drop n xs) (x ∷ []) in
    let all = length-append xs (x ∷ []) in
    elim (Bool-cases (ltb limit (length (drop n xs ++ x ∷ [])))) [
      | inl full ↦
          let over : limit < length (drop n xs ++ x ∷ []) =
            ltb→lt limit (length (drop n xs ++ x ∷ [])) full in
          let m : suc n ≡ length (xs ++ x ∷ []) - limit = omega (arith, over, kept, grown, all) in
          rw full (
            ap drop_first (sym split)
            ∙ drop_first-drop n (xs ++ x ∷ [])
            ∙ ap (λ k. drop k (xs ++ x ∷ [])) m)
      | inr room ↦
          let under : length (drop n xs ++ x ∷ []) ≤ limit =
            ge_of_ltb limit (length (drop n xs ++ x ∷ [])) room in
          let m : n ≡ length (xs ++ x ∷ []) - limit = omega (arith, under, kept, grown, all) in
          rw room (sym split ∙ ap (λ k. drop k (xs ++ x ∷ [])) m)
    ]

drop_nothing : (n : ℕ) → ◌≡◌ {A = List ErrorRecord} (drop n []) []
drop_nothing zero = refl
drop_nothing (suc n) = refl

nothing_yet : (n : ℕ) → ◌≡◌ {A = List ErrorRecord} [] (last_of n [])
nothing_yet n = sym (drop_nothing (0 - n))

module _ {V : Type 0} where
  unfoldable pub step : GatewayHealth V → Call V → GatewayHealth V
  unfolding set_state update_market_connection update_trade_connection record_heartbeat record_tick
      record_order update_counts record_error set_extra
  step h (sets_state now s) = set_state now s h
  step h (market s) = update_market_connection s h
  step h (trade s) = update_trade_connection s h
  step h (heartbeat now) = record_heartbeat now h
  step h (tick now) = record_tick now h
  step h (order now) = record_order now h
  step h (counts a b) = update_counts a b h
  step h (fails now source message) = record_error now source message h
  step h (sets_extra key value) = set_extra key value h

  unfoldable pub run : GatewayHealth V → List (Call V) → GatewayHealth V
  unfolding step
  run h [] = h
  run h (c ∷ calls) = run (step h c) calls

  -- What the calls tell, read off their list: the errors in order, the number of ticks and of orders,
  -- and the last state of the gateway and of the market's connection.
  abbrev error_of : Call V → List ErrorRecord
  error_of (fails now source message) =
      record { timestamp = now; source = source; message = message } ∷ []
  error_of _ = []

  abbrev pub errors_in : List (Call V) → List ErrorRecord
  errors_in [] = []
  errors_in (c ∷ calls) = error_of c ++ errors_in calls

  abbrev pub ticks_in : List (Call V) → ℕ
  ticks_in [] = 0
  ticks_in (tick now ∷ calls) = suc (ticks_in calls)
  ticks_in (_ ∷ calls) = ticks_in calls

  abbrev pub orders_in : List (Call V) → ℕ
  orders_in [] = 0
  orders_in (order now ∷ calls) = suc (orders_in calls)
  orders_in (_ ∷ calls) = orders_in calls

  abbrev pub last_state : GatewayState → List (Call V) → GatewayState
  last_state s [] = s
  last_state s (sets_state now r ∷ calls) = last_state r calls
  last_state s (_ ∷ calls) = last_state s calls

  abbrev pub last_market : ConnectionState → List (Call V) → ConnectionState
  last_market s [] = s
  last_market s (market r ∷ calls) = last_market r calls
  last_market s (_ ∷ calls) = last_market s calls

  abbrev Shows : List ErrorRecord → GatewayHealth V → List (Call V) → GatewayHealth V → Type 0
  Shows past h calls g =
      (g.max_errors ≡ h.max_errors)
      × (g.errors ≡ last_of h.max_errors (past ++ errors_in calls))
      × (g.tick_count ≡ h.tick_count + ticks_in calls)
      × (g.order_count ≡ h.order_count + orders_in calls)
      × (g.state ≡ last_state h.state calls)
      × (g.market_conn ≡ last_market h.market_conn calls)

  run-Shows :
      (past : List ErrorRecord) (h : GatewayHealth V) (calls : List (Call V))
      → h.errors ≡ last_of h.max_errors past
      → Shows past h calls (run h calls)
  unfolding run step
  run-Shows past h [] e = (
    refl,
    e ∙ ap (last_of h.max_errors) (sym (append-nil past)),
    omega arith,
    omega arith,
    refl,
    refl,
  )
  run-Shows past h (sets_state now s ∷ calls) e = run-Shows past (set_state now s h) calls e
  run-Shows past h (market s ∷ calls) e = run-Shows past (update_market_connection s h) calls e
  run-Shows past h (trade s ∷ calls) e = run-Shows past (update_trade_connection s h) calls e
  run-Shows past h (heartbeat now ∷ calls) e = run-Shows past (record_heartbeat now h) calls e
  run-Shows past h (tick now ∷ calls) e =
      let (m, x, t, o, s, c) = run-Shows past (record_tick now h) calls e in
      (m, x, omega (arith, t), o, s, c)
  run-Shows past h (order now ∷ calls) e =
      let (m, x, t, o, s, c) = run-Shows past (record_order now h) calls e in
      (m, x, t, omega (arith, o), s, c)
  run-Shows past h (counts a b ∷ calls) e = run-Shows past (update_counts a b h) calls e
  run-Shows past h (fails now source message ∷ calls) e =
      let r : ErrorRecord = record { timestamp = now; source = source; message = message } in
      let (m, x, t, o, s, c) =
        run-Shows (past ++ r ∷ []) (record_error now source message h) calls (
          ap (λ l. append_within h.max_errors l r) e ∙ append_within-last_of h.max_errors past r) in
      (m, x ∙ ap (last_of h.max_errors) (append_assoc past (r ∷ []) (errors_in calls)), t, o, s, c)
  run-Shows past h (sets_extra key value ∷ calls) e = run-Shows past (set_extra key value h) calls e

  -- After any calls on a new GatewayHealth, its errors are the last ones that were recorded, in order
  -- and up to the maximum, its ticks and orders are as many as were recorded, and it is healthy if and
  -- only if the last state set is running and the market's connection was last told to be connected.
  pub health_run_lem :
      (max_errors : ℕ) (calls : List (Call V))
      → let h = run (new max_errors) calls in
        (h.errors ≡ last_of max_errors (errors_in calls))
        × (h.tick_count ≡ ticks_in calls)
        × (h.order_count ≡ orders_in calls)
        × (is_healthy h ≡ (
            is_running (last_state stopped calls) && is_connected (last_market disconnected calls)))
  unfolding is_healthy
  health_run_lem max_errors calls =
      let (m, x, t, o, s, c) = run-Shows [] (new max_errors) calls (nothing_yet max_errors) in
      (
        x,
        omega (arith, t),
        omega (arith, o),
        ap (λ q. is_running q && is_connected (run (new max_errors) calls).market_conn) s
            ∙ ap (λ q. is_running (last_state stopped calls) && is_connected q) c,
      )
