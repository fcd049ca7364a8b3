-- ===== src/Gateway/Orders/Owners.antt =====
-- An `OrderIdentityMap` as what a gateway uses it for: a dictionary from requests to strategies.
use bt_api_base.Prelude.{
  ℕ, suc, String, ◌≡◌, refl, inl, inr, Option, none, some, List, [], ◌∷◌, ◌==◌, nat_key, string_key,
  arith, Bool-cases, Option-cases, ap, length, select, map,
}
use bt_api_base.Prelude.Dict.{Dict, lookup, insert, erase, values, keys, lookup-insert_self}
use bt_api_base.Gateway.Orders.{
  OrderEntry, OrderIdentityMap, at, empty, register, set_client_at, set_venue_at, set_status_at,
  set_client_order_id, set_venue_order_id, set_venue_order_id_by_client, update_status, remove,
  forget, strategy_of, strategy_for_request, by_request, count, orders_of, orders_for_strategy,
}
use bt_api_base.Gateway.Orders.Valid.{
  Call, registers, sets_client, sets_venue, sets_venue_by_client, updates, removes, call, run,
}
use bt_api_base.Gateway.Orders.Owned.{
  Owners, signature, Owns, Owns-insert, Owns-erase, Owns-new, Owns-change,
}

module _ {X : Type 0} where
  -- The dictionary that a map stands for, after one more call, and after any calls.
  abbrev pub own : Owners → Call X → Owners
  own o (registers r s c v y x) = insert r s o
  own o (sets_client r c) = o
  own o (sets_venue r v) = o
  own o (sets_venue_by_client c v) = o
  own o (updates r s) = o
  own o (removes r) = erase r o

  unfoldable pub owners : Owners → List (Call X) → Owners
  owners o [] = o
  owners o (c ∷ calls) = owners (own o c) calls

  -- The map stands for the dictionary.
  abbrev pub StandsFor : OrderIdentityMap X → Owners → Type 0
  StandsFor m o = Owns m.next m.heap m.by_request_id o

  set_client_at-StandsFor :
      (m : OrderIdentityMap X) (o : Owners) (c : String) (a : Option ℕ)
      → StandsFor m o
      → StandsFor (set_client_at m c a).0 o
  set_client_at-StandsFor m o c none h = h
  set_client_at-StandsFor m o c (some a) h =
      Owns-change m.next a _ m.heap m.by_request_id o (λ e. refl) h

  set_venue_at-StandsFor :
      (m : OrderIdentityMap X) (o : Owners) (v : String) (a : Option ℕ)
      → StandsFor m o
      → StandsFor (set_venue_at m v a).0 o
  set_venue_at-StandsFor m o v none h = h
  set_venue_at-StandsFor m o v (some a) h =
      Owns-change m.next a _ m.heap m.by_request_id o (λ e. refl) h

  set_status_at-StandsFor :
      (m : OrderIdentityMap X) (o : Owners) (s : String) (a : Option ℕ)
      → StandsFor m o
      → StandsFor (set_status_at m s a).0 o
  set_status_at-StandsFor m o s none h = h
  set_status_at-StandsFor m o s (some a) h =
      Owns-change m.next a _ m.heap m.by_request_id o (λ e. refl) h

  forget-StandsFor :
      (m : OrderIdentityMap X) (o : Owners) (r : String) (e : Option (OrderEntry X))
      → StandsFor m o
      → StandsFor (forget m e (erase r m.by_request_id)) (erase r o)
  forget-StandsFor m o r none h = Owns-erase m.next m.heap r m.by_request_id o h
  forget-StandsFor m o r (some e) h = Owns-erase m.next m.heap r m.by_request_id o h

  erase_unknown :
      (next : ℕ) (heap : Dict ℕ (OrderEntry X)) (r : String) (d : Dict String ℕ) (o : Owners)
      → lookup r d ≡ none
      → Owns next heap d o
      → erase r o ≡ o
  erase_unknown next heap r [] [] e h = refl
  erase_unknown next heap r ((j, c) ∷ d) ((q, t) ∷ o) e h =
      ground (arith, erase_unknown next heap r d o)
  erase_unknown next heap r [] (_ ∷ _) e h = absurd h
  erase_unknown next heap r (_ ∷ _) [] e h = absurd h

  remove-StandsFor :
      (m : OrderIdentityMap X) (o : Owners) (r : String)
      → StandsFor m o
      → StandsFor (remove m r).0 (erase r o)
  unfolding remove
  remove-StandsFor m o r h = elim (Option-cases (lookup r m.by_request_id)) [
    | inl e ↦ rw (remove, e, erase_unknown m.next m.heap r m.by_request_id o e h) h
    | inr (a, e) ↦ rw (remove, e) (forget-StandsFor m o r (lookup a m.heap) h)
  ]

  register-StandsFor :
      (m : OrderIdentityMap X) (o : Owners) (r s : String) (c v y : Option String) (x : X)
      → StandsFor m o
      → StandsFor (register m r s c v y x).0 (insert r s o)
  unfolding register
  register-StandsFor m o r s c v y x h =
      Owns-insert _ _ r s m.next m.by_request_id o (omega arith)
        (ap signature (lookup-insert_self m.next _ m.heap))
        (Owns-new m.next m.heap _ m.by_request_id o h)

  call-StandsFor :
      (m : OrderIdentityMap X) (o : Owners) (c : Call X)
      → StandsFor m o
      → StandsFor (call m c) (own o c)
  unfolding call set_client_order_id set_venue_order_id set_venue_order_id_by_client update_status
  call-StandsFor m o (registers r s c v y x) h = register-StandsFor m o r s c v y x h
  call-StandsFor m o (sets_client r c) h =
      set_client_at-StandsFor m o c (lookup r m.by_request_id) h
  call-StandsFor m o (sets_venue r v) h = set_venue_at-StandsFor m o v (lookup r m.by_request_id) h
  call-StandsFor m o (sets_venue_by_client c v) h =
      set_venue_at-StandsFor m o v (lookup c m.by_client_oid) h
  call-StandsFor m o (updates r s) h = set_status_at-StandsFor m o s (lookup r m.by_request_id) h
  call-StandsFor m o (removes r) h = remove-StandsFor m o r h

  run-StandsFor :
      (m : OrderIdentityMap X) (o : Owners) (calls : List (Call X))
      → StandsFor m o
      → StandsFor (run m calls) (owners o calls)
  unfolding run owners
  run-StandsFor m o [] h = h
  run-StandsFor m o (c ∷ calls) h =
      run-StandsFor (call m c) (own o c) calls (call-StandsFor m o c h)

  -- What the reads of a map say, read from the dictionary.
  strategy-signature :
      (e : Option (OrderEntry X)) (q s : String)
      → signature e ≡ some (q, s)
      → strategy_of e ≡ some s
  strategy-signature none q s h = cc
  strategy-signature (some e) q s h = ground arith

  strategy-Owns :
      (next : ℕ) (heap : Dict ℕ (OrderEntry X)) (d : Dict String ℕ) (o : Owners) (r : String)
      → Owns next heap d o
      → strategy_of (at heap (lookup r d)) ≡ lookup r o
  strategy-Owns next heap [] [] r h = refl
  strategy-Owns next heap ((j, a) ∷ d) ((q, s) ∷ o) r h = elim (Bool-cases (j == r)) [
    | inl here ↦ rw (← h.0, here) (strategy-signature (lookup a heap) q s h.2)
    | inr other ↦ rw (← h.0, other) (strategy-Owns next heap d o r h.3)
  ]
  strategy-Owns next heap [] (_ ∷ _) r h = absurd h
  strategy-Owns next heap (_ ∷ _) [] r h = absurd h

  length-Owns :
      (next : ℕ) (heap : Dict ℕ (OrderEntry X)) (d : Dict String ℕ) (o : Owners)
      → Owns next heap d o
      → length d ≡ length o
  length-Owns next heap [] [] h = refl
  length-Owns next heap (_ ∷ d) (_ ∷ o) h = ap suc (length-Owns next heap d o h.3)
  length-Owns next heap [] (_ ∷ _) h = absurd h
  length-Owns next heap (_ ∷ _) [] h = absurd h

  orders-Owns :
      (next : ℕ) (heap : Dict ℕ (OrderEntry X)) (d : Dict String ℕ) (o : Owners) (s : String)
      → Owns next heap d o
      → map (λ e. e.request_id) (orders_of s heap (values d))
        ≡ keys (select (λ owned. owned.1 == s) o)
  unfolding orders_of
  orders-Owns next heap [] [] s h = refl
  orders-Owns next heap ((j, a) ∷ d) ((q, t) ∷ o) s h =
      with_entry (lookup a heap) refl h.2 (orders-Owns next heap d o s h.3)
    where
      with_entry :
          (e : Option (OrderEntry X))
          → lookup a heap ≡ e
          → signature e ≡ some (q, t)
          → map (λ e. e.request_id) (orders_of s heap (values d))
            ≡ keys (select (λ owned. owned.1 == s) o)
          → map (λ e. e.request_id) (orders_of s heap (a ∷ values d))
            ≡ keys (select (λ owned. owned.1 == s) ((q, t) ∷ o))
      with_entry none found same rest = ground arith
      with_entry (some e) found same rest = ground arith
  orders-Owns next heap [] (_ ∷ _) s h = absurd h
  orders-Owns next heap (_ ∷ _) [] s h = absurd h

  -- After any calls on a new map, the strategy of each request, the number of the requests and the
  -- requests of each strategy, in their order, are those of the dictionary in which a registration
  -- stores the strategy under the request, a removal deletes the request and no other call writes.
  pub owners_refined :
      (calls : List (Call X)) (request_id strategy_id : String)
      → (strategy_for_request (run empty calls) request_id ≡ lookup request_id (owners [] calls))
        × (count (run empty calls) ≡ length (owners [] calls))
        × (map (λ e. e.request_id) (orders_for_strategy (run empty calls) strategy_id)
            ≡ keys (select (λ owned. owned.1 == strategy_id) (owners [] calls)))
  unfolding strategy_for_request by_request count orders_for_strategy
  owners_refined calls request_id strategy_id =
      let m : OrderIdentityMap X = run empty calls in
      let h : StandsFor m (owners [] calls) = run-StandsFor empty [] calls tt in
      (
        strategy-Owns m.next m.heap m.by_request_id (owners [] calls) request_id h,
        length-Owns m.next m.heap m.by_request_id (owners [] calls) h,
        orders-Owns m.next m.heap m.by_request_id (owners [] calls) strategy_id h,
      )
