-- ===== src/Gateway/Orders/Lookups.antt =====
-- What the reads of an `OrderIdentityMap` give after a call.
use bt_api_base.Prelude.{
  ℕ, String, ◌≡◌, ◌≢◌, refl, Bool, true, false, Option, none, some, ◌==◌, ==_iff, ==_self, nat_key,
  string_key, if◌then◌else◌, arith, ◌∙◌, ap,
}
use bt_api_base.Prelude.Dict.{
  Dict, lookup, insert, erase, lookup-insert, lookup-erase, lookup-insert_self, lookup-erase_self,
}
use bt_api_base.Gateway.Orders.{
  OrderEntry, OrderIdentityMap, index_at, unindex, at, change, register, set_client_at,
  set_venue_at, forget, set_client_order_id, set_venue_order_id_by_client, remove, by_request,
  by_client, by_venue,
}
use bt_api_base.Gateway.Orders.Valid.{Held, IsValid}

-- Whether a name is given, and is this one.
abbrev pub names : Option String → String → Bool
names none j = false
names (some name) j = if name == "" then false else name == j

lookup-index_at :
    (o : Option String) (a : ℕ) (d : Dict String ℕ) (j : String)
    → lookup j (index_at o a d) ≡ (if names o j then some a else lookup j d)
lookup-index_at none a d j = refl
lookup-index_at (some name) a d j = ground (arith, lookup-insert name j a d)

lookup-unindex :
    (o : Option String) (d : Dict String ℕ) (j : String)
    → lookup j (unindex o d) ≡ (if names o j then none else lookup j d)
lookup-unindex none d j = refl
lookup-unindex (some name) d j = ground (arith, lookup-erase name j d)

lookup_renamed :
    (client other : String) (a : ℕ) (d : Dict String ℕ)
    → (client == "") ≡ false
    → client ≢ other
    → lookup client (unindex (some other) (insert other a (index_at (some client) a d))) ≡ some a
lookup_renamed client other a d given differ =
    lookup-unindex (some other) (insert other a (index_at (some client) a d)) client
    ∙ ground (
      arith,
      given,
      differ,
      ==_iff other client,
      ==_self client,
      lookup-insert other client a (index_at (some client) a d),
      lookup-index_at (some client) a d client,
    )

module _ {X : Type 0} where
  abbrev pub registered :
      String → String → Option String → Option String → Option String → X → OrderEntry X
  registered r s c v y x = record {
    request_id = r;
    strategy_id = s;
    client_order_id = c;
    venue_order_id = v;
    symbol = y;
    status = "pending";
    extra = x;
  }

  at-new :
      (next : ℕ) (heap : Dict ℕ (OrderEntry X)) (e : OrderEntry X) (o : Option ℕ)
      → Held next heap o
      → at (insert next e heap) o ≡ at heap o
  at-new next heap e none h = refl
  at-new next heap e (some a) h = ground (arith, lookup-insert next a e heap)

  read_new :
      (next : ℕ) (heap : Dict ℕ (OrderEntry X)) (e : OrderEntry X) (found : Bool) (o : Option ℕ)
      → Held next heap o
      → at (insert next e heap) (if found then some next else o)
        ≡ (if found then some e else at heap o)
  read_new next heap e true o h = lookup-insert_self next e heap
  read_new next heap e false o h = at-new next heap e o h

  -- On a map whose indices lead to existing entries, `register` makes the new entry what the request,
  -- the client's order and the venue's order lead to, each where it is given and not empty, and
  -- changes no other read.
  pub register_lem :
      (m : OrderIdentityMap X) (r s : String) (c v y : Option String) (x : X) (j : String)
      → IsValid m
      → (by_request (register m r s c v y x).0 j
          ≡ (if r == j then some (registered r s c v y x) else by_request m j))
        × (by_client (register m r s c v y x).0 j
            ≡ (if names c j then some (registered r s c v y x) else by_client m j))
        × (by_venue (register m r s c v y x).0 j
            ≡ (if names v j then some (registered r s c v y x) else by_venue m j))
  unfolding register by_request by_client by_venue
  register_lem m r s c v y x j valid =
      let e : OrderEntry X = registered r s c v y x in
      let heap : Dict ℕ (OrderEntry X) = insert m.next e m.heap in
      (
        ap (at heap) (lookup-insert r j m.next m.by_request_id)
            ∙ read_new m.next m.heap e (r == j) (lookup j m.by_request_id) (valid.0 j),
        ap (at heap) (lookup-index_at c m.next m.by_client_oid j)
            ∙ read_new m.next m.heap e (names c j) (lookup j m.by_client_oid) (valid.1 j),
        ap (at heap) (lookup-index_at v m.next m.by_venue_oid j)
            ∙ read_new m.next m.heap e (names v j) (lookup j m.by_venue_oid) (valid.2 j),
      )

  lookup-change_self :
      (a : ℕ) (f : OrderEntry X → OrderEntry X) (heap : Dict ℕ (OrderEntry X)) (e : OrderEntry X)
      → lookup a heap ≡ some e
      → lookup a (change a f heap) ≡ some (f e)
  lookup-change_self a f heap e h = rw (change, h) (lookup-insert_self a (f e) heap)

  -- Once an entry has its venue's order set, every name that led to it leads to the changed entry.
  set_venue_at_lem :
      (m : OrderIdentityMap X) (venue : String) (o : Option ℕ) (e : OrderEntry X)
      → at m.heap o ≡ some e
      → let m' : OrderIdentityMap X = (set_venue_at m venue o).0 in
        let changed : OrderEntry X = record e { venue_order_id = some venue } in
        (at m'.heap (lookup venue m'.by_venue_oid) ≡ some changed)
        × ((client : String)
            → lookup client m.by_client_oid ≡ o
            → at m'.heap (lookup client m'.by_client_oid) ≡ some changed)
        × ((request_id : String)
            → lookup request_id m.by_request_id ≡ o
            → at m'.heap (lookup request_id m'.by_request_id) ≡ some changed)
  set_venue_at_lem m venue none e h = cc
  set_venue_at_lem m venue (some a) e h =
      let f : OrderEntry X → OrderEntry X = λ e. record e { venue_order_id = some venue } in
      let stored : lookup a (change a f m.heap) ≡ some (f e) = lookup-change_self a f m.heap e h in
      (
        ap (at (change a f m.heap)) (lookup-insert_self venue a m.by_venue_oid) ∙ stored,
        λ client same. ap (at (change a f m.heap)) same ∙ stored,
        λ request_id same. ap (at (change a f m.heap)) same ∙ stored,
      )

  -- `set_venue_order_id_by_client` of a client's order with an entry: afterwards the client's order,
  -- the venue's order and every request with the same entry lead to it, with the venue's order set.
  pub set_venue_order_id_by_client_lem :
      (m : OrderIdentityMap X) (client venue : String) (e : OrderEntry X)
      → by_client m client ≡ some e
      → let m' : OrderIdentityMap X = (set_venue_order_id_by_client m client venue).0 in
        let changed : OrderEntry X = record e { venue_order_id = some venue } in
        (by_venue m' venue ≡ some changed)
        × (by_client m' client ≡ some changed)
        × ((request_id : String)
            → lookup request_id m.by_request_id ≡ lookup client m.by_client_oid
            → by_request m' request_id ≡ some changed)
  unfolding set_venue_order_id_by_client by_client by_venue by_request
  set_venue_order_id_by_client_lem m client venue e h =
      let all = set_venue_at_lem m venue (lookup client m.by_client_oid) e h in
      (all.0, all.1 client refl, all.2)

  remove_found :
      (m : OrderIdentityMap X) (r : String) (a : ℕ) (e : OrderEntry X)
      → lookup r m.by_request_id ≡ some a
      → lookup a m.heap ≡ some e
      → (remove m r).0 ≡ forget m (some e) (erase r m.by_request_id)
  unfolding remove
  remove_found m r a e h k = rw (remove, h, k) refl

  remove-registered :
      (m : OrderIdentityMap X) (r s : String) (c v y : Option String) (x : X)
      → (remove (register m r s c v y x).0 r).0
        ≡ forget
            (register m r s c v y x).0
            (some (registered r s c v y x))
            (erase r (insert r m.next m.by_request_id))
  unfolding register
  remove-registered m r s c v y x =
      remove_found (register m r s c v y x).0 r m.next (registered r s c v y x)
        (lookup-insert_self r m.next m.by_request_id)
        (lookup-insert_self m.next (registered r s c v y x) m.heap)

  read_back :
      (next : ℕ) (heap : Dict ℕ (OrderEntry X)) (e : OrderEntry X) (found : Bool) (o : Option ℕ)
      → Held next heap o
      → (found ≡ true → o ≡ none)
      → at (insert next e heap) (if found then none else (if found then some next else o))
        ≡ at heap o
  read_back next heap e true o h absent = rw (absent refl) refl
  read_back next heap e false o h absent = at-new next heap e o h

  -- On a map whose indices lead to existing entries, removing a request right after its registration
  -- takes every read back to what it was, where the request and the orders were not known before.
  pub remove-register :
      (m : OrderIdentityMap X) (r s : String) (c v y : Option String) (x : X) (j : String)
      → IsValid m
      → lookup r m.by_request_id ≡ none
      → ((i : String) → names c i ≡ true → lookup i m.by_client_oid ≡ none)
      → ((i : String) → names v i ≡ true → lookup i m.by_venue_oid ≡ none)
      → let m' : OrderIdentityMap X = (remove (register m r s c v y x).0 r).0 in
        (by_request m' j ≡ by_request m j)
        × (by_client m' j ≡ by_client m j)
        × (by_venue m' j ≡ by_venue m j)
  unfolding register by_request by_client by_venue
  remove-register m r s c v y x j valid new_request new_client new_venue =
      let e : OrderEntry X = registered r s c v y x in
      let heap : Dict ℕ (OrderEntry X) = insert m.next e m.heap in
      rw (remove-registered m r s c v y x) (
        ap (at heap) (
              lookup-erase r j (insert r m.next m.by_request_id)
              ∙ ap (λ o. if r == j then none else o) (lookup-insert r j m.next m.by_request_id))
            ∙ read_back m.next m.heap e (r == j) (lookup j m.by_request_id) (valid.0 j)
                (λ same. rw (← (==_iff r j).0 same) new_request),
        ap (at heap) (
              lookup-unindex c (index_at c m.next m.by_client_oid) j
              ∙ ap (λ o. if names c j then none else o)
                  (lookup-index_at c m.next m.by_client_oid j))
            ∙ read_back m.next m.heap e (names c j) (lookup j m.by_client_oid) (valid.1 j)
                (new_client j),
        ap (at heap) (
              lookup-unindex v (index_at v m.next m.by_venue_oid) j
              ∙ ap (λ o. if names v j then none else o) (lookup-index_at v m.next m.by_venue_oid j))
            ∙ read_back m.next m.heap e (names v j) (lookup j m.by_venue_oid) (valid.2 j)
                (new_venue j),
      )

  set_client_order_id_found :
      (m : OrderIdentityMap X) (r client : String) (a : ℕ)
      → lookup r m.by_request_id ≡ some a
      → (set_client_order_id m r client).0 ≡ (set_client_at m client (some a)).0
  unfolding set_client_order_id
  set_client_order_id_found m r client a h = rw (set_client_order_id, h) refl

  -- A client's order that `set_client_order_id` replaced by another one outlives the request: once a
  -- request with such an order is removed, the first order still leads to the removed entry.
  pub remove_leaves_replaced_client :
      (m : OrderIdentityMap X) (r s client other : String) (v y : Option String) (x : X)
      → (client == "") ≡ false
      → client ≢ other
      → let registered_map : OrderIdentityMap X = (register m r s (some client) v y x).0 in
        let renamed : OrderIdentityMap X = (set_client_order_id registered_map r other).0 in
        (by_request (remove renamed r).0 r ≡ none)
        × (by_client (remove renamed r).0 client ≡ some (registered r s (some other) v y x))
  unfolding register by_request by_client
  remove_leaves_replaced_client m r s client other v y x given differ =
      let e : OrderEntry X = registered r s (some client) v y x in
      let f : OrderEntry X → OrderEntry X = λ e. record e { client_order_id = some other } in
      let m' : OrderIdentityMap X = (register m r s (some client) v y x).0 in
      let known : lookup r m'.by_request_id ≡ some m.next =
        lookup-insert_self r m.next m.by_request_id in
      let stored : lookup m.next (change m.next f m'.heap) ≡ some (f e) =
        lookup-change_self m.next f m'.heap e (lookup-insert_self m.next e m.heap) in
      rw
        (
          set_client_order_id_found m' r other m.next known,
          remove_found (set_client_at m' other (some m.next)).0 r m.next (f e) known stored,
        )
        (
          ap (at (change m.next f m'.heap)) (lookup-erase_self r (insert r m.next m.by_request_id)),
          ap (at (change m.next f m'.heap))
                (lookup_renamed client other m.next m.by_client_oid given differ)
              ∙ stored,
        )
