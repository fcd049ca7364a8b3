-- ===== src/Gateway/Orders.antt =====
-- `OrderIdentityMap` of gateway/order_identity_map.py. The three indices of the source share the
-- entries, which it changes in place: an entry is an object of a heap, and an index holds addresses. A method gives the
-- new state and the address of the entry that it returns.
-- `X` is the type of the further arguments of `register`. Each method holds the lock to its end.

pub mod Valid
pub mod Owned
pub mod Owners
pub mod Lookups
mod Tests
use bt_api_base.Prelude.{
  ℕ, suc, String, Bool, true, false, not, Option, none, some, List, [], ◌∷◌, ◌==◌, nat_key,
  string_key, if◌then◌else◌, length,
}
use bt_api_base.Prelude.Dict.{Dict, lookup, insert, erase, values}

pub record OrderEntry (X : Type 0) : Type 0 where
  pub request_id : String
  pub strategy_id : String
  pub client_order_id : Option String
  pub venue_order_id : Option String
  pub symbol : Option String
  pub status : String
  pub extra : X

-- `next` is the address of the next object.
pub record OrderIdentityMap (X : Type 0) : Type 0 where
  pub heap : Dict ℕ (OrderEntry X)
  pub next : ℕ
  pub by_request_id : Dict String ℕ
  pub by_client_oid : Dict String ℕ
  pub by_venue_oid : Dict String ℕ

-- `if name: index[name] = entry`: a name that is missing or empty is not indexed.
abbrev pub index_at : Option String → ℕ → Dict String ℕ → Dict String ℕ
index_at none a d = d
index_at (some name) a d = if name == "" then d else insert name a d

-- `if name: index.pop(name, None)`
abbrev pub unindex : Option String → Dict String ℕ → Dict String ℕ
unindex none d = d
unindex (some name) d = if name == "" then d else erase name d

-- The entry at an address, if there is one.
abbrev pub at : {X : Type 0} → Dict ℕ (OrderEntry X) → Option ℕ → Option (OrderEntry X)
at heap none = none
at heap (some a) = lookup a heap

-- An assignment to a field of the entry at an address.
abbrev pub change :
    {X : Type 0} → ℕ → (OrderEntry X → OrderEntry X) → Dict ℕ (OrderEntry X) → Dict ℕ (OrderEntry X)
change a f heap = elim (lookup a heap) [ none ↦ heap | some e ↦ insert a (f e) heap ]

module _ {X : Type 0} where
  abbrev pub empty : OrderIdentityMap X
  empty = record { heap = []; next = 0; by_request_id = []; by_client_oid = []; by_venue_oid = [] }

  unfoldable pub register :
      OrderIdentityMap X
      → String
      → String
      → Option String
      → Option String
      → Option String
      → X
      → OrderIdentityMap X × ℕ
  register m request_id strategy_id client venue symbol extra =
      let entry : OrderEntry X = record {
        request_id = request_id;
        strategy_id = strategy_id;
        client_order_id = client;
        venue_order_id = venue;
        symbol = symbol;
        status = "pending";
        extra = extra;
      } in
      (
        record {
          heap = insert m.next entry m.heap;
          next = suc m.next;
          by_request_id = insert request_id m.next m.by_request_id;
          by_client_oid = index_at client m.next m.by_client_oid;
          by_venue_oid = index_at venue m.next m.by_venue_oid;
        },
        m.next,
      )

  -- What `set_client_order_id` does to the entry that it finds.
  abbrev pub set_client_at : OrderIdentityMap X → String → Option ℕ → OrderIdentityMap X × Option ℕ
  set_client_at m client none = (m, none)
  set_client_at m client (some a) = (
    record m {
      heap = change a (λ e. record e { client_order_id = some client }) m.heap;
      by_client_oid = insert client a m.by_client_oid;
    },
    some a,
  )

  unfoldable pub set_client_order_id :
      OrderIdentityMap X → String → String → OrderIdentityMap X × Option ℕ
  set_client_order_id m request_id client =
      set_client_at m client (lookup request_id m.by_request_id)

  -- What `set_venue_order_id` and `set_venue_order_id_by_client` do to the entry that they find.
  abbrev pub set_venue_at : OrderIdentityMap X → String → Option ℕ → OrderIdentityMap X × Option ℕ
  set_venue_at m venue none = (m, none)
  set_venue_at m venue (some a) = (
    record m {
      heap = change a (λ e. record e { venue_order_id = some venue }) m.heap;
      by_venue_oid = insert venue a m.by_venue_oid;
    },
    some a,
  )

  unfoldable pub set_venue_order_id :
      OrderIdentityMap X → String → String → OrderIdentityMap X × Option ℕ
  set_venue_order_id m request_id venue = set_venue_at m venue (lookup request_id m.by_request_id)

  unfoldable pub set_venue_order_id_by_client :
      OrderIdentityMap X → String → String → OrderIdentityMap X × Option ℕ
  set_venue_order_id_by_client m client venue = set_venue_at m venue (lookup client m.by_client_oid)

  abbrev pub set_status_at : OrderIdentityMap X → String → Option ℕ → OrderIdentityMap X × Option ℕ
  set_status_at m status none = (m, none)
  set_status_at m status (some a) =
      (record m { heap = change a (λ e. record e { status = status }) m.heap }, some a)

  unfoldable pub update_status :
      OrderIdentityMap X → String → String → OrderIdentityMap X × Option ℕ
  update_status m request_id status = set_status_at m status (lookup request_id m.by_request_id)

  unfoldable pub by_request : OrderIdentityMap X → String → Option (OrderEntry X)
  by_request m request_id = at m.heap (lookup request_id m.by_request_id)

  unfoldable pub by_client : OrderIdentityMap X → String → Option (OrderEntry X)
  by_client m client = at m.heap (lookup client m.by_client_oid)

  unfoldable pub by_venue : OrderIdentityMap X → String → Option (OrderEntry X)
  by_venue m venue = at m.heap (lookup venue m.by_venue_oid)

  abbrev pub strategy_of : Option (OrderEntry X) → Option String
  strategy_of none = none
  strategy_of (some e) = some e.strategy_id

  unfoldable pub strategy_for_request : OrderIdentityMap X → String → Option String
  unfolding by_request
  strategy_for_request m request_id = strategy_of (by_request m request_id)

  unfoldable pub strategy_for_venue : OrderIdentityMap X → String → Option String
  unfolding by_venue
  strategy_for_venue m venue = strategy_of (by_venue m venue)

  -- The names to take out are read from the entry that is removed.
  abbrev pub forget :
      OrderIdentityMap X → Option (OrderEntry X) → Dict String ℕ → OrderIdentityMap X
  forget m none requests = record m { by_request_id = requests }
  forget m (some e) requests = record m {
    by_request_id = requests;
    by_client_oid = unindex e.client_order_id m.by_client_oid;
    by_venue_oid = unindex e.venue_order_id m.by_venue_oid;
  }

  unfoldable pub remove : OrderIdentityMap X → String → OrderIdentityMap X × Option ℕ
  remove m request_id = elim (lookup request_id m.by_request_id) [
    | none ↦ (m, none)
    | some a ↦ (forget m (lookup a m.heap) (erase request_id m.by_request_id), some a)
  ]

  -- The comprehension of `orders_for_strategy`.
  unfoldable pub orders_of : String → Dict ℕ (OrderEntry X) → List ℕ → List (OrderEntry X)
  orders_of strategy_id heap [] = []
  orders_of strategy_id heap (a ∷ more) =
      let rest = orders_of strategy_id heap more in
      elim (lookup a heap) [
        | none ↦ rest
        | some e ↦ if e.strategy_id == strategy_id then e ∷ rest else rest
      ]

  unfoldable pub orders_for_strategy : OrderIdentityMap X → String → List (OrderEntry X)
  unfolding orders_of
  orders_for_strategy m strategy_id = orders_of strategy_id m.heap (values m.by_request_id)

  unfoldable pub count : OrderIdentityMap X → ℕ
  count m = length m.by_request_id
