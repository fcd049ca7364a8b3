-- ===== src/Gateway/Orders/Valid.antt =====
-- The calls of an `OrderIdentityMap`, and what every index of it holds.
use bt_api_base.Prelude.{
  ℕ, suc, ◌<◌, String, ◌≢◌, inl, inr, Option, none, some, List, [], ◌∷◌, ◌==◌, nat_key, string_key,
  arith, Bool-cases, Option-cases,
}
use bt_api_base.Prelude.Dict.{
  Dict, lookup, insert, erase, lookup-insert, lookup-erase, lookup-insert_self,
}
use bt_api_base.Gateway.Orders.{
  OrderEntry, OrderIdentityMap, index_at, unindex, change, register, set_client_at, set_venue_at,
  set_status_at, set_client_order_id, set_venue_order_id, set_venue_order_id_by_client,
  update_status, remove, forget,
}

pub data Call (X : Type 0) : Type 0 where
  registers : (request_id strategy_id : String) → (client venue symbol : Option String) → X → Call X
  sets_client : (request_id client : String) → Call X
  sets_venue : (request_id venue : String) → Call X
  sets_venue_by_client : (client venue : String) → Call X
  updates : (request_id status : String) → Call X
  removes : (request_id : String) → Call X

module _ {X : Type 0} where
  unfoldable pub call : OrderIdentityMap X → Call X → OrderIdentityMap X
  call m (registers r s c v y x) = (register m r s c v y x).0
  call m (sets_client r c) = (set_client_order_id m r c).0
  call m (sets_venue r v) = (set_venue_order_id m r v).0
  call m (sets_venue_by_client c v) = (set_venue_order_id_by_client m c v).0
  call m (updates r s) = (update_status m r s).0
  call m (removes r) = (remove m r).0

  unfoldable pub run : OrderIdentityMap X → List (Call X) → OrderIdentityMap X
  run m [] = m
  run m (c ∷ calls) = run (call m c) calls

  -- An address that an index gives has been given out, and there is an entry at it.
  abbrev pub Held : ℕ → Dict ℕ (OrderEntry X) → Option ℕ → Type 0
  Held next heap none = Unit
  Held next heap (some a) = (a < next) × (lookup a heap ≢ none)

  abbrev pub IsHeld : ℕ → Dict ℕ (OrderEntry X) → Dict String ℕ → Type 0
  IsHeld next heap d = (j : String) → Held next heap (lookup j d)

  abbrev pub IsValid : OrderIdentityMap X → Type 0
  IsValid m =
      IsHeld m.next m.heap m.by_request_id
      × IsHeld m.next m.heap m.by_client_oid
      × IsHeld m.next m.heap m.by_venue_oid

  Held-insert :
      (next : ℕ) (heap : Dict ℕ (OrderEntry X)) (e : OrderEntry X) (o : Option ℕ)
      → Held next heap o
      → Held (suc next) (insert next e heap) o
  Held-insert next heap e none h = tt
  Held-insert next heap e (some a) h = ground (arith, lookup-insert next a e heap)

  Held-new :
      (next : ℕ) (heap : Dict ℕ (OrderEntry X)) (e : OrderEntry X)
      → Held (suc next) (insert next e heap) (some next)
  Held-new next heap e = ground (arith, lookup-insert_self next e heap)

  Held-change :
      (next a : ℕ) (f : OrderEntry X → OrderEntry X) (heap : Dict ℕ (OrderEntry X)) (o : Option ℕ)
      → Held next heap o
      → Held next (change a f heap) o
  Held-change next a f heap none h = tt
  Held-change next a f heap (some b) h = elim (Option-cases (lookup a heap)) [
    | inl e ↦ rw (change, e) h
    | inr (x, e) ↦ rw (change, e) ground (arith, lookup-insert a b (f x) heap)
  ]

  IsHeld-insert :
      (next : ℕ) (heap : Dict ℕ (OrderEntry X)) (d : Dict String ℕ) (k : String) (a : ℕ)
      → Held next heap (some a)
      → IsHeld next heap d
      → IsHeld next heap (insert k a d)
  IsHeld-insert next heap d k a new h j = elim (Bool-cases (k == j)) [
    | inl here ↦ rw (lookup-insert k j a d, here) new
    | inr other ↦ rw (lookup-insert k j a d, other) (h j)
  ]

  IsHeld-erase :
      (next : ℕ) (heap : Dict ℕ (OrderEntry X)) (d : Dict String ℕ) (k : String)
      → IsHeld next heap d
      → IsHeld next heap (erase k d)
  IsHeld-erase next heap d k h j = elim (Bool-cases (k == j)) [
    | inl here ↦ rw (lookup-erase k j d, here) tt
    | inr other ↦ rw (lookup-erase k j d, other) (h j)
  ]

  IsHeld-index_at :
      (next : ℕ) (heap : Dict ℕ (OrderEntry X)) (d : Dict String ℕ) (o : Option String) (a : ℕ)
      → Held next heap (some a)
      → IsHeld next heap d
      → IsHeld next heap (index_at o a d)
  IsHeld-index_at next heap d none a new h = h
  IsHeld-index_at next heap d (some name) a new h = elim (Bool-cases (name == "")) [
    | inl no_name ↦ rw no_name h
    | inr named ↦ rw named (IsHeld-insert next heap d name a new h)
  ]

  IsHeld-unindex :
      (next : ℕ) (heap : Dict ℕ (OrderEntry X)) (d : Dict String ℕ) (o : Option String)
      → IsHeld next heap d
      → IsHeld next heap (unindex o d)
  IsHeld-unindex next heap d none h = h
  IsHeld-unindex next heap d (some name) h = elim (Bool-cases (name == "")) [
    | inl no_name ↦ rw no_name h
    | inr named ↦ rw named (IsHeld-erase next heap d name h)
  ]

  IsHeld-later :
      (next : ℕ) (heap : Dict ℕ (OrderEntry X)) (e : OrderEntry X) (d : Dict String ℕ)
      → IsHeld next heap d
      → IsHeld (suc next) (insert next e heap) d
  IsHeld-later next heap e d h j = Held-insert next heap e (lookup j d) (h j)

  IsHeld-change :
      (next a : ℕ) (f : OrderEntry X → OrderEntry X) (heap : Dict ℕ (OrderEntry X))
      (d : Dict String ℕ)
      → IsHeld next heap d
      → IsHeld next (change a f heap) d
  IsHeld-change next a f heap d h j = Held-change next a f heap (lookup j d) (h j)

  pub register-IsValid :
      (m : OrderIdentityMap X) (r s : String) (c v y : Option String) (x : X)
      → IsValid m
      → IsValid (register m r s c v y x).0
  unfolding register
  register-IsValid m r s c v y x (requests, clients, venues) =
      let new : Held (suc m.next) (insert m.next _ m.heap) (some m.next) =
        Held-new m.next m.heap _ in
      (
        IsHeld-insert _ _ m.by_request_id r m.next new
            (IsHeld-later m.next m.heap _ m.by_request_id requests),
        IsHeld-index_at _ _ m.by_client_oid c m.next new
            (IsHeld-later m.next m.heap _ m.by_client_oid clients),
        IsHeld-index_at _ _ m.by_venue_oid v m.next new
            (IsHeld-later m.next m.heap _ m.by_venue_oid venues),
      )

  set_client_at-IsValid :
      (m : OrderIdentityMap X) (c : String) (o : Option ℕ)
      → Held m.next m.heap o
      → IsValid m
      → IsValid (set_client_at m c o).0
  set_client_at-IsValid m c none h v = v
  set_client_at-IsValid m c (some a) h (requests, clients, venues) =
      let f : OrderEntry X → OrderEntry X = λ e. record e { client_order_id = some c } in
      (
        IsHeld-change m.next a f m.heap m.by_request_id requests,
        IsHeld-insert m.next (change a f m.heap) m.by_client_oid c a
            (Held-change m.next a f m.heap (some a) h)
            (IsHeld-change m.next a f m.heap m.by_client_oid clients),
        IsHeld-change m.next a f m.heap m.by_venue_oid venues,
      )

  set_venue_at-IsValid :
      (m : OrderIdentityMap X) (c : String) (o : Option ℕ)
      → Held m.next m.heap o
      → IsValid m
      → IsValid (set_venue_at m c o).0
  set_venue_at-IsValid m c none h v = v
  set_venue_at-IsValid m c (some a) h (requests, clients, venues) =
      let f : OrderEntry X → OrderEntry X = λ e. record e { venue_order_id = some c } in
      (
        IsHeld-change m.next a f m.heap m.by_request_id requests,
        IsHeld-change m.next a f m.heap m.by_client_oid clients,
        IsHeld-insert m.next (change a f m.heap) m.by_venue_oid c a
            (Held-change m.next a f m.heap (some a) h)
            (IsHeld-change m.next a f m.heap m.by_venue_oid venues),
      )

  set_status_at-IsValid :
      (m : OrderIdentityMap X) (s : String) (o : Option ℕ)
      → IsValid m
      → IsValid (set_status_at m s o).0
  set_status_at-IsValid m s none v = v
  set_status_at-IsValid m s (some a) (requests, clients, venues) =
      let f : OrderEntry X → OrderEntry X = λ e. record e { status = s } in
      (
        IsHeld-change m.next a f m.heap m.by_request_id requests,
        IsHeld-change m.next a f m.heap m.by_client_oid clients,
        IsHeld-change m.next a f m.heap m.by_venue_oid venues,
      )

  forget-IsValid :
      (m : OrderIdentityMap X) (r : String) (o : Option (OrderEntry X))
      → IsValid m
      → IsValid (forget m o (erase r m.by_request_id))
  forget-IsValid m r none (requests, clients, venues) =
      (IsHeld-erase m.next m.heap m.by_request_id r requests, clients, venues)
  forget-IsValid m r (some e) (requests, clients, venues) = (
    IsHeld-erase m.next m.heap m.by_request_id r requests,
    IsHeld-unindex m.next m.heap m.by_client_oid e.client_order_id clients,
    IsHeld-unindex m.next m.heap m.by_venue_oid e.venue_order_id venues,
  )

  remove-IsValid : (m : OrderIdentityMap X) (r : String) → IsValid m → IsValid (remove m r).0
  unfolding remove
  remove-IsValid m r v = elim (Option-cases (lookup r m.by_request_id)) [
    | inl e ↦ rw (remove, e) v
    | inr (a, e) ↦ rw (remove, e) (forget-IsValid m r (lookup a m.heap) v)
  ]

  pub call-IsValid : (m : OrderIdentityMap X) (c : Call X) → IsValid m → IsValid (call m c)
  unfolding call set_client_order_id set_venue_order_id set_venue_order_id_by_client update_status
  call-IsValid m (registers r s c v y x) h = register-IsValid m r s c v y x h
  call-IsValid m (sets_client r c) h =
      set_client_at-IsValid m c (lookup r m.by_request_id) (h.0 r) h
  call-IsValid m (sets_venue r v) h = set_venue_at-IsValid m v (lookup r m.by_request_id) (h.0 r) h
  call-IsValid m (sets_venue_by_client c v) h =
      set_venue_at-IsValid m v (lookup c m.by_client_oid) (h.1 c) h
  call-IsValid m (updates r s) h = set_status_at-IsValid m s (lookup r m.by_request_id) h
  call-IsValid m (removes r) h = remove-IsValid m r h

  run_from-IsValid :
      (m : OrderIdentityMap X) (calls : List (Call X)) → IsValid m → IsValid (run m calls)
  unfolding run
  run_from-IsValid m [] h = h
  run_from-IsValid m (c ∷ calls) h = run_from-IsValid (call m c) calls (call-IsValid m c h)
