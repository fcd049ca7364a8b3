-- ===== src/Gateway/Orders/Owned.antt =====
-- An index of requests that agrees with a dictionary from requests to strategies.
use bt_api_base.Prelude.{
  ℕ, suc, ◌<◌, String, ◌≡◌, refl, inl, inr, Option, none, some, [], ◌∷◌, ◌==◌, ==_iff, nat_key,
  string_key, arith, Bool-cases, Option-cases, sym, ◌∙◌, ap,
}
use bt_api_base.Prelude.Dict.{Dict, lookup, insert, erase, lookup-insert}
use bt_api_base.Gateway.Orders.{OrderEntry, change}

abbrev pub Owners : Type 0
Owners = Dict String String

module _ {X : Type 0} where
  abbrev pub signature : Option (OrderEntry X) → Option (String × String)
  signature none = none
  signature (some e) = some (e.request_id, e.strategy_id)

  -- The two dictionaries have the same keys in the same order, and the entry of a request is that
  -- of the request and its strategy.
  abbrev pub Owns : ℕ → Dict ℕ (OrderEntry X) → Dict String ℕ → Owners → Type 0
  Owns next heap [] [] = Unit
  Owns next heap [] (_ ∷ _) = ⊥
  Owns next heap (_ ∷ _) [] = ⊥
  Owns next heap ((r, a) ∷ d) ((q, s) ∷ o) =
      (r ≡ q) × (a < next) × (signature (lookup a heap) ≡ some (q, s)) × Owns next heap d o

  pub Owns-insert :
      (next : ℕ) (heap : Dict ℕ (OrderEntry X)) (r s : String) (a : ℕ) (d : Dict String ℕ)
      (o : Owners)
      → a < next
      → signature (lookup a heap) ≡ some (r, s)
      → Owns next heap d o
      → Owns next heap (insert r a d) (insert r s o)
  Owns-insert next heap r s a [] [] b e h = (refl, b, e, tt)
  Owns-insert next heap r s a ((j, c) ∷ d) ((q, t) ∷ o) b e h =
      ground (arith, Owns-insert next heap r s a d o b e h.3, ==_iff j r, ==_iff q r)
  Owns-insert next heap r s a [] (_ ∷ _) b e h = absurd h
  Owns-insert next heap r s a (_ ∷ _) [] b e h = absurd h

  pub Owns-erase :
      (next : ℕ) (heap : Dict ℕ (OrderEntry X)) (r : String) (d : Dict String ℕ) (o : Owners)
      → Owns next heap d o
      → Owns next heap (erase r d) (erase r o)
  Owns-erase next heap r [] [] h = tt
  Owns-erase next heap r ((j, c) ∷ d) ((q, t) ∷ o) h =
      ground (arith, Owns-erase next heap r d o h.3, ==_iff j r, ==_iff q r)
  Owns-erase next heap r [] (_ ∷ _) h = absurd h
  Owns-erase next heap r (_ ∷ _) [] h = absurd h

  pub Owns-new :
      (next : ℕ) (heap : Dict ℕ (OrderEntry X)) (e : OrderEntry X) (d : Dict String ℕ) (o : Owners)
      → Owns next heap d o
      → Owns (suc next) (insert next e heap) d o
  Owns-new next heap e [] [] h = tt
  Owns-new next heap e ((j, c) ∷ d) ((q, t) ∷ o) h =
      ground (arith, Owns-new next heap e d o h.3, lookup-insert next c e heap)
  Owns-new next heap e [] (_ ∷ _) h = absurd h
  Owns-new next heap e (_ ∷ _) [] h = absurd h

  pub signature-change :
      (a b : ℕ) (f : OrderEntry X → OrderEntry X) (heap : Dict ℕ (OrderEntry X))
      → ((e : OrderEntry X) → signature (some (f e)) ≡ signature (some e))
      → signature (lookup b (change a f heap)) ≡ signature (lookup b heap)
  signature-change a b f heap keeps = elim (Option-cases (lookup a heap)) [
    | inl e ↦ rw (change, e) refl
    | inr (x, e) ↦ elim (Bool-cases (a == b)) [
      | inl same ↦
          rw (change, e, lookup-insert a b (f x) heap, same)
            (keeps x ∙ ap signature (sym (ap (λ c. lookup c heap) (sym ((==_iff a b).0 same)) ∙ e)))
      | inr other ↦ rw (change, e, lookup-insert a b (f x) heap, other) refl
    ]
  ]

  pub Owns-change :
      (next a : ℕ) (f : OrderEntry X → OrderEntry X) (heap : Dict ℕ (OrderEntry X))
      (d : Dict String ℕ) (o : Owners)
      → ((e : OrderEntry X) → signature (some (f e)) ≡ signature (some e))
      → Owns next heap d o
      → Owns next (change a f heap) d o
  Owns-change next a f heap [] [] keeps h = tt
  Owns-change next a f heap ((j, c) ∷ d) ((q, t) ∷ o) keeps h =
      (h.0, h.1, signature-change a c f heap keeps ∙ h.2, Owns-change next a f heap d o keeps h.3)
  Owns-change next a f heap [] (_ ∷ _) keeps h = absurd h
  Owns-change next a f heap (_ ∷ _) [] keeps h = absurd h
