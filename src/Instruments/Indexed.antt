-- ===== src/Instruments/Indexed.antt =====
-- Whether the index by venue and symbol agrees with the instruments.
use bt_api_base.Prelude.{
  String, ◌≡◌, refl, sym, ◌∙◌, ap, inl, inr, true, ◌&&◌, Option, none, some, [], ◌∷◌, null,
  string_key, if◌then◌else◌, ◌==◌, ==_iff, Bool-cases, arith,
}
use bt_api_base.Prelude.Dict.{Dict, lookup, insert, erase, lookup-insert, lookup-erase}
use bt_api_base.Instruments.{
  Instrument, InstrumentManager, dict_or_empty, drop_symbol, forget, store, register,
}

module _ {X : Type 0} where
  abbrev pub at : Dict String (Dict String (Instrument X)) → String → String → Option (Instrument X)
  at d venue venue_symbol = lookup venue_symbol (dict_or_empty (lookup venue d))

  null-lookup : (d : Dict String (Instrument X)) (s : String) → null d ≡ true → lookup s d ≡ none
  null-lookup [] s h = refl
  null-lookup (_ ∷ d) s h = cc

  at-erase :
      (venue v s : String) (d : Dict String (Dict String (Instrument X)))
      → at (erase venue d) v s ≡ (if venue == v then none else at d v s)
  at-erase venue v s d = elim (Bool-cases (venue == v)) [
    | inl same ↦ rw (lookup-erase venue v d, same) refl
    | inr other ↦ rw (lookup-erase venue v d, other) refl
  ]

  at-insert :
      (venue v s : String) (symbols : Dict String (Instrument X))
      (d : Dict String (Dict String (Instrument X)))
      → at (insert venue symbols d) v s ≡ (if venue == v then lookup s symbols else at d v s)
  at-insert venue v s symbols d = elim (Bool-cases (venue == v)) [
    | inl same ↦ rw (lookup-insert venue v symbols d, same) refl
    | inr other ↦ rw (lookup-insert venue v symbols d, other) refl
  ]

  at-drop_symbol :
      (venue symbol v s : String) (o : Option (Dict String (Instrument X)))
      (d : Dict String (Dict String (Instrument X)))
      → lookup venue d ≡ o
      → at (drop_symbol venue symbol o d) v s
        ≡ (if venue == v && symbol == s then none else at d v s)
  at-drop_symbol venue symbol v s none d e = elim (Bool-cases (venue == v)) [
    | inl same ↦
        rw (same, ap (λ x. lookup x d) (sym ((==_iff venue v).0 same)) ∙ e)
          (elim (Bool-cases (symbol == s)) [ inl a ↦ rw a refl | inr a ↦ rw a refl ])
    | inr other ↦ rw other refl
  ]
  at-drop_symbol venue symbol v s (some symbols) d e =
      elim (Bool-cases (null (erase symbol symbols))) [
        | inl gone ↦ rw gone (
            at-erase venue v s d
            ∙ ground (
              arith,
              inside,
              lookup-erase symbol s symbols,
              null-lookup (erase symbol symbols) s gone,
            ))
        | inr left ↦ rw left (
            at-insert venue v s (erase symbol symbols) d
            ∙ ground (arith, inside, lookup-erase symbol s symbols))
      ]
    where
      inside : (venue == v) ≡ true → at d v s ≡ lookup s symbols
      inside same =
          ap (λ x. at d x s) (sym ((==_iff venue v).0 same))
          ∙ ap (λ x. lookup s (dict_or_empty x)) e

  -- What the index gives, once an instrument is forgotten or stored.
  abbrev pub without :
      Option (Instrument X) → String → String → Option (Instrument X) → Option (Instrument X)
  without none v s old = old
  without (some p) v s old = if p.venue == v && p.venue_symbol == s then none else old

  at-forget :
      (o : Option (Instrument X)) (m : InstrumentManager X) (v s : String)
      → at (forget o m).by_venue v s ≡ without o v s (at m.by_venue v s)
  at-forget none m v s = refl
  at-forget (some p) m v s =
      at-drop_symbol p.venue p.venue_symbol v s (lookup p.venue m.by_venue) m.by_venue refl

  at-store :
      (i : Instrument X) (m : InstrumentManager X) (v s : String)
      → at (store i m).by_venue v s
        ≡ (if i.venue == v && i.venue_symbol == s then some i else at m.by_venue v s)
  at-store i m v s =
      at-insert i.venue v s (insert i.venue_symbol i (dict_or_empty (lookup i.venue m.by_venue)))
        m.by_venue
      ∙ ground (
        arith,
        lookup-insert i.venue_symbol s i (dict_or_empty (lookup i.venue m.by_venue)),
        here,
      )
    where
      here :
          (i.venue == v) ≡ true
          → at m.by_venue v s ≡ lookup s (dict_or_empty (lookup i.venue m.by_venue))
      here same = ap (λ x. at m.by_venue x s) (sym ((==_iff i.venue v).0 same))

  forget-instruments :
      (o : Option (Instrument X)) (m : InstrumentManager X)
      → (forget o m).instruments ≡ m.instruments
  forget-instruments none m = refl
  forget-instruments (some p) m = refl

  -- The two indices after a registration.
  pub register-at :
      (i : Instrument X) (m : InstrumentManager X) (v s : String)
      → at (register i m).by_venue v s ≡ (
          if i.venue == v && i.venue_symbol == s
          then some i
          else without (lookup i.internal m.instruments) v s (at m.by_venue v s))
  unfolding register
  register-at i m v s =
      at-store i (forget (lookup i.internal m.instruments) m) v s
      ∙ ap (λ old. if i.venue == v && i.venue_symbol == s then some i else old)
          (at-forget (lookup i.internal m.instruments) m v s)

  pub register-get :
      (i : Instrument X) (m : InstrumentManager X) (k : String)
      → lookup k (register i m).instruments
        ≡ (if i.internal == k then some i else lookup k m.instruments)
  unfolding register
  register-get i m k =
      ap (λ d. lookup k (insert i.internal i d))
        (forget-instruments (lookup i.internal m.instruments) m)
      ∙ lookup-insert i.internal k i m.instruments
