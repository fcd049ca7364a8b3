-- ===== src/Instruments/Complete.antt =====
-- Which instruments are found by their venue and symbol.
use mathlib.Core.Bool.{false≢true}
use bt_api_base.Prelude.{
  String, ◌≡◌, ◌≢◌, refl, sym, ◌∙◌, ap, inl, inr, false, ◌&&◌, Option, none, some, List, [], ◌∷◌,
  string_key, ◌==◌, ==_iff, ==_self, Bool-cases, arith,
}
use bt_api_base.Prelude.Dict.{lookup}
use bt_api_base.Instruments.{
  Instrument, InstrumentManager, empty, register, register_many, get, get_by_venue,
}
use bt_api_base.Instruments.Indexed.{at, without, register-at, register-get}
use bt_api_base.Instruments.Venues.{same_instrument, not_both, both_same}

module _ {X : Type 0} where
  -- A registered instrument stands under its name, and is found by its venue and symbol.
  abbrev pub IsComplete : InstrumentManager X → Type 0
  IsComplete m =
      (k : String) (i : Instrument X)
      → lookup k m.instruments ≡ some i
      → (i.internal ≡ k) × (at m.by_venue i.venue i.venue_symbol ≡ some i)

  -- No other instrument has the venue and the symbol of this one.
  abbrev pub IsApart : InstrumentManager X → Instrument X → Type 0
  IsApart m i =
      (k : String) (j : Instrument X)
      → lookup k m.instruments ≡ some j
      → i.venue ≡ j.venue
      → i.venue_symbol ≡ j.venue_symbol
      → i.internal ≡ j.internal

  abbrev pub AllApart : InstrumentManager X → List (Instrument X) → Type 0
  AllApart m [] = Unit
  AllApart m (i ∷ instruments) = IsApart m i × AllApart (register i m) instruments

  -- Forgetting the instrument that is replaced does not hide another.
  kept_complete :
      (m : InstrumentManager X) (i j : Instrument X) (o : Option (Instrument X))
      → IsComplete m
      → lookup i.internal m.instruments ≡ o
      → at m.by_venue j.venue j.venue_symbol ≡ some j
      → (i.internal == j.internal) ≡ false
      → without o j.venue j.venue_symbol (at m.by_venue j.venue j.venue_symbol) ≡ some j
  kept_complete m i j none complete e h other = h
  kept_complete m i j (some p) complete e h other =
      elim (Bool-cases (p.venue == j.venue && p.venue_symbol == j.venue_symbol)) [
        | inr left ↦ rw left h
        | inl gone ↦
            let (name, found) = complete i.internal p e in
            let same : at m.by_venue p.venue p.venue_symbol ≡ at m.by_venue j.venue j.venue_symbol =
              ap (λ v. at m.by_venue v p.venue_symbol)
                (ground (arith, gone, ==_iff p.venue j.venue))
              ∙ ap (at m.by_venue j.venue)
                  (ground (arith, gone, ==_iff p.venue_symbol j.venue_symbol)) in
            let q : p ≡ j = same_instrument p j (sym found ∙ same ∙ h) in
            absurd (
              false≢true (
                sym other
                ∙ (==_iff i.internal j.internal).1
                    (sym name ∙ ap (λ (x : Instrument X). x.internal) q)))
      ]

  register-IsComplete :
      (i : Instrument X) (m : InstrumentManager X)
      → IsApart m i
      → IsComplete m
      → IsComplete (register i m)
  register-IsComplete i m apart complete k j h = elim (Bool-cases (i.internal == k)) [
    | inl new ↦
        let q : i ≡ j = same_instrument i j (rw new at (sym (register-get i m k) ∙ h)) in
        (
          ap (λ (x : Instrument X). x.internal) (sym q) ∙ (==_iff i.internal k).0 new,
          register-at i m j.venue j.venue_symbol
              ∙ rw
                  (both_same i.venue j.venue i.venue_symbol j.venue_symbol
                    (ap (λ (x : Instrument X). x.venue) q)
                    (ap (λ (x : Instrument X). x.venue_symbol) q))
                  (ap some q),
        )
    | inr old ↦
        let there : lookup k m.instruments ≡ some j = rw old at (sym (register-get i m k) ∙ h) in
        let (name, found) = complete k j there in
        let other : (i.internal == j.internal) ≡ false = ap (λ x. i.internal == x) name ∙ old in
        (
          name,
          register-at i m j.venue j.venue_symbol
              ∙ elim (Bool-cases (i.venue == j.venue && i.venue_symbol == j.venue_symbol)) [
                | inl clash ↦ absurd (
                    false≢true (
                      sym other
                      ∙ (==_iff i.internal j.internal).1 (
                          apart k j there (ground (arith, clash, ==_iff i.venue j.venue))
                            (ground (arith, clash, ==_iff i.venue_symbol j.venue_symbol)))))
                | inr free ↦ rw free (
                    kept_complete m i j (lookup i.internal m.instruments) complete refl found other)
              ],
        )
  ]

  register_many-IsComplete :
      (instruments : List (Instrument X)) (m : InstrumentManager X)
      → AllApart m instruments
      → IsComplete m
      → IsComplete (register_many instruments m)
  unfolding register_many
  register_many-IsComplete [] m apart complete = complete
  register_many-IsComplete (i ∷ instruments) m apart complete =
      register_many-IsComplete instruments (register i m) apart.1
        (register-IsComplete i m apart.0 complete)

  -- After registrations in which no two internal names share a venue and a symbol at one time, every
  -- registered instrument is found by its venue and symbol.
  pub venue_complete :
      (instruments : List (Instrument X)) (k : String) (i : Instrument X)
      → AllApart empty instruments
      → get (register_many instruments empty) k ≡ some i
      → (i.internal ≡ k)
        × (get_by_venue (register_many instruments empty) i.venue i.venue_symbol ≡ some i)
  unfolding get get_by_venue
  venue_complete instruments k i apart h =
      register_many-IsComplete instruments empty apart (λ k i e. absurd (not_both i none refl e)) k
        i h

  -- Where two internal names share a venue and a symbol, and the second one is then registered with
  -- another symbol, the first is registered but is not found by its venue and symbol.
  pub shared_symbol_lost :
      (a b c : Instrument X)
      → a.internal ≢ b.internal
      → b.internal ≡ c.internal
      → a.venue ≡ b.venue
      → a.venue_symbol ≡ b.venue_symbol
      → c.venue_symbol ≢ a.venue_symbol
      → (get (register_many (a ∷ b ∷ c ∷ []) empty) a.internal ≡ some a)
        × (get_by_venue (register_many (a ∷ b ∷ c ∷ []) empty) a.venue a.venue_symbol ≡ none)
  unfolding get get_by_venue register_many
  shared_symbol_lost a b c ab bc venue symbol moved =
      let m : InstrumentManager X = register a empty in
      let n : InstrumentManager X = register b m in
      (
        ground (
          arith,
          register-get c n a.internal,
          register-get b m a.internal,
          register-get a empty a.internal,
          ==_self a.internal,
          ==_iff b.internal a.internal,
          ==_iff c.internal a.internal,
          ab,
          bc,
        ),
        register-at c n a.venue a.venue_symbol
            ∙ rw
                (
                  elsewhere,
                  known,
                  both_same b.venue a.venue b.venue_symbol a.venue_symbol (sym venue) (sym symbol),
                )
                refl,
      )
    where
      elsewhere : (c.venue == a.venue && c.venue_symbol == a.venue_symbol) ≡ false
      elsewhere = ground (arith, ==_iff c.venue_symbol a.venue_symbol, moved)

      known : lookup c.internal (register b (register a empty)).instruments ≡ some b
      known =
          register-get b (register a empty) c.internal
          ∙ rw ((==_iff b.internal c.internal).1 bc) refl
