-- ===== src/Instruments/Venues.antt =====
-- What a lookup by venue and symbol gives.
use mathlib.Core.Bool.{false≢true}
use bt_api_base.Prelude.{
  String, ◌≡◌, refl, sym, ◌∙◌, ap, inl, inr, true, false, ◌&&◌, Option, none, some, List, [], ◌∷◌,
  string_key, ◌==◌, ==_iff, ==_self, Bool-cases, arith,
}
use bt_api_base.Prelude.Dict.{lookup}
use bt_api_base.Instruments.{
  Instrument, InstrumentManager, empty, register, register_many, get, get_by_venue,
}
use bt_api_base.Instruments.Indexed.{at, without, register-at, register-get}

pub both_same : (v w s t : String) → v ≡ w → s ≡ t → (v == w && s == t) ≡ true
both_same v w s t a b = ground (arith, a, b, ==_self w, ==_self t)

module _ {X : Type 0} where
  pub same_instrument : (i j : Instrument X) → some i ≡ some j → i ≡ j
  same_instrument i j e = ap (λ o. elim o [ none ↦ i | some x ↦ x ]) e

  pub not_both : (i : Instrument X) (o : Option (Instrument X)) → o ≡ none → o ≡ some i → ⊥
  not_both i o a b = ground (arith, a, b)

  -- What the index leads to is registered, under the venue and the symbol that were looked up.
  abbrev pub IsSound : InstrumentManager X → Type 0
  IsSound m =
      (v s : String) (i : Instrument X)
      → at m.by_venue v s ≡ some i
      → (lookup i.internal m.instruments ≡ some i) × (i.venue ≡ v) × (i.venue_symbol ≡ s)

  -- `j` was found before `i` is registered, and is still found.
  kept_sound :
      (m : InstrumentManager X) (i j : Instrument X) (v s : String) (o : Option (Instrument X))
      → IsSound m
      → lookup i.internal m.instruments ≡ o
      → without o v s (at m.by_venue v s) ≡ some j
      → (lookup j.internal m.instruments ≡ some j)
        × (j.venue ≡ v)
        × (j.venue_symbol ≡ s)
        × ((i.internal == j.internal) ≡ false)
  kept_sound m i j v s none sound e h =
      let (a, b, c) = sound v s j h in
      (
        a,
        b,
        c,
        elim (Bool-cases (i.internal == j.internal)) [
          | inl same ↦ absurd (
              not_both j (lookup j.internal m.instruments)
                (ap (λ x. lookup x m.instruments) (sym ((==_iff i.internal j.internal).0 same)) ∙ e)
                a)
          | inr other ↦ other
        ],
      )
  kept_sound m i j v s (some p) sound e h =
      elim (Bool-cases (p.venue == v && p.venue_symbol == s)) [
        | inl gone ↦ absurd (not_both j none refl (rw gone at h))
        | inr left ↦
            let (a, b, c) = sound v s j (rw left at h) in
            (
              a,
              b,
              c,
              elim (Bool-cases (i.internal == j.internal)) [
                | inl same ↦
                    let q : p ≡ j = same_instrument p j (
                      sym e
                      ∙ ap (λ x. lookup x m.instruments) ((==_iff i.internal j.internal).0 same)
                      ∙ a) in
                    absurd (
                      false≢true (
                        sym left
                        ∙ both_same p.venue v p.venue_symbol s
                            (ap (λ (x : Instrument X). x.venue) q ∙ b)
                            (ap (λ (x : Instrument X). x.venue_symbol) q ∙ c)))
                | inr other ↦ other
              ],
            )
      ]

  register-IsSound :
      (i : Instrument X) (m : InstrumentManager X) → IsSound m → IsSound (register i m)
  register-IsSound i m sound v s j h = elim (Bool-cases (i.venue == v && i.venue_symbol == s)) [
    | inl new ↦
        let q : i ≡ j = same_instrument i j (rw new at (sym (register-at i m v s) ∙ h)) in
        (
          register-get i m j.internal
              ∙ rw (ap (λ (x : Instrument X). x.internal == j.internal) q ∙ ==_self j.internal)
                  (ap some q),
          ap (λ (x : Instrument X). x.venue) (sym q) ∙ ground (arith, new, ==_iff i.venue v),
          ap (λ (x : Instrument X). x.venue_symbol) (sym q)
              ∙ ground (arith, new, ==_iff i.venue_symbol s),
        )
    | inr old ↦
        let (a, b, c, other) =
          kept_sound m i j v s (lookup i.internal m.instruments) sound refl
            (rw old at (sym (register-at i m v s) ∙ h)) in
        (register-get i m j.internal ∙ rw other a, b, c)
  ]

  register_many-IsSound :
      (instruments : List (Instrument X)) (m : InstrumentManager X)
      → IsSound m
      → IsSound (register_many instruments m)
  unfolding register_many
  register_many-IsSound [] m sound = sound
  register_many-IsSound (i ∷ instruments) m sound =
      register_many-IsSound instruments (register i m) (register-IsSound i m sound)

  -- After any registrations, an instrument that is found by a venue and a symbol has that venue and
  -- symbol, and is the one that is registered under its internal name.
  pub venue_sound :
      (instruments : List (Instrument X)) (v s : String) (i : Instrument X)
      → get_by_venue (register_many instruments empty) v s ≡ some i
      → (get (register_many instruments empty) i.internal ≡ some i)
        × (i.venue ≡ v)
        × (i.venue_symbol ≡ s)
  unfolding get get_by_venue
  venue_sound instruments v s i h =
      register_many-IsSound instruments empty (λ v s i e. absurd (not_both i none refl e)) v s i h
