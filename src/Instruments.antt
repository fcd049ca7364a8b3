-- ===== src/Instruments.antt =====
-- `InstrumentManager` of instrument_manager.py, which finds instruments by their internal name, by
-- venue and symbol, and by underlying. An instrument never changes, so an index holds it as a value.
-- Each method holds the lock. `X` is the type of the fields that the manager does not read.

pub mod Indexed
pub mod Venues
pub mod Complete
mod Tests
use bt_api_base.Prelude.{
  ℕ, String, Bool, true, false, not, ◌&&◌, Option, none, some, List, [], ◌∷◌, ◌++◌, select, null,
  length, string_key, if◌then◌else◌, ◌==◌, nat_key,
}
use bt_api_base.Prelude.Dict.{Dict, keys, values, lookup, insert, erase}

pub data AssetType : Type 0 where
  spot swap future option stk fund bond fx index : AssetType

-- `is_listed` depends on the clock; it is given to `find`.
pub record Instrument (X : Type 0) : Type 0 where
  pub internal : String
  pub venue : String
  pub venue_symbol : String
  pub asset_type : AssetType
  pub underlying : Option String
  pub other : X

abbrev pub code_of : AssetType → ℕ
code_of spot = 0
code_of swap = 1
code_of future = 2
code_of option = 3
code_of stk = 4
code_of fund = 5
code_of bond = 6
code_of fx = 7
code_of index = 8

-- `if x.underlying:`
abbrev pub named : Option String → Option String
named none = none
named (some name) = if name == "" then none else some name

-- A filter that is missing or empty lets all pass.
abbrev pub matches : Option String → String → Bool
matches none value = true
matches (some name) value = if name == "" then true else value == name

abbrev pub matches_option : Option String → Option String → Bool
matches_option none value = true
matches_option (some name) none = name == ""
matches_option (some name) (some value) = if name == "" then true else value == name

abbrev pub matches_type : Option AssetType → AssetType → Bool
matches_type none value = true
matches_type (some t) value = code_of value == code_of t

module _ {X : Type 0} where
  abbrev pub dict_or_empty : Option (Dict String (Instrument X)) → Dict String (Instrument X)
  dict_or_empty none = []
  dict_or_empty (some d) = d

  abbrev pub list_or_empty : Option (List (Instrument X)) → List (Instrument X)
  list_or_empty none = []
  list_or_empty (some l) = l

pub record InstrumentManager (X : Type 0) : Type 0 where
  pub instruments : Dict String (Instrument X)
  pub by_venue : Dict String (Dict String (Instrument X))
  pub by_underlying : Dict String (List (Instrument X))

module _ {X : Type 0} where
  abbrev pub empty : InstrumentManager X
  empty = record { instruments = []; by_venue = []; by_underlying = [] }

  -- The symbol is taken out of the venue's dictionary, and an empty dictionary out of the index.
  abbrev pub drop_symbol :
      String
      → String
      → Option (Dict String (Instrument X))
      → Dict String (Dict String (Instrument X))
      → Dict String (Dict String (Instrument X))
  drop_symbol venue venue_symbol none d = d
  drop_symbol venue venue_symbol (some symbols) d =
      if null (erase venue_symbol symbols)
      then erase venue d
      else insert venue (erase venue_symbol symbols) d

  abbrev pub drop_internal :
      String
      → String
      → Option (List (Instrument X))
      → Dict String (List (Instrument X))
      → Dict String (List (Instrument X))
  drop_internal internal underlying none d = d
  drop_internal internal underlying (some found) d =
      let filtered = select (λ i. not (i.internal == internal)) found in
      if null filtered then erase underlying d else insert underlying filtered d

  abbrev pub drop_underlying :
      String → Option String → Dict String (List (Instrument X)) → Dict String (List (Instrument X))
  drop_underlying internal none d = d
  drop_underlying internal (some underlying) d =
      drop_internal internal underlying (lookup underlying d) d

  -- What the replaced instrument leaves behind is taken out of the indices.
  abbrev pub forget : Option (Instrument X) → InstrumentManager X → InstrumentManager X
  forget none m = m
  forget (some previous) m = record m {
    by_venue =
        drop_symbol previous.venue previous.venue_symbol (lookup previous.venue m.by_venue)
          m.by_venue;
    by_underlying = drop_underlying previous.internal (named previous.underlying) m.by_underlying;
  }

  abbrev pub index_underlying :
      Instrument X
      → Option String
      → Dict String (List (Instrument X))
      → Dict String (List (Instrument X))
  index_underlying i none d = d
  index_underlying i (some underlying) d =
      insert underlying (list_or_empty (lookup underlying d) ++ i ∷ []) d

  abbrev pub store : Instrument X → InstrumentManager X → InstrumentManager X
  store i m = record {
    instruments = insert i.internal i m.instruments;
    by_venue =
        insert i.venue (insert i.venue_symbol i (dict_or_empty (lookup i.venue m.by_venue)))
          m.by_venue;
    by_underlying = index_underlying i (named i.underlying) m.by_underlying;
  }

  unfoldable pub register : Instrument X → InstrumentManager X → InstrumentManager X
  register i m = store i (forget (lookup i.internal m.instruments) m)

  unfoldable pub register_many : List (Instrument X) → InstrumentManager X → InstrumentManager X
  register_many [] m = m
  register_many (i ∷ instruments) m = register_many instruments (register i m)

  unfoldable pub get : InstrumentManager X → String → Option (Instrument X)
  get m internal = lookup internal m.instruments

  unfoldable pub get_by_venue : InstrumentManager X → String → String → Option (Instrument X)
  get_by_venue m venue venue_symbol = lookup venue_symbol (dict_or_empty (lookup venue m.by_venue))

  unfoldable pub find :
      (Instrument X → Bool)
      → InstrumentManager X
      → Option String
      → Option String
      → Option AssetType
      → Bool
      → List (Instrument X)
  find is_listed m venue underlying asset_type active_only =
      let in_venue = select (λ i. matches venue i.venue) (values m.instruments) in
      let of_underlying = select (λ i. matches_option underlying i.underlying) in_venue in
      let of_type = select (λ i. matches_type asset_type i.asset_type) of_underlying in
      if active_only then select is_listed of_type else of_type

  abbrev pub internal_of : Option (Instrument X) → Option String
  internal_of none = none
  internal_of (some i) = some i.internal

  abbrev pub venue_symbol_of : Option (Instrument X) → Option String
  venue_symbol_of none = none
  venue_symbol_of (some i) = some i.venue_symbol

  unfoldable pub to_internal : InstrumentManager X → String → String → Option String
  unfolding get_by_venue
  to_internal m venue venue_symbol = internal_of (get_by_venue m venue venue_symbol)

  unfoldable pub to_venue_symbol : InstrumentManager X → String → Option String
  unfolding get
  to_venue_symbol m internal = venue_symbol_of (get m internal)

  unfoldable pub all_internals : InstrumentManager X → List String
  all_internals m = keys m.instruments

  unfoldable pub all_venues : InstrumentManager X → List String
  all_venues m = keys m.by_venue

  unfoldable pub count : InstrumentManager X → ℕ
  count m = length m.instruments

  unfoldable pub clear : InstrumentManager X → InstrumentManager X
  clear m = empty
