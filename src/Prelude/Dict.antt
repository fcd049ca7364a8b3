-- ===== src/Prelude/Dict.antt =====
-- Python's `dict` in insertion order, as the list of its items.

use mathlib.Core.Path.{◌≡◌, refl}
use mathlib.Core.Bool.{Bool, true, false}
use mathlib.Core.Option.{Option, none, some}
use mathlib.Core.List.{List, [], ◌∷◌, ◌++◌, map}
use native.Mathlib.Omega.{arith}
use bt_api_base.Prelude.Tests.{if◌then◌else◌, Key, ◌==◌, ==_iff, ==_self}
use bt_api_base.Prelude.Set

abbrev pub Dict {ℓ κ} : Type ℓ → Type κ → Type (ℓ ⊔ κ)
Dict K V = List (K × V)

module _ {ℓ κ} {K : Type ℓ} {V : Type κ} where
  abbrev pub keys : Dict K V → List K
  keys d = map (λ e. e.0) d

  abbrev pub values : Dict K V → List V
  values d = map (λ e. e.1) d

module _ {ℓ κ} {K : Type ℓ} {V : Type κ} ⦃e : Key K⦄ where
  -- `d.get(k)`
  abbrev pub lookup : K → Dict K V → Option V
  lookup k [] = none
  lookup k ((j, v) ∷ d) = if j == k then some v else lookup k d

  -- `k in d`
  abbrev pub has : K → Dict K V → Bool
  has k d = elim (lookup k d) [ none ↦ false | some _ ↦ true ]

  -- `d[k] = v`: a key that is there keeps its place
  abbrev pub insert : K → V → Dict K V → Dict K V
  insert k v [] = (k, v) ∷ []
  insert k v ((j, w) ∷ d) = if j == k then (j, v) ∷ d else (j, w) ∷ insert k v d

  -- `d.pop(k, None)`, `del d[k]`
  abbrev pub erase : K → Dict K V → Dict K V
  erase k [] = []
  erase k ((j, w) ∷ d) = let rest = erase k d in if j == k then rest else (j, w) ∷ rest

  pub lookup-insert :
      (k j : K) (v : V) (d : Dict K V)
      → lookup j (insert k v d) ≡ (if k == j then some v else lookup j d)
  lookup-insert k j v [] = refl
  lookup-insert k j v ((i, w) ∷ d) =
      ground (arith, ==_iff k j, ==_iff i k, ==_iff i j, lookup-insert k j v d)

  pub lookup-erase :
      (k j : K) (d : Dict K V) → lookup j (erase k d) ≡ (if k == j then none else lookup j d)
  lookup-erase k j [] = ground arith
  lookup-erase k j ((i, w) ∷ d) =
      ground (arith, ==_iff k j, ==_iff i k, ==_iff i j, lookup-erase k j d)

  pub lookup-insert_self : (k : K) (v : V) (d : Dict K V) → lookup k (insert k v d) ≡ some v
  lookup-insert_self k v d = ground (arith, lookup-insert k k v d, ==_self k)

  pub lookup-erase_self : (k : K) (d : Dict K V) → lookup k (erase k d) ≡ none
  lookup-erase_self k d = ground (arith, lookup-erase k k d, ==_self k)

  pub lookup-append :
      (k : K) (d c : Dict K V)
      → lookup k (d ++ c) ≡ elim (lookup k d) [ none ↦ lookup k c | some v ↦ some v ]
  lookup-append k [] c = refl
  lookup-append k ((i, w) ∷ d) c = ground (arith, lookup-append k d c)

  -- No key stands twice, which Python's dict keeps by construction.
  abbrev pub Unique : Dict K V → Type (ℓ ⊔ κ)
  Unique [] = Unit
  Unique ((k, v) ∷ d) = (lookup k d ≡ none) × Unique d

  pub insert-Unique : (k : K) (v : V) (d : Dict K V) → Unique d → Unique (insert k v d)
  insert-Unique k v [] h = (refl, tt)
  insert-Unique k v ((i, w) ∷ d) h =
      ground (arith, insert-Unique k v d h.1, lookup-insert k i v d, ==_iff k i, ==_iff i k)

  pub erase-Unique : (k : K) (d : Dict K V) → Unique d → Unique (erase k d)
  erase-Unique k [] h = tt
  erase-Unique k ((i, w) ∷ d) h =
      ground (arith, erase-Unique k d h.1, lookup-erase k i d, ==_iff k i, ==_iff i k)

  pub erase_absent : (k : K) (d : Dict K V) → lookup k d ≡ none → erase k d ≡ d
  erase_absent k [] h = refl
  erase_absent k ((i, w) ∷ d) h = ground (arith, erase_absent k d)

  -- The keys of a dictionary are those that it has.
  pub contains-keys : (d : Dict K V) (k : K) → Set.contains (keys d) k ≡ has k d
  contains-keys [] k = refl
  contains-keys ((i, w) ∷ d) k = ground (arith, contains-keys d k)
