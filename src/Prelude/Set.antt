-- ===== src/Prelude/Set.antt =====
-- Python's `set` as the list of its elements, in the order of their insertion.
use mathlib.Core.Path.{◌≡◌, refl}
use mathlib.Core.Bool.{Bool, true, false, ◌&&◌, ◌||◌}
use mathlib.Core.List.{List, [], ◌∷◌, ◌++◌}
use native.Mathlib.Omega.{arith}
use bt_api_base.Prelude.Lists.{select}
use bt_api_base.Prelude.Tests.{if◌then◌else◌, Key, ◌==◌, ==_iff, ==_self}

module _ {ℓ} {A : Type ℓ} ⦃e : Key A⦄ where
  -- `x in s`
  abbrev pub contains : List A → A → Bool
  contains [] a = false
  contains (x ∷ xs) a = x == a || contains xs a

  -- `s.add(x)`
  abbrev pub add : A → List A → List A
  add a xs = if contains xs a then xs else xs ++ a ∷ []

  -- `s.discard(x)`
  abbrev pub discard : A → List A → List A
  discard a [] = []
  discard a (x ∷ xs) = let rest = discard a xs in if x == a then rest else x ∷ rest

  -- No element stands twice.
  abbrev pub Distinct : List A → Type 0
  Distinct [] = Unit
  Distinct (x ∷ xs) = (contains xs x ≡ false) × Distinct xs

  pub contains-append :
      (xs ys : List A) (a : A) → contains (xs ++ ys) a ≡ (contains xs a || contains ys a)
  contains-append [] ys a = refl
  contains-append (x ∷ xs) ys a = ground (arith, contains-append xs ys a)

  pub contains_transport : (xs : List A) (a b : A) → (a == b) ≡ true → contains xs a ≡ contains xs b
  contains_transport xs a b h = ground (arith, ==_iff a b)

  pub contains-add : (a b : A) (xs : List A) → contains (add a xs) b ≡ (a == b || contains xs b)
  contains-add a b xs =
      ground (arith, contains-append xs (a ∷ []) b, ==_iff a b, contains_transport xs a b)

  pub contains-discard :
      (a b : A) (xs : List A)
      → contains (discard a xs) b ≡ (if a == b then false else contains xs b)
  contains-discard a b [] = ground arith
  contains-discard a b (x ∷ xs) =
      ground (arith, contains-discard a b xs, ==_iff x a, ==_iff x b, ==_iff a b)

  append-Distinct :
      (xs : List A) (a : A) → Distinct xs → contains xs a ≡ false → Distinct (xs ++ a ∷ [])
  append-Distinct [] a d h = (refl, tt)
  append-Distinct (x ∷ xs) a d h =
      ground
        (arith, append-Distinct xs a d.1, contains-append xs (a ∷ []) x, ==_iff x a, ==_iff a x)

  pub add-Distinct : (a : A) (xs : List A) → Distinct xs → Distinct (add a xs)
  add-Distinct a xs d = ground (arith, append-Distinct xs a d)

  pub discard-Distinct : (a : A) (xs : List A) → Distinct xs → Distinct (discard a xs)
  discard-Distinct a [] d = tt
  discard-Distinct a (x ∷ xs) d = ground (arith, discard-Distinct a xs d.1, contains-discard a x xs)

  pub contains_self : (x : A) (xs : List A) → contains (x ∷ xs) x ≡ true
  contains_self x xs = ground (arith, ==_self x)

  pub contains-select :
      (test : A → Bool) (xs : List A) (a : A)
      → contains (select test xs) a ≡ (contains xs a && test a)
  contains-select test [] a = refl
  contains-select test (x ∷ xs) a = ground (arith, contains-select test xs a, ==_iff x a)
