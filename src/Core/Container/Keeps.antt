-- ===== src/Core/Container/Keeps.antt =====
-- Whatever `resolve` makes, the singletons that are there stay.
use bt_api_base.Prelude.{
  ℕ, zero, suc, String, Option, none, some, List, [], ◌∷◌, ◌++◌, ◌≡◌, sym, ap, ◌∙◌, inl, inr,
  Option-cases, Bool-cases, Key, ◌==◌, ==_iff,
}
use bt_api_base.Prelude.Dict.{lookup, insert, lookup-insert}
use bt_api_base.Core.Container.{
  Param, Argument, object, default, Registrations, Objects, found, missing, Call, Arguments,
  with_argument, resolve_params, construct, create_instance, keep_singleton, keep_scoped, in_scope,
  resolve_scoped, resolve_registered, resolve,
}

module _ {I C : Type 0} ⦃e : Key I⦄ where
  -- Each singleton of the first stands in the second.
  abbrev pub Extends : Objects I C → Objects I C → Type 0
  Extends s s' = (j : I) (a : ℕ) → lookup j s.singletons ≡ some a → lookup j s'.singletons ≡ some a

  -- A call that returns has kept the singletons of `s`.
  abbrev pub Keeps : Objects I C → Call I C → Type 0
  Keeps s none = Unit
  Keeps s (some (s', found a)) = Extends s s'
  Keeps s (some (s', missing)) = Extends s s'

  abbrev KeepsAll : Objects I C → Arguments I C → Type 0
  KeepsAll s none = Unit
  KeepsAll s (some (s', none)) = Extends s s'
  KeepsAll s (some (s', some args)) = Extends s s'

  construct-Keeps :
      (s : Objects I C) (c : C) (a : Arguments I C) → KeepsAll s a → Keeps s (construct c a)
  construct-Keeps s c none h = h
  construct-Keeps s c (some (s', none)) h = h
  construct-Keeps s c (some (s', some args)) h = h

  keep_scoped-Keeps :
      (i : I) (s : Objects I C) (call : Call I C) → Keeps s call → Keeps s (keep_scoped i call)
  keep_scoped-Keeps i s none h = h
  keep_scoped-Keeps i s (some (s', missing)) h = h
  keep_scoped-Keeps i s (some (s', found a)) h = h

  resolve_scoped-Keeps :
      (i : I) (s : Objects I C) (o : Option ℕ) (call : Call I C)
      → Keeps s call
      → Keeps s (resolve_scoped i s o call)
  resolve_scoped-Keeps i s none call h = keep_scoped-Keeps i s call h
  resolve_scoped-Keeps i s (some a) call h = λ j b known. known

  insert-Extends :
      (i : I) (a : ℕ) (s s' : Objects I C)
      → lookup i s.singletons ≡ none
      → Extends s s'
      → Extends s (record s' { singletons = insert i a s'.singletons })
  insert-Extends i a s s' fresh h j b known = elim (Bool-cases (i == j)) [
    | inl same ↦
        absurd (clash (sym (ap (λ k. lookup k s.singletons) ((==_iff i j).0 same)) ∙ fresh) known)
    | inr other ↦ rw (lookup-insert i j a s'.singletons, other) (h j b known)
  ]
    where
      clash : {o : Option ℕ} → o ≡ none → o ≡ some b → ⊥
      clash p q = cc

  -- A new singleton is kept beside those that were there.
  keep_singleton-Keeps :
      (i : I) (s : Objects I C) (call : Call I C)
      → lookup i s.singletons ≡ none
      → Keeps s call
      → Keeps s (keep_singleton i call)
  keep_singleton-Keeps i s none fresh h = h
  keep_singleton-Keeps i s (some (s', missing)) fresh h = h
  keep_singleton-Keeps i s (some (s', found a)) fresh h = insert-Extends i a s s' fresh h

  KeepsAll-trans :
      (s s' : Objects I C) (a : Arguments I C) → Extends s s' → KeepsAll s' a → KeepsAll s a
  KeepsAll-trans s s' none h k = k
  KeepsAll-trans s s' (some (t, none)) h k = λ j a known. k j a (h j a known)
  KeepsAll-trans s s' (some (t, some args)) h k = λ j a known. k j a (h j a known)

  argument-Keeps :
      (more : Objects I C → List (String × Argument) → Arguments I C) (p : Param I)
      (args : List (String × Argument)) (s : Objects I C) (call : Call I C)
      → ((t : Objects I C) (args : List (String × Argument)) → KeepsAll t (more t args))
      → Keeps s call
      → KeepsAll s (with_argument more p args call)
  argument-Keeps more p args s none next h = h
  argument-Keeps more p args s (some (t, found a)) next h =
      KeepsAll-trans s t (more t (args ++ (p.name, object a) ∷ [])) h (next t _)
  argument-Keeps more p args s (some (t, missing)) next h = elim (Bool-cases p.has_default) [
    | inl defaults ↦
        rw defaults (KeepsAll-trans s t (more t (args ++ (p.name, default) ∷ [])) h (next t _))
    | inr required ↦ rw required h
  ]

module _ {I C : Type 0} ⦃e : Key I⦄ (resolve_one : I → Objects I C → Call I C)
    (each : (i : I) (s : Objects I C) → Keeps s (resolve_one i s)) where
  params_keep :
      (params : List (Param I)) (s : Objects I C) (args : List (String × Argument))
      → KeepsAll s (resolve_params resolve_one params s args)
  params_keep [] s args = λ j a known. known
  params_keep (p ∷ params) s args = elim (Option-cases p.annotation) [
    | inl plain ↦ rw plain (params_keep params s args)
    | inr (i, annotated) ↦ rw annotated (
        argument-Keeps (resolve_params resolve_one params) p args s (resolve_one i s)
          (params_keep params) (each i s))
  ]

  module _ (signature : C → List (Param I)) where
    create-Keeps : (c : C) (s : Objects I C) → Keeps s (create_instance signature resolve_one c s)
    unfolding create_instance
    create-Keeps c s =
        construct-Keeps s c (resolve_params resolve_one (signature c) s [])
          (params_keep (signature c) s [])

    registered-Keeps :
        (i : I) (scoped service factory : Option C) (s : Objects I C)
        → lookup i s.singletons ≡ none
        → Keeps s (resolve_registered signature resolve_one i scoped service factory s)
    registered-Keeps i (some c) service factory s fresh =
        resolve_scoped-Keeps i s (in_scope i s.current_scope)
          (create_instance signature resolve_one c s) (create-Keeps c s)
    registered-Keeps i none (some c) factory s fresh =
        keep_singleton-Keeps i s (create_instance signature resolve_one c s) fresh
          (create-Keeps c s)
    registered-Keeps i none none (some c) s fresh = create-Keeps c s
    registered-Keeps i none none none s fresh = λ j a known. known

module _ {I C : Type 0} ⦃e : Key I⦄ (signature : C → List (Param I)) (r : Registrations I C) where
  pub resolve-Keeps : (fuel : ℕ) (i : I) (s : Objects I C) → Keeps s (resolve signature fuel r i s)
  unfolding resolve
  resolve-Keeps zero i s = tt
  resolve-Keeps (suc fuel) i s = elim (Option-cases (lookup i s.singletons)) [
    | inl fresh ↦ rw fresh (
        registered-Keeps (resolve signature fuel r) (resolve-Keeps fuel) signature i
          (lookup i r.scoped_services) (lookup i r.services) (lookup i r.factories) s fresh)
    | inr (a, known) ↦ rw known (λ j b k. k)
  ]
