-- ===== src/Core/Container/Resolves.antt =====
-- Resolving ends where the constructors' parameters do not depend on each other in a circle.
use mathlib.Core.Path.{subst}
use bt_api_base.Prelude.{
  ℕ, zero, suc, ◌<◌, String, Option, none, some, List, [], ◌∷◌, ◌++◌, ◌≡◌, refl, ap, ◌∙◌, inl, inr,
  Option-cases, Bool-cases, Key, arith,
}
use bt_api_base.Prelude.Dict.{lookup}
use bt_api_base.Core.Container.{
  Param, Argument, object, default, Registrations, Objects, found, missing, Call, Arguments,
  with_argument, resolve_params, construct, create_instance, keep_singleton, keep_scoped, in_scope,
  resolve_scoped, resolve_registered, resolve,
}

-- The call has a result.
abbrev pub Returns : {A : Type 0} → Option A → Type 0
Returns {A} call = (a : A) × (call ≡ some a)

module _ {I : Type 0} (rank : I → ℕ) where
  abbrev pub IsBelow : ℕ → Option I → Type 0
  IsBelow bound none = Unit
  IsBelow bound (some i) = rank i < bound

  -- The annotations of the parameters are of a rank below the bound.
  abbrev pub AllBelow : ℕ → List (Param I) → Type 0
  AllBelow bound [] = Unit
  AllBelow bound (p ∷ params) = IsBelow bound p.annotation × AllBelow bound params

module _ {I C : Type 0} (rank : I → ℕ) (signature : C → List (Param I)) where
  -- An implementation, if there is one, depends on interfaces below the bound.
  abbrev pub IsFounded : ℕ → Option C → Type 0
  IsFounded bound none = Unit
  IsFounded bound (some c) = AllBelow rank bound (signature c)

module _ {I C : Type 0} ⦃e : Key I⦄ where
  construct-Returns : (c : C) (a : Arguments I C) → Returns a → Returns (construct c a)
  construct-Returns c a ((s, none), given) = ((s, missing), ap (construct c) given)
  construct-Returns c a ((s, some args), given) = (_, ap (construct c) given)

  keep_singleton-Returns :
      (i : I) (call : Call I C) → Returns call → Returns (keep_singleton i call)
  keep_singleton-Returns i call ((s, missing), made) = (_, ap (keep_singleton i) made)
  keep_singleton-Returns i call ((s, found a), made) = (_, ap (keep_singleton i) made)

  keep_scoped-Returns : (i : I) (call : Call I C) → Returns call → Returns (keep_scoped i call)
  keep_scoped-Returns i call ((s, missing), made) = (_, ap (keep_scoped i) made)
  keep_scoped-Returns i call ((s, found a), made) = (_, ap (keep_scoped i) made)

  resolve_scoped-Returns :
      (i : I) (s : Objects I C) (o : Option ℕ) (call : Call I C)
      → Returns call
      → Returns (resolve_scoped i s o call)
  resolve_scoped-Returns i s none call r = keep_scoped-Returns i call r
  resolve_scoped-Returns i s (some a) call r = ((s, found a), refl)

  argument-Returns :
      (more : Objects I C → List (String × Argument) → Arguments I C) (p : Param I)
      (args : List (String × Argument)) (call : Call I C)
      → ((s : Objects I C) (args : List (String × Argument)) → Returns (more s args))
      → Returns call
      → Returns (with_argument more p args call)
  argument-Returns more p args call next ((s, found a), given) =
      let (x, q) = next s (args ++ (p.name, object a) ∷ []) in
      (x, ap (with_argument more p args) given ∙ q)
  argument-Returns more p args call next ((s, missing), given) = elim (Bool-cases p.has_default) [
    | inl defaults ↦
        let (x, q) = next s (args ++ (p.name, default) ∷ []) in
        (x, ap (with_argument more p args) given ∙ rw defaults q)
    | inr required ↦ ((s, none), ap (with_argument more p args) given ∙ rw required refl)
  ]

module _ {I C : Type 0} ⦃e : Key I⦄ (rank : I → ℕ) (resolve_one : I → Objects I C → Call I C)
    (bound : ℕ)
    (each : (i : I) (s : Objects I C) → rank i < bound → Returns (resolve_one i s)) where
  params_return :
      (params : List (Param I)) (s : Objects I C) (args : List (String × Argument))
      → AllBelow rank bound params
      → Returns (resolve_params resolve_one params s args)
  params_return [] s args below = ((s, some args), refl)
  params_return (p ∷ params) s args below = elim (Option-cases p.annotation) [
    | inl plain ↦ rw plain (params_return params s args below.1)
    | inr (i, annotated) ↦
        let small : IsBelow rank bound (some i) = subst (IsBelow rank bound) annotated below.0 in
        rw annotated (
          argument-Returns (resolve_params resolve_one params) p args (resolve_one i s)
            (λ s' args'. params_return params s' args' below.1) (each i s small))
  ]

  module _ (signature : C → List (Param I)) where
    pub create-Returns :
        (c : C) (s : Objects I C)
        → AllBelow rank bound (signature c)
        → Returns (create_instance signature resolve_one c s)
    unfolding create_instance
    create-Returns c s below =
        construct-Returns c (resolve_params resolve_one (signature c) s [])
          (params_return (signature c) s [] below)

    registered-Returns :
        (i : I) (scoped service factory : Option C) (s : Objects I C)
        → IsFounded rank signature bound scoped
        → IsFounded rank signature bound service
        → IsFounded rank signature bound factory
        → Returns (resolve_registered signature resolve_one i scoped service factory s)
    registered-Returns i (some c) service factory s a b d =
        resolve_scoped-Returns i s (in_scope i s.current_scope)
          (create_instance signature resolve_one c s) (create-Returns c s a)
    registered-Returns i none (some c) factory s a b d =
        keep_singleton-Returns i (create_instance signature resolve_one c s) (create-Returns c s b)
    registered-Returns i none none (some c) s a b d = create-Returns c s d
    registered-Returns i none none none s a b d = ((s, missing), refl)

module _ {I C : Type 0} ⦃e : Key I⦄ (signature : C → List (Param I)) (rank : I → ℕ)
    (r : Registrations I C) where
  abbrev pub IsFoundedAt : I → Type 0
  IsFoundedAt i =
      IsFounded rank signature (rank i) (lookup i r.scoped_services)
      × IsFounded rank signature (rank i) (lookup i r.services)
      × IsFounded rank signature (rank i) (lookup i r.factories)

  -- Resolving any interface ends, where each registered implementation depends on interfaces of a lower
  -- rank than its own, with fuel beyond the rank.
  pub resolve_ends :
      (fuel : ℕ) (i : I) (s : Objects I C)
      → ((j : I) → IsFoundedAt j)
      → rank i < fuel
      → Returns (resolve signature fuel r i s)
  unfolding resolve
  resolve_ends zero i s founded h = absurd (omega (arith, h))
  resolve_ends (suc fuel) i s founded h = elim (Option-cases (lookup i s.singletons)) [
    | inl fresh ↦
        let (a, b, d) = founded i in
        rw (resolve, fresh)
          (registered-Returns rank (resolve signature fuel r) (rank i)
            (λ j s' below. resolve_ends fuel j s' founded (omega (arith, below, h))) signature i
            (lookup i r.scoped_services) (lookup i r.services) (lookup i r.factories) s a b d)
    | inr (a, known) ↦ rw (resolve, known) ((s, found a), refl)
  ]
