-- ===== src/Core/Container/Once.antt =====
-- A singleton is made once.
use mathlib.Core.Path.{subst}
use bt_api_base.Prelude.{
  ℕ, zero, suc, ◌<◌, Option, none, some, List, [], ◌∷◌, ◌≡◌, refl, ap, ◌⊎◌, inl, inr, Option-cases,
  Key, arith, All,
}
use bt_api_base.Prelude.Dict.{Dict, lookup, lookup-insert_self}
use bt_api_base.Core.Container.{
  Param, Registrations, Objects, found, missing, Call, create_instance, keep_singleton, resolve,
  enter_scope, leave_scope,
}
use bt_api_base.Core.Container.Keeps.{Extends, Keeps, resolve-Keeps}
use bt_api_base.Core.Container.Resolves.{
  Returns, IsFounded, AllBelow, IsFoundedAt, create-Returns, resolve_ends,
}

-- What a client does with the container: resolve, or enter or leave the block of a scope.
pub data Use (I : Type 0) : Type 0 where
  resolves : I → Use I
  enters : Use I
  leaves : (old_scope : Option (Dict I ℕ)) → Use I

module _ {I C : Type 0} ⦃e : Key I⦄ (signature : C → List (Param I)) (rank : I → ℕ)
    (r : Registrations I C) where
  resolve_known :
      (fuel : ℕ) (i : I) (s : Objects I C) (a : ℕ)
      → rank i < fuel
      → lookup i s.singletons ≡ some a
      → resolve signature fuel r i s ≡ some (s, found a)
  unfolding resolve
  resolve_known zero i s a h known = absurd (omega (arith, h))
  resolve_known (suc fuel) i s a h known = rw (resolve, known) refl

  -- What a call that made a singleton leaves: the object stands as the singleton.
  abbrev Kept : I → Call I C → Type 0
  Kept i call =
      ((s' : Objects I C) × (a : ℕ) × (call ≡ some (s', found a))
        × (lookup i s'.singletons ≡ some a))
      ⊎ ((s' : Objects I C) × (call ≡ some (s', missing)))

  keep_singleton-Kept : (i : I) (call : Call I C) → Returns call → Kept i (keep_singleton i call)
  keep_singleton-Kept i call ((s, found a), made) =
      inl (_, a, ap (keep_singleton i) made, lookup-insert_self i a s.singletons)
  keep_singleton-Kept i call ((s, missing), made) = inr (s, ap (keep_singleton i) made)

  resolve-Kept :
      (fuel : ℕ) (i : I) (c : C) (s : Objects I C)
      → ((j : I) → IsFoundedAt signature rank r j)
      → rank i < fuel
      → lookup i r.scoped_services ≡ none
      → lookup i r.services ≡ some c
      → Kept i (resolve signature fuel r i s)
  unfolding resolve
  resolve-Kept zero i c s founded h unscoped service = absurd (omega (arith, h))
  resolve-Kept (suc fuel) i c s founded h unscoped service =
      elim (Option-cases (lookup i s.singletons)) [
        | inl fresh ↦
            let below : AllBelow rank (rank i) (signature c) =
              subst (IsFounded rank signature (rank i)) service (founded i).1 in
            rw (resolve, fresh)
              (rw unscoped (
                rw service (
                  keep_singleton-Kept i (create_instance signature (resolve signature fuel r) c s) (
                    create-Returns rank (resolve signature fuel r) (rank i)
                      (λ j s' small.
                        resolve_ends signature rank r fuel j s' founded (omega (arith, small, h)))
                      signature c s below))))
        | inr (a, known) ↦ rw (resolve, known) (inl (s, a, refl, known))
      ]

  abbrev after : Call I C → Option (Objects I C)
  after none = none
  after (some (s, found a)) = some s
  after (some (s, missing)) = some s

  -- What a use leaves, none where it runs out of fuel. A `ValueError` does not keep the next use from
  -- being made.
  abbrev use_one : ℕ → Use I → Objects I C → Option (Objects I C)
  use_one fuel (resolves i) s = after (resolve signature fuel r i s)
  use_one fuel enters s = some (enter_scope s)
  use_one fuel (leaves old_scope) s = some (leave_scope old_scope s)

  abbrev pub use_all : ℕ → List (Use I) → Objects I C → Option (Objects I C)
  use_all fuel [] s = some s
  use_all fuel (u ∷ uses) s = elim (use_one fuel u s) [
    | none ↦ none
    | some s' ↦ use_all fuel uses s'
  ]

  -- The interface that is resolved is of a rank below the fuel.
  abbrev pub IsWithin : ℕ → Use I → Type 0
  IsWithin fuel (resolves i) = rank i < fuel
  IsWithin fuel enters = Unit
  IsWithin fuel (leaves old_scope) = Unit

  resolved_once :
      (i : I) (s : Objects I C) (call : Call I C)
      → Returns call
      → Keeps s call
      → (s' : Objects I C) × (after call ≡ some s') × Extends s s'
  resolved_once i s call ((s', found a), e) k = (s', ap after e, subst (λ x. Keeps s x) e k)
  resolved_once i s call ((s', missing), e) k = (s', ap after e, subst (λ x. Keeps s x) e k)

  use_one-Extends :
      (fuel : ℕ) (u : Use I) (s : Objects I C)
      → ((j : I) → IsFoundedAt signature rank r j)
      → IsWithin fuel u
      → (s' : Objects I C) × (use_one fuel u s ≡ some s') × Extends s s'
  unfolding enter_scope leave_scope
  use_one-Extends fuel (resolves i) s founded h =
      resolved_once i s (resolve signature fuel r i s)
        (resolve_ends signature rank r fuel i s founded h) (resolve-Keeps signature r fuel i s)
  use_one-Extends fuel enters s founded h = (enter_scope s, refl, λ j a known. known)
  use_one-Extends fuel (leaves old_scope) s founded h =
      (leave_scope old_scope s, refl, λ j a known. known)

  use_all-Extends :
      (fuel : ℕ) (uses : List (Use I)) (s : Objects I C)
      → ((j : I) → IsFoundedAt signature rank r j)
      → All (IsWithin fuel) uses
      → (s' : Objects I C) × (use_all fuel uses s ≡ some s') × Extends s s'
  use_all-Extends fuel [] s founded h = (s, refl, λ j a known. known)
  use_all-Extends fuel (u ∷ uses) s founded h =
      let (t, e, k) = use_one-Extends fuel u s founded h.0 in
      let (s', f, m) = use_all-Extends fuel uses t founded h.1 in
      (s', rw (use_all, e) f, λ j a known. m j a (k j a known))

  -- Where each registered implementation depends only on interfaces of a lower rank than its own,
  -- resolving an interface that is registered as a singleton ends, with fuel beyond its rank. It raises
  -- ValueError, or it gives an object; then whatever uses are made after it, in any order, each to
  -- resolve an interface of a rank below the fuel or to enter or leave a scope, they end, and after them
  -- resolving the interface gives the same object and changes nothing.
  pub singleton_once :
      (fuel : ℕ) (uses : List (Use I)) (i : I) (c : C) (s : Objects I C)
      → ((j : I) → IsFoundedAt signature rank r j)
      → rank i < fuel
      → All (IsWithin fuel) uses
      → lookup i r.scoped_services ≡ none
      → lookup i r.services ≡ some c
      → ((s' : Objects I C) × (a : ℕ) × (resolve signature fuel r i s ≡ some (s', found a))
          × (s'' : Objects I C) × (use_all fuel uses s' ≡ some s'')
          × (resolve signature fuel r i s'' ≡ some (s'', found a)))
        ⊎ ((s' : Objects I C) × (resolve signature fuel r i s ≡ some (s', missing)))
  singleton_once fuel uses i c s founded h within unscoped service =
      elim (resolve-Kept fuel i c s founded h unscoped service) [
        | inl (s', a, e, known) ↦
            let (s'', f, kept) = use_all-Extends fuel uses s' founded within in
            inl (s', a, e, s'', f, resolve_known fuel i s'' a h (kept i a known))
        | inr (s', e) ↦ inr (s', e)
      ]
