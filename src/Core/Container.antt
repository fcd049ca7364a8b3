-- ===== src/Core/Container.antt =====
-- `DIContainer` of core/dependency_injection.py. `I` is the type of the interfaces, `C` that of the
-- implementations, and `signature` the parameters of an implementation's constructor. An object is
-- known by its address, its place in the list of the objects made. Each method holds the lock.
-- The body of a constructor does not raise.

pub mod Keeps
pub mod Resolves
pub mod Once
use bt_api_base.Prelude.{
  ℕ, zero, suc, String, Bool, true, false, Option, none, some, List, [], ◌∷◌, ◌++◌, length, Key,
  if◌then◌else◌,
}
use bt_api_base.Prelude.Dict.{Dict, lookup, insert, erase}

pub record Param (I : Type 0) : Type 0 where
  pub name : String
  pub annotation : Option I
  pub has_default : Bool

-- An argument is an object, or the parameter's default.
pub data Argument : Type 0 where
  object : ℕ → Argument
  default : Argument

-- An object that was made: its implementation and the arguments it was given, by name.
pub record Made (C : Type 0) : Type 0 where
  pub implementation : C
  pub arguments : List (String × Argument)

-- What is registered: `_services`, `_factories` and `_scoped_services`.
pub record Registrations (I C : Type 0) : Type 0 where
  pub services : Dict I C
  pub factories : Dict I C
  pub scoped_services : Dict I C

-- What resolving changes: `_singletons`, `_current_scope` and the objects.
pub record Objects (I C : Type 0) : Type 0 where
  pub singletons : Dict I ℕ
  pub current_scope : Option (Dict I ℕ)
  pub made : List (Made C)

-- A call gives an object, or raises `ValueError`.
pub data Resolved : Type 0 where
  found : ℕ → Resolved
  missing : Resolved

module _ {I C : Type 0} where
  abbrev pub nothing : Registrations I C
  nothing = record { services = []; factories = []; scoped_services = [] }

  abbrev pub no_objects : Objects I C
  no_objects = record { singletons = []; current_scope = none; made = [] }

  -- `create_scope` on entry; on exit the scope is `old_scope` again.
  unfoldable pub enter_scope : Objects I C → Objects I C
  enter_scope s = record s { current_scope = some [] }

  unfoldable pub leave_scope : Option (Dict I ℕ) → Objects I C → Objects I C
  leave_scope old_scope s = record s { current_scope = old_scope }

-- The result of a call, none where it runs out of fuel; and the arguments of a constructor, if all
-- could be resolved.
abbrev pub Call : Type 0 → Type 0 → Type 0
Call I C = Option (Objects I C × Resolved)

abbrev pub Arguments : Type 0 → Type 0 → Type 0
Arguments I C = Option (Objects I C × Option (List (String × Argument)))

module _ {I : Type 0} ⦃e : Key I⦄ where
  abbrev erase_in : I → Option (Dict I ℕ) → Option (Dict I ℕ)
  erase_in i none = none
  erase_in i (some d) = some (erase i d)

  abbrev scope_with : I → ℕ → Option (Dict I ℕ) → Option (Dict I ℕ)
  scope_with i address none = none
  scope_with i address (some d) = some (insert i address d)

  abbrev in_scope : I → Option (Dict I ℕ) → Option ℕ
  in_scope i none = none
  in_scope i (some d) = lookup i d

module _ {I C : Type 0} ⦃e : Key I⦄ where
  unfoldable pub clear_registration :
      I → Registrations I C × Objects I C → Registrations I C × Objects I C
  clear_registration i (r, s) = (
    record {
      services = erase i r.services;
      factories = erase i r.factories;
      scoped_services = erase i r.scoped_services;
    },
    record s { singletons = erase i s.singletons; current_scope = erase_in i s.current_scope },
  )

  unfoldable pub register_singleton :
      I → C → Registrations I C × Objects I C → Registrations I C × Objects I C
  unfolding clear_registration
  register_singleton i c x =
      let (r, s) = clear_registration i x in (record r { services = insert i c r.services }, s)

  unfoldable pub register_transient :
      I → C → Registrations I C × Objects I C → Registrations I C × Objects I C
  unfolding clear_registration
  register_transient i c x =
      let (r, s) = clear_registration i x in (record r { factories = insert i c r.factories }, s)

  unfoldable pub register_scoped :
      I → C → Registrations I C × Objects I C → Registrations I C × Objects I C
  unfolding clear_registration
  register_scoped i c x =
      let (r, s) = clear_registration i x in
      (record r { scoped_services = insert i c r.scoped_services }, s)

  -- `instance` is the address of an object.
  unfoldable pub register_instance :
      I → ℕ → Registrations I C × Objects I C → Registrations I C × Objects I C
  unfolding clear_registration
  register_instance i address x =
      let (r, s) = clear_registration i x in
      (r, record s { singletons = insert i address s.singletons })

  unfoldable pub clear : Registrations I C × Objects I C → Registrations I C × Objects I C
  clear (r, s) = (nothing, record s { singletons = []; current_scope = none })

  abbrev pub with_argument :
      (Objects I C → List (String × Argument) → Arguments I C)
      → Param I
      → List (String × Argument)
      → Call I C
      → Arguments I C
  with_argument more p args none = none
  with_argument more p args (some (s, found address)) =
      more s (args ++ (p.name, object address) ∷ [])
  with_argument more p args (some (s, missing)) =
      if p.has_default then more s (args ++ (p.name, default) ∷ []) else some (s, none)

  -- The loop of `_create_instance`; a parameter without an annotation is left out.
  abbrev pub resolve_params :
      (I → Objects I C → Call I C)
      → List (Param I)
      → Objects I C
      → List (String × Argument)
      → Arguments I C
  resolve_params resolve_one [] s args = some (s, some args)
  resolve_params resolve_one (p ∷ params) s args = elim p.annotation [
    | none ↦ resolve_params resolve_one params s args
    | some i ↦ with_argument (resolve_params resolve_one params) p args (resolve_one i s)
  ]

  abbrev pub construct : C → Arguments I C → Call I C
  construct c none = none
  construct c (some (s, none)) = some (s, missing)
  construct c (some (s, some args)) = some (
    record s { made = s.made ++ record { implementation = c; arguments = args } ∷ [] },
    found (length s.made),
  )

  abbrev pub keep_singleton : I → Call I C → Call I C
  keep_singleton i none = none
  keep_singleton i (some (s, missing)) = some (s, missing)
  keep_singleton i (some (s, found address)) =
      some (record s { singletons = insert i address s.singletons }, found address)

  abbrev pub keep_scoped : I → Call I C → Call I C
  keep_scoped i none = none
  keep_scoped i (some (s, missing)) = some (s, missing)
  keep_scoped i (some (s, found address)) =
      some (record s { current_scope = scope_with i address s.current_scope }, found address)

  abbrev resolve_scoped : I → Objects I C → Option ℕ → Call I C → Call I C
  resolve_scoped i s (some address) made = some (s, found address)
  resolve_scoped i s none made = keep_scoped i made

  module _ (signature : C → List (Param I)) where
    unfoldable pub create_instance : (I → Objects I C → Call I C) → C → Objects I C → Call I C
    create_instance resolve_one c s = construct c (resolve_params resolve_one (signature c) s [])

    abbrev pub resolve_factory : (I → Objects I C → Call I C) → Option C → Objects I C → Call I C
    resolve_factory resolve_one none s = some (s, missing)
    resolve_factory resolve_one (some c) s = create_instance resolve_one c s

    abbrev pub resolve_service :
        (I → Objects I C → Call I C) → I → Option C → Option C → Objects I C → Call I C
    resolve_service resolve_one i none factory s = resolve_factory resolve_one factory s
    resolve_service resolve_one i (some c) factory s =
        keep_singleton i (create_instance resolve_one c s)

    abbrev pub resolve_registered :
        (I → Objects I C → Call I C) → I → Option C → Option C → Option C → Objects I C → Call I C
    resolve_registered resolve_one i none service factory s =
        resolve_service resolve_one i service factory s
    resolve_registered resolve_one i (some c) service factory s =
        resolve_scoped i s (in_scope i s.current_scope) (create_instance resolve_one c s)

    abbrev pub resolve_with :
        (I → Objects I C → Call I C) → Registrations I C → I → Option ℕ → Objects I C → Call I C
    resolve_with resolve_one r i (some address) s = some (s, found address)
    resolve_with resolve_one r i none s =
        resolve_registered resolve_one i (lookup i r.scoped_services) (lookup i r.services)
          (lookup i r.factories) s

    -- The fuel is the depth of the constructors' calls; the source has the interpreter's stack.
    unfoldable pub resolve : ℕ → Registrations I C → I → Objects I C → Call I C
    unfolding create_instance
    resolve zero r i s = none
    resolve (suc fuel) r i s = resolve_with (resolve fuel r) r i (lookup i s.singletons) s
