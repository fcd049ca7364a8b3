-- ===== src/Events/Registered.antt =====
-- The handlers of an event after any calls of the bus.
use bt_api_base.Prelude.{
  String, Bool, true, false, Option, none, some, List, [], ◌∷◌, ◌≡◌, refl, ap, ◌∙◌, inl, inr,
  Option-cases, arith, ◌||◌, ◌==◌, ==_iff, Key, string_key, if◌then◌else◌,
}
use bt_api_base.Prelude.Set.{
  contains, add, discard, Distinct, contains-add, contains-discard, add-Distinct, discard-Distinct,
}
use bt_api_base.Prelude.Dict.{lookup, insert, lookup-insert, lookup-erase}
use bt_api_base.Events.{EventBus, handlers_of, on, off, remove, clear, clear_errors}

pub data Call (H : Type 0) : Type 0 where
  registers : String → H → Call H
  unregisters : String → Option H → Call H
  clears_errors clears : Call H

module _ {H : Type 0} ⦃e : Key H⦄ where
  -- Whether the last call that concerns the handler `h` of the event `name` registers it.
  abbrev concerns : String → H → Bool → Call H → Bool
  concerns name h was (registers event_type g) =
      if event_type == "" then was else if event_type == name then g == h || was else was
  concerns name h was (unregisters event_type none) = if event_type == name then false else was
  concerns name h was (unregisters event_type (some g)) =
      if event_type == name then if g == h then false else was else was
  concerns name h was clears_errors = was
  concerns name h was clears = false

  abbrev pub is_wanted : String → H → Bool → List (Call H) → Bool
  is_wanted name h was [] = was
  is_wanted name h was (c ∷ calls) = is_wanted name h (concerns name h was c) calls

  contains_unless-Distinct : (h : H) (hs : List H) → contains hs h ≡ false → discard h hs ≡ hs
  contains_unless-Distinct h [] absent = refl
  contains_unless-Distinct h (x ∷ hs) absent = ground (arith, contains_unless-Distinct h hs)

  remove-discard : (h : H) (hs : List H) → Distinct hs → remove h hs ≡ discard h hs
  remove-discard h [] d = refl
  remove-discard h (x ∷ hs) d =
      ground (arith, remove-discard h hs d.1, contains_unless-Distinct h hs, ==_iff x h)

  -- What a call does to the handlers of an event.
  abbrev changed : String → Call H → List H → List H
  changed name (registers event_type g) hs =
      if event_type == "" then hs else if event_type == name then add g hs else hs
  changed name (unregisters event_type none) hs = if event_type == name then [] else hs
  changed name (unregisters event_type (some g)) hs = if event_type == name then remove g hs else hs
  changed name clears_errors hs = hs
  changed name clears hs = []

  changed-Distinct :
      (name : String) (c : Call H) (hs : List H) → Distinct hs → Distinct (changed name c hs)
  changed-Distinct name (registers k g) hs d = ground (arith, add-Distinct g hs d)
  changed-Distinct name (unregisters k none) hs d = ground arith
  changed-Distinct name (unregisters k (some g)) hs d =
      ground (arith, remove-discard g hs d, discard-Distinct g hs d)
  changed-Distinct name clears_errors hs d = d
  changed-Distinct name clears hs d = tt

  contains-changed :
      (name : String) (h : H) (c : Call H) (hs : List H)
      → Distinct hs
      → contains (changed name c hs) h ≡ concerns name h (contains hs h) c
  contains-changed name h (registers k g) hs d = ground (arith, contains-add g h hs)
  contains-changed name h (unregisters k none) hs d = ground arith
  contains-changed name h (unregisters k (some g)) hs d =
      ground (arith, remove-discard g hs d, contains-discard g h hs)
  contains-changed name h clears_errors hs d = refl
  contains-changed name h clears hs d = refl

module _ {H E : Type 0} ⦃e : Key H⦄ where
  abbrev or_same : EventBus H E → Option (EventBus H E) → EventBus H E
  or_same b none = b
  or_same b (some c) = c

  -- A call of `on` that raises changes nothing.
  unfoldable pub step : EventBus H E → Call H → EventBus H E
  unfolding on off clear clear_errors
  step b (registers event_type h) = or_same b (on event_type h b)
  step b (unregisters event_type h) = off event_type h b
  step b clears_errors = clear_errors b
  step b clears = clear b

  unfoldable pub run : EventBus H E → List (Call H) → EventBus H E
  unfolding step
  run b [] = b
  run b (c ∷ calls) = run (step b c) calls

  -- No event has a handler twice.
  abbrev pub IsValid : EventBus H E → Type 0
  IsValid b = (name : String) → Distinct (handlers_of name b)

  handlers_of-insert :
      (name k : String) (hs : List H) (b : EventBus H E)
      → handlers_of name (record b { handlers = insert k hs b.handlers })
        ≡ (if k == name then hs else handlers_of name b)
  handlers_of-insert name k hs b = ground (arith, lookup-insert k name hs b.handlers)

  handlers_of_lem :
      (name k : String) (b : EventBus H E)
      → (k == name) ≡ true
      → handlers_of k b ≡ handlers_of name b
  handlers_of_lem name k b same = ap (λ n. handlers_of n b) ((==_iff k name).0 same)

  handlers_of-step :
      (name : String) (b : EventBus H E) (c : Call H)
      → handlers_of name (step b c) ≡ changed name c (handlers_of name b)
  unfolding step on off clear clear_errors
  handlers_of-step name b (registers k g) =
      ground
        (arith, handlers_of-insert name k (add g (handlers_of k b)) b, handlers_of_lem name k b)
  handlers_of-step name b (unregisters k none) = ground (arith, lookup-erase k name b.handlers)
  handlers_of-step name b (unregisters k (some g)) = elim (Option-cases (lookup k b.handlers)) [
    | inl missing ↦ ground (arith, missing, ==_iff k name)
    | inr (hs, there) ↦
        ground (arith, there, handlers_of-insert name k (remove g hs) b, ==_iff k name)
  ]
  handlers_of-step name b clears_errors = refl
  handlers_of-step name b clears = refl

  -- After any calls of on, off, clear_errors and clear on a bus with no handler twice among those of
  -- an event, that is still so, and a handler stands there if and only if the last call that concerns
  -- it registered it with a non-empty name, or if there is no such call and it stood there before.
  pub registered_lem :
      (name : String) (h : H) (b : EventBus H E) (calls : List (Call H))
      → Distinct (handlers_of name b)
      → Distinct (handlers_of name (run b calls))
        × (contains (handlers_of name (run b calls)) h
            ≡ is_wanted name h (contains (handlers_of name b) h) calls)
  unfolding run
  registered_lem name h b [] d = (d, refl)
  registered_lem name h b (c ∷ calls) d =
      let s = handlers_of-step name b c in
      let d' : Distinct (handlers_of name (step b c)) =
        rw s (changed-Distinct name c (handlers_of name b) d) in
      let (all, found) = registered_lem name h (step b c) calls d' in
      (
        all,
        found
            ∙ ap (λ was. is_wanted name h was calls)
                (ap (λ hs. contains hs h) s ∙ contains-changed name h c (handlers_of name b) d),
      )
