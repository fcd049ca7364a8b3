-- ===== src/Events/Tests.antt =====
-- Runs of the event bus.
use bt_api_base.Prelude.{
  ℕ, zero, suc, false, Option, none, some, List, [], ◌∷◌, map, ◌≡◌, refl, nat_key,
}
use bt_api_base.Prelude.Set.{contains, Distinct}
use bt_api_base.Errors.Exceptions.{ErrorClass, value_error, isinstance}
use bt_api_base.Events.{
  EventBus, log, ErrorHandlerMode, new, handlers_of, emit, call_all, user_error, classify_error,
}
use bt_api_base.Events.Emit.{leave, failures, as_logged, as_noted, emit_lem}
use bt_api_base.Events.Registered.{Call, registers, unregisters, run, is_wanted, registered_lem}

abbrev class_of : ErrorClass → ErrorClass
class_of c = c

-- Handler 2 fails.
abbrev fails : ℕ → ℕ → Option ErrorClass
fails zero payload = none
fails (suc zero) payload = none
fails (suc (suc h)) payload = some value_error

abbrev bus_in : ErrorHandlerMode → EventBus ℕ ErrorClass
bus_in mode = record {
  handlers = ("tick", 1 ∷ 2 ∷ 0 ∷ []) ∷ [];
  error_mode = mode;
  last_errors = [];
}

emit_lem_example :
    let m = emit class_of (leave fails) "tick" 5 (bus_in log) in
    let failed = failures fails 5 (handlers_of "tick" (bus_in log)) in
    (m.called ≡ handlers_of "tick" (bus_in log))
    × (m.errors ≡ map (λ x. x.1) failed)
    × (m.logged ≡ as_logged class_of failed)
    × (m.raised ≡ none)
    × (m.bus ≡ record (bus_in log) { last_errors = as_noted "tick" failed })
emit_lem_example = emit_lem class_of fails "tick" 5 (bus_in log) refl

logged_errors :
    (emit class_of (leave fails) "tick" 5 (bus_in log)).logged ≡ (user_error, value_error) ∷ []
unfolding emit call_all classify_error isinstance
logged_errors = refl

abbrev calls : List (Call ℕ)
calls =
    registers "tick" 4 ∷ registers "tick" 5 ∷ registers "tick" 4 ∷ unregisters "tick" (some 5) ∷ []

abbrev quiet_bus : EventBus ℕ ErrorClass
quiet_bus = new log

registered_lem_example :
    Distinct (handlers_of "tick" (run quiet_bus calls))
    × (contains (handlers_of "tick" (run quiet_bus calls)) 4 ≡ is_wanted "tick" 4 false calls)
registered_lem_example = registered_lem "tick" 4 quiet_bus calls tt
