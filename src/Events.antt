-- ===== src/Events.antt =====
-- `EventBus` of event_bus.py. A handler is called with the data and may use the bus: `call` gives the
-- bus after it, and what it raised. `H` is the type of the handlers, which are all callable, `E` that of
-- the exceptions. Each method holds the lock, which `emit` does not hold during the calls.

pub mod Emit
pub mod Registered
mod Tests
use bt_api_base.Prelude.{
  String, Bool, true, false, not, Option, none, some, List, [], ◌∷◌, ◌++◌, null, if◌then◌else◌,
  ◌==◌, Key, string_key,
}
use bt_api_base.Prelude.Set.{add}
use bt_api_base.Prelude.Dict.{Dict, lookup, insert, erase}
use bt_api_base.Errors.Exceptions.{
  ErrorClass, bt_api_error, type_error, value_error, attribute_error, key_error, index_error,
  connection_error, os_error, timeout_error, runtime_error, isinstance,
}

pub data ErrorHandlerMode : Type 0 where
  log raise collect : ErrorHandlerMode

pub data ErrorSeverity : Type 0 where
  user_error business_error system_error : ErrorSeverity

unfoldable pub classify_error : ErrorClass → ErrorSeverity
unfolding isinstance
classify_error c =
    if isinstance c (bt_api_error ∷ [])
    then business_error
    else if isinstance c (type_error ∷ value_error ∷ attribute_error ∷ key_error ∷ index_error ∷ [])
    then user_error
    else if isinstance c (connection_error ∷ os_error ∷ timeout_error ∷ runtime_error ∷ [])
    then system_error
    else system_error

pub record EventBus (H E : Type 0) : Type 0 where
  pub handlers : Dict String (List H)
  pub error_mode : ErrorHandlerMode
  pub last_errors : List (String × H × E)

-- What a call of `emit` leaves: the bus, the handlers it called, the list of errors, the records that
-- it logged, and the exception that it raises again.
pub record Emission (H E : Type 0) : Type 0 where
  pub bus : EventBus H E
  pub called : List H
  pub errors : List E
  pub logged : List (ErrorSeverity × E)
  pub raised : Option E

abbrev pub is_raise : ErrorHandlerMode → Bool
is_raise log = false
is_raise raise = true
is_raise collect = false

module _ {H : Type 0} where
  abbrev pub list_or_empty : Option (List H) → List H
  list_or_empty none = []
  list_or_empty (some l) = l

module _ {H : Type 0} ⦃e : Key H⦄ where
  -- `handlers.remove(handler)`, which takes out the first.
  abbrev pub remove : H → List H → List H
  remove handler [] = []
  remove handler (h ∷ hs) = let rest = remove handler hs in if h == handler then hs else h ∷ rest

module _ {H E : Type 0} where
  abbrev pub new : ErrorHandlerMode → EventBus H E
  new mode = record { handlers = []; error_mode = mode; last_errors = [] }

  -- `self._handlers.get(event_type, [])`
  abbrev pub handlers_of : String → EventBus H E → List H
  handlers_of event_type b = list_or_empty (lookup event_type b.handlers)

  unfoldable pub has_handlers : String → EventBus H E → Bool
  has_handlers event_type b = not (null (handlers_of event_type b))

  unfoldable pub clear_errors : EventBus H E → EventBus H E
  clear_errors b = record b { last_errors = [] }

  unfoldable pub clear : EventBus H E → EventBus H E
  clear b = record b { handlers = []; last_errors = [] }

module _ {H E : Type 0} ⦃e : Key H⦄ where
  -- The name of the event is empty: `ValueError`.
  unfoldable pub on : String → H → EventBus H E → Option (EventBus H E)
  on event_type handler b =
      if event_type == ""
      then none
      else some (record b {
        handlers = insert event_type (add handler (handlers_of event_type b)) b.handlers;
      })

  abbrev pub off_one : String → H → EventBus H E → Option (List H) → EventBus H E
  off_one event_type handler b none = b
  off_one event_type handler b (some hs) = record b {
    handlers = insert event_type (remove handler hs) b.handlers;
  }

  unfoldable pub off : String → Option H → EventBus H E → EventBus H E
  off event_type none b = record b { handlers = erase event_type b.handlers }
  off event_type (some handler) b = off_one event_type handler b (lookup event_type b.handlers)

module _ {H E D : Type 0} (class_of : E → ErrorClass)
    (call : H → D → EventBus H E → EventBus H E × Option E) where
  abbrev noted : String → H → Option E → EventBus H E → EventBus H E
  noted event_type h none b = b
  noted event_type h (some error) b = record b {
    last_errors = b.last_errors ++ (event_type, h, error) ∷ [];
  }

  -- The end of one turn of the loop, with what the rest of the loop would give.
  abbrev end_turn : H → Option E → EventBus H E → Emission H E → Emission H E
  end_turn h none b rest = record rest { called = h ∷ rest.called }
  end_turn h (some error) b rest =
      if is_raise b.error_mode
      then record {
        bus = b;
        called = h ∷ [];
        errors = error ∷ [];
        logged = [];
        raised = some error;
      }
      else record rest {
        called = h ∷ rest.called;
        errors = error ∷ rest.errors;
        logged = (classify_error (class_of error), error) ∷ rest.logged;
      }

  unfoldable pub call_all : String → D → List H → EventBus H E → Emission H E
  call_all event_type payload [] b = record {
    bus = b;
    called = [];
    errors = [];
    logged = [];
    raised = none;
  }
  call_all event_type payload (h ∷ hs) b =
      let failure = (call h payload b).1 in
      let after = noted event_type h failure (call h payload b).0 in
      let rest = call_all event_type payload hs after in end_turn h failure after rest

  -- The handlers are those registered at the start.
  unfoldable pub emit : String → D → EventBus H E → Emission H E
  unfolding call_all
  emit event_type payload b =
      call_all event_type payload (handlers_of event_type b) (record b { last_errors = [] })
