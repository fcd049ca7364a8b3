-- ===== src/Events/Emit.antt =====
-- What `emit` does with handlers that leave the bus alone: each fails, or not, by itself.
use bt_api_base.Prelude.{
  String, true, false, Option, none, some, List, [], ◌∷◌, ◌++◌, append_assoc, append-nil, ◌≡◌, refl,
  ap, sym, ◌∙◌, ◌⊎◌, inl, inr, Option-cases, map,
}
use bt_api_base.Errors.Exceptions.{ErrorClass}
use bt_api_base.Events.{
  ErrorSeverity, EventBus, Emission, is_raise, classify_error, handlers_of, call_all, emit,
}

module _ {H E : Type 0} where
  abbrev pub if_fails : H → Option E → List (H × E) → List (H × E)
  if_fails h none rest = rest
  if_fails h (some error) rest = (h, error) ∷ rest

  abbrev pub as_logged : (E → ErrorClass) → List (H × E) → List (ErrorSeverity × E)
  as_logged class_of l = map (λ x. (classify_error (class_of x.1), x.1)) l

  abbrev pub as_noted : String → List (H × E) → List (String × H × E)
  as_noted event_type l = map (λ x. (event_type, x.0, x.1)) l

module _ {H E D : Type 0} (fails : H → D → Option E) where
  abbrev pub leave : H → D → EventBus H E → EventBus H E × Option E
  leave h payload b = (b, fails h payload)

  -- The handlers that fail, with what they raise, in order.
  abbrev pub failures : D → List H → List (H × E)
  failures payload [] = []
  failures payload (h ∷ hs) = if_fails h (fails h payload) (failures payload hs)

module _ {H E D : Type 0} (class_of : E → ErrorClass) (fails : H → D → Option E) where
  abbrev Collected : String → D → List H → EventBus H E → Emission H E → Type 0
  Collected event_type payload hs b m =
      (m.called ≡ hs)
      × (m.errors ≡ map (λ x. x.1) (failures fails payload hs))
      × (m.logged ≡ as_logged class_of (failures fails payload hs))
      × (m.raised ≡ none)
      × (m.bus ≡ record b {
        last_errors = b.last_errors ++ as_noted event_type (failures fails payload hs);
      })

  call_all-Collected :
      (event_type : String) (payload : D) (hs : List H) (b : EventBus H E)
      → is_raise b.error_mode ≡ false
      → Collected event_type payload hs b (call_all class_of (leave fails) event_type payload hs b)
  unfolding call_all
  call_all-Collected event_type payload [] b quiet = (
    refl,
    refl,
    refl,
    refl,
    ap (λ l. record b { last_errors = l }) (sym (append-nil b.last_errors)),
  )
  call_all-Collected event_type payload (h ∷ hs) b quiet = elim (Option-cases (fails h payload)) [
    | inl ok ↦
        let (c, x, l, r, s) = call_all-Collected event_type payload hs b quiet in
        rw ok (ap (λ q. h ∷ q) c, x, l, r, s)
    | inr (error, bad) ↦
        let next : EventBus H E = record b {
          last_errors = b.last_errors ++ (event_type, h, error) ∷ [];
        } in
        let (c, x, l, r, s) = call_all-Collected event_type payload hs next quiet in
        rw (bad, quiet)
          (
            ap (λ q. h ∷ q) c,
            ap (λ q. error ∷ q) x,
            ap (λ q. (classify_error (class_of error), error) ∷ q) l,
            r,
            s ∙ ap (λ q. record b { last_errors = q }) (append_assoc b.last_errors _ _),
          )
  ]

  -- Unless the mode is RAISE, emit calls every handler of the event in the order of registration,
  -- though some fail; it returns the errors they raise, in that order, logs each with the severity of
  -- its class, and leaves them as the last errors, with nothing else changed. This is for handlers
  -- that leave the bus alone.
  pub emit_lem :
      (event_type : String) (payload : D) (b : EventBus H E)
      → is_raise b.error_mode ≡ false
      → let m = emit class_of (leave fails) event_type payload b in
        let failed = failures fails payload (handlers_of event_type b) in
        (m.called ≡ handlers_of event_type b)
        × (m.errors ≡ map (λ x. x.1) failed)
        × (m.logged ≡ as_logged class_of failed)
        × (m.raised ≡ none)
        × (m.bus ≡ record b { last_errors = as_noted event_type failed })
  unfolding emit
  emit_lem event_type payload b quiet =
      call_all-Collected event_type payload (handlers_of event_type b)
        (record b { last_errors = [] }) quiet

  -- The handlers up to the first that fails are called.
  abbrev pub Stopped : String → D → List H → EventBus H E → Emission H E → Type 0
  Stopped event_type payload hs b m =
      (m.logged ≡ [])
      × (((failures fails payload hs ≡ []) × (m.called ≡ hs) × (m.raised ≡ none) × (m.bus ≡ b))
          ⊎ ((before : List H) × (h : H) × (after : List H) × (error : E) × (hs
                ≡ before ++ h ∷ after)
              × (failures fails payload before ≡ [])
              × (fails h payload ≡ some error)
              × (m.called ≡ before ++ h ∷ [])
              × (m.raised ≡ some error)
              × (m.bus ≡ record b { last_errors = b.last_errors ++ (event_type, h, error) ∷ [] })))

  call_all-Stopped :
      (event_type : String) (payload : D) (hs : List H) (b : EventBus H E)
      → is_raise b.error_mode ≡ true
      → Stopped event_type payload hs b (call_all class_of (leave fails) event_type payload hs b)
  unfolding call_all
  call_all-Stopped event_type payload [] b loud = (refl, inl (refl, refl, refl, refl))
  call_all-Stopped event_type payload (h ∷ hs) b loud = elim (Option-cases (fails h payload)) [
    | inl ok ↦
        let (l, rest) = call_all-Stopped event_type payload hs b loud in
        rw ok (
          l,
          elim rest [
            | inl (n, c, r, s) ↦ inl (n, ap (λ q. h ∷ q) c, r, s)
            | inr (before, g, after, error, split, n, bad, c, r, s) ↦ inr (
              h ∷ before,
              g,
              after,
              error,
              ap (λ q. h ∷ q) split,
              ap (λ f. if_fails h f (failures fails payload before)) ok ∙ n,
              bad,
              ap (λ q. h ∷ q) c,
              r,
              s,
            )
          ],
        )
    | inr (error, bad) ↦
        rw (bad, loud) (refl, inr ([], h, hs, error, refl, refl, bad, refl, refl, refl))
  ]

  -- In mode RAISE, emit either calls every handler of the event, where none fails, or calls the
  -- handlers up to the first that fails, raises its error again, and leaves it as the only last error;
  -- it logs nothing. This is for handlers that leave the bus alone.
  pub emit_raise :
      (event_type : String) (payload : D) (b : EventBus H E)
      → is_raise b.error_mode ≡ true
      → Stopped event_type payload
          (handlers_of event_type b)
          (record b { last_errors = [] })
          (emit class_of (leave fails) event_type payload b)
  unfolding emit
  emit_raise event_type payload b loud =
      call_all-Stopped event_type payload (handlers_of event_type b) (record b { last_errors = [] })
        loud
