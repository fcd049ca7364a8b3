-- ===== src/Core/CircuitBreaker.antt =====
-- `async_circuit_breaker`. The state of one decorated function is shared by its calls; what the
-- function does is told to the step that ends the call.
use bt_api_base.Prelude.{
  ◌∙◌, ap, ℕ, suc, ◌+◌, ◌-◌, ◌≤◌, ◌<◌, ◌≡◌, ◌≢◌, ◌↔◌, refl, Bool, true, false, Option, none, some,
  List, [], ◌∷◌, ltb, leb, if◌then◌else◌, arith,
}

pub data Status : Type 0 where
  closed opened half_open : Status

pub record CircuitState : Type 0 where
  pub failures : ℕ
  pub last_failure : Option ℕ
  pub state : Status

abbrev pub new : CircuitState
new = record { failures = 0; last_failure = none; state = closed }

-- `last_f is not None and time.time() - last_f > recovery_timeout`
abbrev pub is_over : ℕ → ℕ → Option ℕ → Bool
is_over recovery_timeout now none = false
is_over recovery_timeout now (some last_failure) = ltb recovery_timeout (now - last_failure)

abbrev pub attempt_in : ℕ → ℕ → CircuitState → Status → CircuitState × Bool
attempt_in recovery_timeout now c closed = (c, true)
attempt_in recovery_timeout now c opened =
    if is_over recovery_timeout now c.last_failure
    then (record c { state = half_open }, true)
    else (c, false)
attempt_in recovery_timeout now c half_open = (c, true)

unfoldable pub should_attempt : ℕ → ℕ → CircuitState → CircuitState × Bool
should_attempt recovery_timeout now c = attempt_in recovery_timeout now c c.state

unfoldable pub on_success : CircuitState → CircuitState
on_success c = record c { failures = 0; state = closed }

unfoldable pub on_failure : ℕ → ℕ → CircuitState → CircuitState
on_failure failure_threshold now c =
    let failures = suc c.failures in
    record {
      failures = failures;
      last_failure = some now;
      state = if leb failure_threshold failures then opened else c.state;
    }

-- How the decorated function ends: with a result, with an exception of the expected type, or with
-- another one, which passes by the breaker.
pub data Ending : Type 0 where
  returns raises_expected raises_other : Ending

-- The steps of `wrapper`: a call starts, and is refused with `RuntimeError` or runs; a running call
-- ends.
pub data Step : Type 0 where
  starts : ℕ → Step
  ends : ℕ → Ending → Step

module _ (failure_threshold recovery_timeout : ℕ) where
  abbrev pub end_call : ℕ → CircuitState → Ending → CircuitState
  end_call now c returns = on_success c
  end_call now c raises_expected = on_failure failure_threshold now c
  end_call now c raises_other = c

  unfoldable pub step : CircuitState → Step → CircuitState
  unfolding should_attempt on_success on_failure
  step c (starts now) = (should_attempt recovery_timeout now c).0
  step c (ends now ending) = end_call now c ending

  unfoldable pub run : CircuitState → List Step → CircuitState
  unfolding step
  run c [] = c
  run c (s ∷ steps) = run (step c s) steps

  -- Whether the calls that start are let through.
  unfoldable pub admitted : CircuitState → List Step → List Bool
  admitted c [] = []
  admitted c (starts now ∷ steps) =
      let (c', attempt) = should_attempt recovery_timeout now c in attempt ∷ admitted c' steps
  admitted c (ends now ending ∷ steps) = admitted (end_call now c ending) steps

  -- The expected failures since the last success, from `n` on.
  abbrev failed : ℕ → Ending → ℕ
  failed n returns = 0
  failed n raises_expected = suc n
  failed n raises_other = n

  unfoldable pub failures_since : ℕ → List Step → ℕ
  failures_since n [] = n
  failures_since n (starts now ∷ steps) = failures_since n steps
  failures_since n (ends now ending ∷ steps) = failures_since (failed n ending) steps

  -- What each status means.
  abbrev StatusOf : CircuitState → Status → Type 0
  StatusOf c closed = c.failures < failure_threshold
  StatusOf c opened = (failure_threshold ≤ c.failures) × (c.last_failure ≢ none)
  StatusOf c half_open = failure_threshold ≤ c.failures

  abbrev pub IsValid : CircuitState → Type 0
  IsValid c = StatusOf c c.state

  attempt_in-IsValid :
      (now : ℕ) (c : CircuitState) (s : Status)
      → c.state ≡ s
      → StatusOf c s
      → IsValid (attempt_in recovery_timeout now c s).0
        × ((attempt_in recovery_timeout now c s).0.failures ≡ c.failures)
  attempt_in-IsValid now c closed e h = (rw e h, refl)
  attempt_in-IsValid now c opened e h = ground (arith, e, h)
  attempt_in-IsValid now c half_open e h = (rw e h, refl)

  on_failure-StatusOf :
      (now : ℕ) (c : CircuitState) (s : Status)
      → c.state ≡ s
      → StatusOf c s
      → IsValid (on_failure failure_threshold now c)
  unfolding on_failure
  on_failure-StatusOf now c closed e h = ground (arith, e)
  on_failure-StatusOf now c opened e h = ground (arith, e)
  on_failure-StatusOf now c half_open e h = ground (arith, e)

  end_call-IsValid :
      (now : ℕ) (c : CircuitState) (ending : Ending)
      → 0 < failure_threshold
      → IsValid c
      → IsValid (end_call now c ending)
        × ((end_call now c ending).failures ≡ failed c.failures ending)
  unfolding on_success on_failure
  end_call-IsValid now c returns positive h = (positive, refl)
  end_call-IsValid now c raises_expected positive h =
      (on_failure-StatusOf now c c.state refl h, refl)
  end_call-IsValid now c raises_other positive h = (h, refl)

  run-Counted :
      (c : CircuitState) (n : ℕ) (steps : List Step)
      → 0 < failure_threshold
      → IsValid c
      → c.failures ≡ n
      → IsValid (run c steps) × ((run c steps).failures ≡ failures_since n steps)
  unfolding run failures_since step should_attempt
  run-Counted c n [] positive h e = (h, e)
  run-Counted c n (starts now ∷ steps) positive h e =
      let (h', e') = attempt_in-IsValid now c c.state refl h in
      run-Counted (attempt_in recovery_timeout now c c.state).0 n steps positive h' (e' ∙ e)
  run-Counted c n (ends now ending ∷ steps) positive h e =
      let (h', e') = end_call-IsValid now c ending positive h in
      run-Counted (end_call now c ending) (failed n ending) steps positive h'
        (e' ∙ ap (λ m. failed m ending) e)

  closed_iff :
      (c : CircuitState) (s : Status)
      → StatusOf c s
      → (s ≡ closed) ↔ (c.failures < failure_threshold)
  closed_iff c closed h = (λ e. h, λ e. refl)
  closed_iff c opened h = (λ e. cc, λ e. absurd (omega (arith, h.0)))
  closed_iff c half_open h = (λ e. cc, λ e. absurd (omega (arith, h)))

  -- However the calls interleave, the breaker counts the expected failures since the last success,
  -- and is closed exactly while these are fewer than the threshold, which is not zero; while it is
  -- open, the time of a failure is known.
  pub circuit_run_lem :
      (steps : List Step)
      → 0 < failure_threshold
      → ((run new steps).failures ≡ failures_since 0 steps)
        × (((run new steps).state ≡ closed) ↔ (failures_since 0 steps < failure_threshold))
        × IsValid (run new steps)
  circuit_run_lem steps positive =
      let (h, e) = run-Counted new 0 steps positive positive refl in
      (e, rw (← e) (closed_iff (run new steps) (run new steps).state h), h)

  -- No success ends, no failure is earlier than `f`, and no call starts after the recovery time.
  abbrev pub IsQuiet : ℕ → List Step → Type 0
  IsQuiet f [] = Unit
  IsQuiet f (starts now ∷ steps) = (now ≤ f + recovery_timeout) × IsQuiet f steps
  IsQuiet f (ends now returns ∷ steps) = ⊥
  IsQuiet f (ends now raises_expected ∷ steps) = (f ≤ now) × IsQuiet f steps
  IsQuiet f (ends now raises_other ∷ steps) = IsQuiet f steps

  abbrev pub AllRefused : List Bool → Type 0
  AllRefused [] = Unit
  AllRefused (b ∷ bs) = (b ≡ false) × AllRefused bs

  refused :
      (now : ℕ) (c : CircuitState) (g : ℕ)
      → c.state ≡ opened
      → c.last_failure ≡ some g
      → now ≤ g + recovery_timeout
      → attempt_in recovery_timeout now c c.state ≡ (c, false)
  refused now c g s l early = rw (s, l) (ground (arith, early))

  quiet-AllRefused :
      (f : ℕ) (c : CircuitState) (g : ℕ) (steps : List Step)
      → c.state ≡ opened
      → failure_threshold ≤ c.failures
      → c.last_failure ≡ some g
      → f ≤ g
      → IsQuiet f steps
      → AllRefused (admitted c steps) × ((run c steps).state ≡ opened)
  unfolding admitted run step on_failure should_attempt
  quiet-AllRefused f c g [] s n l le h = (tt, s)
  quiet-AllRefused f c g (starts now ∷ steps) s n l le (early, h) =
      let rest = quiet-AllRefused f c g steps s n l le h in
      let same = refused now c g s l (omega (arith, early, le)) in
      (
        rw same (refl, rest.0),
        ap (λ (r : CircuitState × Bool). (run r.0 steps).state) same ∙ rest.1,
      )
  quiet-AllRefused f c g (ends now returns ∷ steps) s n l le h = absurd h
  quiet-AllRefused f c g (ends now raises_expected ∷ steps) s n l le (later, h) =
      quiet-AllRefused f (on_failure failure_threshold now c) now steps (ground (arith, s, n))
        (omega (arith, n)) refl later h
  quiet-AllRefused f c g (ends now raises_other ∷ steps) s n l le h =
      quiet-AllRefused f c g steps s n l le h

  -- After any steps that end with a failure at time `f` and leave the breaker open, it stays open
  -- and refuses every call that starts within the recovery time, as long as no earlier call succeeds.
  pub open_refuses :
      (before steps : List Step) (f : ℕ)
      → 0 < failure_threshold
      → let c : CircuitState = step (run new before) (ends f raises_expected) in
        c.state ≡ opened
        → IsQuiet f steps
        → AllRefused (admitted c steps) × ((run c steps).state ≡ opened)
  unfolding step on_failure
  open_refuses before steps f positive s h =
      let (valid, _) = run-Counted new 0 before positive positive refl in
      let c : CircuitState = end_call f (run new before) raises_expected in
      let v = on_failure-StatusOf f (run new before) (run new before).state refl valid in
      quiet-AllRefused f c f steps s (ground (arith, rw s at v)) refl (omega arith) h
