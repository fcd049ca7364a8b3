-- ===== src/Core/Tests.antt =====
-- Runs of the asynchronous utilities and the container.
use bt_api_base.Prelude.{
  ℕ, zero, suc, ◌+◌, ◌<◌, ◌≤◌, ◌≡◌, ◌↔◌, ◌⊎◌, refl, Bool, true, false, List, [], ◌∷◌, arith, some,
  none, nat_key, nat_equals,
}
use bt_api_base.Core.CircuitBreaker.{
  CircuitState, new, closed, opened, Step, starts, ends, raises_expected, raises_other, step, run,
  should_attempt, on_failure, admitted, failures_since, IsValid, AllRefused, circuit_run_lem,
  open_refuses,
}
use bt_api_base.Core.Container.{Param, Registrations, Objects, no_objects, found, missing, resolve}
use bt_api_base.Core.Container.Resolves.{IsFoundedAt}
use bt_api_base.Core.Container.Once.{Use, resolves, enters, leaves, use_all, singleton_once}
use bt_api_base.Core.Retry
use bt_api_base.Core.Retry.{
  Outcome, attempt_from, wrapper, is_retried, AllRetried, delays, wrapper_ends,
}
use bt_api_base.Core.RateLimit
use bt_api_base.Core.RateLimit.{acquire}
use bt_api_base.Core.RateLimit.Bound.{within, acquire_all, async_limit}

-- Two calls overlap; the breaker opens at two failures and tries again after sixty ticks.
abbrev steps : List Step
steps = starts 1 ∷ starts 2 ∷ ends 3 raises_expected ∷ ends 4 raises_other ∷ starts 5 ∷ []

abbrev later : List Step
later = starts 9 ∷ starts 60 ∷ []

circuit_run_lem_example :
    ((run 2 60 new steps).failures ≡ failures_since 2 60 0 steps)
    × (((run 2 60 new steps).state ≡ closed) ↔ (failures_since 2 60 0 steps < 2))
    × IsValid 2 60 (run 2 60 new steps)
circuit_run_lem_example = circuit_run_lem 2 60 steps (omega arith)

open_refuses_example :
    let c : CircuitState = step 2 60 (run 2 60 new steps) (ends 6 raises_expected) in
    AllRefused 2 60 (admitted 2 60 c later) × ((run 2 60 c later).state ≡ opened)
unfolding step run on_failure should_attempt
open_refuses_example =
    open_refuses 2 60 steps later 6 (omega arith) refl (omega arith, (omega arith, tt))

-- The first two attempts fail.
abbrev outcomes : ℕ → Outcome ℕ ℕ
outcomes zero = Retry.raises 7
outcomes (suc zero) = Retry.raises 7
outcomes (suc (suc n)) = Retry.returns n

abbrev always : ℕ → Bool
always e = true

wrapper_ends_example :
    (failed : ℕ) × (failed ≤ 4)
    × AllRetried always 2 outcomes failed 0
    × ((wrapper always 2 outcomes 4 5).outcome ≡ outcomes failed)
    × ((wrapper always 2 outcomes 4 5).attempts ≡ suc failed)
    × ((wrapper always 2 outcomes 4 5).sleeps ≡ delays always 2 outcomes failed 5)
    × ((is_retried always 2 outcomes (outcomes failed) ≡ false) ⊎ (failed ≡ 4))
wrapper_ends_example = wrapper_ends always 2 outcomes 4 5

retried : (wrapper always 2 outcomes 4 5).sleeps ≡ 5 ∷ 10 ∷ []
unfolding wrapper attempt_from
retried = refl

-- The third call sleeps until the first is out of the window.
abbrev calls : List (ℕ × ℕ)
calls = (1, 1) ∷ (4, 4) ∷ (5, 12) ∷ []

async_limit_example : within 3 (3 + 10) (acquire_all calls (RateLimit.new 2 10, [])).1 ≤ 2
unfolding acquire
async_limit_example =
    async_limit 2 10 calls 3 (omega arith)
      (omega arith, omega arith, (omega arith, omega arith, (omega arith, omega arith, tt)))

-- Interface 1 is made with an object of interface 0.
abbrev signature : ℕ → List (Param ℕ)
signature zero = []
signature (suc n) = record { name = "part"; annotation = some 0; has_default = false } ∷ []

abbrev rank : ℕ → ℕ
rank i = i

abbrev registered : Registrations ℕ ℕ
registered = record { services = (1, 1) ∷ []; factories = (0, 0) ∷ []; scoped_services = [] }

founded : (j : ℕ) → IsFoundedAt signature rank registered j
founded zero = (tt, tt, tt)
founded (suc zero) = (tt, (omega arith, tt), tt)
founded (suc (suc j)) =
    let one : nat_equals 1 (suc (suc j)) ≡ false = ground arith in
    let none_ : nat_equals 0 (suc (suc j)) ≡ false = ground arith in (tt, rw one tt, rw none_ tt)

abbrev start : Objects ℕ ℕ
start = no_objects

-- A scope is entered, interface 0 is resolved twice, and the scope is left.
abbrev uses : List (Use ℕ)
uses = enters ∷ resolves 0 ∷ resolves 0 ∷ leaves none ∷ []

singleton_once_example :
    ((s' : Objects ℕ ℕ) × (a : ℕ) × (resolve signature 2 registered 1 start ≡ some (s', found a))
      × (s'' : Objects ℕ ℕ) × (use_all signature rank registered 2 uses s' ≡ some s'')
      × (resolve signature 2 registered 1 s'' ≡ some (s'', found a)))
    ⊎ ((s' : Objects ℕ ℕ) × (resolve signature 2 registered 1 start ≡ some (s', missing)))
singleton_once_example =
    singleton_once signature rank registered 2 uses 1 1 start founded (omega arith)
      (tt, (omega arith, (omega arith, (tt, tt)))) refl refl
