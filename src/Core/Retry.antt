-- ===== src/Core/Retry.antt =====
-- `async_retry`. Attempt `i` of the decorated function ends as `outcomes i`; `exceptions` is the test
-- of the exceptions to retry on. The delay and the factor of the back-off are whole numbers.
use bt_api_base.Prelude.{
  ◌∙◌, ap, sym, ℕ, zero, suc, ◌+◌, ◌*◌, ◌≤◌, ◌≡◌, refl, inl, inr, ◌⊎◌, Bool, true, false, List, [],
  ◌∷◌, if◌then◌else◌, arith, Bool-cases, nat_key,
}

pub data Outcome (V E : Type 0) : Type 0 where
  returns : V → Outcome V E
  raises : E → Outcome V E

-- What a call of the wrapper leaves: its own outcome, the number of attempts, and the sleeps.
pub record Call (V E : Type 0) : Type 0 where
  pub outcome : Outcome V E
  pub attempts : ℕ
  pub sleeps : List ℕ

module _ {V E : Type 0} (exceptions : E → Bool) (backoff : ℕ) (outcomes : ℕ → Outcome V E) where
  -- Whether an attempt's outcome makes another attempt.
  abbrev pub is_retried : Outcome V E → Bool
  is_retried (returns v) = false
  is_retried (raises e) = exceptions e

  -- The loop from attempt `i` on, with `more` attempts after it, and the current delay. Only the
  -- listed exceptions are caught, and the last one is raised again.
  unfoldable pub attempt_from : (more i delay : ℕ) → Call V E
  attempt_from zero i delay = record { outcome = outcomes i; attempts = suc i; sleeps = [] }
  attempt_from (suc more) i delay =
      let rest = attempt_from more (suc i) (delay * backoff) in
      if is_retried (outcomes i)
      then record rest { sleeps = delay ∷ rest.sleeps }
      else record { outcome = outcomes i; attempts = suc i; sleeps = [] }

  -- `wrapper` with `max_attempts = suc more`.
  unfoldable pub wrapper : (more delay : ℕ) → Call V E
  unfolding attempt_from
  wrapper more delay = attempt_from more 0 delay

  -- `count` delays, each the one before times the back-off.
  abbrev pub delays : ℕ → ℕ → List ℕ
  delays zero delay = []
  delays (suc count) delay = delay ∷ delays count (delay * backoff)

  -- Attempts `i`, `i + 1`, ... of which there are `count` are all retried.
  abbrev pub AllRetried : ℕ → ℕ → Type 0
  AllRetried zero i = Unit
  AllRetried (suc count) i = (is_retried (outcomes i) ≡ true) × AllRetried count (suc i)

  -- The call that made `failed` retried attempts from `i` on, and then one that was its last.
  abbrev Ends : ℕ → ℕ → ℕ → Call V E → Type 0
  Ends more i delay c =
      (failed : ℕ) × (failed ≤ more)
      × AllRetried failed i
      × (c.outcome ≡ outcomes (i + failed))
      × (c.attempts ≡ suc (i + failed))
      × (c.sleeps ≡ delays failed delay)
      × ((is_retried (outcomes (i + failed)) ≡ false) ⊎ (failed ≡ more))

  attempt_from-Ends : (more i delay : ℕ) → Ends more i delay (attempt_from more i delay)
  unfolding attempt_from
  attempt_from-Ends zero i delay =
      let e : i ≡ i + 0 = omega arith in
      (0, omega arith, tt, ap outcomes e, omega arith, refl, inr refl)
  attempt_from-Ends (suc more) i delay = elim (Bool-cases (is_retried (outcomes i))) [
    | inl again ↦
        let (failed, a, b, c, d, s, last) = attempt_from-Ends more (suc i) (delay * backoff) in
        let e : suc i + failed ≡ i + suc failed = omega arith in
        rw again (
          suc failed,
          omega (arith, a),
          (again, b),
          c ∙ ap outcomes e,
          omega (arith, d),
          ap (λ l. delay ∷ l) s,
          elim last [
            | inl r ↦ inl (ap (λ n. is_retried (outcomes n)) (sym e) ∙ r)
            | inr q ↦ inr (ap suc q)
          ],
        )
    | inr over ↦
        let e : i ≡ i + 0 = omega arith in
        rw over (
          0,
          omega arith,
          tt,
          ap outcomes e,
          omega arith,
          refl,
          inl (ap (λ n. is_retried (outcomes n)) (sym e) ∙ over),
        )
  ]

  -- A call with at most `suc more` attempts ends: with the outcome of its first attempt that is not
  -- retried, or of the last one where all are; it makes no attempt after that one, and between the
  -- attempts it sleeps the delay, multiplied each time.
  pub wrapper_ends :
      (more delay : ℕ)
      → (failed : ℕ) × (failed ≤ more)
        × AllRetried failed 0
        × ((wrapper more delay).outcome ≡ outcomes failed)
        × ((wrapper more delay).attempts ≡ suc failed)
        × ((wrapper more delay).sleeps ≡ delays failed delay)
        × ((is_retried (outcomes failed) ≡ false) ⊎ (failed ≡ more))
  unfolding wrapper
  wrapper_ends more delay =
      let (failed, a, b, c, d, s, last) = attempt_from-Ends more 0 delay in
      let e : 0 + failed ≡ failed = omega arith in
      (
        failed,
        a,
        b,
        c ∙ ap outcomes e,
        omega (arith, d),
        s,
        elim last [ inl r ↦ inl (ap (λ n. is_retried (outcomes n)) (sym e) ∙ r) | inr q ↦ inr q ],
      )
