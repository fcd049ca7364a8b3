-- ===== src/RateLimit/Limiter/Acquire.antt =====
-- What a call of `RateLimiter.acquire` does to the limiters.
use bt_api_base.Prelude.{
  ℕ, suc, ◌*◌, ◌<◌, length, ap, arith, String, ◌≡◌, refl, inl, inr, Bool, true, ◌||◌, Option, none,
  some, List, [], ◌∷◌, null, select, string_key, if◌then◌else◌, Bool-cases,
}
use bt_api_base.Prelude.Dict.{lookup}
use bt_api_base.RateLimit.Limiter.{
  RateLimitRule, RateLimiter, match, Limiter, Limiters, Taken, acquire_rules, get_matched_rules,
  demands, acquire,
}
use bt_api_base.RateLimit.Limiter.Owes.{Owes-trans, Owes-map}
use bt_api_base.RateLimit.Limiter.Atomic.{
  OwesIf, Charged, takings, acquire_rules-Charged, weights_of,
}

-- The times at which a call reads the clock, which it does fewer than `bound` times.
abbrev pub IsReading : (ℕ → ℕ) → ℕ → ℕ → Type 0
IsReading clock bound t = (n : ℕ) × (n < bound) × (t ≡ clock n)

module _ (R : ℕ → Type 0) where
  OwesIf-refl : (o : Option Limiter) → OwesIf R o [] o
  OwesIf-refl none = refl
  OwesIf-refl (some l) = ([], tt, unfold bt_api_base.RateLimit.Limiter.Owes.age_all in refl)

  -- Nothing is owed at the start.
  pub Charged-refl : (d : Limiters) → Charged R d [] d
  Charged-refl d name = OwesIf-refl (lookup name d)

  OwesIf-trans :
      (a b c : Option Limiter) (ws : List ℕ) → OwesIf R a [] b → OwesIf R b ws c → OwesIf R a ws c
  OwesIf-trans none none none ws h k = k
  OwesIf-trans (some a) (some b) (some c) ws h k = Owes-trans R a b ws c h k
  OwesIf-trans none none (some c) ws h k = absurd k
  OwesIf-trans none (some b) c ws h k = absurd h
  OwesIf-trans (some a) none c ws h k = absurd h
  OwesIf-trans (some a) (some b) none ws h k = absurd k

  pub Charged-trans :
      (a b c : Limiters) (taken : Taken)
      → Charged R a [] b
      → Charged R b taken c
      → Charged R a taken c
  Charged-trans a b c taken h k name =
      OwesIf-trans (lookup name a) (lookup name b) (lookup name c) (weights_of name taken) (h name)
        (k name)

module _ (R S : ℕ → Type 0) (wider : (t : ℕ) → R t → S t) where
  OwesIf-map :
      (o : Option Limiter) (ws : List ℕ) (p : Option Limiter) → OwesIf R o ws p → OwesIf S o ws p
  OwesIf-map none ws none h = h
  OwesIf-map (some a) ws (some b) h = Owes-map R S wider a ws b h
  OwesIf-map none ws (some b) h = absurd h
  OwesIf-map (some a) ws none h = absurd h

  pub Charged-map :
      (a : Limiters) (taken : Taken) (b : Limiters) → Charged R a taken b → Charged S a taken b
  Charged-map a taken b h name =
      OwesIf-map (lookup name a) (weights_of name taken) (lookup name b) (h name)

nil_of_null {ℓ} : {A : Type ℓ} (xs : List A) → null xs ≡ true → xs ≡ []
nil_of_null [] h = refl
nil_of_null (x ∷ xs) h = cc

select-null :
    (test : RateLimitRule → Bool) (rules : List RateLimitRule)
    → (null rules || null (select test rules)) ≡ true
    → select test rules ≡ []
select-null test [] h = refl
select-null test (r ∷ rules) h = nil_of_null (select test (r ∷ rules)) h

null_matched :
    (fnmatch : String → String → Bool) (l : RateLimiter) (path : String)
    → (null l.rules || null (get_matched_rules fnmatch l path)) ≡ true
    → get_matched_rules fnmatch l path ≡ []
unfolding get_matched_rules
null_matched fnmatch l path h = select-null (λ rule. match fnmatch rule path) l.rules h

-- The takings of a call: the weight of each matched rule that has a limiter.
abbrev pub call_takings : (String → String → Bool) → RateLimiter → String → String → ℕ → Taken
call_takings fnmatch l method path weight =
    takings l.limiters (demands (get_matched_rules fnmatch l path) method path weight) []

-- How often a call reads the clock at most: once for each matched rule that it charges, and once
-- for each that it gives back.
abbrev pub reads_of : (String → String → Bool) → RateLimiter → String → ℕ
reads_of fnmatch l path = 2 * length (get_matched_rules fnmatch l path)

length-demands :
    (rules : List RateLimitRule) (method path : String) (weight : ℕ)
    → length (demands rules method path weight) ≡ length rules
unfolding demands
length-demands [] method path weight = refl
length-demands (r ∷ rules) method path weight = ap suc (length-demands rules method path weight)

-- A call that is granted leaves every limiter as the readings of the clock that the call makes, at
-- most two for each matched rule, have left it, with the weights of the matched rules of its name on
-- top, each at the time of such a reading; a call that is refused leaves every limiter as such
-- readings have left it, with nothing on top and nothing else lost. The rules stay.
pub acquire_atomic :
    (clock : ℕ → ℕ) (fnmatch : String → String → Bool) (l : RateLimiter) (method path : String)
    (weight : ℕ)
    → let (l', granted) = acquire clock fnmatch l method path weight in
      Charged
        (IsReading clock (reads_of fnmatch l path))
        l.limiters
        (if granted then call_takings fnmatch l method path weight else [])
        l'.limiters
      × (l'.rules ≡ l.rules)
unfolding acquire
acquire_atomic clock fnmatch l method path weight =
    elim (Bool-cases (null l.rules || null (get_matched_rules fnmatch l path))) [
      | inl none_match ↦ rw none_match (
          rw (null_matched fnmatch l path none_match)
            (unfold demands takings in (Charged-refl (IsReading clock 0) l.limiters, refl)))
      | inr some_match ↦ rw some_match (
        acquire_rules-Charged (IsReading clock (reads_of fnmatch l path)) clock l.limiters
            (reads_of fnmatch l path) (λ n h. (n, h, refl))
            (demands (get_matched_rules fnmatch l path) method path weight) [] 0 l.limiters
            (omega (arith, length-demands (get_matched_rules fnmatch l path) method path weight))
            (Charged-refl (IsReading clock (reads_of fnmatch l path)) l.limiters),
        refl,
      )
    ]
