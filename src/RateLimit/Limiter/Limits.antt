-- ===== src/RateLimit/Limiter/Limits.antt =====
-- No call takes a limiter beyond its limit.
use bt_api_base.Prelude.{
  ℕ, suc, String, ◌≡◌, ◌≤◌, inl, inr, Bool, ◌||◌, Option, none, some, List, [], ◌∷◌, arith, null,
  string_key, ◌==◌, Bool-cases, Option-cases,
}
use bt_api_base.Prelude.Dict.{lookup, insert, lookup-insert}
use bt_api_base.RateLimit.Sliding.Exact.{WithinLimit, acquire-WithinLimit, release-WithinLimit}
use bt_api_base.RateLimit.Fixed
use bt_api_base.RateLimit.Fixed.{FixedWindow, roll, try_charge}
use bt_api_base.RateLimit.Limiter.Atomic.{
  release_named_found, release_named_missing, acquire_rules_skip, acquire_rules_grant,
  acquire_rules_refuse,
}
use bt_api_base.RateLimit.Limiter.{
  RateLimitRule, RateLimitType, sliding_window, fixed_window, token_bucket, RateLimiter, Limiter,
  sliding, fixed, Limiters, Taken, acquire_one, release_one, release_named, give_back,
  acquire_rules, make_limiter, make_limiters, init, get_matched_rules, demands, acquire,
}

abbrev pub InLimit : Limiter → Type 0
InLimit (sliding l) = WithinLimit l
InLimit (fixed l) = l.window_count ≤ l.limit

acquire_one-InLimit : (l : Limiter) (now w : ℕ) → InLimit l → InLimit (acquire_one l now w).0
unfolding acquire_one Fixed.acquire try_charge roll
acquire_one-InLimit (sliding l) now w h = acquire-WithinLimit l now w h
acquire_one-InLimit (fixed l) now w h = ground arith

release_one-InLimit : (l : Limiter) (now w : ℕ) → InLimit l → InLimit (release_one l now w)
unfolding release_one Fixed.release
release_one-InLimit (sliding l) now w h = release-WithinLimit l now w h
release_one-InLimit (fixed l) now w h = omega arith

abbrev pub InLimitIf : Option Limiter → Type 0
InLimitIf none = Unit
InLimitIf (some l) = InLimit l

-- Every limiter of the dictionary is within its limit.
abbrev pub AllInLimit : Limiters → Type 0
AllInLimit d = (name : String) → InLimitIf (lookup name d)

insert-AllInLimit :
    (name : String) (l : Limiter) (d : Limiters)
    → AllInLimit d
    → InLimit l
    → AllInLimit (insert name l d)
insert-AllInLimit name l d h new k = elim (Bool-cases (name == k)) [
  | inl same ↦ rw (lookup-insert name k l d, same) new
  | inr other ↦ rw (lookup-insert name k l d, other) (h k)
]

release_named-AllInLimit :
    (name : String) (w now : ℕ) (d : Limiters)
    → AllInLimit d
    → AllInLimit (release_named name w now d)
release_named-AllInLimit name w now d h = elim (Option-cases (lookup name d)) [
  | inl missing ↦ rw (release_named_missing name w now d missing) h
  | inr (l, e) ↦ rw (release_named_found name w now d l e) (
      insert-AllInLimit name (release_one l now w) d h
        (release_one-InLimit l now w (rw e at (h name))))
]

give_back-AllInLimit :
    (clock : ℕ → ℕ) (taken : Taken) (n : ℕ) (d : Limiters)
    → AllInLimit d
    → AllInLimit (give_back clock taken n d)
unfolding give_back
give_back-AllInLimit clock [] n d h = h
give_back-AllInLimit clock ((name, w) ∷ taken) n d h =
    give_back-AllInLimit clock taken (suc n) (release_named name w (clock n) d)
      (release_named-AllInLimit name w (clock n) d h)

acquire_rules-AllInLimit :
    (clock : ℕ → ℕ) (todo taken : Taken) (n : ℕ) (d : Limiters)
    → AllInLimit d
    → AllInLimit (acquire_rules clock todo taken n d).0
acquire_rules-AllInLimit clock [] taken n d h = unfold acquire_rules in h
acquire_rules-AllInLimit clock ((name, w) ∷ todo) taken n d h =
    elim (Option-cases (lookup name d)) [
      | inl missing ↦
          rw (acquire_rules_skip clock d name w todo taken n d missing)
            (acquire_rules-AllInLimit clock todo taken n d h)
      | inr (l, e) ↦ elim (Bool-cases (acquire_one l (clock n) w).1) [
        | inl g ↦
            rw (acquire_rules_grant clock d name w todo taken n d l e g)
              (acquire_rules-AllInLimit clock todo ((name, w) ∷ taken) (suc n) _ (next l e))
        | inr r ↦
            rw (acquire_rules_refuse clock d name w todo taken n d l e r)
              (give_back-AllInLimit clock taken (suc n) _ (next l e))
      ]
    ]
  where
    next :
        (l : Limiter)
        → lookup name d ≡ some l
        → AllInLimit (insert name (acquire_one l (clock n) w).0 d)
    next l e = insert-AllInLimit name _ d h (acquire_one-InLimit l (clock n) w (rw e at (h name)))

make_limiters-AllInLimit :
    (rules : List RateLimitRule) (d : Limiters) → AllInLimit d → AllInLimit (make_limiters rules d)
unfolding make_limiters
make_limiters-AllInLimit [] d h = h
make_limiters-AllInLimit (r ∷ rules) d h =
    make_limiters-AllInLimit rules (make_limiter r.type r d) (one r.type)
  where
    one : (t : RateLimitType) → AllInLimit (make_limiter t r d)
    one sliding_window = insert-AllInLimit r.name _ d h (omega arith)
    one fixed_window = insert-AllInLimit r.name _ d h (omega arith)
    one token_bucket = h

acquire-AllInLimit :
    (clock : ℕ → ℕ) (fnmatch : String → String → Bool) (l : RateLimiter) (method path : String)
    (weight : ℕ)
    → AllInLimit l.limiters
    → AllInLimit (acquire clock fnmatch l method path weight).0.limiters
unfolding acquire
acquire-AllInLimit clock fnmatch l method path weight h =
    elim (Bool-cases (null l.rules || null (get_matched_rules fnmatch l path))) [
      | inl none_match ↦ rw none_match h
      | inr some_match ↦ rw some_match (
          acquire_rules-AllInLimit clock
            (demands (get_matched_rules fnmatch l path) method path weight) [] 0 l.limiters h)
    ]

-- A request, with the readings of the clock that its call makes.
pub record Call : Type 0 where
  pub clock : ℕ → ℕ
  pub method : String
  pub path : String
  pub weight : ℕ

unfoldable pub acquire_calls : (String → String → Bool) → RateLimiter → List Call → RateLimiter
acquire_calls fnmatch l [] = l
acquire_calls fnmatch l (c ∷ cs) =
    acquire_calls fnmatch (acquire c.clock fnmatch l c.method c.path c.weight).0 cs

acquire_calls_from :
    (fnmatch : String → String → Bool) (l : RateLimiter) (calls : List Call)
    → AllInLimit l.limiters
    → AllInLimit (acquire_calls fnmatch l calls).limiters
unfolding acquire_calls
acquire_calls_from fnmatch l [] h = h
acquire_calls_from fnmatch l (c ∷ cs) h =
    acquire_calls_from fnmatch (acquire c.clock fnmatch l c.method c.path c.weight).0 cs
      (acquire-AllInLimit c.clock fnmatch l c.method c.path c.weight h)

-- After any calls of `acquire` on a new rate limiter, granted or refused and on any clock, the
-- weights that each sliding window holds and the count of each fixed window are within its limit.
pub acquire_calls-AllInLimit :
    (fnmatch : String → String → Bool) (rules : List RateLimitRule) (calls : List Call)
    → AllInLimit (acquire_calls fnmatch (init rules) calls).limiters
unfolding init
acquire_calls-AllInLimit fnmatch rules calls =
    acquire_calls_from fnmatch (init rules) calls (make_limiters-AllInLimit rules [] (λ name. tt))
