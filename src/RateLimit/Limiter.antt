-- ===== src/RateLimit/Limiter.antt =====
-- `RateLimitRule` and `RateLimiter`. A limiter is kept under the name of its rule, and the source
-- never puts another object there after the start, so the name stands for the object.
-- `fnmatch`, the standard library's glob match, is a parameter; so is the clock, `clock n` being
-- the reading of `time.time()` that the n-th call of a limiter makes.
pub mod Owes
pub mod Atomic
pub mod Acquire
pub mod Limits
pub mod Wait
use Prim.Native.String.{◌++◌}
use bt_api_base.Prelude.{
  ℕ, suc, ◌+◌, ◌*◌, String, Bool, true, false, ◌||◌, Option, none, some, List, [], ◌∷◌, map, select,
  null, string_key, ◌==◌, if◌then◌else◌, leb,
}
use bt_api_base.Prelude.Dict.{Dict, lookup, insert}
use bt_api_base.RateLimit.Sliding
use bt_api_base.RateLimit.Sliding.{SlidingWindow}
use bt_api_base.RateLimit.Fixed
use bt_api_base.RateLimit.Fixed.{FixedWindow}

pub data RateLimitType : Type 0 where
  sliding_window fixed_window token_bucket : RateLimitType

pub data RateLimitScope : Type 0 where
  global endpoint ip : RateLimitScope

pub record RateLimitRule : Type 0 where
  pub name : String
  pub type : RateLimitType
  pub interval : ℕ
  pub limit : ℕ
  pub scope : RateLimitScope
  pub endpoint : Option String
  pub weight_map : Option (Dict String ℕ)
  pub weight : ℕ

-- An endpoint that is missing or empty matches nothing.
abbrev match_endpoint : (String → String → Bool) → String → Option String → Bool
match_endpoint fnmatch path none = false
match_endpoint fnmatch path (some glob) = if glob == "" then false else fnmatch path glob

abbrev match_scope : (String → String → Bool) → String → Option String → RateLimitScope → Bool
match_scope fnmatch path e RateLimitScope.global = true
match_scope fnmatch path e RateLimitScope.endpoint = match_endpoint fnmatch path e
match_scope fnmatch path e RateLimitScope.ip = false

unfoldable pub match : (String → String → Bool) → RateLimitRule → String → Bool
match fnmatch rule path = match_scope fnmatch path rule.endpoint rule.scope

abbrev weight_in : String → String → ℕ → Dict String ℕ → ℕ
weight_in method path otherwise weights = elim (lookup (method ++ " " ++ path) weights) [
  | some w ↦ w
  | none ↦ elim (lookup method weights) [ some w ↦ w | none ↦ otherwise ]
]

-- An empty weight map counts as none; a lookup in it finds nothing either.
unfoldable pub get_weight : RateLimitRule → String → String → ℕ
get_weight rule method path = elim rule.weight_map [
  | none ↦ rule.weight
  | some weights ↦ weight_in method path rule.weight weights
]

pub data Limiter : Type 0 where
  sliding : SlidingWindow → Limiter
  fixed : FixedWindow → Limiter

unfoldable pub acquire_one : Limiter → ℕ → ℕ → Limiter × Bool
acquire_one (sliding l) now weight =
    let (l', granted) = Sliding.acquire l now weight in (sliding l', granted)
acquire_one (fixed l) now weight =
    let (l', granted) = Fixed.acquire l now weight in (fixed l', granted)

unfoldable pub release_one : Limiter → ℕ → ℕ → Limiter
release_one (sliding l) now weight = sliding (Sliding.release l now weight)
release_one (fixed l) now weight = fixed (Fixed.release l weight)

unfoldable pub wait_time : Limiter → ℕ → ℕ
wait_time (sliding l) now = Sliding.wait_time l now
wait_time (fixed l) now = Fixed.wait_time l now

-- `usage` of a limiter may prune it.
unfoldable pub current_usage : Limiter → ℕ → Limiter × ℕ
current_usage (sliding l) now = let (l', n) = Sliding.current_usage l now in (sliding l', n)
current_usage (fixed l) now = (fixed l, Fixed.current_usage l)

abbrev pub Limiters : Type 0
Limiters = Dict String Limiter

pub record RateLimiter : Type 0 where
  pub rules : List RateLimitRule
  pub limiters : Limiters

-- The loop of `__init__`: no limiter is made for a token bucket.
abbrev pub make_limiter : RateLimitType → RateLimitRule → Limiters → Limiters
make_limiter sliding_window r d = insert r.name (sliding (Sliding.new r.interval r.limit)) d
make_limiter fixed_window r d = insert r.name (fixed (Fixed.new r.interval r.limit)) d
make_limiter token_bucket r d = d

unfoldable pub make_limiters : List RateLimitRule → Limiters → Limiters
make_limiters [] d = d
make_limiters (r ∷ rules) d = make_limiters rules (make_limiter r.type r d)

unfoldable pub init : List RateLimitRule → RateLimiter
unfolding make_limiters
init rules = record { rules = rules; limiters = make_limiters rules [] }

-- The weights that a call has taken so far, each with its limiter's name, the newest first: the
-- order in which the source gives them back.
abbrev pub Taken : Type 0
Taken = List (String × ℕ)

-- The release of one limiter's weight; every taken name has a limiter.
unfoldable pub release_named : String → ℕ → ℕ → Limiters → Limiters
release_named name w now d = elim (lookup name d) [
  | none ↦ d
  | some l ↦ insert name (release_one l now w) d
]

module _ (clock : ℕ → ℕ) where
  unfoldable pub give_back : Taken → ℕ → Limiters → Limiters
  give_back [] n d = d
  give_back ((name, w) ∷ taken) n d = give_back taken (suc n) (release_named name w (clock n) d)

  -- The loop over the matched rules, each with the weight of the request; `n` readings of the clock
  -- are behind it.
  unfoldable pub acquire_rules : Taken → Taken → ℕ → Limiters → Limiters × Bool
  acquire_rules [] taken n d = (d, true)
  acquire_rules ((name, w) ∷ todo) taken n d = elim (lookup name d) [
    | none ↦ acquire_rules todo taken n d
    | some l ↦ elim (acquire_one l (clock n) w).1 [
      | true ↦
          acquire_rules todo ((name, w) ∷ taken) (suc n)
            (insert name (acquire_one l (clock n) w).0 d)
      | false ↦ (give_back taken (suc n) (insert name (acquire_one l (clock n) w).0 d), false)
    ]
  ]

unfoldable pub get_matched_rules :
    (String → String → Bool) → RateLimiter → String → List RateLimitRule
get_matched_rules fnmatch l path = select (λ rule. match fnmatch rule path) l.rules

-- What each matched rule asks of its limiter.
unfoldable pub demands : List RateLimitRule → String → String → ℕ → Taken
unfolding get_weight
demands rules method path weight =
    map (λ rule. (rule.name, get_weight rule method path * weight)) rules

module _ (clock : ℕ → ℕ) (fnmatch : String → String → Bool) where
  unfoldable pub acquire : RateLimiter → String → String → ℕ → RateLimiter × Bool
  acquire l method path weight =
      let matched = get_matched_rules fnmatch l path in
      let (d, granted) = acquire_rules clock (demands matched method path weight) [] 0 l.limiters in
      if null l.rules || null matched then (l, true) else (record l { limiters = d }, granted)
