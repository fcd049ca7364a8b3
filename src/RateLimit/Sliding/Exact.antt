-- ===== src/RateLimit/Sliding/Exact.antt =====
-- What one call of the sliding window does, against a description that does not walk the deque.
use bt_api_base.Prelude.{
  ℕ, ◌+◌, ◌≤◌, ◌≡◌, refl, Bool, true, not, List, [], ◌∷◌, ◌++◌, arith, ltb, leb, nat_key,
  if◌then◌else◌, select, ap,
}
use bt_api_base.RateLimit.Sliding.{Request, SlidingWindow, prune, total, acquire, pop_if, release}
use bt_api_base.RateLimit.Sliding.Window.{total-append}

-- The requests that still count: not older than the interval.
abbrev pub counts : ℕ → ℕ → Request → Bool
counts interval now (t, w) = not (ltb (t + interval) now)

-- The times do not decrease along the deque.
abbrev pub Ordered : List Request → Type 0
Ordered [] = Unit
Ordered (a ∷ []) = Unit
Ordered (a ∷ b ∷ rest) = (a.0 ≤ b.0) × Ordered (b ∷ rest)

select_young :
    (interval now : ℕ) (a : Request) (xs : List Request)
    → Ordered (a ∷ xs)
    → now ≤ a.0 + interval
    → select (counts interval now) (a ∷ xs) ≡ a ∷ xs
select_young interval now a [] o h = ground arith
select_young interval now a (b ∷ rest) o h =
    ground (arith, select_young interval now b rest o.1 (omega arith))

prune-eq-select :
    (interval now : ℕ) (xs : List Request)
    → Ordered xs
    → prune interval now xs ≡ select (counts interval now) xs
unfolding prune
prune-eq-select interval now [] o = refl
prune-eq-select interval now (a ∷ []) o = ground arith
prune-eq-select interval now (a ∷ b ∷ rest) o =
    ground
      (arith, prune-eq-select interval now (b ∷ rest) o.1, select_young interval now a (b ∷ rest) o)

-- On a deque in order of time, `acquire` keeps exactly the requests that are not older than the
-- interval, lets the new one through exactly if their weight and its own stay within the limit, and
-- then puts it at the end.
pub acquire_exact :
    (l : SlidingWindow) (now weight : ℕ)
    → Ordered l.requests
    → let live = select (counts l.interval now) l.requests in
      let granted = leb (total live + weight) l.limit in
      acquire l now weight
      ≡ (record l { requests = if granted then live ++ (now, weight) ∷ [] else live }, granted)
unfolding acquire
acquire_exact l now weight o = ground (arith, prune-eq-select l.interval now l.requests o)

pop_if-append : (w : ℕ) (xs : List Request) (s : ℕ) → pop_if w (xs ++ (s, w) ∷ []) ≡ xs
unfolding pop_if
pop_if-append w [] s = ground arith
pop_if-append w (a ∷ []) s = ground arith
pop_if-append w (a ∷ b ∷ xs) s = ap (◌∷◌ a) (pop_if-append w (b ∷ xs) s)

pub pop_if-prune-append :
    (w interval now : ℕ) (xs : List Request) (s : ℕ)
    → pop_if w (prune interval now (xs ++ (s, w) ∷ [])) ≡ prune interval now xs
unfolding prune
pop_if-prune-append w interval now [] s = unfold pop_if in ground arith
pop_if-prune-append w interval now (a ∷ xs) s =
    ground (arith, pop_if-prune-append w interval now xs s, pop_if-append w (a ∷ xs) s)

prune-prune :
    (interval now later : ℕ) (xs : List Request)
    → now ≤ later
    → prune interval later (prune interval now xs) ≡ prune interval later xs
unfolding prune
prune-prune interval now later [] h = refl
prune-prune interval now later (a ∷ xs) h = ground (arith, prune-prune interval now later xs h)

-- A request that was let through is taken back by a `release` of its weight at any later time:
-- what is left is what pruning alone leaves of the deque before it.
pub release-acquire :
    (l : SlidingWindow) (now later weight : ℕ)
    → now ≤ later
    → (acquire l now weight).1 ≡ true
    → release (acquire l now weight).0 later weight
      ≡ record l { requests = prune l.interval later l.requests }
unfolding acquire release
release-acquire l now later weight h granted = ground (
  arith,
  prune-prune l.interval now later l.requests h,
  pop_if-prune-append weight l.interval later (prune l.interval now l.requests) now,
)

-- The weight that the deque holds.
abbrev pub WithinLimit : SlidingWindow → Type 0
WithinLimit l = total l.requests ≤ l.limit

pub total-prune-le :
    (interval now : ℕ) (xs : List Request) → total (prune interval now xs) ≤ total xs
unfolding prune
total-prune-le interval now [] = omega arith
total-prune-le interval now (a ∷ xs) = ground (arith, total-prune-le interval now xs)

total-pop_if-le : (w : ℕ) (xs : List Request) → total (pop_if w xs) ≤ total xs
unfolding pop_if
total-pop_if-le w [] = omega arith
total-pop_if-le w (a ∷ []) = ground arith
total-pop_if-le w (a ∷ b ∷ xs) = omega (arith, total-pop_if-le w (b ∷ xs))

pub acquire-WithinLimit :
    (l : SlidingWindow) (now weight : ℕ) → WithinLimit l → WithinLimit (acquire l now weight).0
unfolding acquire
acquire-WithinLimit l now weight h = ground (
  arith,
  total-prune-le l.interval now l.requests,
  total-append (prune l.interval now l.requests) now weight,
)

pub release-WithinLimit :
    (l : SlidingWindow) (now weight : ℕ) → WithinLimit l → WithinLimit (release l now weight)
unfolding release
release-WithinLimit l now weight h = omega (
  arith,
  total-prune-le l.interval now l.requests,
  total-pop_if-le weight (prune l.interval now l.requests),
)
