-- ===== src/RateLimit/Sliding/Window.antt =====
-- No window of the limiter's length sees more weight than the limit.
use bt_api_base.Prelude.{
  ℕ, ◌+◌, ◌≤◌, ◌≡◌, refl, Bool, ◌&&◌, List, [], ◌∷◌, ◌++◌, arith, leb, if◌then◌else◌,
}
use bt_api_base.RateLimit.Sliding.{Request, SlidingWindow, new, prune, total, acquire}

-- The weight of the requests at `a` or later, and of those from `a` to `b`.
unfoldable pub since : ℕ → List Request → ℕ
since a [] = 0
since a ((t, w) ∷ rest) = (if leb a t then w else 0) + since a rest

unfoldable pub between : ℕ → ℕ → List Request → ℕ
between a b [] = 0
between a b ((t, w) ∷ rest) = (if leb a t && leb t b then w else 0) + between a b rest

between-append :
    (a b : ℕ) (xs : List Request) (t w : ℕ)
    → between a b (xs ++ (t, w) ∷ []) ≡ between a b xs + (if leb a t && leb t b then w else 0)
unfolding between
between-append a b [] t w = ground arith
between-append a b ((s, v) ∷ xs) t w = ground (arith, between-append a b xs t w)

since-append :
    (a : ℕ) (xs : List Request) (t w : ℕ)
    → since a (xs ++ (t, w) ∷ []) ≡ since a xs + (if leb a t then w else 0)
unfolding since
since-append a [] t w = ground arith
since-append a ((s, v) ∷ xs) t w = ground (arith, since-append a xs t w)

between-le-since : (a b : ℕ) (xs : List Request) → between a b xs ≤ since a xs
unfolding between since
between-le-since a b [] = omega arith
between-le-since a b ((t, w) ∷ xs) = ground (arith, between-le-since a b xs)

since-le-total : (a : ℕ) (xs : List Request) → since a xs ≤ total xs
unfolding since
since-le-total a [] = omega arith
since-le-total a ((t, w) ∷ xs) = ground (arith, since-le-total a xs)

-- Pruning drops nothing that is younger than the interval.
since-prune :
    (a interval now : ℕ) (xs : List Request)
    → now ≤ a + interval
    → since a (prune interval now xs) ≡ since a xs
unfolding since prune
since-prune a interval now [] h = ground arith
since-prune a interval now ((t, w) ∷ xs) h = ground (arith, since-prune a interval now xs)

pub total-append : (xs : List Request) (t w : ℕ) → total (xs ++ (t, w) ∷ []) ≡ total xs + w
total-append [] t w = omega arith
total-append ((s, v) ∷ xs) t w = omega (arith, total-append xs t w)

-- A run of `acquire` at given times, on the limiter and the log of the requests let through.
abbrev pub logged : Bool → ℕ → ℕ → List Request → List Request
logged granted now weight log = if granted then log ++ (now, weight) ∷ [] else log

unfoldable pub acquire_all :
    List Request → SlidingWindow × List Request → SlidingWindow × List Request
acquire_all [] acc = acc
acquire_all ((now, weight) ∷ calls) (l, log) =
    let (l', granted) = acquire l now weight in
    acquire_all calls (l', logged granted now weight log)

-- The times of the calls do not decrease, from `now` on.
abbrev pub NotBefore : ℕ → List Request → Type 0
NotBefore now [] = Unit
NotBefore now ((t, w) ∷ calls) = (now ≤ t) × NotBefore t calls

record Limited (interval limit now : ℕ) (l : SlidingWindow) (log : List Request) : Type 0 where
  same_interval : l.interval ≡ interval
  same_limit : l.limit ≡ limit
  covered : (a : ℕ) → now ≤ a + interval → since a log ≤ since a l.requests
  within : (a : ℕ) → between a (a + interval) log ≤ limit

module _ (interval limit : ℕ) where
  acquire-Limited :
      (before now weight : ℕ) (l : SlidingWindow) (log : List Request)
      → before ≤ now
      → Limited interval limit before l log
      → let (l', granted) = acquire l now weight in
        Limited interval limit now l' (logged granted now weight log)
  unfolding acquire
  acquire-Limited before now weight l log le h = record {
    same_interval = ground (arith, h.same_interval);
    same_limit = ground (arith, h.same_limit);
    covered = λ a fits. ground (
      arith,
      h.same_interval,
      h.covered a,
      since-prune a l.interval now l.requests,
      since-append a log now weight,
      since-append a live now weight,
    );
    within = λ a. ground (
      arith,
      h.same_interval,
      h.same_limit,
      h.within a,
      h.covered a,
      since-prune a l.interval now l.requests,
      since-le-total a live,
      between-le-since a (a + interval) log,
      between-append a (a + interval) log now weight,
    );
  }
    where
      live : List Request
      live = prune l.interval now l.requests

  acquire_all-Limited :
      (now : ℕ) (calls : List Request) (l : SlidingWindow) (log : List Request)
      → NotBefore now calls
      → Limited interval limit now l log
      → (a : ℕ) → between a (a + interval) (acquire_all calls (l, log)).1 ≤ limit
  unfolding acquire_all
  acquire_all-Limited now [] l log ts h a = h.within a
  acquire_all-Limited now ((t, w) ∷ calls) l log ts h a =
      let (l', granted) = acquire l t w in
      acquire_all-Limited t calls l' (logged granted t w log) ts.1
        (acquire-Limited now t w l log ts.0 h) a

-- If the clock never goes back, the requests that a new limiter lets through in any stretch of time
-- as long as its interval, both ends included, weigh at most its limit, whatever was asked for.
pub sliding_window_bound :
    (interval limit : ℕ) (calls : List Request) (a : ℕ)
    → NotBefore 0 calls
    → between a (a + interval) (acquire_all calls (new interval limit, [])).1 ≤ limit
unfolding since between
sliding_window_bound interval limit calls a ts =
    acquire_all-Limited interval limit 0 calls (new interval limit) [] ts
      (record {
        same_interval = refl;
        same_limit = refl;
        covered = λ b h. omega arith;
        within = λ b. omega arith;
      })
      a
