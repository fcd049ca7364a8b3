-- ===== src/RateLimit/Fixed/Window.antt =====
-- No aligned window of the limiter's length sees more weight than the limit, and so no stretch of
-- that length sees more than twice the limit.
use native.Mathlib.Nat.{div-lt_iff_lt-mul}
use bt_api_base.Prelude.{
  ℕ, suc, ◌+◌, ◌-◌, ◌*◌, ◌/◌, ◌≤◌, ◌<◌, ◌≡◌, refl, List, [], ◌∷◌, ◌++◌, arith, ◌==◌, nat_key,
  if◌then◌else◌,
}
use bt_api_base.RateLimit.Sliding.{Request}
use bt_api_base.RateLimit.Sliding.Window.{NotBefore, logged, between}
use bt_api_base.RateLimit.Fixed.{FixedWindow, new, roll, try_charge, acquire}

-- The weight of the requests in the window number `k`.
unfoldable pub in_window : ℕ → ℕ → List Request → ℕ
in_window interval k [] = 0
in_window interval k ((t, w) ∷ rest) =
    (if t / interval == k then w else 0) + in_window interval k rest

in_window-append :
    (interval k : ℕ) (xs : List Request) (t w : ℕ)
    → in_window interval k (xs ++ (t, w) ∷ [])
      ≡ in_window interval k xs + (if t / interval == k then w else 0)
unfolding in_window
in_window-append interval k [] t w = ground arith
in_window-append interval k ((s, v) ∷ xs) t w = ground (arith, in_window-append interval k xs t w)

-- A run of `acquire` at given times, on the limiter and the log of the requests let through.
unfoldable pub acquire_all : List Request → FixedWindow × List Request → FixedWindow × List Request
acquire_all [] acc = acc
acquire_all ((now, weight) ∷ calls) (l, log) =
    let (l', granted) = acquire l now weight in
    acquire_all calls (l', logged granted now weight log)

start_of-inj : (interval a b : ℕ) → 0 < interval → a * interval ≡ b * interval → a ≡ b
start_of-inj interval a b h e = grind arith

div_mono : (interval a b : ℕ) → 0 < interval → a ≤ b → a / interval ≤ b / interval
div_mono interval a b h le =
    omega (arith, (div-lt_iff_lt-mul h).1 (below ((div-lt_iff_lt-mul h).0 (omega arith))))
  where
    below : b < suc (b / interval) * interval → a < suc (b / interval) * interval
    below lt = omega arith

module _ (interval limit : ℕ) (positive : 0 < interval) where
  -- `k` is the number of the limiter's window.
  record Limited (now k : ℕ) (l : FixedWindow) (log : List Request) : Type 0 where
    same_interval : l.interval ≡ interval
    same_limit : l.limit ≡ limit
    aligned : l.window_start ≡ k * interval
    past : k ≤ now / interval
    counted : in_window interval k log ≤ l.window_count
    later : (j : ℕ) → k < j → in_window interval j log ≡ 0
    within : (j : ℕ) → in_window interval j log ≤ limit

  roll-Limited :
      (before k now : ℕ) (l : FixedWindow) (log : List Request)
      → before ≤ now
      → Limited before k l log
      → Limited now (now / interval) (roll l now) log
  unfolding roll
  roll-Limited before k now l log le h = record {
    same_interval = ground (arith, h.same_interval);
    same_limit = ground (arith, h.same_limit);
    aligned = ground (arith, h.same_interval, h.aligned);
    past = omega arith;
    counted =
        ground
          (arith, h.same_interval, h.aligned, h.counted, h.later (now / interval), same, passed);
    later = λ j lt. ground (arith, h.later j, passed);
    within = h.within;
  }
    where
      same : now / interval * interval ≡ k * interval → now / interval ≡ k
      same = start_of-inj interval (now / interval) k positive

      passed : k ≤ now / interval
      passed = omega (arith, h.past, div_mono interval before now positive le)

  try_charge-Limited :
      (now weight : ℕ) (l : FixedWindow) (log : List Request)
      → Limited now (now / interval) l log
      → let (l', granted) = try_charge l weight in
        Limited now (now / interval) l' (logged granted now weight log)
  unfolding try_charge
  try_charge-Limited now weight l log h = record {
    same_interval = ground (arith, h.same_interval);
    same_limit = ground (arith, h.same_limit);
    aligned = ground (arith, h.aligned);
    past = h.past;
    counted = ground (arith, h.counted, in_window-append interval (now / interval) log now weight);
    later = λ j lt. ground (arith, h.later j lt, in_window-append interval j log now weight);
    within = λ j.
        ground
          (arith, h.within j, h.counted, h.same_limit, in_window-append interval j log now weight);
  }

  acquire_all-Limited :
      (now k : ℕ) (calls : List Request) (l : FixedWindow) (log : List Request)
      → NotBefore now calls
      → Limited now k l log
      → (j : ℕ) → in_window interval j (acquire_all calls (l, log)).1 ≤ limit
  unfolding acquire_all acquire
  acquire_all-Limited now k [] l log ts h j = h.within j
  acquire_all-Limited now k ((t, w) ∷ calls) l log ts h j =
      let (l', granted) = try_charge (roll l t) w in
      acquire_all-Limited t (t / interval) calls l' (logged granted t w log) ts.1
        (try_charge-Limited t w (roll l t) log (roll-Limited now k t l log ts.0 h)) j

-- If the clock never goes back, the requests that a new limiter lets through in each of the windows
-- `[k * interval, (k + 1) * interval)` weigh at most its limit, whatever was asked for.
pub fixed_window_bound :
    (interval limit k : ℕ) (calls : List Request)
    → 0 < interval
    → NotBefore 0 calls
    → in_window interval k (acquire_all calls (new interval limit, [])).1 ≤ limit
unfolding in_window
fixed_window_bound interval limit k calls positive ts =
    acquire_all-Limited interval limit positive 0 0 calls (new interval limit) [] ts
      (record {
        same_interval = refl;
        same_limit = refl;
        aligned = omega arith;
        past = omega arith;
        counted = omega arith;
        later = λ j lt. omega arith;
        within = λ j. omega arith;
      })
      k

-- A stretch of the interval's length, its end excluded, meets two windows.
between-le-windows :
    (interval a : ℕ) (xs : List Request)
    → 0 < interval
    → between a (a + interval - 1) xs
      ≤ in_window interval (a / interval) xs + in_window interval (suc (a / interval)) xs
unfolding between in_window
between-le-windows interval a [] p = omega arith
between-le-windows interval a ((t, w) ∷ xs) p =
    ground (arith, between-le-windows interval a xs p, two)
  where
    next : a < suc (a / interval) * interval
    next = (div-lt_iff_lt-mul p).0 (omega arith)

    two :
        a ≤ t
        → t ≤ a + interval - 1
        → (a / interval ≤ t / interval) × (t / interval < suc (suc (a / interval)))
    two low high = (div_mono interval a t p low, (div-lt_iff_lt-mul p).1 (omega (arith, next)))

-- If the clock never goes back, the requests that a new limiter lets through in any stretch of its
-- interval's length, the end excluded, weigh at most twice its limit.
pub fixed_window_burst :
    (interval limit a : ℕ) (calls : List Request)
    → 0 < interval
    → NotBefore 0 calls
    → between a (a + interval - 1) (acquire_all calls (new interval limit, [])).1 ≤ 2 * limit
fixed_window_burst interval limit a calls p ts = omega (
  arith,
  between-le-windows interval a (acquire_all calls (new interval limit, [])).1 p,
  fixed_window_bound interval limit (a / interval) calls p ts,
  fixed_window_bound interval limit (suc (a / interval)) calls p ts,
)
