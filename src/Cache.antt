-- ===== src/Cache.antt =====
-- cache.py: `SimpleCache`. Times and lifetimes are natural numbers, ticks of the clock whose reading
-- each call is given; the values are of any type. The lock makes each method one step.
pub mod Valid
pub mod Reads
pub mod Runs
pub mod Recency
pub mod Eviction
pub mod Cached
pub mod Exchange
mod Tests
use bt_api_base.Prelude.{
  ℕ, suc, ◌+◌, String, Bool, Option, none, some, List, [], ◌∷◌, ◌++◌, ltb, if◌then◌else◌, length,
  select, not, string_key,
}
use bt_api_base.Prelude.Dict.{Dict, lookup, erase, keys}

-- The dictionary of keys, values and times of expiry, least recently used first.
pub record Cache (V : Type 0) : Type 0 where
  pub entries : Dict String (V × ℕ)
  pub default_ttl : ℕ
  pub max_size : Option ℕ
  pub hits : ℕ
  pub misses : ℕ

-- `time.time() > expiry`
abbrev pub expired : ℕ → ℕ → Bool
expired now expiry = ltb expiry now

-- `popitem(last=False)` while there are more than `n` items.
unfoldable pub trim {ℓ} : {A : Type ℓ} → ℕ → List A → List A
trim n [] = []
trim n (x ∷ xs) = let rest = trim n xs in if ltb n (suc (length xs)) then rest else x ∷ xs

-- A size limit that is missing, or zero, limits nothing.
abbrev pub limit_to {ℓ} : {A : Type ℓ} → Option ℕ → List A → List A
limit_to none xs = xs
limit_to (some n) xs = if ltb 0 n then trim n xs else xs

abbrev pub ttl_or : ℕ → Option ℕ → ℕ
ttl_or default none = default
ttl_or default (some ttl) = ttl

module _ {V : Type 0} where
  abbrev pub new : ℕ → Option ℕ → Cache V
  new ttl max_size = record {
    entries = [];
    default_ttl = ttl;
    max_size = max_size;
    hits = 0;
    misses = 0;
  }

  unfoldable pub read : Cache V → String → ℕ → Option (V × ℕ) → Cache V × Option V
  read c key now none = (record c { misses = c.misses + 1 }, none)
  read c key now (some (value, expiry)) =
      if expired now expiry
      then (record c { entries = erase key c.entries; misses = c.misses + 1 }, none)
      else (
        record c {
          entries = erase key c.entries ++ (key, (value, expiry)) ∷ [];
          hits = c.hits + 1;
        },
        some value,
      )

  -- `_get_or_default`; `none` stands for the default.
  unfoldable pub get : Cache V → String → ℕ → Cache V × Option V
  unfolding read
  get c key now = read c key now (lookup key c.entries)

  unfoldable pub set : Cache V → String → V → Option ℕ → ℕ → Cache V
  set c key value ttl now =
      let expiry = now + ttl_or c.default_ttl ttl in
      record c {
        entries = limit_to c.max_size (erase key c.entries ++ (key, (value, expiry)) ∷ []);
      }

  unfoldable pub delete : Cache V → String → Cache V
  delete c key = record c { entries = erase key c.entries }

  unfoldable pub clear : Cache V → Cache V
  clear c = record c { entries = [] }

  -- The loop of `cleanup`, on the items that are left and the number of those removed.
  unfoldable pub sweep : ℕ → Dict String (V × ℕ) → Dict String (V × ℕ) × ℕ
  sweep now [] = ([], 0)
  sweep now ((k, (v, expiry)) ∷ d) =
      let (active, removed) = sweep now d in
      if expired now expiry then (active, suc removed) else ((k, (v, expiry)) ∷ active, removed)

  unfoldable pub cleanup : Cache V → ℕ → Cache V × ℕ
  unfolding sweep
  cleanup c now =
      let (active, removed) = sweep now c.entries in (record c { entries = active }, removed)

  unfoldable pub size : Cache V → ℕ
  size c = length c.entries

  unfoldable pub cache_keys : Cache V → List String
  cache_keys c = keys c.entries
