-- ===== src/Cache/Runs.antt =====
-- Runs of calls on a cache: its invariant, and its counters.
use bt_api_base.Prelude.{ℕ, ◌+◌, String, ◌≡◌, Option, none, some, List, [], ◌∷◌, arith, string_key}
use bt_api_base.Prelude.Dict.{lookup}
use bt_api_base.Cache.{Cache, new, read, get, set, delete, clear, cleanup}
use bt_api_base.Cache.Valid.{
  IsValid, get-IsValid, set-IsValid, delete-IsValid, clear-IsValid, cleanup-IsValid,
}

pub data Call (V : Type 0) : Type 0 where
  reads : String → Call V
  writes : String → V → Option ℕ → Call V
  deletes : String → Call V
  clears : Call V
  cleans : Call V

module _ {V : Type 0} where
  unfoldable pub call : Cache V → Call V → ℕ → Cache V
  call c (reads k) now = (get c k now).0
  call c (writes k v ttl) now = set c k v ttl now
  call c (deletes k) now = delete c k
  call c clears now = clear c
  call c cleans now = (cleanup c now).0

  -- The calls, each with the reading of the clock.
  unfoldable pub run : Cache V → List (Call V × ℕ) → Cache V
  run c [] = c
  run c ((x, now) ∷ xs) = run (call c x now) xs

  abbrev one_if_read : Call V → ℕ
  one_if_read (reads k) = 1
  one_if_read _ = 0

  abbrev pub reads_in : List (Call V × ℕ) → ℕ
  reads_in [] = 0
  reads_in ((x, now) ∷ xs) = one_if_read x + reads_in xs

  call-IsValid : (c : Cache V) (x : Call V) (now : ℕ) → IsValid c → IsValid (call c x now)
  unfolding call
  call-IsValid c (reads k) now h = get-IsValid c k now h
  call-IsValid c (writes k v ttl) now h = set-IsValid c k v ttl now h
  call-IsValid c (deletes k) now h = delete-IsValid c k h
  call-IsValid c clears now h = clear-IsValid c h
  call-IsValid c cleans now h = cleanup-IsValid c now h

  read_counted :
      (c : Cache V) (k : String) (now : ℕ) (o : Option (V × ℕ))
      → (read c k now o).0.hits + (read c k now o).0.misses ≡ c.hits + c.misses + 1
  unfolding read
  read_counted c k now none = ground arith
  read_counted c k now (some (v, t)) = ground arith

  call_counted :
      (c : Cache V) (x : Call V) (now : ℕ)
      → (call c x now).hits + (call c x now).misses ≡ c.hits + c.misses + one_if_read x
  unfolding call get set delete clear cleanup
  call_counted c (reads k) now = read_counted c k now (lookup k c.entries)
  call_counted c (writes k v ttl) now = ground arith
  call_counted c (deletes k) now = ground arith
  call_counted c clears now = ground arith
  call_counted c cleans now = ground arith

  pub run_from :
      (c : Cache V) (xs : List (Call V × ℕ))
      → IsValid c
      → IsValid (run c xs) × ((run c xs).hits + (run c xs).misses ≡ c.hits + c.misses + reads_in xs)
  unfolding run
  run_from c [] h = (h, omega arith)
  run_from c ((x, now) ∷ xs) h =
      let rest = run_from (call c x now) xs (call-IsValid c x now h) in
      (rest.0, omega (arith, rest.1, call_counted c x now))

  -- After any calls on a new cache no key stands twice, a positive size limit is kept, and each read
  -- has been counted once, as a hit or as a miss.
  pub cache_run-IsValid :
      (ttl : ℕ) (max_size : Option ℕ) (xs : List (Call V × ℕ))
      → IsValid (run (new ttl max_size) xs)
        × ((run (new ttl max_size) xs).hits + (run (new ttl max_size) xs).misses ≡ reads_in xs)
  cache_run-IsValid ttl max_size xs =
      let rest =
        run_from (new ttl max_size) xs (record { unique = tt; fits = new_fits max_size }) in
      (rest.0, omega (arith, rest.1))
    where
      new_fits : (o : Option ℕ) → bt_api_base.Cache.Valid.FitsIn o 0
      new_fits none = tt
      new_fits (some n) = λ p. omega arith
