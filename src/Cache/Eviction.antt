-- ===== src/Cache/Eviction.antt =====
-- The order of last use through a run of calls, and the choice of what to drop.
use bt_api_base.Prelude.{
  ℕ, suc, ◌+◌, ◌<◌, String, ◌≡◌, ◌≢◌, refl, inl, inr, Option, none, some, List, [], ◌∷◌, ◌++◌,
  arith, ltb, length, ==_iff, string_key, Bool-cases,
}
use bt_api_base.Prelude.Dict.{Dict, lookup, erase, lookup-erase, lookup-append}
use bt_api_base.Cache.{Cache, new, trim, limit_to, ttl_or, read, get, set, delete, clear, cleanup}
use bt_api_base.Cache.Runs.{Call, reads, writes, deletes, clears, cleans, call, run}
use bt_api_base.Cache.Recency.{
  Uses, use_now, uses, used_by_read, Within, InOrder, InOrder-mono, InOrder-erase, InOrder-move,
  InOrder-limit_to, InOrder-sweep,
}

module _ {V : Type 0} where
  read-InOrder :
      (c : Cache V) (k : String) (now tick : ℕ) (last : Uses) (o : Option (V × ℕ))
      → InOrder last tick c.entries
      → InOrder (used_by_read last k tick (read c k now o).1) (suc tick) (read c k now o).0.entries
  unfolding read
  read-InOrder c k now tick last none h =
      InOrder-mono last tick (suc tick) c.entries (omega arith) h
  read-InOrder c k now tick last (some (v, t)) h = elim (Bool-cases (ltb t now)) [
    | inl old ↦ rw old (
        InOrder-mono last tick (suc tick) (erase k c.entries) (omega arith)
          (InOrder-erase last tick k c.entries h))
    | inr young ↦ rw young (InOrder-move last tick k (v, t) c.entries h)
  ]

  call-InOrder :
      (c : Cache V) (x : Call V) (now tick : ℕ) (last : Uses)
      → InOrder last tick c.entries
      → InOrder (uses c x now tick last) (suc tick) (call c x now).entries
  unfolding call uses get set delete clear cleanup
  call-InOrder c (reads k) now tick last h = read-InOrder c k now tick last (lookup k c.entries) h
  call-InOrder c (writes k v ttl) now tick last h =
      InOrder-limit_to (use_now last k tick) (suc tick) c.max_size _
        (InOrder-move last tick k (v, now + ttl_or c.default_ttl ttl) c.entries h)
  call-InOrder c (deletes k) now tick last h =
      InOrder-mono last tick (suc tick) _ (omega arith) (InOrder-erase last tick k c.entries h)
  call-InOrder c clears now tick last h = tt
  call-InOrder c cleans now tick last h =
      InOrder-mono last tick (suc tick) _ (omega arith) (InOrder-sweep last tick now c.entries h)

  -- The uses after the calls, the first of which has the number `tick`.
  unfoldable pub uses_of : Cache V → List (Call V × ℕ) → ℕ → Uses → Uses
  uses_of c [] tick last = last
  uses_of c ((x, now) ∷ xs) tick last =
      uses_of (call c x now) xs (suc tick) (uses c x now tick last)

  run-InOrder :
      (c : Cache V) (xs : List (Call V × ℕ)) (tick : ℕ) (last : Uses)
      → InOrder last tick c.entries
      → InOrder (uses_of c xs tick last) (tick + length xs) (run c xs).entries
  unfolding run uses_of
  run-InOrder c [] tick last h = InOrder-mono last tick _ c.entries (omega arith) h
  run-InOrder c ((x, now) ∷ xs) tick last h =
      let same : suc tick + length xs ≡ tick + length ((x, now) ∷ xs) = omega arith in
      rw same at (
        run-InOrder (call c x now) xs (suc tick) (uses c x now tick last)
          (call-InOrder c x now tick last h))

  Within-lookup :
      (last : Uses) (n t : ℕ) (i : String) (d : Dict String (V × ℕ))
      → Within last n t d
      → lookup i d ≢ none
      → n < last i
  Within-lookup last n t i [] h there = absurd (there refl)
  Within-lookup last n t i ((k, e) ∷ d) h there =
      ground (arith, Within-lookup last n t i d h.2, ==_iff k i)

  lookup-trim :
      (n : ℕ) (i : String) (d : Dict String (V × ℕ))
      → lookup i (trim n d) ≢ none
      → lookup i d ≢ none
  unfolding trim
  lookup-trim n i [] h = h
  lookup-trim n i ((k, e) ∷ d) h = ground (arith, lookup-trim n i d)

  -- What is trimmed away was used before what is left.
  trim_oldest :
      (last : Uses) (t n : ℕ) (i j : String) (d : Dict String (V × ℕ))
      → InOrder last t d
      → lookup j d ≢ none
      → lookup j (trim n d) ≡ none
      → lookup i (trim n d) ≢ none
      → last j < last i
  unfolding trim
  trim_oldest last t n i j [] h was gone kept = absurd (was refl)
  trim_oldest last t n i j ((k, e) ∷ d) h was gone kept = ground (
    arith,
    trim_oldest last t n i j d h.2,
    lookup-trim n i d,
    Within-lookup last (last k) t i d h.1,
    ==_iff k j,
  )

  limit_to_oldest :
      (last : Uses) (t : ℕ) (o : Option ℕ) (i j : String) (d : Dict String (V × ℕ))
      → InOrder last t d
      → lookup j d ≢ none
      → lookup j (limit_to o d) ≡ none
      → lookup i (limit_to o d) ≢ none
      → last j < last i
  limit_to_oldest last t none i j d h was gone kept = absurd (was gone)
  limit_to_oldest last t (some n) i j d h was gone kept =
      ground (arith, trim_oldest last t n i j d h was)

  set_oldest :
      (c : Cache V) (last : Uses) (t : ℕ) (k i j : String) (v : V) (lifetime : Option ℕ) (now : ℕ)
      → InOrder last t c.entries
      → k ≢ i
      → k ≢ j
      → lookup j c.entries ≢ none
      → lookup j (set c k v lifetime now).entries ≡ none
      → lookup i (set c k v lifetime now).entries ≢ none
      → last j < last i
  unfolding set
  set_oldest c last t k i j v lifetime now h ki kj was gone kept = ground (
    arith,
    limit_to_oldest (use_now last k t) (suc t) c.max_size i j (erase k c.entries ++ (k, entry) ∷ [])
        (InOrder-move last t k entry c.entries h) still gone kept,
    ==_iff k i,
    ==_iff k j,
  )
    where
      entry : V × ℕ
      entry = (v, now + ttl_or c.default_ttl lifetime)

      still : lookup j (erase k c.entries ++ (k, entry) ∷ []) ≢ none
      still = ground (
        arith,
        was,
        lookup-append j (erase k c.entries) ((k, entry) ∷ []),
        lookup-erase k j c.entries,
        ==_iff k j,
      )

  -- After any calls on a new cache, numbered from zero: when a write of `k` drops another key `j`,
  -- every other key `i` that stays was used by a later call than `j` was.
  pub evicts_least_recent :
      (ttl : ℕ) (max_size : Option ℕ) (xs : List (Call V × ℕ)) (k i j : String) (v : V)
      (lifetime : Option ℕ) (now : ℕ)
      → let c = run (new ttl max_size) xs in
        let c' = set c k v lifetime now in
        let last = uses_of (new ttl max_size) xs 0 (λ key. 0) in
        k ≢ i
        → k ≢ j
        → lookup j c.entries ≢ none
        → lookup j c'.entries ≡ none
        → lookup i c'.entries ≢ none
        → last j < last i
  evicts_least_recent ttl max_size xs k i j v lifetime now ki kj was gone kept =
      set_oldest (run (new ttl max_size) xs) (uses_of (new ttl max_size) xs 0 (λ key. 0))
        (0 + length xs) k i j v lifetime now (run-InOrder (new ttl max_size) xs 0 (λ key. 0) tt) ki
        kj was gone kept
