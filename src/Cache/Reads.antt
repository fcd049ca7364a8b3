-- ===== src/Cache/Reads.antt =====
-- What a read of the cache returns after a write, and after a clean-up.
use bt_api_base.Prelude.{
  ℕ, ◌+◌, ◌≤◌, ◌<◌, String, ◌≡◌, ◌≢◌, refl, Option, none, some, [], ◌∷◌, ◌++◌, arith, ltb,
  if◌then◌else◌, length, length-append, ==_iff, ==_self, string_key,
}
use bt_api_base.Prelude.Dict.{
  Dict, lookup, erase, Unique, lookup-erase, lookup-append, lookup-erase_self,
}
use bt_api_base.Cache.{Cache, trim, limit_to, expired, ttl_or, get, set, sweep, cleanup}
use bt_api_base.Cache.Valid.{IsValid, FitsIn, lookup-sweep, length-sweep}

module _ {V : Type 0} where
  -- The answer that an entry gives at a time.
  abbrev pub answer : ℕ → Option (V × ℕ) → Option V
  answer now none = none
  answer now (some (v, expiry)) = if expired now expiry then none else some v

  get-answer :
      (c : Cache V) (k : String) (now : ℕ) → (get c k now).1 ≡ answer now (lookup k c.entries)
  unfolding get
  get-answer c k now = ground arith

  lookup-trim_last :
      (n : ℕ) (k : String) (v : V × ℕ) (d : Dict String (V × ℕ))
      → 0 < n
      → lookup k d ≡ none
      → lookup k (trim n (d ++ (k, v) ∷ [])) ≡ some v
  unfolding trim
  lookup-trim_last n k v [] p h = ground (arith, ==_self k)
  lookup-trim_last n k v (e ∷ d) p h =
      ground (arith, lookup-trim_last n k v d p, lookup-append k d ((k, v) ∷ []), ==_self k)

  lookup-limit_to_last :
      (o : Option ℕ) (k : String) (v : V × ℕ) (d : Dict String (V × ℕ))
      → lookup k d ≡ none
      → lookup k (limit_to o (d ++ (k, v) ∷ [])) ≡ some v
  lookup-limit_to_last none k v d h = ground (arith, lookup-append k d ((k, v) ∷ []), ==_self k)
  lookup-limit_to_last (some n) k v d h =
      ground (arith, lookup-trim_last n k v d, lookup-append k d ((k, v) ∷ []), ==_self k)

  -- A read of a key after a write of it returns the value until its lifetime has passed, and nothing
  -- after that, whatever the size limit is.
  pub get-set_self :
      (c : Cache V) (k : String) (v : V) (ttl : Option ℕ) (now later : ℕ)
      → (get (set c k v ttl now) k later).1
        ≡ (if ltb (now + ttl_or c.default_ttl ttl) later then none else some v)
  unfolding set
  get-set_self c k v ttl now later = ground (
    arith,
    get-answer (set c k v ttl now) k later,
    lookup-limit_to_last c.max_size k (v, now + ttl_or c.default_ttl ttl) (erase k c.entries)
        (lookup-erase_self k c.entries),
  )

  trim_id : (n : ℕ) (d : Dict String (V × ℕ)) → length d ≤ n → trim n d ≡ d
  unfolding trim
  trim_id n [] h = refl
  trim_id n (e ∷ d) h = ground arith

  limit_to_id : (o : Option ℕ) (d : Dict String (V × ℕ)) → FitsIn o (length d) → limit_to o d ≡ d
  limit_to_id none d h = refl
  limit_to_id (some n) d h = ground (arith, h, trim_id n d)

  -- While there is room for one more key, a write of one key changes no read of another.
  pub get-set_ne :
      (c : Cache V) (k j : String) (v : V) (ttl : Option ℕ) (now later : ℕ)
      → k ≢ j
      → FitsIn c.max_size (length (erase k c.entries) + 1)
      → (get (set c k v ttl now) j later).1 ≡ (get c j later).1
  unfolding set
  get-set_ne c k j v ttl now later ne room = ground (
    arith,
    get-answer (set c k v ttl now) j later,
    get-answer c j later,
    limit_to_id c.max_size (erase k c.entries ++ (k, (v, now + ttl_or c.default_ttl ttl)) ∷ [])
        fits,
    lookup-append j (erase k c.entries) ((k, (v, now + ttl_or c.default_ttl ttl)) ∷ []),
    lookup-erase k j c.entries,
    ==_iff k j,
  )
    where
      fits :
          FitsIn c.max_size
            (length (erase k c.entries ++ (k, (v, now + ttl_or c.default_ttl ttl)) ∷ []))
      fits = rw length-append room

  answer-sweep :
      (k : String) (now later : ℕ) (d : Dict String (V × ℕ))
      → Unique d
      → now ≤ later
      → answer later (lookup k (sweep now d).0) ≡ answer later (lookup k d)
  unfolding sweep
  answer-sweep k now later [] u h = refl
  answer-sweep k now later ((j, (v, t)) ∷ d) u h =
      ground (arith, answer-sweep k now later d u.1 h, lookup-sweep k now d, ==_iff j k)

  -- A clean-up of a valid cache changes no later read, and the number that it returns is the number
  -- of the entries that it took out.
  pub get-cleanup :
      (c : Cache V) (k : String) (now later : ℕ)
      → IsValid c
      → now ≤ later
      → ((get (cleanup c now).0 k later).1 ≡ (get c k later).1)
        × (length (cleanup c now).0.entries + (cleanup c now).1 ≡ length c.entries)
  unfolding cleanup
  get-cleanup c k now later h le = (
    ground (
      arith,
      get-answer (cleanup c now).0 k later,
      get-answer c k later,
      answer-sweep k now later c.entries h.unique le,
    ),
    length-sweep now c.entries,
  )
