-- ===== src/Cache/Valid.antt =====
-- The invariant of the cache: no key stands twice, and a positive size limit is kept.
use bt_api_base.Prelude.{
  ℕ, ◌+◌, ◌≤◌, ◌<◌, String, ◌≡◌, refl, inl, inr, Option, none, some, List, [], ◌∷◌, ◌++◌, arith,
  ltb, length, length-append, ==_iff, string_key, Bool-cases,
}
use bt_api_base.Prelude.Dict.{
  Dict, lookup, erase, Unique, erase-Unique, lookup-append, lookup-erase_self,
}
use bt_api_base.Cache.{Cache, trim, limit_to, read, get, set, delete, clear, sweep, cleanup}

pub length-trim-le {ℓ} : {A : Type ℓ} (n : ℕ) (xs : List A) → length (trim n xs) ≤ n
unfolding trim
length-trim-le n [] = omega arith
length-trim-le n (x ∷ xs) = ground (arith, length-trim-le n xs)

module _ {V : Type 0} where
  append-Unique :
      (k : String) (v : V) (d : Dict String V)
      → Unique d
      → lookup k d ≡ none
      → Unique (d ++ (k, v) ∷ [])
  append-Unique k v [] u h = (refl, tt)
  append-Unique k v ((j, w) ∷ d) u h =
      ground
        (arith, append-Unique k v d u.1, lookup-append j d ((k, v) ∷ []), ==_iff j k, ==_iff k j)

  trim-Unique : (n : ℕ) (d : Dict String V) → Unique d → Unique (trim n d)
  unfolding trim
  trim-Unique n [] u = u
  trim-Unique n (e ∷ d) u = ground (arith, trim-Unique n d u.1)

  pub length-erase-le : (k : String) (d : Dict String V) → length (erase k d) ≤ length d
  length-erase-le k [] = omega arith
  length-erase-le k ((j, w) ∷ d) = ground (arith, length-erase-le k d)

  -- An item that is moved to the end: the length stays.
  pub length-erase-lt :
      (k : String) (v : V) (d : Dict String V) → lookup k d ≡ some v → length (erase k d) < length d
  length-erase-lt k v [] h = cc
  length-erase-lt k v ((j, w) ∷ d) h = ground (arith, length-erase-lt k v d, length-erase-le k d)

  pub move_to_end-Unique :
      (k : String) (v : V) (d : Dict String V) → Unique d → Unique (erase k d ++ (k, v) ∷ [])
  move_to_end-Unique k v d u =
      append-Unique k v (erase k d) (erase-Unique k d u) (lookup-erase_self k d)

abbrev pub FitsIn : Option ℕ → ℕ → Type 0
FitsIn none size = Unit
FitsIn (some n) size = 0 < n → size ≤ n

pub record IsValid {V : Type 0} (c : Cache V) : Type 0 where
  pub unique : Unique c.entries
  pub fits : FitsIn c.max_size (length c.entries)

fits_less : (o : Option ℕ) (n m : ℕ) → m ≤ n → FitsIn o n → FitsIn o m
fits_less none n m le h = tt
fits_less (some k) n m le h = λ p. omega (arith, h p)

module _ {V : Type 0} where
  fits_limit_to : (o : Option ℕ) (d : Dict String V) → FitsIn o (length (limit_to o d))
  fits_limit_to none d = tt
  fits_limit_to (some n) d = λ p. ground (arith, length-trim-le n d)

  limit_to-Unique : (o : Option ℕ) (d : Dict String V) → Unique d → Unique (limit_to o d)
  limit_to-Unique none d u = u
  limit_to-Unique (some n) d u = ground (arith, trim-Unique n d u)

module _ {V : Type 0} where
  read-IsValid :
      (c : Cache V) (key : String) (now : ℕ) (o : Option (V × ℕ))
      → lookup key c.entries ≡ o
      → IsValid c
      → IsValid (read c key now o).0
  unfolding read
  read-IsValid c key now none e h = record { unique = h.unique; fits = h.fits }
  read-IsValid c key now (some (v, expiry)) e h = elim (Bool-cases (ltb expiry now)) [
    | inl old ↦ rw old (record {
      unique = erase-Unique key c.entries h.unique;
      fits = fits_less c.max_size _ _ (length-erase-le key c.entries) h.fits;
    })
    | inr young ↦ rw young (record {
      unique = move_to_end-Unique key (v, expiry) c.entries h.unique;
      fits = fits_less c.max_size _ _ moved h.fits;
    })
  ]
    where
      moved : length (erase key c.entries ++ (key, (v, expiry)) ∷ []) ≤ length c.entries
      moved = omega (
        arith,
        length-append (erase key c.entries) ((key, (v, expiry)) ∷ []),
        length-erase-lt key (v, expiry) c.entries e,
      )

  pub get-IsValid : (c : Cache V) (key : String) (now : ℕ) → IsValid c → IsValid (get c key now).0
  unfolding get
  get-IsValid c key now h = read-IsValid c key now (lookup key c.entries) refl h

  pub set-IsValid :
      (c : Cache V) (key : String) (value : V) (ttl : Option ℕ) (now : ℕ)
      → IsValid c
      → IsValid (set c key value ttl now)
  unfolding set
  set-IsValid c key value ttl now h = record {
    unique = limit_to-Unique c.max_size _ (move_to_end-Unique key _ c.entries h.unique);
    fits = fits_limit_to c.max_size _;
  }

  pub delete-IsValid : (c : Cache V) (key : String) → IsValid c → IsValid (delete c key)
  unfolding delete
  delete-IsValid c key h = record {
    unique = erase-Unique key c.entries h.unique;
    fits = fits_less c.max_size _ _ (length-erase-le key c.entries) h.fits;
  }

  pub clear-IsValid : (c : Cache V) → IsValid c → IsValid (clear c)
  unfolding clear
  clear-IsValid c h = record { unique = tt; fits = fits_less c.max_size _ _ (omega arith) h.fits }

  -- What is not swept away stands as it stood.
  pub lookup-sweep :
      (k : String) (now : ℕ) (d : Dict String (V × ℕ))
      → lookup k d ≡ none
      → lookup k (sweep now d).0 ≡ none
  unfolding sweep
  lookup-sweep k now [] h = refl
  lookup-sweep k now ((j, (v, t)) ∷ d) h = ground (arith, lookup-sweep k now d)

  sweep-Unique : (now : ℕ) (d : Dict String (V × ℕ)) → Unique d → Unique (sweep now d).0
  unfolding sweep
  sweep-Unique now [] u = tt
  sweep-Unique now ((j, (v, t)) ∷ d) u =
      ground (arith, sweep-Unique now d u.1, lookup-sweep j now d)

  pub length-sweep :
      (now : ℕ) (d : Dict String (V × ℕ)) → length (sweep now d).0 + (sweep now d).1 ≡ length d
  unfolding sweep
  length-sweep now [] = omega arith
  length-sweep now ((j, (v, t)) ∷ d) = ground (arith, length-sweep now d)

  pub cleanup-IsValid : (c : Cache V) (now : ℕ) → IsValid c → IsValid (cleanup c now).0
  unfolding cleanup
  cleanup-IsValid c now h = record {
    unique = sweep-Unique now c.entries h.unique;
    fits =
        fits_less c.max_size (length c.entries) _ (omega (arith, length-sweep now c.entries))
          h.fits;
  }
