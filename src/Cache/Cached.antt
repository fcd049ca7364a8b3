-- ===== src/Cache/Cached.antt =====
-- The decorator `cached`, and the keys that it makes. A call is given the texts of its arguments,
-- `str(arg)`, the keyword arguments sorted by name; `f` is the decorated function.
use Prim.Native.String.{◌++◌ as append}
use text.Mathlib.TextLemmas.{append_assoc as text_append_assoc}
use mathlib.Core.Path.{ap₂}
use bt_api_base.Prelude.{
  ℕ, ◌+◌, ◌≤◌, String, ◌≡◌, refl, ap, sym, ◌∙◌, inl, inr, true, Option, none, some, List, [], ◌∷◌,
  ◌++◌, map, arith, string_key, Bool-cases, ltb, length, suc, ◌⊎◌, ◌==◌, ==_iff,
}
use bt_api_base.Prelude.Dict.{Dict, lookup, erase}
use bt_api_base.Cache.{Cache, new, read, get, set, trim, limit_to}
use bt_api_base.Cache.Reads.{get-set_self}

-- The texts of the positional arguments, and the names and texts of the others.
pub record Args : Type 0 where
  pub positional : List String
  pub keywords : List (String × String)

-- `":".join(parts)`
unfoldable pub join : List String → String
join [] = ""
join (x ∷ []) = x
join (x ∷ y ∷ rest) = append x (append ":" (join (y ∷ rest)))

unfoldable pub cache_key : String → Args → String
unfolding join
cache_key name args =
    join (name ∷ args.positional ++ map (λ (k, v). append k (append "=" v)) args.keywords)

module _ {V : Type 0} (name : String) (f : Args → V) (ttl : ℕ) where
  -- `now` is the time of the read, `later` that of the write.
  abbrev answer_or_store : Cache V × Option V → Args → ℕ → Cache V × V
  answer_or_store (c, some value) args later = (c, value)
  answer_or_store (c, none) args later =
      (set c (cache_key name args) (f args) (some ttl) later, f args)

  unfoldable pub wrapper : Cache V → Args → ℕ → ℕ → Cache V × V
  wrapper c args now later = answer_or_store (get c (cache_key name args) now) args later

  -- The calls, each with its two times, and their results.
  unfoldable pub call_all : Cache V → List (Args × ℕ × ℕ) → List V
  call_all c [] = []
  call_all c ((args, now, later) ∷ calls) =
      let (c', value) = wrapper c args now later in value ∷ call_all c' calls

  abbrev pub answers : List (Args × ℕ × ℕ) → List V
  answers [] = []
  answers ((args, now, later) ∷ calls) = f args ∷ answers calls

  -- Every stored value answers every question that has its key.
  abbrev Answers : String → V → Type 0
  Answers k v = (args : Args) → cache_key name args ≡ k → v ≡ f args

  abbrev Coherent : Dict String (V × ℕ) → Type 0
  Coherent [] = Unit
  Coherent ((k, (v, t)) ∷ d) = Answers k v × Coherent d

  Coherent-erase : (k : String) (d : Dict String (V × ℕ)) → Coherent d → Coherent (erase k d)
  Coherent-erase k [] h = tt
  Coherent-erase k ((j, (v, t)) ∷ d) h = elim (Bool-cases (j == k)) [
    | inl here ↦ rw here (Coherent-erase k d h.1)
    | inr other ↦ rw other (h.0, Coherent-erase k d h.1)
  ]

  Coherent-append :
      (d : Dict String (V × ℕ)) (k : String) (v : V) (t : ℕ)
      → Coherent d
      → Answers k v
      → Coherent (d ++ (k, (v, t)) ∷ [])
  Coherent-append [] k v t h a = (a, tt)
  Coherent-append ((j, (w, u)) ∷ d) k v t h a = (h.0, Coherent-append d k v t h.1 a)

  Coherent-trim : (n : ℕ) (d : Dict String (V × ℕ)) → Coherent d → Coherent (trim n d)
  unfolding trim
  Coherent-trim n [] h = tt
  Coherent-trim n ((j, (v, t)) ∷ d) h = elim (Bool-cases (ltb n (suc (length d)))) [
    | inl over ↦ rw over (Coherent-trim n d h.1)
    | inr fits ↦ rw fits h
  ]

  Coherent-limit_to :
      (o : Option ℕ) (d : Dict String (V × ℕ)) → Coherent d → Coherent (limit_to o d)
  Coherent-limit_to none d h = h
  Coherent-limit_to (some n) d h = elim (Bool-cases (ltb 0 n)) [
    | inl positive ↦ rw positive (Coherent-trim n d h)
    | inr unlimited ↦ rw unlimited h
  ]

  Coherent-lookup :
      (k : String) (d : Dict String (V × ℕ)) (v : V) (t : ℕ)
      → Coherent d
      → lookup k d ≡ some (v, t)
      → Answers k v
  Coherent-lookup k [] v t h e = cc
  Coherent-lookup k ((j, (w, u)) ∷ d) v t h e = elim (Bool-cases (j == k)) [
    | inl here ↦ λ args a. first here (rw here at e) args a
    | inr other ↦ Coherent-lookup k d v t h.1 (rw other at e)
  ]
    where
      first : (j == k) ≡ true → ◌≡◌ {A = Option (V × ℕ)} (some (w, u)) (some (v, t)) → Answers k v
      first here same args a = ground (arith, h.0 args (a ∙ sym ((==_iff j k).0 here)), same)

  -- A read gives the answer or nothing, and keeps what is stored right.
  read_right :
      (c : Cache V) (args : Args) (now : ℕ) (o : Option (V × ℕ))
      → lookup (cache_key name args) c.entries ≡ o
      → Coherent c.entries
      → Coherent (read c (cache_key name args) now o).0.entries
        × (((read c (cache_key name args) now o).1 ≡ none)
            ⊎ ((read c (cache_key name args) now o).1 ≡ some (f args)))
  unfolding read
  read_right c args now none e h = (h, inl refl)
  read_right c args now (some (v, t)) e h = elim (Bool-cases (ltb t now)) [
    | inl old ↦ rw old (Coherent-erase (cache_key name args) c.entries h, inl refl)
    | inr young ↦ rw young (
      Coherent-append (erase (cache_key name args) c.entries) (cache_key name args) v t
          (Coherent-erase (cache_key name args) c.entries h)
          (Coherent-lookup (cache_key name args) c.entries v t h e),
      inr (ap some (Coherent-lookup (cache_key name args) c.entries v t h e args refl)),
    )
  ]

  module _ (respects : (a b : Args) → cache_key name a ≡ cache_key name b → f a ≡ f b) where
    set_right :
        (c : Cache V) (args : Args) (now : ℕ)
        → Coherent c.entries
        → Coherent (set c (cache_key name args) (f args) (some ttl) now).entries
    unfolding set
    set_right c args now h = Coherent-limit_to c.max_size _ (
        Coherent-append (erase (cache_key name args) c.entries) (cache_key name args) (f args) _
          (Coherent-erase (cache_key name args) c.entries h) (λ b e. respects args b (sym e)))

    answer_or_store_right :
        (r : Cache V × Option V) (args : Args) (later : ℕ)
        → Coherent r.0.entries
        → ((r.1 ≡ none) ⊎ (r.1 ≡ some (f args)))
        → Coherent (answer_or_store r args later).0.entries
          × ((answer_or_store r args later).1 ≡ f args)
    answer_or_store_right (c, none) args later h o = (set_right c args later h, refl)
    answer_or_store_right (c, some v) args later h o = (h, ground arith)

    wrapper_right :
        (c : Cache V) (args : Args) (now later : ℕ)
        → Coherent c.entries
        → Coherent (wrapper c args now later).0.entries × ((wrapper c args now later).1 ≡ f args)
    unfolding wrapper get
    wrapper_right c args now later h =
        let found = read_right c args now (lookup (cache_key name args) c.entries) refl h in
        answer_or_store_right (get c (cache_key name args) now) args later found.0 found.1

    call_all_right :
        (c : Cache V) (calls : List (Args × ℕ × ℕ))
        → Coherent c.entries
        → call_all c calls ≡ answers calls
    unfolding call_all
    call_all_right c [] h = refl
    call_all_right c ((args, now, later) ∷ calls) h =
        let step = wrapper_right c args now later h in
        ap₂ ◌∷◌ step.1 (call_all_right (wrapper c args now later).0 calls step.0)

-- A decorated function whose results depend on the cache key alone answers every call, in any order
-- and at any times, as the function itself does.
pub cached_transparent :
    {V : Type 0} (name : String) (f : Args → V) (ttl : ℕ) (max_size : Option ℕ)
    (calls : List (Args × ℕ × ℕ))
    → ((a b : Args) → cache_key name a ≡ cache_key name b → f a ≡ f b)
    → call_all name f ttl (new ttl max_size) calls ≡ answers name f ttl calls
cached_transparent name f ttl max_size calls respects =
    call_all_right name f ttl respects (new ttl max_size) calls tt

join_merge :
    (x y : String) (rest : List String)
    → join (x ∷ y ∷ rest) ≡ join (append x (append ":" y) ∷ rest)
unfolding join
join_merge x y [] = refl
join_merge x y (z ∷ rest) = simp text_append_assoc

key_merge :
    (name x y : String) (more : List String) (keywords : List (String × String))
    → cache_key name (record { positional = append x (append ":" y) ∷ more; keywords = keywords })
      ≡ cache_key name (record { positional = x ∷ y ∷ more; keywords = keywords })
unfolding cache_key
key_merge name x y more keywords =
    ap (λ (rest : String). append name (append ":" rest)) (sym (join_merge x y _))

answered :
    {V : Type 0} (name : String) (f : Args → V) (ttl : ℕ) (r : Cache V × Option V) (args : Args)
    (later : ℕ) (v : V)
    → r.1 ≡ some v
    → (answer_or_store name f ttl r args later).1 ≡ v
answered name f ttl (c, none) args later v h = cc
answered name f ttl (c, some w) args later v h = ground arith

-- The key does not tell two arguments from one that joins them by a colon: after a call with `x` and
-- `y`, a call with the one argument `x:y` within the lifetime gets the first call's result.
pub cached_collision :
    {V : Type 0} (name x y : String) (more : List String) (keywords : List (String × String))
    (f : Args → V) (ttl : ℕ) (max_size : Option ℕ) (t later now : ℕ)
    → now ≤ later + ttl
    → let two : Args = record { positional = x ∷ y ∷ more; keywords = keywords } in
      let one : Args = record {
        positional = append x (append ":" y) ∷ more;
        keywords = keywords;
      } in
      (wrapper name f ttl (wrapper name f ttl (new ttl max_size) two t later).0 one now now).1
      ≡ f two
unfolding wrapper get read
cached_collision {V} name x y more keywords f ttl max_size t later now h =
    let two : Args = record { positional = x ∷ y ∷ more; keywords = keywords } in
    let one : Args = record { positional = append x (append ":" y) ∷ more; keywords = keywords } in
    let missed : Cache V = record (new ttl max_size) { misses = 0 + 1 } in
    answered name f ttl
      (get (set missed (cache_key name two) (f two) (some ttl) later) (cache_key name one) now) one
      now (f two)
      (rw (key_merge name x y more keywords)
        (get-set_self missed (cache_key name two) (f two) (some ttl) later now ∙ ground arith))
