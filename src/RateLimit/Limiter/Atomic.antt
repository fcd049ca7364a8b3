-- ===== src/RateLimit/Limiter/Atomic.antt =====
-- `RateLimiter.acquire` takes the weights of all the matched rules, or none.
use bt_api_base.Prelude.{
  ℕ, suc, ◌+◌, ◌*◌, ◌<◌, ◌≤◌, length, String, ◌≡◌, refl, sym, inl, inr, Bool, true, false, Option,
  none, some, List, [], ◌∷◌, arith, string_key, ◌==◌, ==_iff, ==_self, if◌then◌else◌, Option-cases,
  Bool-cases,
}
use bt_api_base.Prelude.Dict.{lookup, insert, lookup-insert}
use bt_api_base.RateLimit.Limiter.{
  Limiter, Limiters, Taken, acquire_one, release_one, release_named, give_back, acquire_rules,
}
use bt_api_base.RateLimit.Limiter.Owes.{Owes, acquire_one-Owes, refused-Owes, release_one-Owes}

-- The weights that a list of takings has for one limiter.
abbrev pub weights_of : String → Taken → List ℕ
weights_of name [] = []
weights_of name ((k, w) ∷ taken) =
    let rest = weights_of name taken in if k == name then w ∷ rest else rest

weights_of_self :
    (name : String) (w : ℕ) (taken : Taken)
    → weights_of name ((name, w) ∷ taken) ≡ w ∷ weights_of name taken
weights_of_self name w taken = ground (arith, ==_self name)

weights_of_ne :
    (name k : String) (w : ℕ) (taken : Taken)
    → (name == k) ≡ false
    → weights_of k ((name, w) ∷ taken) ≡ weights_of k taken
weights_of_ne name k w taken h = ground arith

module _ (R : ℕ → Type 0) where
  abbrev pub OwesIf : Option Limiter → List ℕ → Option Limiter → Type 0
  OwesIf none ws none = ws ≡ []
  OwesIf (some base) ws (some l) = Owes R base ws l
  OwesIf _ ws _ = ⊥

  -- Every limiter of `d` is the one of `base` as times that were read have left it, with these weights
  -- on top.
  abbrev pub Charged : Limiters → Taken → Limiters → Type 0
  Charged base taken d =
      (name : String) → OwesIf (lookup name base) (weights_of name taken) (lookup name d)

  no_limiter : (o : Option Limiter) (w : ℕ) (ws : List ℕ) → ¬ (OwesIf o (w ∷ ws) none)
  no_limiter none w ws h = cc
  no_limiter (some b) w ws h = h

  released :
      (o : Option Limiter) (now w : ℕ) (ws : List ℕ) (l : Limiter)
      → R now
      → OwesIf o (w ∷ ws) (some l)
      → OwesIf o ws (some (release_one l now w))
  released none now w ws l r h = h
  released (some b) now w ws l r h = release_one-Owes R now w b ws l r h

  granted :
      (o : Option Limiter) (now w : ℕ) (ws : List ℕ) (l : Limiter)
      → R now
      → OwesIf o ws (some l)
      → (acquire_one l now w).1 ≡ true
      → OwesIf o (w ∷ ws) (some (acquire_one l now w).0)
  granted none now w ws l r h g = h
  granted (some b) now w ws l r h g = acquire_one-Owes R now w b ws l r h g

  refused :
      (o : Option Limiter) (now w : ℕ) (ws : List ℕ) (l : Limiter)
      → R now
      → OwesIf o ws (some l)
      → (acquire_one l now w).1 ≡ false
      → OwesIf o ws (some (acquire_one l now w).0)
  refused none now w ws l r h g = h
  refused (some b) now w ws l r h g = refused-Owes R now w b ws l r h g

pub release_named_missing :
    (name : String) (w now : ℕ) (d : Limiters)
    → lookup name d ≡ none
    → release_named name w now d ≡ d
unfolding release_named
release_named_missing name w now d e = rw (e, release_named)

pub release_named_found :
    (name : String) (w now : ℕ) (d : Limiters) (l : Limiter)
    → lookup name d ≡ some l
    → release_named name w now d ≡ insert name (release_one l now w) d
unfolding release_named
release_named_found name w now d l e = rw (e, release_named)

module _ (R : ℕ → Type 0) (base : Limiters) where
  -- One limiter changes, and with it what is owed of it.
  insert-Charged :
      (name : String) (l : Limiter) (taken taken' : Taken) (d : Limiters)
      → Charged R base taken d
      → OwesIf R (lookup name base) (weights_of name taken') (some l)
      → ((k : String) → (name == k) ≡ false → weights_of k taken' ≡ weights_of k taken)
      → Charged R base taken' (insert name l d)
  insert-Charged name l taken taken' d h new others k = elim (Bool-cases (name == k)) [
    | inl same ↦ rw (lookup-insert name k l d, same) (rw ((==_iff name k).0 same) at new)
    | inr other ↦ rw (lookup-insert name k l d, other, others k other) (h k)
  ]

  release_named-Charged :
      (name : String) (w now : ℕ) (taken : Taken) (d : Limiters)
      → R now
      → Charged R base ((name, w) ∷ taken) d
      → Charged R base taken (release_named name w now d)
  release_named-Charged name w now taken d r h = elim (Option-cases (lookup name d)) [
    | inl missing ↦ absurd (
        no_limiter R (lookup name base) w (weights_of name taken)
          (rw (weights_of_self name w taken, missing) at (h name)))
    | inr (l, e) ↦ rw (release_named_found name w now d l e) (
        insert-Charged name (release_one l now w) ((name, w) ∷ taken) taken d h
          (released R (lookup name base) now w (weights_of name taken) l r
            (rw (weights_of_self name w taken, e) at (h name)))
          (λ k ne. sym (weights_of_ne name k w taken ne)))
  ]

  module _ (clock : ℕ → ℕ) (bound : ℕ) (reads : (k : ℕ) → k < bound → R (clock k)) where
    give_back-Charged :
        (taken : Taken) (n : ℕ) (d : Limiters)
        → n + length taken ≤ bound
        → Charged R base taken d
        → Charged R base [] (give_back clock taken n d)
    unfolding give_back
    give_back-Charged [] n d room h = h
    give_back-Charged ((name, w) ∷ taken) n d room h =
        give_back-Charged taken (suc n) (release_named name w (clock n) d) (omega (arith, room))
          (release_named-Charged name w (clock n) taken d (reads n (omega (arith, room))) h)

module _ (R : ℕ → Type 0) where
  none_of_OwesIf : (o : Option Limiter) (ws : List ℕ) → OwesIf R o ws none → o ≡ none
  none_of_OwesIf none ws h = refl
  none_of_OwesIf (some b) ws h = absurd h

  some_of_OwesIf :
      (o : Option Limiter) (ws : List ℕ) (l : Limiter)
      → OwesIf R o ws (some l)
      → (b : Limiter) × (o ≡ some b)
  some_of_OwesIf none ws l h = absurd h
  some_of_OwesIf (some b) ws l h = (b, refl)

-- The takings of the rules that have a limiter, on top of earlier ones.
unfoldable pub takings : Limiters → Taken → Taken → Taken
takings base [] taken = taken
takings base ((name, w) ∷ todo) taken = elim (lookup name base) [
  | none ↦ takings base todo taken
  | some _ ↦ takings base todo ((name, w) ∷ taken)
]

takings_skip :
    (base : Limiters) (name : String) (w : ℕ) (todo taken : Taken)
    → lookup name base ≡ none
    → takings base ((name, w) ∷ todo) taken ≡ takings base todo taken
unfolding takings
takings_skip base name w todo taken e = rw (e, takings)

takings_take :
    (base : Limiters) (name : String) (w : ℕ) (todo taken : Taken) (l : Limiter)
    → lookup name base ≡ some l
    → takings base ((name, w) ∷ todo) taken ≡ takings base todo ((name, w) ∷ taken)
unfolding takings
takings_take base name w todo taken l e = rw (e, takings)

module _ (clock : ℕ → ℕ) (base : Limiters) where
  pub acquire_rules_skip :
      (name : String) (w : ℕ) (todo taken : Taken) (n : ℕ) (d : Limiters)
      → lookup name d ≡ none
      → acquire_rules clock ((name, w) ∷ todo) taken n d ≡ acquire_rules clock todo taken n d
  unfolding acquire_rules
  acquire_rules_skip name w todo taken n d e = rw (e, acquire_rules)

  pub acquire_rules_grant :
      (name : String) (w : ℕ) (todo taken : Taken) (n : ℕ) (d : Limiters) (l : Limiter)
      → lookup name d ≡ some l
      → (acquire_one l (clock n) w).1 ≡ true
      → acquire_rules clock ((name, w) ∷ todo) taken n d
        ≡ acquire_rules clock todo
            ((name, w) ∷ taken)
            (suc n)
            (insert name (acquire_one l (clock n) w).0 d)
  unfolding acquire_rules
  acquire_rules_grant name w todo taken n d l e g = rw (e, acquire_rules) (rw g)

  pub acquire_rules_refuse :
      (name : String) (w : ℕ) (todo taken : Taken) (n : ℕ) (d : Limiters) (l : Limiter)
      → lookup name d ≡ some l
      → (acquire_one l (clock n) w).1 ≡ false
      → acquire_rules clock ((name, w) ∷ todo) taken n d
        ≡ (give_back clock taken (suc n) (insert name (acquire_one l (clock n) w).0 d), false)
  unfolding acquire_rules
  acquire_rules_refuse name w todo taken n d l e g = rw (e, acquire_rules) (rw g)

module _ (R : ℕ → Type 0) (clock : ℕ → ℕ) (base : Limiters) (bound : ℕ)
    (reads : (k : ℕ) → k < bound → R (clock k)) where
  -- What a run of the loop leaves: all of its takings, or none.
  abbrev After : Taken → Taken → Limiters × Bool → Type 0
  After todo taken r = Charged R base (if r.1 then takings base todo taken else []) r.0

  pub acquire_rules-Charged :
      (todo taken : Taken) (n : ℕ) (d : Limiters)
      → n + length taken + 2 * length todo ≤ bound
      → Charged R base taken d
      → After todo taken (acquire_rules clock todo taken n d)
  acquire_rules-Charged [] taken n d room h = unfold acquire_rules takings in h
  acquire_rules-Charged ((name, w) ∷ todo) taken n d room h = elim (Option-cases (lookup name d)) [
    | inl missing ↦
        rw
          (
            acquire_rules_skip clock base name w todo taken n d missing,
            takings_skip base name w todo taken (
                none_of_OwesIf R (lookup name base) (weights_of name taken)
                  (rw missing at (h name))),
          )
          (acquire_rules-Charged todo taken n d (omega (arith, room)) h)
    | inr (l, e) ↦
        with_limiter l e (rw e at (h name))
          (λ d'. acquire_rules-Charged todo ((name, w) ∷ taken) (suc n) d' (omega (arith, room)))
  ]
    where
      with_limiter :
          (l : Limiter)
          → lookup name d ≡ some l
          → OwesIf R (lookup name base) (weights_of name taken) (some l)
          → ((d' : Limiters)
              → Charged R base ((name, w) ∷ taken) d'
              → After todo
                  ((name, w) ∷ taken)
                  (acquire_rules clock todo ((name, w) ∷ taken) (suc n) d'))
          → After ((name, w) ∷ todo) taken (acquire_rules clock ((name, w) ∷ todo) taken n d)
      with_limiter l e o rest = elim (Bool-cases (acquire_one l (clock n) w).1) [
        | inl g ↦
            let (b, found) = some_of_OwesIf R (lookup name base) (weights_of name taken) l o in
            rw
              (
                acquire_rules_grant clock base name w todo taken n d l e g,
                takings_take base name w todo taken b found,
              )
              (rest _ (
                insert-Charged R base name (acquire_one l (clock n) w).0 taken ((name, w) ∷ taken) d
                  h
                  (rw (weights_of_self name w taken) (
                    granted R (lookup name base) (clock n) w (weights_of name taken) l
                      (reads n (omega (arith, room))) o g))
                  (λ k ne. weights_of_ne name k w taken ne)))
        | inr r ↦ rw (acquire_rules_refuse clock base name w todo taken n d l e r) (
            give_back-Charged R base clock bound reads taken (suc n) _ (omega (arith, room)) (
              insert-Charged R base name (acquire_one l (clock n) w).0 taken taken d h
                (refused R (lookup name base) (clock n) w (weights_of name taken) l
                  (reads n (omega (arith, room))) o r)
                (λ k ne. refl)))
      ]
