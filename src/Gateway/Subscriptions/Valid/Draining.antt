-- ===== src/Gateway/Subscriptions/Valid/Draining.antt =====
-- The loops that take subscribers away: one strategy's symbols leave the counts one by one, while
-- the rest of the strategies count as before.
use bt_api_base.Prelude.{
  ℕ, ◌+◌, ◌-◌, String, ◌≡◌, true, false, not, ◌&&◌, ◌||◌, List, [], ◌∷◌, arith, ltb, leb, ◌==◌,
  ==_iff, string_key, if◌then◌else◌, Bool-cases, inl, inr, refl,
}
use bt_api_base.Prelude.Dict.{Dict, lookup, has, Unique, insert-Unique, erase-Unique}
use bt_api_base.Prelude.Set
use bt_api_base.Gateway.Subscriptions.{
  count_or_zero, drop_ref, drop_refs, remove_symbol, remove_symbols,
}
use bt_api_base.Gateway.Subscriptions.Counts.{one_if, stored, has-stored, lookup-drop_ref}

-- `held` is still counted beside the others, who hold each symbol `others s` times; `gone` is
-- what the counts `before` had and `refs` no longer have.
pub record IsDraining (others : String → ℕ) (before refs : Dict String ℕ) (held gone : List String)
    : Type 0 where
  pub unique_refs : Unique refs
  pub counted : (s : String) → lookup s refs ≡ stored (others s + one_if (Set.contains held s))
  pub was_there : (s : String) → has s refs ≡ true → has s before ≡ true
  pub reported : (s : String) → Set.contains gone s ≡ (has s before && not (has s refs))

drop_ref-Unique :
    (a : String) (refs : Dict String ℕ) (gone : List String)
    → Unique refs
    → Unique (drop_ref a (refs, gone)).0
unfolding drop_ref
drop_ref-Unique a refs gone u =
    ground
      (arith, erase-Unique a refs u, insert-Unique a (count_or_zero (lookup a refs) - 1) refs u)

-- The state of the loop of `remove`: the strategy's set, the counts, and the symbols to report.
abbrev pub Loop : Type 0
Loop = List String × (Dict String ℕ × List String)

module _ (others : String → ℕ) (before : Dict String ℕ) where
  pub drop_ref-IsDraining :
      (a : String) (refs : Dict String ℕ) (held rest gone : List String)
      → IsDraining others before refs held gone
      → Set.contains held a ≡ true
      → ((s : String) → Set.contains rest s ≡ (if a == s then false else Set.contains held s))
      → IsDraining others before (drop_ref a (refs, gone)).0 rest (drop_ref a (refs, gone)).1
  drop_ref-IsDraining a refs held rest gone v h r = record {
    unique_refs = drop_ref-Unique a refs gone v.unique_refs;
    counted = counted';
    was_there =
        λ s. ground (arith, step s, v.was_there s, count_now s, count_then s, r s, ==_iff a s);
    reported = λ s.
        ground
          (arith, step s, v.was_there s, v.reported s, count_now s, count_then s, r s, ==_iff a s);
  }
    where
      step :
          (s : String)
          → (lookup s (drop_ref a (refs, gone)).0
              ≡ stored (others s + one_if (Set.contains held s) - one_if (a == s)))
            × (Set.contains (drop_ref a (refs, gone)).1 s ≡ (
                Set.contains gone s || (a == s && leb (others s + one_if (Set.contains held s)) 1)))
      step s = lookup-drop_ref a s refs gone _ (v.counted s)

      counted' :
          (s : String)
          → lookup s (drop_ref a (refs, gone)).0 ≡ stored (others s + one_if (Set.contains rest s))
      counted' s = ground (arith, step s, r s, ==_iff a s, Set.contains_transport held a s)

      count_now : (s : String) → has s refs ≡ ltb 0 (others s + one_if (Set.contains held s))
      count_now s = has-stored s refs _ (v.counted s)

      count_then :
          (s : String)
          → has s (drop_ref a (refs, gone)).0 ≡ ltb 0 (others s + one_if (Set.contains rest s))
      count_then s = has-stored s _ _ (counted' s)

  -- The loop of `remove_strategy`: every symbol of a set leaves.
  pub drop_refs-IsDraining :
      (held : List String) (refs : Dict String ℕ) (gone : List String)
      → Set.Distinct held
      → IsDraining others before refs held gone
      → let (refs', gone') = drop_refs held (refs, gone) in IsDraining others before refs' [] gone'
  unfolding drop_refs
  drop_refs-IsDraining [] refs gone d v = v
  drop_refs-IsDraining (a ∷ held) refs gone d v =
      let (refs', gone') = drop_ref a (refs, gone) in
      drop_refs-IsDraining held refs' gone' d.1 (
        drop_ref-IsDraining a refs (a ∷ held) held gone v (Set.contains_self a held)
          (λ s. ground (arith, d.0, ==_iff a s, Set.contains_transport held a s)))

  remove_symbol-IsDraining :
      (a : String) (l : Loop)
      → IsDraining others before l.1.0 l.0 l.1.1
      → let l' = remove_symbol a l in IsDraining others before l'.1.0 l'.0 l'.1.1
  unfolding remove_symbol
  remove_symbol-IsDraining a (held, (refs, gone)) v = elim (Bool-cases (Set.contains held a)) [
    | inl here ↦ rw here (
        drop_ref-IsDraining a refs held (Set.discard a held) gone v here
          (λ s. Set.contains-discard a s held))
    | inr absent ↦ rw absent v
  ]

  -- The loop of `remove`: the listed symbols leave, each at most once.
  pub remove_symbols-IsDraining :
      (symbols : List String) (l : Loop)
      → IsDraining others before l.1.0 l.0 l.1.1
      → let l' = remove_symbols symbols l in IsDraining others before l'.1.0 l'.0 l'.1.1
  unfolding remove_symbols
  remove_symbols-IsDraining [] l v = v
  remove_symbols-IsDraining (a ∷ symbols) l v =
      remove_symbols-IsDraining symbols (remove_symbol a l) (remove_symbol-IsDraining a l v)

remove_symbol-Distinct :
    (a : String) (l : Loop) → Set.Distinct l.0 → Set.Distinct (remove_symbol a l).0
unfolding remove_symbol
remove_symbol-Distinct a (held, acc) d = ground (arith, Set.discard-Distinct a held d)

pub remove_symbols-Distinct :
    (symbols : List String) (l : Loop)
    → Set.Distinct l.0
    → Set.Distinct (remove_symbols symbols l).0
unfolding remove_symbols
remove_symbols-Distinct [] l d = d
remove_symbols-Distinct (a ∷ symbols) l d =
    remove_symbols-Distinct symbols (remove_symbol a l) (remove_symbol-Distinct a l d)

contains-remove_symbol :
    (a : String) (l : Loop) (s : String)
    → Set.contains (remove_symbol a l).0 s ≡ (if a == s then false else Set.contains l.0 s)
unfolding remove_symbol
contains-remove_symbol a (held, acc) s =
    ground (arith, Set.contains-discard a s held, ==_iff a s, Set.contains_transport held a s)

-- What is left of the set: the symbols that were not listed.
pub contains-remove_symbols :
    (symbols : List String) (l : Loop) (s : String)
    → Set.contains (remove_symbols symbols l).0 s
      ≡ (if Set.contains symbols s then false else Set.contains l.0 s)
unfolding remove_symbols
contains-remove_symbols [] l s = refl
contains-remove_symbols (a ∷ symbols) l s =
    ground
      (arith, contains-remove_symbols symbols (remove_symbol a l) s, contains-remove_symbol a l s)
