-- ===== src/Gateway/Subscriptions/Counts.antt =====
-- What the reference counts count: the strategies whose set holds a symbol.
use bt_api_base.Prelude.{
  ℕ, zero, suc, ◌+◌, ◌-◌, String, ◌≡◌, refl, Bool, true, false, ◌||◌, ◌&&◌, Option, none, some,
  List, [], ◌∷◌, arith, ltb, leb, ◌==◌, ==_iff, string_key,
}
use bt_api_base.Prelude.Dict.{
  Dict, lookup, has, insert, erase, Unique, erase_absent, lookup-insert, lookup-erase,
}
use bt_api_base.Prelude.Set
use bt_api_base.Gateway.Subscriptions.{set_or_empty, count_or_zero, drop_ref}

abbrev pub one_if : Bool → ℕ
one_if true = 1
one_if false = 0

-- How many sets of the dictionary hold the symbol.
abbrev pub holders : String → Dict String (List String) → ℕ
holders s [] = 0
holders s ((k, held) ∷ d) = one_if (Set.contains held s) + holders s d

-- A count as the dictionary stores it: no entry stands for zero.
abbrev pub stored : ℕ → Option ℕ
stored zero = none
stored (suc n) = some (suc n)

pub holders-insert :
    (s k : String) (held : List String) (d : Dict String (List String))
    → holders s (insert k held d) + one_if (Set.contains (set_or_empty (lookup k d)) s)
      ≡ holders s d + one_if (Set.contains held s)
holders-insert s k held [] = ground arith
holders-insert s k held ((j, h) ∷ d) = ground (arith, holders-insert s k held d)

pub holders-erase :
    (s k : String) (d : Dict String (List String))
    → Unique d
    → holders s (erase k d) + one_if (Set.contains (set_or_empty (lookup k d)) s) ≡ holders s d
holders-erase s k [] u = ground arith
holders-erase s k ((j, h) ∷ d) u =
    ground (arith, holders-erase s k d u.1, erase_absent k d, ==_iff j k)

pub stored-count : (n : ℕ) → count_or_zero (stored n) ≡ n
stored-count zero = refl
stored-count (suc n) = refl

pub has-stored :
    (k : String) (d : Dict String ℕ) (n : ℕ) → lookup k d ≡ stored n → has k d ≡ ltb 0 n
has-stored k d zero h = ground arith
has-stored k d (suc n) h = ground arith

-- `drop_ref` takes one off the count of its symbol, and reports the symbol when none is left.
pub lookup-drop_ref :
    (a s : String) (refs : Dict String ℕ) (gone : List String) (n : ℕ)
    → lookup s refs ≡ stored n
    → (lookup s (drop_ref a (refs, gone)).0 ≡ stored (n - one_if (a == s)))
      × (Set.contains (drop_ref a (refs, gone)).1 s ≡ (Set.contains gone s || (a == s && leb n 1)))
unfolding drop_ref
lookup-drop_ref a s refs gone n h = ground (
  arith,
  lookup-erase a s refs,
  lookup-insert a s (count_or_zero (lookup a refs) - 1) refs,
  Set.contains-add a s gone,
  ==_iff a s,
  stored-count n,
)
