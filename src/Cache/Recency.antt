-- ===== src/Cache/Recency.antt =====
-- What a full cache drops: the key whose last use lies the longest way back. A use of a key is a
-- write of it, or a read that finds it.
use bt_api_base.Prelude.{
  ℕ, suc, ◌≤◌, ◌<◌, String, Bool, true, false, Option, none, some, [], ◌∷◌, ◌++◌, arith,
  if◌then◌else◌, ◌==◌, ==_iff, ==_self, string_key,
}
use bt_api_base.Prelude.Dict.{Dict, erase}
use bt_api_base.Cache.{Cache, trim, limit_to, get, sweep}
use bt_api_base.Cache.Runs.{Call, reads, writes}

-- The number of the call that used a key last.
abbrev pub Uses : Type 0
Uses = String → ℕ

abbrev pub use_now : Uses → String → ℕ → Uses
use_now last k tick j = if k == j then tick else last j

abbrev found : Option ℕ → Bool
found none = false
found (some _) = true

module _ {V : Type 0} where
  abbrev pub used_by_read : Uses → String → ℕ → Option V → Uses
  used_by_read last k tick none = last
  used_by_read last k tick (some v) = use_now last k tick

  unfoldable pub uses : Cache V → Call V → ℕ → ℕ → Uses → Uses
  uses c (reads k) now tick last = used_by_read last k tick (get c k now).1
  uses c (writes k v ttl) now tick last = use_now last k tick
  uses c _ now tick last = last

  -- Every key of the items was used after `n`, and before `tick`.
  abbrev pub Within : Uses → ℕ → ℕ → Dict String (V × ℕ) → Type 0
  Within last n tick [] = Unit
  Within last n tick ((k, e) ∷ d) = (n < last k) × (last k < tick) × Within last n tick d

  -- The items stand in the order of their last use.
  abbrev pub InOrder : Uses → ℕ → Dict String (V × ℕ) → Type 0
  InOrder last tick [] = Unit
  InOrder last tick ((k, e) ∷ d) =
      (last k < tick) × Within last (last k) tick d × InOrder last tick d

  Within-mono :
      (last : Uses) (n t u : ℕ) (d : Dict String (V × ℕ))
      → t ≤ u
      → Within last n t d
      → Within last n u d
  Within-mono last n t u [] le h = tt
  Within-mono last n t u ((k, e) ∷ d) le h =
      (h.0, omega (arith, h.1), Within-mono last n t u d le h.2)

  pub InOrder-mono :
      (last : Uses) (t u : ℕ) (d : Dict String (V × ℕ))
      → t ≤ u
      → InOrder last t d
      → InOrder last u d
  InOrder-mono last t u [] le h = tt
  InOrder-mono last t u ((k, e) ∷ d) le h =
      (omega (arith, h.0), Within-mono last (last k) t u d le h.1, InOrder-mono last t u d le h.2)

  Within-erase :
      (last : Uses) (n t : ℕ) (k : String) (d : Dict String (V × ℕ))
      → Within last n t d
      → Within last n t (erase k d)
  Within-erase last n t k [] h = tt
  Within-erase last n t k ((j, e) ∷ d) h = ground (arith, Within-erase last n t k d h.2)

  pub InOrder-erase :
      (last : Uses) (t : ℕ) (k : String) (d : Dict String (V × ℕ))
      → InOrder last t d
      → InOrder last t (erase k d)
  InOrder-erase last t k [] h = tt
  InOrder-erase last t k ((j, e) ∷ d) h =
      ground (arith, InOrder-erase last t k d h.2, Within-erase last (last j) t k d h.1)

  -- Moving a key to the end, with a use of it now, keeps the order.
  Within-move :
      (last : Uses) (n t : ℕ) (k : String) (e : V × ℕ) (d : Dict String (V × ℕ))
      → n < t
      → Within last n t d
      → Within (use_now last k t) n (suc t) (erase k d ++ (k, e) ∷ [])
  Within-move last n t k e [] lt h = ground (arith, ==_self k)
  Within-move last n t k e ((j, w) ∷ d) lt h =
      ground (arith, Within-move last n t k e d lt h.2, ==_iff j k, ==_iff k j)

  pub InOrder-move :
      (last : Uses) (t : ℕ) (k : String) (e : V × ℕ) (d : Dict String (V × ℕ))
      → InOrder last t d
      → InOrder (use_now last k t) (suc t) (erase k d ++ (k, e) ∷ [])
  InOrder-move last t k e [] h = ground (arith, ==_self k)
  InOrder-move last t k e ((j, w) ∷ d) h = ground (
    arith,
    InOrder-move last t k e d h.2,
    Within-move last (last j) t k e d h.0 h.1,
    ==_iff j k,
    ==_iff k j,
  )

  pub InOrder-trim :
      (last : Uses) (t n : ℕ) (d : Dict String (V × ℕ))
      → InOrder last t d
      → InOrder last t (trim n d)
  unfolding trim
  InOrder-trim last t n [] h = tt
  InOrder-trim last t n ((j, w) ∷ d) h = ground (arith, InOrder-trim last t n d h.2)

  pub InOrder-limit_to :
      (last : Uses) (t : ℕ) (o : Option ℕ) (d : Dict String (V × ℕ))
      → InOrder last t d
      → InOrder last t (limit_to o d)
  InOrder-limit_to last t none d h = h
  InOrder-limit_to last t (some n) d h = ground (arith, InOrder-trim last t n d h)

  Within-sweep :
      (last : Uses) (n t now : ℕ) (d : Dict String (V × ℕ))
      → Within last n t d
      → Within last n t (sweep now d).0
  unfolding sweep
  Within-sweep last n t now [] h = tt
  Within-sweep last n t now ((j, (v, x)) ∷ d) h = ground (arith, Within-sweep last n t now d h.2)

  pub InOrder-sweep :
      (last : Uses) (t now : ℕ) (d : Dict String (V × ℕ))
      → InOrder last t d
      → InOrder last t (sweep now d).0
  unfolding sweep
  InOrder-sweep last t now [] h = tt
  InOrder-sweep last t now ((j, (v, x)) ∷ d) h =
      ground (arith, InOrder-sweep last t now d h.2, Within-sweep last (last j) t now d h.1)
