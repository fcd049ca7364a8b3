-- ===== src/Cache/Tests.antt =====
-- Runs of the cache.
use Prim.Native.String.{◌++◌ as append}
use mathlib.Core.Bool.{false≢true}
use text.Mathlib.TextEquality.{eq_iff}
use bt_api_base.Prelude.{
  ℕ, ◌+◌, ◌<◌, String, ◌≡◌, refl, none, some, List, [], ◌∷◌, arith, string_key,
}
use bt_api_base.Prelude.Dict.{keys}
use bt_api_base.Cache.{Cache, new, read, get, set, trim}
use bt_api_base.Cache.Valid.{IsValid}
use bt_api_base.Cache.Runs.{Call, reads, writes, call, run, reads_in, cache_run-IsValid}
use bt_api_base.Cache.Eviction.{uses_of, evicts_least_recent}
use bt_api_base.Cache.Cached.{
  Args, cache_key, wrapper, call_all, answers, cached_transparent, cached_collision,
}

-- Two places; `a` is read after `b` was written, so a third key drops `b`.
abbrev calls : List (Call ℕ × ℕ)
calls =
    (writes "a" 1 none, 10) ∷ (writes "b" 2 (some 5), 11) ∷ (reads "a", 12) ∷ (reads "z", 12) ∷ []

abbrev small : Cache ℕ
small = run (new 300 (some 2)) calls

dropped : keys (set small "c" 3 none 13).entries ≡ "a" ∷ "c" ∷ []
unfolding run call get read set trim
dropped = refl

cache_run-IsValid_example :
    IsValid (run (new 300 (some 2)) calls)
    × ((run (new 300 (some 2)) calls).hits + (run (new 300 (some 2)) calls).misses ≡ reads_in calls)
cache_run-IsValid_example = cache_run-IsValid 300 (some 2) calls

evicts_least_recent_example :
    uses_of (new 300 (some 2)) calls 0 (λ key. 0) "b"
    < uses_of (new 300 (some 2)) calls 0 (λ key. 0) "a"
unfolding run call get read set trim
evicts_least_recent_example =
    evicts_least_recent 300 (some 2) calls "c" "a" "b" 3 none 13
      (λ e. false≢true ((eq_iff "c" "a").1 e)) (λ e. false≢true ((eq_iff "c" "b").1 e)) (λ e. cc)
      refl (λ e. cc)

abbrev roomy : Cache ℕ
roomy = new 300 none

abbrev question : Args
question = record { positional = "BTC" ∷ "spot" ∷ []; keywords = ("depth", "5") ∷ [] }

abbrev questions : List (Args × ℕ × ℕ)
questions = (question, 1, 2) ∷ (question, 3, 4) ∷ []

cached_transparent_example :
    call_all "f" (cache_key "f") 300 (new 300 none) questions
    ≡ answers "f" (cache_key "f") 300 questions
cached_transparent_example = cached_transparent "f" (cache_key "f") 300 none questions (λ a b e. e)

abbrev first_argument : Args → String
first_argument args = elim args.positional [ [] ↦ "" | x ∷ _ ↦ x ]

-- The second call should answer "BTC:spot", and answers "BTC".
cached_collision_example :
    (wrapper "f" first_argument 300
      (wrapper "f" first_argument 300
        (new 300 none)
        (record { positional = "BTC" ∷ "spot" ∷ []; keywords = [] })
        1
        2).0
      (record { positional = append "BTC" (append ":" "spot") ∷ []; keywords = [] })
      9
      9).1
    ≡ "BTC"
cached_collision_example =
    cached_collision "f" "BTC" "spot" [] [] first_argument 300 none 1 2 9 (omega arith)
