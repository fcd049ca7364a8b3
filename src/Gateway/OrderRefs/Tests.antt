-- ===== src/Gateway/OrderRefs/Tests.antt =====
-- Runs of the reference allocator.
use bt_api_base.Prelude.{◌≡◌, refl, List, [], ◌∷◌}
use bt_api_base.Gateway.OrderRefs.{
  Call, nexts, aligns, restarts, missing, open_file, next, align_with_max, references,
  IncreasesFrom, references-IncreasesFrom,
}

abbrev calls : List Call
calls = nexts ∷ nexts ∷ aligns 10 ∷ restarts 3 ∷ nexts ∷ restarts 40 ∷ nexts ∷ []

refs : references (open_file 0 missing) calls ≡ 1 ∷ 2 ∷ 11 ∷ 41 ∷ []
unfolding references open_file next align_with_max
refs = refl

references-IncreasesFrom_example : IncreasesFrom 0 (references (open_file 0 missing) calls)
references-IncreasesFrom_example = references-IncreasesFrom 0 missing calls
