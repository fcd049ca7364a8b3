-- ===== src/Gateway/OrderRefs.antt =====
-- `OrderRefAllocator` of gateway/order_ref_allocator.py. The references are natural numbers. Of the
-- state file the model keeps what loading it can tell: that there is none, that it cannot be read as
-- an object with a number, or the number. Whether a write succeeds is given to each call.

mod Tests
use bt_api_base.Prelude.{
  ℕ, suc, ◌<◌, ◌≤◌, Bool, true, false, List, [], ◌∷◌, ltb, if◌then◌else◌, arith, Option, none, some,
  ◌≡◌, refl,
}

pub data StateFile : Type 0 where
  missing unreadable : StateFile
  last_order_ref : ℕ → StateFile

-- The allocator's value, and the file, which outlives it.
pub record OrderRefAllocator : Type 0 where
  pub value : ℕ
  pub file : StateFile

-- `_load`, on the initial value.
abbrev pub load : ℕ → StateFile → ℕ
load initial missing = initial
load initial unreadable = initial
load initial (last_order_ref saved) = if ltb initial saved then saved else initial

-- A new allocator over a file.
unfoldable pub open_file : ℕ → StateFile → OrderRefAllocator
open_file initial file = record { value = load initial file; file = file }

-- `_persist_locked`: a failed write is logged and leaves the file.
abbrev pub persist : Bool → OrderRefAllocator → OrderRefAllocator
persist written s = if written then record s { file = last_order_ref s.value } else s

unfoldable pub next : Bool → OrderRefAllocator → OrderRefAllocator × ℕ
next written s = (persist written (record s { value = suc s.value }), suc s.value)

unfoldable pub align_with_max : ℕ → Bool → OrderRefAllocator → OrderRefAllocator
align_with_max max_order_ref written s =
    persist written (if ltb s.value max_order_ref then record s { value = max_order_ref } else s)

unfoldable pub reset : ℕ → Bool → OrderRefAllocator → OrderRefAllocator
reset value written s = persist written (record s { value = value })

-- The calls of the processes that use one file, one process after the other.
pub data Call : Type 0 where
  nexts : Call
  aligns restarts : ℕ → Call

-- The references that the calls give, where every write succeeds.
unfoldable pub references : OrderRefAllocator → List Call → List ℕ
references s [] = []
references s (nexts ∷ calls) = let (s', ref) = next true s in ref ∷ references s' calls
references s (aligns n ∷ calls) = references (align_with_max n true s) calls
references s (restarts initial ∷ calls) = references (open_file initial s.file) calls

-- Each number is above the bound and above those before it.
abbrev pub IncreasesFrom : ℕ → List ℕ → Type 0
IncreasesFrom bound [] = Unit
IncreasesFrom bound (n ∷ ns) = (bound < n) × IncreasesFrom n ns

-- The file holds at least the bound.
abbrev Saved : ℕ → StateFile → Type 0
Saved bound missing = bound ≡ 0
Saved bound unreadable = bound ≡ 0
Saved bound (last_order_ref n) = bound ≤ n

load_least : (bound initial : ℕ) (file : StateFile) → Saved bound file → bound ≤ load initial file
load_least bound initial missing h = omega (arith, h)
load_least bound initial unreadable h = omega (arith, h)
load_least bound initial (last_order_ref n) h = ground arith

Saved-zero : (file : StateFile) → Saved 0 file
Saved-zero missing = refl
Saved-zero unreadable = refl
Saved-zero (last_order_ref n) = omega arith

references_increase :
    (bound : ℕ) (s : OrderRefAllocator) (calls : List Call)
    → bound ≤ s.value
    → Saved bound s.file
    → IncreasesFrom bound (references s calls)
unfolding references next align_with_max open_file
references_increase bound s [] h k = tt
references_increase bound s (nexts ∷ calls) h k = (
  omega (arith, h),
  references_increase (suc s.value) (next true s).0 calls (omega arith) (omega arith),
)
references_increase bound s (aligns n ∷ calls) h k =
    references_increase bound (align_with_max n true s) calls (ground arith) (ground arith)
references_increase bound s (restarts initial ∷ calls) h k =
    references_increase bound (open_file initial s.file) calls (load_least bound initial s.file k) k

-- While nothing resets the allocator and every write of the state file succeeds, the references are
-- given in increasing order, each once, over any restarts with any initial values and whatever the
-- file held at first.
pub references-IncreasesFrom :
    (initial : ℕ) (file : StateFile) (calls : List Call)
    → IncreasesFrom 0 (references (open_file initial file) calls)
unfolding open_file
references-IncreasesFrom initial file calls =
    references_increase 0 (open_file initial file) calls (omega arith) (Saved-zero file)

-- Where the write of a reference fails, a restart gives the same reference again: the file holds the
-- value before it, and the new process starts no higher.
pub lost_write_repeats :
    (value initial : ℕ) (written : Bool)
    → initial ≤ value
    → let s : OrderRefAllocator = record { value = value; file = last_order_ref value } in
      (next written (open_file initial (next false s).0.file)).1 ≡ (next false s).1
unfolding next open_file
lost_write_repeats value initial written h = ground arith
